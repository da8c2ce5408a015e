-- ===== src/Ingest/Render/Names.antt =====
-- The name of a function, said of the declarations of its scope rather than of groups.
use apg.Prelude.{
  ◌≡◌, ◌↔◌, refl, sym, ap, subst, ◌∙◌, Bool, true, false, ◌&&◌, List, [], ◌∷◌, any, all, filter,
  ◌==◌, ==_iff, ==_refl, nat_eq, list_eq, pair_eq, Member, Member-map, Member-map_from,
  Member-filter, if◌then◌else◌, Bool-cases, inl, inr,
}
use apg.Text.{Text, codes}
use apg.Ingest.Stream.{FuncDecl}
use apg.Ingest.Render.{
  grouped, scope_name, params_of, plain_name, init_name, overload_name, located_name, is_go, is_py,
  with_names, render_bucket, render_all, render_many, render_few, is_init_group, render_group,
  render_function_fqns,
}
use apg.Ingest.Render.Groups.{rendered_from, rendered_of}

-- The declarations of the same scope and name, and those of them with the same parameters.
abbrev pub siblings : List FuncDecl → FuncDecl → List FuncDecl
siblings decls d = filter (λ e. scope_name e == scope_name d) decls

abbrev pub twins : List FuncDecl → FuncDecl → List FuncDecl
twins decls d = filter (λ e. params_of e == params_of d) decls

abbrev pub is_single : List FuncDecl → Bool
is_single [] = false
is_single (d ∷ []) = true
is_single (d ∷ e ∷ ds) = false

-- The rule: a Go `init` is told apart by its file, a name that stands once is plain, an overload
-- shows its parameters, and Python's overloads of equal parameters their file and line too.
abbrev pub bucket_form : List FuncDecl → FuncDecl → Text
bucket_form ds d = if is_single ds then overload_name d else located_name d

abbrev pub overload_rule : List FuncDecl → FuncDecl → Text
overload_rule same d = if all is_py same then bucket_form (twins same d) d else overload_name d

abbrev pub name_rule : List FuncDecl → FuncDecl → Text
name_rule same d =
    if d.name == codes "init" && any is_go same
    then init_name d
    else if is_single same
    then plain_name d
    else overload_rule same d

render_bucket-form : (ds : List FuncDecl) → render_bucket ds ≡ with_names (bucket_form ds) ds
unfolding render_bucket
render_bucket-form [] = refl
render_bucket-form (d ∷ []) = refl
render_bucket-form (d ∷ e ∷ ds) = refl

-- A name that a form gives to one of the declarations.
abbrev pub Given : (FuncDecl → Text) → List FuncDecl → Text × Text → Type 0
Given form ds x = (d : FuncDecl) × Member d ds × ((d.id, form d) ≡ x)

with_names_iff :
    (form : FuncDecl → Text) (ds : List FuncDecl) (x : Text × Text)
    → Member x (with_names form ds) ↔ Given form ds x
with_names_iff form ds x = (
  Member-map_from (λ d. (d.id, form d)) ds x,
  λ (d, m, e).
      subst (λ y. Member y (with_names form ds)) e (Member-map (λ d. (d.id, form d)) ds d m),
)

bucket_of_same :
    (ds : List FuncDecl) (d e : FuncDecl)
    → Member e (twins ds d)
    → bucket_form (twins ds d) e ≡ bucket_form (twins ds e) e
bucket_of_same ds d e m =
    let same =
      (==_iff (params_of e) (params_of d)).0
        ((Member-filter (λ f. params_of f == params_of d) ds e).0 m).1 in
    ap (λ p. bucket_form (filter (λ f. params_of f == p) ds) e) (sym same)

buckets_iff :
    (ds : List FuncDecl) (x : Text × Text)
    → Member x (render_all render_bucket (grouped params_of ds []))
      ↔ Given (λ d. bucket_form (twins ds d) d) ds x
buckets_iff ds x = (there, back)
  where
    there :
        Member x (render_all render_bucket (grouped params_of ds []))
        → Given (λ d. bucket_form (twins ds d) d) ds x
    there mem =
        let (d, m, found) = rendered_from render_bucket params_of ds x mem in
        let (e, k, eq) =
          (with_names_iff (bucket_form (twins ds d)) (twins ds d) x).0
            (subst (Member x) (render_bucket-form (twins ds d)) found) in
        (
          e,
          ((Member-filter (λ f. params_of f == params_of d) ds e).0 k).0,
          ap (λ n. (e.id, n)) (sym (bucket_of_same ds d e k)) ∙ eq,
        )

    back :
        Given (λ d. bucket_form (twins ds d) d) ds x
        → Member x (render_all render_bucket (grouped params_of ds []))
    back (d, m, eq) = rendered_of render_bucket params_of ds x d m (
        subst (Member x) (sym (render_bucket-form (twins ds d))) (
          (with_names_iff (bucket_form (twins ds d)) (twins ds d) x).1 (
            d,
            (Member-filter (λ f. params_of f == params_of d) ds d).1 (m, ==_refl (params_of d)),
            eq,
          )))

many_iff :
    (ds : List FuncDecl) (x : Text × Text)
    → Member x (render_many ds) ↔ Given (overload_rule ds) ds x
unfolding render_many
many_iff ds x = elim (Bool-cases (all is_py ds)) [
  | inl e ↦ rw e (buckets_iff ds x)
  | inr e ↦ rw e (with_names_iff overload_name ds x)
]

abbrev group_rule : List FuncDecl → FuncDecl → Text
group_rule ds d =
    if is_init_group ds
    then init_name d
    else if is_single ds
    then plain_name d
    else overload_rule ds d

few_iff :
    (ds : List FuncDecl) (x : Text × Text)
    → Member x (render_few ds)
      ↔ Given (λ d. if is_single ds then plain_name d else overload_rule ds d) ds x
unfolding render_few
few_iff [] x = (λ m. absurd m, λ (d, m, e). m)
few_iff (d ∷ []) x = with_names_iff plain_name (d ∷ []) x
few_iff (d ∷ e ∷ ds) x = many_iff (d ∷ e ∷ ds) x

group_iff :
    (ds : List FuncDecl) (x : Text × Text) → Member x (render_group ds) ↔ Given (group_rule ds) ds x
unfolding render_group
group_iff ds x = elim (Bool-cases (is_init_group ds)) [
  | inl e ↦ rw e (with_names_iff init_name ds x)
  | inr e ↦ rw e (few_iff ds x)
]

init_of_same :
    (ds : List FuncDecl) (d : FuncDecl)
    → Member d ds
    → ((e : FuncDecl) → Member e ds → e.name ≡ d.name)
    → is_init_group ds ≡ (d.name == codes "init" && any is_go ds)
init_of_same [] d m same = absurd m
init_of_same (e ∷ ds) d m same =
    ap (λ n. n == codes "init" && any is_go (e ∷ ds)) (same e (inl refl))

same_scope :
    (decls : List FuncDecl) (d e : FuncDecl)
    → Member e (siblings decls d)
    → scope_name e ≡ scope_name d
same_scope decls d e m =
    (==_iff (scope_name e) (scope_name d)).0
      ((Member-filter (λ f. scope_name f == scope_name d) decls e).0 m).1

rule_of_group :
    (decls : List FuncDecl) (d e : FuncDecl)
    → Member e (siblings decls d)
    → group_rule (siblings decls d) e ≡ name_rule (siblings decls e) e
rule_of_group decls d e m =
    let scope = same_scope decls d e m in
    let init =
      init_of_same (siblings decls d) e m
        (λ f k. ap (λ s. s.1) (same_scope decls d f k ∙ sym scope)) in
    ap
      (λ b.
        if b
        then init_name e
        else if is_single (siblings decls d)
        then plain_name e
        else overload_rule (siblings decls d) e)
      init
    ∙ ap (λ p. name_rule (filter (λ f. scope_name f == p) decls) e) (sym scope)

-- What `render_function_fqns` returns are exactly the pairs of a declaration's id and the name that
-- the rule gives the declaration among those of its scope and name.
pub render_function_fqns_iff :
    (decls : List FuncDecl) (x : Text × Text)
    → Member x (render_function_fqns decls)
      ↔ ((d : FuncDecl) × Member d decls × ((d.id, name_rule (siblings decls d) d) ≡ x))
unfolding render_function_fqns
render_function_fqns_iff decls x = (there, back)
  where
    there :
        Member x (render_all render_group (grouped scope_name decls []))
        → Given (λ d. name_rule (siblings decls d) d) decls x
    there mem =
        let (d, m, found) = rendered_from render_group scope_name decls x mem in
        let (e, k, eq) = (group_iff (siblings decls d) x).0 found in
        (
          e,
          ((Member-filter (λ f. scope_name f == scope_name d) decls e).0 k).0,
          ap (λ n. (e.id, n)) (sym (rule_of_group decls d e k)) ∙ eq,
        )

    back :
        Given (λ d. name_rule (siblings decls d) d) decls x
        → Member x (render_all render_group (grouped scope_name decls []))
    back (d, m, eq) =
        let own =
          (Member-filter (λ f. scope_name f == scope_name d) decls d).1
            (m, ==_refl (scope_name d)) in
        rendered_of render_group scope_name decls x d m (
          (group_iff (siblings decls d) x).1
            (d, own, ap (λ n. (d.id, n)) (rule_of_group decls d d own) ∙ eq))
