-- ===== src/Ingest/Render/Groups.antt =====
-- Groups of declarations by a key: what `push_group` collects and what is rendered of it.
use mathlib.Core.List.{append-nil, append_assoc}
use apg.Prelude.{
  ◌≡◌, refl, sym, ap, subst, ◌∙◌, Bool, true, false, ◌||◌, List, [], ◌∷◌, ◌++◌, any, filter, Map,
  IsMap, has_key, Eq, ◌==◌, ==_iff, ==_refl, Member, Member-append_left, Member-append_right,
  Member-append_cases, arith, if◌then◌else◌, Bool-cases, inl, inr,
}
use apg.Text.{Text}
use apg.Ingest.Stream.{FuncDecl}
use apg.Ingest.Render.{push_group, grouped, render_all}

pub any_Member :
    (p : FuncDecl → Bool) (ds : List FuncDecl)
    → any p ds ≡ true
    → (d : FuncDecl) × Member d ds × (p d ≡ true)
any_Member p [] h = cc
any_Member p (d ∷ ds) h = elim (Bool-cases (p d)) [
  | inl e ↦ (d, inl refl, e)
  | inr e ↦ let (f, m, q) = any_Member p ds (rw e at h) in (f, inr m, q)
]

pub Member_any :
    (p : FuncDecl → Bool) (ds : List FuncDecl) (d : FuncDecl)
    → Member d ds
    → p d ≡ true
    → any p ds ≡ true
Member_any p [] d m h = absurd m
Member_any p (e ∷ ds) d (inl here) h = rw (ap p here ∙ h)
Member_any p (e ∷ ds) d (inr m) h = ground (arith, Member_any p ds d m h)

module _ {K : Type 0} ⦃eq : Eq K⦄ where
  abbrev pub bucket : K → Map K (List FuncDecl) → List FuncDecl
  bucket k [] = []
  bucket k ((j, ds) ∷ m) = if j == k then ds else bucket k m

  bucket-push_group :
      (k j : K) (d : FuncDecl) (m : Map K (List FuncDecl))
      → bucket k (push_group j d m) ≡ (if j == k then bucket k m ++ d ∷ [] else bucket k m)
  bucket-push_group k j d [] = refl
  bucket-push_group k j d ((i, ds) ∷ m) =
      ground (arith, bucket-push_group k j d m, ==_iff i j, ==_iff i k, ==_iff j k)

  has_key-push_group :
      (k j : K) (d : FuncDecl) (m : Map K (List FuncDecl))
      → has_key k (push_group j d m) ≡ (j == k || has_key k m)
  has_key-push_group k j d [] = refl
  has_key-push_group k j d ((i, ds) ∷ m) =
      ground (arith, has_key-push_group k j d m, ==_iff i j, ==_iff i k, ==_iff j k)

  IsMap-push_group :
      (j : K) (d : FuncDecl) (m : Map K (List FuncDecl)) → IsMap m → IsMap (push_group j d m)
  IsMap-push_group j d [] h = ground arith
  IsMap-push_group j d ((i, ds) ∷ m) h =
      ground (arith, IsMap-push_group j d m, has_key-push_group i j d m, ==_iff i j, ==_iff j i)

  bucket-grouped :
      (key : FuncDecl → K) (k : K) (ds : List FuncDecl) (m : Map K (List FuncDecl))
      → bucket k (grouped key ds m) ≡ bucket k m ++ filter (λ d. key d == k) ds
  bucket-grouped key k [] m = sym (append-nil (bucket k m))
  bucket-grouped key k (d ∷ ds) m = ground (
    arith,
    bucket-grouped key k ds (push_group (key d) d m),
    bucket-push_group k (key d) d m,
    append_assoc (bucket k m) (d ∷ []) (filter (λ d. key d == k) ds),
  )

  has_key-grouped :
      (key : FuncDecl → K) (k : K) (ds : List FuncDecl) (m : Map K (List FuncDecl))
      → has_key k (grouped key ds m) ≡ (has_key k m || any (λ d. key d == k) ds)
  has_key-grouped key k [] m = ground arith
  has_key-grouped key k (d ∷ ds) m =
      ground
        (arith, has_key-grouped key k ds (push_group (key d) d m), has_key-push_group k (key d) d m)

  IsMap-grouped :
      (key : FuncDecl → K) (ds : List FuncDecl) (m : Map K (List FuncDecl))
      → IsMap m
      → IsMap (grouped key ds m)
  IsMap-grouped key [] m h = h
  IsMap-grouped key (d ∷ ds) m h =
      IsMap-grouped key ds (push_group (key d) d m) (IsMap-push_group (key d) d m h)

  render_all_from :
      (render : List FuncDecl → List (Text × Text)) (m : Map K (List FuncDecl)) (x : Text × Text)
      → IsMap m
      → Member x (render_all render m)
      → (k : K) × (has_key k m ≡ true) × Member x (render (bucket k m))
  render_all_from render [] x h mem = absurd mem
  render_all_from render ((j, ds) ∷ m) x h mem =
      elim (Member-append_cases (render ds) (render_all render m) x mem) [
        | inl here ↦ (j, ground (arith, ==_refl j), rw (==_refl j) here)
        | inr later ↦
            let (k, has, found) = render_all_from render m x h.1 later in
            (k, ground (arith, has), rw (other k has) found)
      ]
    where
      other : (k : K) → has_key k m ≡ true → (j == k) ≡ false
      other k has = ground (arith, has, h.0, ==_iff j k)

  render_all_of :
      (render : List FuncDecl → List (Text × Text)) (m : Map K (List FuncDecl)) (x : Text × Text)
      (k : K)
      → has_key k m ≡ true
      → Member x (render (bucket k m))
      → Member x (render_all render m)
  render_all_of render [] x k h mem = cc
  render_all_of render ((j, ds) ∷ m) x k h mem = elim (Bool-cases (j == k)) [
    | inl e ↦ Member-append_left (render ds) (render_all render m) x (rw e at mem)
    | inr e ↦
        Member-append_right (render ds) (render_all render m) x
          (render_all_of render m x k (rw e at h) (rw e at mem))
  ]

  -- What is rendered of the groups is rendered of the declarations that share a member's key.
  pub rendered_from :
      (render : List FuncDecl → List (Text × Text)) (key : FuncDecl → K) (ds : List FuncDecl)
      (x : Text × Text)
      → Member x (render_all render (grouped key ds []))
      → (d : FuncDecl) × Member d ds × Member x (render (filter (λ e. key e == key d) ds))
  rendered_from render key ds x mem =
      let (k, has, found) =
        render_all_from render (grouped key ds []) x (IsMap-grouped key ds [] tt) mem in
      let (d, m, e) = any_Member (λ d. key d == k) ds (sym (has_key-grouped key k ds []) ∙ has) in
      (
        d,
        m,
        subst (λ j. Member x (render (filter (λ e. key e == j) ds))) (sym ((==_iff (key d) k).0 e))
            (subst (λ b. Member x (render b)) (bucket-grouped key k ds []) found),
      )

  pub rendered_of :
      (render : List FuncDecl → List (Text × Text)) (key : FuncDecl → K) (ds : List FuncDecl)
      (x : Text × Text) (d : FuncDecl)
      → Member d ds
      → Member x (render (filter (λ e. key e == key d) ds))
      → Member x (render_all render (grouped key ds []))
  rendered_of render key ds x d m mem =
      render_all_of render (grouped key ds []) x (key d)
        (has_key-grouped key (key d) ds []
          ∙ Member_any (λ e. key e == key d) ds d m (==_refl (key d)))
        (subst (λ b. Member x (render b)) (sym (bucket-grouped key (key d) ds [])) mem)
