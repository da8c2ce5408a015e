-- ===== src/Impact/Signature/Declared.antt =====
-- What the signature of a file is made of: the functions and the types that are declared in it.
use apg.Prelude.{
  ◌≡◌, ◌≢◌, ◌↔◌, ◌⊎◌, inl, inr, refl, ap, sym, ◌∙◌, true, false, not, ◌&&◌, List, [], ◌∷◌, some,
  Member, is_empty, arith, contains, contains-extend, filter_map, filter_map-from,
  filter_map-contains, if◌then◌else◌, nat_eq, list_eq, Bool-ext, subst,
}
use apg.Text.{Text, codes}
use apg.Graph.{Graph, Node, NodeKind}
use apg.Impact.Signature.{
  Signature, signature_eq, kind_str, params_of_node, signature_parent, is_declaration, located_at,
  signature_of, signature_here, file_signature, signature_unchanged,
}
use apg.Impact.Signature.Delta.{signature_unchanged-contains}

-- The function `fqn` is declared in the file, with these parameters.
pub record DeclaresFunction (g : Graph) (path fqn : Text) (params : List Text) : Type 0 where
  pub node : Node
  pub known : Member (fqn, node) g.nodes
  pub located : located_at path node.location ≡ true
  pub kind : node.kind ≡ NodeKind.function
  pub params_are : node.params ≡ params

-- The type `fqn` is declared in the file.
pub record DeclaresStruct (g : Graph) (path fqn : Text) : Type 0 where
  pub node : Node
  pub known : Member (fqn, node) g.nodes
  pub located : located_at path node.location ≡ true
  pub kind : node.kind ≡ NodeKind.struct

-- Their signatures.
abbrev of_function : Text → List Text → Signature
of_function fqn params = record {
  kind = codes "function";
  fqn = fqn;
  params = params;
  parent = signature_parent fqn NodeKind.function;
}

abbrev of_struct : Text → Signature
of_struct fqn = record { kind = codes "struct"; fqn = fqn; params = []; parent = fqn }

declaration_cases :
    (k : NodeKind) → (k ≡ NodeKind.function) ⊎ (k ≡ NodeKind.struct) ⊎ (is_declaration k ≡ false)
declaration_cases NodeKind.function = inl refl
declaration_cases NodeKind.struct = inr (inl refl)
declaration_cases _ = inr (inr refl)

params_themselves : (ps : List Text) → (if not (is_empty ps) then ps else []) ≡ ps
params_themselves [] = refl
params_themselves (p ∷ ps) = refl

function_signature :
    (fqn : Text) (n : Node)
    → n.kind ≡ NodeKind.function
    → signature_of fqn n ≡ of_function fqn n.params
unfolding signature_of kind_str params_of_node
function_signature fqn n e = rw (e, params_themselves n.params) refl

struct_signature :
    (fqn : Text) (n : Node) → n.kind ≡ NodeKind.struct → signature_of fqn n ≡ of_struct fqn
unfolding signature_of kind_str params_of_node signature_parent
struct_signature fqn n e = rw e refl

some_inj : {s t : Signature} → some s ≡ some t → s ≡ t
some_inj e = cc

module _ (g : Graph) (path : Text) where
  -- A signature of the file, and the node that it is of.
  Origin : Signature → Type 0
  Origin s =
      (fqn : Text) × (n : Node) × Member (fqn, n) g.nodes
      × (located_at path n.location ≡ true)
      × (((n.kind ≡ NodeKind.function) × (s ≡ of_function fqn n.params))
          ⊎ ((n.kind ≡ NodeKind.struct) × (s ≡ of_struct fqn)))

  origin_of_entry :
      (s : Signature) (fqn : Text) (n : Node)
      → Member (fqn, n) g.nodes
      → signature_here path (fqn, n) ≡ some s
      → Origin s
  unfolding Origin
  origin_of_entry s fqn n m h =
      let passes : (is_declaration n.kind && located_at path n.location) ≡ true =
        ground (arith, h) in
      let same : signature_of fqn n ≡ s = some_inj (rw passes at h) in
      let located : located_at path n.location ≡ true = ground (arith, passes) in
      (
        fqn,
        n,
        m,
        located,
        elim (declaration_cases n.kind) [
          | inl e ↦ inl (e, sym same ∙ function_signature fqn n e)
          | inr (inl e) ↦ inr (e, sym same ∙ struct_signature fqn n e)
          | inr (inr e) ↦ absurd (ground (arith, passes, e))
        ],
      )

  origin : (s : Signature) → contains (file_signature g path) s ≡ true → Origin s
  unfolding file_signature
  origin s h =
      let found = contains-extend [] (filter_map (signature_here path) g.nodes) s in
      let ((fqn, n), m, e) =
        filter_map-from (signature_here path) g.nodes s (ground (arith, h, found)) in
      origin_of_entry s fqn n m e

  listed :
      (fqn : Text) (n : Node)
      → Member (fqn, n) g.nodes
      → located_at path n.location ≡ true
      → is_declaration n.kind ≡ true
      → contains (file_signature g path) (signature_of fqn n) ≡ true
  unfolding file_signature
  listed fqn n m l d =
      let found =
        contains-extend [] (filter_map (signature_here path) g.nodes) (signature_of fqn n) in
      ground (
        arith,
        found,
        filter_map-contains (signature_here path) g.nodes (signature_of fqn n) (fqn, n) m
            (rw (d, l) refl),
      )

  function_listed :
      (fqn : Text) (ps : List Text)
      → DeclaresFunction g path fqn ps
      → contains (file_signature g path) (of_function fqn ps) ≡ true
  function_listed fqn ps d =
      subst (λ s. contains (file_signature g path) s ≡ true)
        (function_signature fqn d.node d.kind ∙ ap (of_function fqn) d.params_are)
        (listed fqn d.node d.known d.located (ap is_declaration d.kind))

  struct_listed :
      (fqn : Text)
      → DeclaresStruct g path fqn
      → contains (file_signature g path) (of_struct fqn) ≡ true
  struct_listed fqn d =
      subst (λ s. contains (file_signature g path) s ≡ true) (struct_signature fqn d.node d.kind)
        (listed fqn d.node d.known d.located (ap is_declaration d.kind))

  function_declared :
      (fqn : Text) (ps : List Text)
      → contains (file_signature g path) (of_function fqn ps) ≡ true
      → DeclaresFunction g path fqn ps
  unfolding Origin
  function_declared fqn ps h =
      let (name, n, m, l, why) = origin (of_function fqn ps) h in
      elim why [
        | inl (k, e) ↦
            let named : name ≡ fqn = ap (λ s. s.fqn) (sym e) in
            record {
              node = n;
              known = subst (λ f. Member (f, n) g.nodes) named m;
              located = l;
              kind = k;
              params_are = ap (λ s. s.params) (sym e);
            }
        | inr (k, e) ↦ absurd (not_struct (ap (λ s. s.kind) e))
      ]
    where
      not_struct : codes "function" ≢ codes "struct"
      not_struct e = cc

  struct_declared :
      (fqn : Text)
      → contains (file_signature g path) (of_struct fqn) ≡ true
      → DeclaresStruct g path fqn
  unfolding Origin
  struct_declared fqn h =
      let (name, n, m, l, why) = origin (of_struct fqn) h in
      elim why [
        | inl (k, e) ↦ absurd (not_function (ap (λ s. s.kind) e))
        | inr (k, e) ↦
            let named : name ≡ fqn = ap (λ s. s.fqn) (sym e) in
            record {
              node = n;
              known = subst (λ f. Member (f, n) g.nodes) named m;
              located = l;
              kind = k;
            }
      ]
    where
      not_function : codes "struct" ≢ codes "function"
      not_function e = cc

carried :
    (old new : Graph) (path : Text)
    → ((fqn : Text) (ps : List Text)
        → DeclaresFunction old path fqn ps
        → DeclaresFunction new path fqn ps)
    → ((fqn : Text) → DeclaresStruct old path fqn → DeclaresStruct new path fqn)
    → (s : Signature) → contains (file_signature old path) s ≡ true
    → contains (file_signature new path) s ≡ true
unfolding Origin
carried old new path functions structs s h =
    let (fqn, n, m, l, why) = origin old path s h in
    elim why [
      | inl (k, e) ↦
          subst (λ t. contains (file_signature new path) t ≡ true) (sym e)
            (function_listed new path fqn n.params (
              functions fqn n.params
                (record { node = n; known = m; located = l; kind = k; params_are = refl })))
      | inr (k, e) ↦
          subst (λ t. contains (file_signature new path) t ≡ true) (sym e)
            (struct_listed new path fqn
              (structs fqn (record { node = n; known = m; located = l; kind = k })))
    ]

-- A file counts as unchanged between two graphs exactly if the same functions with the same
-- parameters and the same types are declared in it.
pub signature_unchanged_iff :
    (old new : Graph) (path : Text)
    → (signature_unchanged old new path ≡ true) ↔ (
        ((fqn : Text) (params : List Text)
          → DeclaresFunction old path fqn params ↔ DeclaresFunction new path fqn params)
        × ((fqn : Text) → DeclaresStruct old path fqn ↔ DeclaresStruct new path fqn))
signature_unchanged_iff old new path =
    let (there, back) = signature_unchanged-contains old new path in
    (
      λ h.
          let same = there h in
          (
            λ fqn ps. (
              λ d.
                  function_declared new path fqn ps
                    (sym (same (of_function fqn ps)) ∙ function_listed old path fqn ps d),
              λ d.
                  function_declared old path fqn ps
                    (same (of_function fqn ps) ∙ function_listed new path fqn ps d),
            ),
            λ fqn. (
              λ d.
                  struct_declared new path fqn
                    (sym (same (of_struct fqn)) ∙ struct_listed old path fqn d),
              λ d.
                  struct_declared old path fqn
                    (same (of_struct fqn) ∙ struct_listed new path fqn d),
            ),
          ),
      λ (functions, structs). back (λ s.
          Bool-ext _ _
            (carried old new path (λ fqn ps. (functions fqn ps).0) (λ fqn. (structs fqn).0) s)
            (carried new old path (λ fqn ps. (functions fqn ps).1) (λ fqn. (structs fqn).1) s)),
    )
