-- ===== src/Ingest/Splice/Returns.antt =====
-- The splice ends with a graph: no admission of it panics.
use apg.Prelude.{
  ◌⊎◌, ◌≡◌, refl, List, [], ◌∷◌, Option, none, some, nat_eq, list_eq, lookup, has_key-lookup, some,
  arith, Bool-cases, inl, inr, ap, ◌∙◌,
}
use apg.Text.{Text}
use apg.Ingest.Outcome.{Outcome, ok, ◌>>=◌, for_each}
use apg.Graph.{NodeKind}
use apg.Cache.Fragment.{ModuleScaffolding}
use apg.Ingest.Assembly.{GraphNode, default_node, Assembly, EdgeSet}
use apg.Ingest.Admit.{
  add_edge, add_node, remove, has_planned_status, is_unresolved_kind, insert_node, insert_over,
  materialise_language,
}
use apg.Ingest.Finalize.{finalize_graph}
use apg.Ingest.Finalize.Valid.{IsClosed, finalize_graph-IsClosed}
use apg.Ingest.Resolve.{resolve_unresolved_edges}
use apg.Ingest.Splice.{
  Reuse, each, load_units, note_unit, admit_unit, module_needs_insert, insert_module,
  insert_cached_module, replay_stored, replay_language, splice_edges, splice_cached, merge_reuse,
}

abbrev Returns : {A : Type 0} → Outcome A → Type 0
Returns {A = A} m = (a : A) × (m ≡ ok a)

>>=-Returns :
    {A B : Type 0} (m : Outcome A) (f : A → Outcome B)
    → Returns m
    → ((a : A) → Returns (f a))
    → Returns (m >>= f)
>>=-Returns m f (a, e) k = let (b, r) = k a in (b, ap (λ n. n >>= f) e ∙ r)

for_each-Returns :
    {A S : Type 0} (body : A → S → Outcome S)
    → ((x : A) (s : S) → Returns (body x s))
    → (xs : List A) (s : S) → Returns (for_each body xs s)
for_each-Returns body k [] s = (s, refl)
for_each-Returns body k (x ∷ xs) s =
    >>=-Returns (body x s) (for_each body xs) (k x s) (for_each-Returns body k xs)

found : (o : Option GraphNode) → (o ≡ none) ⊎ ((n : GraphNode) × (o ≡ some n))
found none = inl refl
found (some n) = inr (n, refl)

insert_module_present :
    (fqn : Text) (g : Assembly) (n : GraphNode)
    → lookup fqn g.nodes ≡ some n
    → Returns (insert_module fqn g)
unfolding insert_module module_needs_insert insert_node insert_over
insert_module_present fqn g n e = elim (Bool-cases (has_planned_status n)) [
  | inr real ↦ (g, ground (arith, e, real))
  | inl planned ↦ elim (Bool-cases (is_unresolved_kind n.kind)) [
    | inl target ↦
        (add_node fqn (default_node NodeKind.module_) g, ground (arith, e, planned, target))
    | inr declared ↦ (
      add_node fqn (default_node NodeKind.module_) (record g { nodes = remove fqn g.nodes }),
      ground (arith, e, planned, declared),
    )
  ]
]

insert_module-Returns : (fqn : Text) (g : Assembly) → Returns (insert_module fqn g)
unfolding insert_module module_needs_insert insert_node
insert_module-Returns fqn g = elim (found (lookup fqn g.nodes)) [
  | inl absent ↦ (add_node fqn (default_node NodeKind.module_) g, ground (arith, absent))
  | inr (n, present) ↦ insert_module_present fqn g n present
]

materialise_language-Returns : (fqn : Text) (g : Assembly) → Returns (materialise_language fqn g)
unfolding materialise_language insert_node
materialise_language-Returns fqn g = elim (found (lookup fqn g.nodes)) [
  | inl absent ↦ (
    add_node fqn (default_node NodeKind.language) g,
    ground (arith, absent, has_key-lookup fqn g.nodes),
  )
  | inr (n, present) ↦ (g, ground (arith, present, has_key-lookup fqn g.nodes))
]

replay_stored-Returns : (s : Option ModuleScaffolding) (g : Assembly) → Returns (replay_stored s g)
replay_stored-Returns none g = (g, refl)
replay_stored-Returns (some s) g =
    let languages = λ (a : Assembly).
      for_each materialise_language s.languages (each (add_edge EdgeSet.contains) s.edges a) in
    let last = λ (b : Assembly). ok (each (add_edge EdgeSet.contains) s.language_edges b) in
    >>=-Returns (for_each insert_module s.modules g) (λ a. languages a >>= last)
      (for_each-Returns insert_module insert_module-Returns s.modules g)
      (λ a.
        >>=-Returns (languages a) last
          (for_each-Returns materialise_language materialise_language-Returns s.languages
            (each (add_edge EdgeSet.contains) s.edges a))
          (λ b. (each (add_edge EdgeSet.contains) s.language_edges b, refl)))

-- Whatever the store answers and whatever the graph holds, the splice returns a graph: none of its
-- admissions panics, so none meets a name that another declaration has.
splice_cached-returns :
    (reuse : Reuse) (g : Assembly) → (h : Assembly) × (splice_cached reuse g ≡ ok h)
unfolding splice_cached
splice_cached-returns reuse g =
    let loaded = load_units reuse reuse.files in
    let units = each (admit_unit reuse.reader_root) loaded g in
    let scaffolds = λ (a : Assembly). for_each (replay_language reuse) reuse.skipped_langs a in
    let last = λ (b : Assembly).
      ok (resolve_unresolved_edges (each (splice_edges reuse.reader_root) loaded b)) in
    let cached_modules = each note_unit loaded [] in
    >>=-Returns (for_each insert_cached_module cached_modules units) (λ a. scaffolds a >>= last)
      (for_each-Returns insert_cached_module (λ entry. insert_module-Returns entry.0) cached_modules
        units)
      (λ a.
        >>=-Returns (scaffolds a) last
          (for_each-Returns (replay_language reuse)
            (λ lang. replay_stored-Returns (reuse.scaffolding lang)) reuse.skipped_langs a)
          (λ b. (resolve_unresolved_edges (each (splice_edges reuse.reader_root) loaded b), refl)))

-- Whatever the store answers and whatever the first part of the ingest left in the graph, the merge
-- of the stored fact units returns, and each edge of the graph that it returns runs between nodes of
-- the graph, of kinds that its table in the database is declared for, but a note may detail and a
-- feedback may review a node of any kind. An unresolved call starts at a function, an unresolved use
-- at a function or a type, and both end at an unresolved target.
pub merge_reuse-IsClosed :
    (reuse : Reuse) (g : Assembly)
    → (h : Assembly) × (merge_reuse (some reuse) g ≡ ok h) × IsClosed h
unfolding merge_reuse
merge_reuse-IsClosed reuse g =
    let (h, e) = splice_cached-returns reuse g in
    (
      finalize_graph h,
      ap (λ o. o >>= λ spliced. ok (finalize_graph spliced)) e,
      finalize_graph-IsClosed h,
    )
