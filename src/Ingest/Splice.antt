-- ===== src/Ingest/Splice.antt =====
-- `splice_cached` and `ingest_with_reuse` of src/ingest/mod.rs: the fact units of the files that an
-- incremental scan does not visit are merged into the graph. What the store has on disk is given
-- as the functions of Reuse.
pub mod Returns
pub mod Examples
use apg.Prelude.{
  Bool, true, false, ◌&&◌, List, [], ◌∷◌, ◌++◌, Option, none, some, insert, Map, lookup, has_key,
  put, ◌==◌, nat_eq, list_eq, pair_eq, triple_eq, if◌then◌else◌,
}
use apg.Text.{Text, codes}
use apg.Graph.{NodeKind}
use apg.Schema.{Record}
use apg.Cache.Fragment.{FileFragment, FragEdge, ModuleScaffolding, project_nodes, project_edges}
use apg.Ingest.Outcome.{Outcome, ok, ◌>>=◌, for_each}
use apg.Ingest.Assembly.{GraphNode, default_node, EdgeSet, Assembly}
use apg.Ingest.Admit.{
  add_node, add_edge, has_planned_status, has_no_status, is_unresolved_kind, insert_node,
  materialise_language,
}
use apg.Ingest.Finalize.{finalize_graph}
use apg.Ingest.Spool.{Serde}
use apg.Ingest.Blacklist.{IngestOptions}
use apg.Ingest.Records.{IngestReport, ingest_records}
use apg.Ingest.Resolve.{resolve_unresolved_edges}

-- The files to reuse, by path, language and blob, and what the store answers for them.
pub record Reuse : Type 0 where
  pub files : List (Text × Text × Text)
  pub load_reusable : Text → Text → Text → Option (FileFragment × Text)
  pub skipped_langs : List Text
  pub scaffolding : Text → Option ModuleScaffolding
  pub reader_root : Text

-- A unit, the root that it was written under, and its language.
abbrev pub Loaded : Type 0
Loaded = FileFragment × Text × Text

unfoldable pub load_units : Reuse → List (Text × Text × Text) → List Loaded
load_units reuse [] = []
load_units reuse ((rel, lang, oid) ∷ files) = elim (reuse.load_reusable lang rel oid) [
  | none ↦ load_units reuse files
  | some (frag, stored_root) ↦ (frag, stored_root, lang) ∷ load_units reuse files
]

-- A loop over a list.
abbrev pub each : {A S : Type 0} → (A → S → S) → List A → S → S
each body [] s = s
each body (x ∷ xs) s = each body xs (body x s)

unfoldable pub admit_over : GraphNode → Text → GraphNode → Assembly → Assembly
admit_over existing fqn node g =
    if is_unresolved_kind existing.kind
    then (if is_unresolved_kind node.kind then g else add_node fqn node g)
    else if has_planned_status existing && has_no_status node
    then add_node fqn node g
    else g

unfoldable pub admit_cached : Text × GraphNode → Assembly → Assembly
admit_cached (fqn, node) g = elim (lookup fqn g.nodes) [
  | none ↦ add_node fqn node g
  | some existing ↦ admit_over existing fqn node g
]

unfoldable pub admit_unit : Text → Loaded → Assembly → Assembly
admit_unit reader_root (frag, stored_root, _) =
    each admit_cached (project_nodes frag stored_root reader_root)

-- `cached_modules.entry(m).or_insert(lang)` for each module of a unit
abbrev note_module : Text → Text → Map Text Text → Map Text Text
note_module lang m seen = if has_key m seen then seen else put m lang seen

unfoldable pub note_unit : Loaded → Map Text Text → Map Text Text
note_unit (frag, _, lang) = each (note_module lang) frag.modules

unfoldable pub module_needs_insert : Assembly → Text → Bool
module_needs_insert g fqn = elim (lookup fqn g.nodes) [
  | none ↦ true
  | some n ↦ has_planned_status n
]

unfoldable pub insert_module : Text → Assembly → Outcome Assembly
insert_module fqn g =
    if module_needs_insert g fqn then insert_node fqn (default_node NodeKind.module_) g else ok g

abbrev pub insert_cached_module : Text × Text → Assembly → Outcome Assembly
insert_cached_module (fqn, _) g = insert_module fqn g

abbrev pub replay : ModuleScaffolding → Assembly → Outcome Assembly
replay s g = for_each insert_module s.modules g >>= λ a.
    for_each materialise_language s.languages (each (add_edge EdgeSet.contains) s.edges a) >>= λ b.
    ok (each (add_edge EdgeSet.contains) s.language_edges b)

-- Nothing is replayed of a language that the store has no scaffolding of.
abbrev pub replay_stored : Option ModuleScaffolding → Assembly → Outcome Assembly
replay_stored none g = ok g
replay_stored (some s) g = replay s g

abbrev pub replay_language : Reuse → Text → Assembly → Outcome Assembly
replay_language reuse lang = replay_stored (reuse.scaffolding lang)

abbrev add_cached_edge : FragEdge → Assembly → Assembly
add_cached_edge e g =
    if e.kind == codes "contains"
    then add_edge EdgeSet.contains (e.from, e.to) g
    else if e.kind == codes "calls"
    then add_edge EdgeSet.calls (e.from, e.to) g
    else if e.kind == codes "uses"
    then add_edge EdgeSet.uses (e.from, e.to) g
    else if e.kind == codes "unresolved_call"
    then record g { unresolved_calls = insert (e.from, e.to, e.target_type) g.unresolved_calls }
    else if e.kind == codes "unresolved_use"
    then record g { unresolved_uses = insert (e.from, e.to) g.unresolved_uses }
    else g

unfoldable pub splice_edge : FragEdge → Assembly → Assembly
splice_edge e g = if has_key e.from g.nodes && has_key e.to g.nodes then add_cached_edge e g else g

unfoldable pub splice_edges : Text → Loaded → Assembly → Assembly
splice_edges reader_root (frag, stored_root, _) =
    each splice_edge (project_edges frag stored_root reader_root)

unfoldable pub splice_cached : Reuse → Assembly → Outcome Assembly
splice_cached reuse g =
    let loaded = load_units reuse reuse.files in
    let cached_modules = each note_unit loaded [] in
    for_each insert_cached_module cached_modules (each (admit_unit reuse.reader_root) loaded g)
    >>= λ a. for_each (replay_language reuse) reuse.skipped_langs a >>= λ b.
        ok (resolve_unresolved_edges (each (splice_edges reuse.reader_root) loaded b))

unfoldable pub merge_reuse : Option Reuse → Assembly → Outcome Assembly
merge_reuse none g = ok g
merge_reuse (some reuse) g = splice_cached reuse g >>= λ spliced. ok (finalize_graph spliced)

unfoldable pub ingest_with_reuse :
    Serde → IngestOptions → List Record → Option Reuse → Outcome (Assembly × IngestReport)
ingest_with_reuse serde opts records reuse = ingest_records serde opts true records >>= λ out.
    merge_reuse reuse out.0 >>= λ graph. ok (graph, out.1)
