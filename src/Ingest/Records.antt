-- ===== src/Ingest/Records.antt =====
-- The passes of `ingest_records` in src/ingest/mod.rs after the first, and the whole of it. The
-- temporary spool file is the list of the bytes that the first pass wrote.
pub mod Closed
pub mod Names
use apg.Prelude.{
  ℕ, suc, ◌+◌, Bool, List, [], ◌∷◌, Option, none, some, length, is_empty, insert, Map, lookup,
  has_key, put, ◌==◌, nat_eq, list_eq, filter_map, if◌then◌else◌,
}
use apg.Text.{Text}
use apg.Schema.{Record}
use apg.Graph.{NodeKind}
use apg.Classify.CodeType.{classify_code_type}
use apg.Ingest.Outcome.{Outcome, panic, ok, ◌>>=◌, for_each}
use apg.Ingest.Spool.{Serde, read_edges}
use apg.Ingest.Blacklist.{IngestOptions, is_blacklisted}
use apg.Ingest.Assembly.{GraphNode, default_node, EdgeSet, Assembly}
use apg.Ingest.Kinds.{kind_eq}
use apg.Ingest.Admit.{claim, add_edge, code_node}
use apg.Ingest.Stream.{FuncDecl, Stream, admit, admit_unless, stream_record}
use apg.Ingest.Render.{render_function_fqns}
use apg.Ingest.Finalize.{kind_is, finalize_graph}
use apg.Ingest.EdgePass.{EdgePass, admit_edge}

-- The state of the passes, with the counters of `IngestReport`.
pub record Passes : Type 0 where
  pub stream : Stream
  pub shadowed : List Text
  pub shadowed_modules : ℕ
  pub shadowed_functions : ℕ

abbrev pub with_graph : Assembly → Stream → Stream
with_graph g s = record s { graph = g }

abbrev pub on_stream : (Stream → Outcome Stream) → Passes → Outcome Passes
on_stream step p = step p.stream >>= λ s. ok (record p { stream = s })

abbrev pub claim_function : Text → Text → Passes → Passes
claim_function id fqn p = record p {
  stream = record p.stream {
    seen = put fqn (id, NodeKind.function) p.stream.seen;
    id_to_fqn = put id fqn p.stream.id_to_fqn;
  };
}

-- One rendered function: the first to claim a name has it, a type hides it, and a second function
-- is a panic.
unfoldable pub name_function : Text × Text → Passes → Outcome Passes
name_function (id, fqn) p = elim (lookup fqn p.stream.seen) [
  | none ↦ ok (claim_function id fqn p)
  | some (prev, kind) ↦
      if kind == NodeKind.struct
      then ok (record p { shadowed_functions = p.shadowed_functions + 1 })
      else panic
]

unfoldable pub function_node : IngestOptions → FuncDecl → Text → GraphNode
function_node opts f fqn =
    record (code_node NodeKind.function f.path f.start f.end f.start_line f.end_line
      (classify_code_type f.path fqn f.language opts.config)) { params = f.params }

unfoldable pub insert_function : IngestOptions → FuncDecl → Stream → Outcome Stream
insert_function opts f s = elim (lookup f.id s.id_to_fqn) [
  | none ↦ ok s
  | some fqn ↦
      admit_unless (is_blacklisted fqn (some f.path) f.language opts) fqn (function_node opts f fqn)
        s
]

unfoldable pub insert_module : Text → Passes → Outcome Passes
insert_module fqn p =
    if has_key fqn p.stream.seen
    then ok
        (record p { shadowed = insert fqn p.shadowed; shadowed_modules = p.shadowed_modules + 1 })
    else claim p.stream.seen fqn fqn NodeKind.module_ >>= λ seen.
        on_stream (λ s. admit fqn (default_node NodeKind.module_) (record s { seen = seen })) p

unfoldable pub insert_language : Text → Stream → Outcome Stream
insert_language language = admit language (default_node NodeKind.language)

-- A language holds each module of its stream that is in the graph.
unfoldable pub attach_languages : Map Text Text → Assembly → Assembly
attach_languages [] g = g
attach_languages ((name, language) ∷ rest) g = attach_languages rest (
    if kind_is g.nodes name NodeKind.module_
    then add_edge EdgeSet.contains (language, name) g
    else g)

-- A module holds each file that names it.
unfoldable pub attach_files : Map Text Text → Assembly → Assembly
attach_files [] g = g
attach_files ((file_path, parent) ∷ rest) g = attach_files rest (
    if is_empty parent
    then g
    else if kind_is g.nodes parent NodeKind.module_
    then add_edge EdgeSet.contains (parent, file_path) g
    else g)

-- The path and the name of a type or function with a location.
unfoldable pub located : Text × GraphNode → Option (Text × Text)
located (fqn, n) = elim n.location [
  | none ↦ none
  | some l ↦
      if n.kind == NodeKind.struct
      then some (l.path, fqn)
      else if n.kind == NodeKind.function
      then some (l.path, fqn)
      else none
]

unfoldable pub attach_located : List (Text × Text) → Assembly → Assembly
attach_located [] g = g
attach_located ((file_path, fqn) ∷ rest) g = attach_located rest (
    if kind_is g.nodes file_path NodeKind.file
    then add_edge EdgeSet.contains (file_path, fqn) g
    else g)

unfoldable pub attach_all : Stream → Stream
attach_all s =
    let g = attach_files s.files (attach_languages s.module_language s.graph) in
    with_graph (attach_located (filter_map located g.nodes) g) s

-- The spool is read with a round of fuel for each byte and one more, which `read_edges-total` shows
-- to be enough.
unfoldable pub spooled_edges : Serde → List ℕ → Outcome (List Record)
spooled_edges serde spool = elim (read_edges (suc (length spool)) serde spool) [
  | none ↦ panic
  | some edges ↦ edges
]

unfoldable pub edge_pass : Serde → IngestOptions → Passes → Outcome EdgePass
edge_pass serde opts p = spooled_edges serde p.stream.spool >>= λ edges.
    for_each (admit_edge opts p.stream.lang p.stream.id_to_fqn p.shadowed) edges
      (record { graph = p.stream.graph; skipped = p.stream.skipped })

abbrev pub empty_graph : Assembly
empty_graph = record {
  nodes = [];
  edges = λ s. [];
  unresolved_calls = [];
  unresolved_uses = [];
  edge_properties = [];
}

abbrev pub start_stream : IngestOptions → Stream
start_stream opts = record {
  graph = empty_graph;
  skipped = 0;
  id_to_fqn = [];
  seen = [];
  funcs = [];
  files = [];
  modules = [];
  module_identities = [];
  module_language = [];
  languages = [];
  lang = opts.language;
  spool = [];
}

-- The passes over functions, modules, languages and files.
unfoldable pub node_passes : IngestOptions → Stream → Outcome Passes
node_passes opts s =
    for_each name_function (render_function_fqns s.funcs)
      (record { stream = s; shadowed = []; shadowed_modules = 0; shadowed_functions = 0 })
    >>= λ p. on_stream (λ t. for_each (insert_function opts) t.funcs t) p >>= λ q.
        for_each insert_module q.stream.modules q >>= λ r.
        on_stream (λ t. for_each insert_language t.languages t) r >>= λ l.
        ok (record l { stream = attach_all l.stream })

pub record IngestReport : Type 0 where
  pub skipped : ℕ
  pub shadowed_modules : ℕ
  pub shadowed_functions : ℕ

unfoldable pub ingest_records :
    Serde → IngestOptions → Bool → List Record → Outcome (Assembly × IngestReport)
ingest_records serde opts defer_finalize records =
    for_each (stream_record serde opts) records (start_stream opts) >>= λ s.
    node_passes opts s >>= λ p. edge_pass serde opts p >>= λ e. ok (
      if defer_finalize then e.graph else finalize_graph e.graph,
      record {
        skipped = e.skipped;
        shadowed_modules = p.shadowed_modules;
        shadowed_functions = p.shadowed_functions;
      },
    )
