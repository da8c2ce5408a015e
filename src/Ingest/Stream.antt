-- ===== src/Ingest/Stream.antt =====
-- The first pass of `ingest_records` in src/ingest/mod.rs: one record of the stream after another.
use mathlib.Core.Option.{get_or}
use apg.Prelude.{
  ℕ, ◌+◌, Bool, true, false, ◌&&◌, List, [], ◌∷◌, ◌++◌, Option, none, some, is_empty, contains, Map,
  put, has_key, entry_insert, ◌==◌, nat_eq, list_eq, if◌then◌else◌,
}
use apg.Text.{Text, codes}
use apg.Schema.{Record}
use apg.Graph.{NodeKind}
use apg.Classify.Config.{is_structural_language}
use apg.Classify.CodeType.{classify_code_type}
use apg.Ingest.Outcome.{Outcome, panic, ok, ◌>>=◌}
use apg.Ingest.Spool.{Serde, write_edge}
use apg.Ingest.Identity.{
  repo_relative_identity, root_module_fqn, rooted_scope, root_module_endpoint, root_edge_endpoint,
}
use apg.Ingest.Blacklist.{IngestOptions, is_blacklisted}
use apg.Ingest.Assembly.{GraphNode, default_node, EdgeSet, Assembly}
use apg.Ingest.Admit.{opt, Claims, claim, add_node, add_edge, insert_node, code_node, agent_node}
use apg.Ingest.SpecRows.{spec_row}

pub record FuncDecl : Type 0 where
  pub id : Text
  pub parent : Text
  pub name : Text
  pub params : List Text
  pub file : Text
  pub path : Text
  pub start : ℕ
  pub end : ℕ
  pub start_line : ℕ
  pub end_line : ℕ
  pub language : Text

-- The local variables of `ingest_records` that its first pass keeps; `spool` is the spool file.
pub record Stream : Type 0 where
  pub graph : Assembly
  pub skipped : ℕ
  pub id_to_fqn : Map Text Text
  pub seen : Claims
  pub funcs : List FuncDecl
  pub files : Map Text Text
  pub modules : List Text
  pub module_identities : Map Text (List Text)
  pub module_language : Map Text Text
  pub languages : List Text
  pub lang : Text
  pub spool : List ℕ

-- `opts.base.unwrap_or_else(|| Path::new(""))`
abbrev pub base_of : IngestOptions → Text
base_of opts = get_or opts.base []

abbrev pub skip : Stream → Stream
skip s = record s { skipped = s.skipped + 1 }

-- `if !v.contains(&x) { v.push(x) }`
abbrev pub push_absent : Text → List Text → List Text
push_absent x v = if contains v x then v else v ++ x ∷ []

-- `insert_node` on the graph of the state
abbrev pub admit : Text → GraphNode → Stream → Outcome Stream
admit fqn node s = insert_node fqn node s.graph >>= λ g. ok (record s { graph = g })

-- A record that the blacklist drops is counted; any other is admitted.
unfoldable pub admit_unless : Bool → Text → GraphNode → Stream → Outcome Stream
admit_unless true fqn node s = ok (skip s)
admit_unless false fqn node s = admit fqn node s

-- The first file record of an identity is admitted.
unfoldable pub admit_first : Bool → Text → Text → GraphNode → Stream → Outcome Stream
admit_first true identity parent node s = ok s
admit_first false identity parent node s =
    admit identity node (record s { files = put identity parent s.files })

-- The kind that a planned node names; any other text is a panic.
unfoldable pub planned_kind : Text → Option NodeKind
planned_kind kind =
    if kind == codes "module"
    then some NodeKind.module_
    else if kind == codes "file"
    then some NodeKind.file
    else if kind == codes "struct"
    then some NodeKind.struct
    else if kind == codes "function"
    then some NodeKind.function
    else none

-- `if !parent.is_empty() { graph.contains.insert((parent, fqn)); }`
abbrev pub add_parent : Text → Text → Assembly → Assembly
add_parent parent fqn g = if is_empty parent then g else add_edge EdgeSet.contains (parent, fqn) g

module _ (serde : Serde) (opts : IngestOptions) where
  unfoldable pub stream_module : Text → Stream → Stream
  stream_module fqn s =
      let rooted = root_module_fqn s.lang fqn (base_of opts) in
      if is_blacklisted rooted none s.lang opts then skip s else record s {
        module_identities = entry_insert s.lang fqn s.module_identities;
        module_language = put rooted s.lang s.module_language;
        languages = push_absent s.lang s.languages;
        modules = push_absent rooted s.modules;
      }

  unfoldable pub stream_struct : Text → Text → Text → Text → ℕ → ℕ → ℕ → ℕ → Stream → Outcome Stream
  stream_struct id parent name path start end start_line end_line s =
      let fqn = rooted_scope s.lang parent (base_of opts) ++ b'.' ∷ name in
      let identity = repo_relative_identity (base_of opts) path in
      let code_type = classify_code_type path fqn s.lang opts.config in
      claim s.seen id fqn NodeKind.struct >>= λ seen.
      admit_unless (is_blacklisted fqn (some identity) s.lang opts) fqn
        (code_node NodeKind.struct identity start end start_line end_line code_type)
        (record s { seen = seen; id_to_fqn = put id fqn s.id_to_fqn })

  -- The module that a file stands in: at the root of a structural stream, the bare language.
  unfoldable pub file_parent : Text → Text → Text
  file_parent lang parent =
      if is_empty parent && is_structural_language lang
      then root_module_fqn lang [] (base_of opts)
      else rooted_scope lang parent (base_of opts)

  unfoldable pub stream_file : Text → Text → ℕ → ℕ → Stream → Outcome Stream
  stream_file path parent start_line end_line s =
      let rooted = file_parent s.lang parent in
      let identity = repo_relative_identity (base_of opts) path in
      if is_blacklisted rooted (some identity) s.lang opts
      then ok (skip s)
      else admit_first (has_key identity s.files) identity rooted
          (code_node NodeKind.file identity 0 0 start_line end_line
            (classify_code_type path identity s.lang opts.config))
          s

  unfoldable pub stream_planned : Text → Text → Text → Text → Stream → Outcome Stream
  stream_planned fqn kind name parent s = elim (planned_kind kind) [
    | none ↦ panic
    | some k ↦
        admit fqn (record (default_node k) { name = opt name; status = some (codes "planned") }) s
        >>= λ t. ok (record t { graph = add_parent parent fqn t.graph })
  ]

  -- `graph.nodes.entry(fqn).or_insert_with(…)`
  unfoldable pub stream_unresolved : Text → Option Text → Stream → Stream
  stream_unresolved fqn category s = if has_key fqn s.graph.nodes then s else record s {
    graph =
        add_node fqn (record (default_node NodeKind.unresolved_target) { category = category })
          s.graph;
  }

  abbrev pub func_decl :
      Text → Text → Text → List Text → Text → Text → ℕ → ℕ → ℕ → ℕ → Stream → FuncDecl
  func_decl id parent name params file path start end start_line end_line s = record {
    id = id;
    parent = rooted_scope s.lang parent (base_of opts);
    name = name;
    params = params;
    file = file;
    path = repo_relative_identity (base_of opts) path;
    start = start;
    end = end;
    start_line = start_line;
    end_line = end_line;
    language = s.lang;
  }

  unfoldable pub spool_record : Record → Stream → Outcome Stream
  spool_record r s = write_edge serde r >>= λ bytes. ok (record s { spool = s.spool ++ bytes })

  -- An endpoint that names a module, and one that names a symbol.
  abbrev pub module_end : Stream → Text → Text
  module_end s endpoint = root_module_endpoint s.lang endpoint s.module_identities (base_of opts)

  abbrev pub symbol_end : Stream → Text → Text
  symbol_end s endpoint = root_edge_endpoint s.lang endpoint s.module_identities (base_of opts)

  -- What is left of the arms: the nodes of the specs and plans, else an edge.
  unfoldable pub stream_other : Record → Stream → Outcome Stream
  stream_other r s = elim (spec_row r) [
    | some (fqn, node) ↦ admit fqn node s
    | none ↦ spool_record r s
  ]

  -- The arms of the first `match` of `ingest_records`.
  unfoldable pub stream_record : Record → Stream → Outcome Stream
  stream_record (Record.module_ fqn) s = ok (stream_module fqn s)
  stream_record (Record.struct id parent name path start end start_line end_line) s =
      stream_struct id parent name path start end start_line end_line s
  stream_record (Record.function id parent name params file path start end start_line end_line) s =
      ok (record s {
        funcs =
            s.funcs
            ++ func_decl id parent name params file path start end start_line end_line s ∷ [];
      })
  stream_record (Record.file path parent start_line end_line) s =
      stream_file path parent start_line end_line s
  stream_record (Record.agent name path start_line end_line) s =
      let (fqn, node) = agent_node name path start_line end_line (base_of opts) opts.config in
      admit fqn node s
  stream_record (Record.unresolved fqn category) s = ok (stream_unresolved fqn category s)
  stream_record (Record.lang_switch language) s = ok (record s { lang = language })
  stream_record (Record.planned_node fqn kind name parent) s = stream_planned fqn kind name parent s
  stream_record (Record.contains from to properties) s =
      spool_record (Record.contains (module_end s from) (module_end s to) properties) s
  stream_record (Record.calls from to properties) s =
      spool_record (Record.calls (symbol_end s from) (symbol_end s to) properties) s
  stream_record (Record.uses from to properties) s =
      spool_record (Record.uses (symbol_end s from) (symbol_end s to) properties) s
  stream_record (Record.unresolved_call from to target_type) s =
      spool_record (Record.unresolved_call (symbol_end s from) to target_type) s
  stream_record (Record.unresolved_use from to) s =
      spool_record (Record.unresolved_use (symbol_end s from) to) s
  stream_record r s = stream_other r s
