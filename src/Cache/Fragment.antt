-- ===== src/Cache/Fragment.antt =====
-- The fact units of src/cache/fragment.rs: what a file contributed to the graph, as it is stored.
pub mod Portable
pub mod Stored
pub mod Examples
use apg.Prelude.{
  ℕ, Bool, ◌||◌, List, [], ◌∷◌, map, Option, none, some, is_empty, if◌then◌else◌, ◌==◌, nat_eq,
  list_eq,
}
use apg.Text.{Text, codes, strip_text}
use apg.Graph.{NodeKind, module_, struct, function, file, agent, Location}
use apg.Ingest.Assembly.{GraphNode, default_node}

pub record FragNode : Type 0 where
  pub fqn : Text
  pub kind : Text
  pub path : Text
  pub start : ℕ
  pub end : ℕ
  pub start_line : ℕ
  pub end_line : ℕ
  pub code_type : Text
  pub params : List Text
  pub category : Option Text
  pub status : Option Text

pub record FragEdge : Type 0 where
  pub kind : Text
  pub from : Text
  pub to : Text
  pub target_type : Text

pub record FileFragment : Type 0 where
  pub rel_path : Text
  pub blob_oid : Text
  pub lang : Text
  pub modules : List Text
  pub nodes : List FragNode
  pub edges : List FragEdge
  pub inputs : List Text

pub record ModuleScaffolding : Type 0 where
  pub modules : List Text
  pub edges : List (Text × Text)
  pub languages : List Text
  pub language_edges : List (Text × Text)

abbrev pub is_separator : ℕ → Bool
is_separator c = c == b'/' || c == b'\\'

-- `tail.trim_start_matches(['/', '\\'])`
unfoldable pub trim_separators : Text → Text
trim_separators [] = []
trim_separators (c ∷ s) = let rest = trim_separators s in if is_separator c then rest else c ∷ s

-- The tail below a root, where there is one and it starts with a separator.
unfoldable pub separated : Text → Option Text
separated [] = none
separated (c ∷ tail) = if is_separator c then some (trim_separators (c ∷ tail)) else none

-- A round of the loop over the roots, which passes over an empty one.
unfoldable pub below : Text → Text → Option Text
below s root =
    if is_empty root
    then none
    else elim (strip_text s root) [ some tail ↦ separated tail | none ↦ none ]

unfoldable pub rebase : Text → Text → Text → Text
rebase stored_root reader_root s = elim (below s stored_root) [
  | some tail ↦ tail
  | none ↦ elim (below s reader_root) [ some tail ↦ tail | none ↦ s ]
]

unfoldable pub kind_str : NodeKind → Text
kind_str kind = elim kind [
  | module_ ↦ codes "module"
  | file ↦ codes "file"
  | struct ↦ codes "struct"
  | function ↦ codes "function"
  | agent ↦ codes "agent"
  | _ ↦ codes "unresolved"
]

unfoldable pub stored_kind : Text → NodeKind
stored_kind kind =
    if kind == codes "module"
    then NodeKind.module_
    else if kind == codes "file"
    then NodeKind.file
    else if kind == codes "struct"
    then NodeKind.struct
    else if kind == codes "function"
    then NodeKind.function
    else if kind == codes "agent"
    then NodeKind.agent
    else NodeKind.unresolved_target

abbrev pub placed_location : (Text → Text) → Location → Option Location
placed_location place loc =
    if is_empty loc.path then none else some (record loc { path = place loc.path })

abbrev columns_of_location : FragNode → Location
columns_of_location n = record {
  path = n.path;
  start = n.start;
  end = n.end;
  start_line = n.start_line;
  end_line = n.end_line;
}

-- `FragNode::to_node`
unfoldable pub to_node : (Text → Text) → FragNode → GraphNode
to_node place n = record (default_node (stored_kind n.kind)) {
  location = placed_location place (columns_of_location n);
  params = n.params;
  category = n.category;
  code_type = n.code_type;
  status = n.status;
}

-- `loc.map(…).unwrap_or_default()` in each column of a location
abbrev pub location_or_default : Option Location → Location
location_or_default (some loc) = loc
location_or_default none = record { path = []; start = 0; end = 0; start_line = 0; end_line = 0 }

-- `FragNode::of`
unfoldable pub stored_node : Text → GraphNode → FragNode
stored_node fqn node = record {
  fqn = fqn;
  kind = kind_str node.kind;
  path = (location_or_default node.location).path;
  start = (location_or_default node.location).start;
  end = (location_or_default node.location).end;
  start_line = (location_or_default node.location).start_line;
  end_line = (location_or_default node.location).end_line;
  code_type = node.code_type;
  params = node.params;
  category = node.category;
  status = node.status;
}

abbrev pub project_node : Text → Text → FragNode → Text × GraphNode
project_node stored_root reader_root n =
    (rebase stored_root reader_root n.fqn, to_node (rebase stored_root reader_root) n)

-- `FileFragment::project`: its nodes and its edges; the modules are `f.modules`.
unfoldable pub project_nodes : FileFragment → Text → Text → List (Text × GraphNode)
project_nodes f stored_root reader_root = map (project_node stored_root reader_root) f.nodes

abbrev rebase_edge : Text → Text → FragEdge → FragEdge
rebase_edge stored_root reader_root e = record e {
  from = rebase stored_root reader_root e.from;
  to = rebase stored_root reader_root e.to;
}

unfoldable pub project_edges : FileFragment → Text → Text → List FragEdge
project_edges f stored_root reader_root = map (rebase_edge stored_root reader_root) f.edges
