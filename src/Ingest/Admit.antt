-- ===== src/Ingest/Admit.antt =====
-- The admission of nodes in src/ingest/mod.rs: `claim`, `insert_node` and what they are given.
-- The progress symbols, which only go to the terminal, are left out.
pub mod Converge
pub mod Claims
use apg.Prelude.{
  ℕ, Bool, true, false, not, ◌&&◌, List, [], ◌∷◌, ◌++◌, Option, none, some, filter, is_empty,
  insert, Map, lookup, has_key, put, ◌==◌, nat_eq, list_eq, pair_eq, if◌then◌else◌,
}
use apg.Text.{Text, codes}
use apg.Graph.{NodeKind, Location}
use apg.Classify.Config.{ApgConfig}
use apg.Classify.CodeType.{classify_code_type}
use apg.Ingest.Outcome.{Outcome, panic, ok}
use apg.Ingest.Identity.{repo_relative_identity}
use apg.Ingest.Assembly.{GraphNode, default_node, EdgeSet, set_eq, Assembly}

abbrev pub opt : Text → Option Text
opt s = if is_empty s then none else some s

abbrev pub Claims : Type 0
Claims = Map Text (Text × NodeKind)

unfoldable pub claim : Claims → Text → Text → NodeKind → Outcome Claims
claim seen id fqn kind = elim (lookup fqn seen) [
  | none ↦ ok (put fqn (id, kind) seen)
  | some (prev, _) ↦ if prev == id then ok seen else panic
]

-- `node.status.as_deref() == Some("planned")`, `node.status.is_none()`
abbrev pub has_planned_status : GraphNode → Bool
has_planned_status node = elim node.status [ none ↦ false | some s ↦ s == codes "planned" ]

abbrev pub has_no_status : GraphNode → Bool
has_no_status node = elim node.status [ none ↦ true | some s ↦ false ]

-- `kind == NodeKind::UnresolvedTarget`
abbrev pub is_unresolved_kind : NodeKind → Bool
is_unresolved_kind NodeKind.unresolved_target = true
is_unresolved_kind _ = false

-- `nodes.remove(&k)`
abbrev pub remove : Text → Map Text GraphNode → Map Text GraphNode
remove k = filter (λ entry. not (entry.0 == k))

abbrev pub add_node : Text → GraphNode → Assembly → Assembly
add_node fqn node g = record g { nodes = put fqn node g.nodes }

-- `graph.contains.insert((a, b))` and the same on the other sets
abbrev pub add_edge : EdgeSet → Text × Text → Assembly → Assembly
add_edge set pair g = record g {
  edges = λ s. if s == set then insert pair (g.edges s) else g.edges s;
}

unfoldable pub insert_over : GraphNode → Text → GraphNode → Assembly → Outcome Assembly
insert_over existing fqn node g =
    if is_unresolved_kind existing.kind
    then ok (add_node fqn node g)
    else if has_planned_status existing && has_no_status node
    then ok (add_node fqn node (record g { nodes = remove fqn g.nodes }))
    else if has_planned_status node
    then ok g
    else panic

unfoldable pub insert_node : Text → GraphNode → Assembly → Outcome Assembly
insert_node fqn node g = elim (lookup fqn g.nodes) [
  | none ↦ ok (add_node fqn node g)
  | some existing ↦ insert_over existing fqn node g
]

unfoldable pub materialise_language : Text → Assembly → Outcome Assembly
materialise_language fqn g =
    if has_key fqn g.nodes then ok g else insert_node fqn (default_node NodeKind.language) g

-- A code node: its path, its byte span and its lines.
abbrev pub code_node : NodeKind → Text → ℕ → ℕ → ℕ → ℕ → Text → GraphNode
code_node kind path start end start_line end_line code_type = record (default_node kind) {
  location = some (record {
    path = path;
    start = start;
    end = end;
    start_line = start_line;
    end_line = end_line;
  });
  code_type = code_type;
}

unfoldable pub agent_node : Text → Text → ℕ → ℕ → Text → Option ApgConfig → Text × GraphNode
agent_node name path start_line end_line base config =
    let fqn = codes "agent." ++ name in
    (
      fqn,
      code_node NodeKind.agent (repo_relative_identity base path) 0 0 start_line end_line
          (classify_code_type path fqn (codes "agent") config),
    )
