-- ===== src/Impact/DepIndex.antt =====
-- The file-level dependency index of src/impact/depindex.rs.
use apg.Prelude.{
  ◌||◌, List, [], ◌∷◌, Option, none, some, ◌++◌, if◌then◌else◌, ◌==◌, nat_eq, list_eq, is_empty,
  filter_map, map, Map, lookup, entry_insert,
}
use apg.Text.{Text}
use apg.Graph.{Graph, Node, NodeKind, Location}

pub record DepIndex : Type 0 where
  pub forward : Map Text (List Text)
  pub reverse : Map Text (List Text)

abbrev pub empty_index : DepIndex
empty_index = record { forward = []; reverse = [] }

location_file : Text → Option Location → Option (Text × Text)
location_file fqn none = none
location_file fqn (some loc) = some (fqn, loc.path)

-- One round of the loop over the nodes.
file_entry_of : Text → NodeKind → Option Location → Option (Text × Text)
unfolding location_file
file_entry_of fqn NodeKind.file loc = some (fqn, fqn)
file_entry_of fqn NodeKind.struct loc = location_file fqn loc
file_entry_of fqn NodeKind.function loc = location_file fqn loc
file_entry_of fqn _ loc = none

-- `file_of`: FQN → declaring file
unfoldable pub file_of : Map Text Node → Map Text Text
unfolding file_entry_of
file_of nodes = filter_map (λ (fqn, node). file_entry_of fqn node.kind node.location) nodes

-- The closure `edge_files`, over the forward map.
unfoldable pub edge_of_files :
    Option Text → Option Text → Map Text (List Text) → Map Text (List Text)
edge_of_files (some fa) (some fb) forward =
    if fa == fb || is_empty fa || is_empty fb then forward else entry_insert fa fb forward
edge_of_files _ _ forward = forward

unfoldable pub edge_files :
    Map Text Text → Text → Text → Map Text (List Text) → Map Text (List Text)
unfolding edge_of_files
edge_files files a b forward = edge_of_files (lookup a files) (lookup b files) forward

-- The loops over one edge set.
unfoldable pub edges_files :
    Map Text Text → List (Text × Text) → Map Text (List Text) → Map Text (List Text)
edges_files files [] forward = forward
edges_files files ((a, b) ∷ es) forward = edges_files files es (edge_files files a b forward)

abbrev pub drop_type : Text × Text × Text → Text × Text
drop_type (a, b, _) = (a, b)

-- `for d in deps { idx.reverse.entry(d).or_default().insert(f) }`
unfoldable pub reverse_of_file : Text → List Text → Map Text (List Text) → Map Text (List Text)
reverse_of_file f [] reverse = reverse
reverse_of_file f (d ∷ deps) reverse = reverse_of_file f deps (entry_insert d f reverse)

unfoldable pub reverse_of : Map Text (List Text) → Map Text (List Text) → Map Text (List Text)
reverse_of [] reverse = reverse
reverse_of ((f, deps) ∷ forward) reverse = reverse_of forward (reverse_of_file f deps reverse)

-- The references of a graph, in the order of the four loops.
abbrev pub references : Graph → List (Text × Text)
references graph =
    graph.calls ++ graph.uses ++ map drop_type graph.unresolved_calls ++ graph.unresolved_uses

-- `DepIndex::from_graph`
unfoldable pub from_graph : Graph → DepIndex
from_graph graph =
    let files = file_of graph.nodes in
    let calls = edges_files files graph.calls [] in
    let uses = edges_files files graph.uses calls in
    let unresolved = edges_files files (map drop_type graph.unresolved_calls) uses in
    let forward = edges_files files graph.unresolved_uses unresolved in
    record { forward = forward; reverse = reverse_of forward [] }

-- `dep_index_rel`
unfoldable pub rel_edges : List (Text × Text) → DepIndex → DepIndex
rel_edges [] idx = idx
rel_edges ((dependent, dependency) ∷ edges) idx = rel_edges edges (record {
  forward = entry_insert dependent dependency idx.forward;
  reverse = entry_insert dependency dependent idx.reverse;
})

unfoldable pub dep_index_rel : List (Text × Text) → DepIndex
unfolding rel_edges
dep_index_rel edges = rel_edges edges empty_index
