-- ===== src/Cache/Fragment/Stored.antt =====
-- What one checkout stores of its nodes is what another reads back.
use apg.Prelude.{
  ◌≡◌, refl, Bool, true, false, not, ◌&&◌, List, [], ◌∷◌, map, Option, none, some, is_empty, arith,
  all, ap, ap₂, ◌∙◌, pair_eq,
}
use apg.Text.{Text}
use apg.Graph.{
  NodeKind, module_, struct, function, file, unresolved_target, agent, language, requirement, note,
  feedback, plan, plan_phase, task, stakeholder, user, group, entity, value, service, system,
  container, component, person, actor, role, constraint, scan, Location,
}
use apg.Ingest.Assembly.{GraphNode, default_node}
use apg.Cache.Fragment.{
  FragNode, FileFragment, rebase, placed_location, location_or_default, kind_str, stored_kind,
  stored_node, to_node, project_node, project_nodes,
}
use apg.Cache.Fragment.Portable.{starts_unseparated, rebase-unseparated}

abbrev pub is_stored_kind : NodeKind → Bool
is_stored_kind kind = elim kind [
  | module_ ↦ true
  | struct ↦ true
  | function ↦ true
  | file ↦ true
  | unresolved_target ↦ true
  | agent ↦ true
  | _ ↦ false
]

-- A location whose path is that of a file below a checkout.
abbrev is_portable : Option Location → Bool
is_portable none = true
is_portable (some loc) = not (is_empty loc.path) && starts_unseparated loc.path

abbrev pub is_storable : Text × GraphNode → Bool
is_storable (fqn, node) =
    starts_unseparated fqn && is_stored_kind node.kind && is_portable node.location

-- The columns of a node that its stored form has.
abbrev pub kept_columns : GraphNode → GraphNode
kept_columns node = record (default_node node.kind) {
  location = node.location;
  params = node.params;
  category = node.category;
  code_type = node.code_type;
  status = node.status;
}

stored_kind-kind_str :
    (kind : NodeKind) → is_stored_kind kind ≡ true → stored_kind (kind_str kind) ≡ kind
unfolding stored_kind kind_str
stored_kind-kind_str module_ h = refl
stored_kind-kind_str struct h = refl
stored_kind-kind_str function h = refl
stored_kind-kind_str file h = refl
stored_kind-kind_str unresolved_target h = refl
stored_kind-kind_str agent h = refl
stored_kind-kind_str language h = ground (arith, h)
stored_kind-kind_str requirement h = ground (arith, h)
stored_kind-kind_str note h = ground (arith, h)
stored_kind-kind_str feedback h = ground (arith, h)
stored_kind-kind_str plan h = ground (arith, h)
stored_kind-kind_str plan_phase h = ground (arith, h)
stored_kind-kind_str task h = ground (arith, h)
stored_kind-kind_str stakeholder h = ground (arith, h)
stored_kind-kind_str user h = ground (arith, h)
stored_kind-kind_str group h = ground (arith, h)
stored_kind-kind_str entity h = ground (arith, h)
stored_kind-kind_str value h = ground (arith, h)
stored_kind-kind_str service h = ground (arith, h)
stored_kind-kind_str system h = ground (arith, h)
stored_kind-kind_str container h = ground (arith, h)
stored_kind-kind_str component h = ground (arith, h)
stored_kind-kind_str person h = ground (arith, h)
stored_kind-kind_str actor h = ground (arith, h)
stored_kind-kind_str role h = ground (arith, h)
stored_kind-kind_str constraint h = ground (arith, h)
stored_kind-kind_str scan h = ground (arith, h)

location_back :
    (a b : Text) (o : Option Location)
    → is_portable o ≡ true
    → placed_location (rebase (b'/' ∷ a) (b'/' ∷ b)) (location_or_default o) ≡ o
location_back a b none h = refl
location_back a b (some loc) h = ground (arith, h, rebase-unseparated a b loc.path)

to_node-stored_node :
    (a b fqn : Text) (node : GraphNode)
    → is_stored_kind node.kind ≡ true
    → is_portable node.location ≡ true
    → to_node (rebase (b'/' ∷ a) (b'/' ∷ b)) (stored_node fqn node) ≡ kept_columns node
unfolding to_node stored_node
to_node-stored_node a b fqn node h k =
    rw (stored_kind-kind_str node.kind h, location_back a b node.location k) refl

abbrev pub stored_row : Text × GraphNode → FragNode
stored_row (fqn, node) = stored_node fqn node

abbrev pub kept_row : Text × GraphNode → Text × GraphNode
kept_row (fqn, node) = (fqn, kept_columns node)

both_hold : (p q : Bool) → (p && q) ≡ true → (p ≡ true) × (q ≡ true)
both_hold p q h = ground arith

row_back :
    (a b : Text) (row : Text × GraphNode)
    → is_storable row ≡ true
    → project_node (b'/' ∷ a) (b'/' ∷ b) (stored_row row) ≡ kept_row row
unfolding stored_node
row_back a b (fqn, node) h =
    let (kept, placed) =
      both_hold (starts_unseparated fqn && is_stored_kind node.kind) (is_portable node.location)
        h in
    let (named, known) = both_hold (starts_unseparated fqn) (is_stored_kind node.kind) kept in
    ap₂ (λ x y. (x, y)) (rebase-unseparated a b fqn named)
      (to_node-stored_node a b fqn node known placed)

-- For two checkouts with absolute roots and nodes of the kinds that are stored, whose names and
-- locations are those of files below a checkout, the nodes that one stores are read back by the
-- other in their order, with their names and with each column that the stored form has.
pub project_nodes-stored :
    (f : FileFragment) (a b : Text) (rows : List (Text × GraphNode))
    → all is_storable rows ≡ true
    → project_nodes (record f { nodes = map stored_row rows }) (b'/' ∷ a) (b'/' ∷ b)
      ≡ map kept_row rows
unfolding project_nodes
project_nodes-stored f a b [] h = refl
project_nodes-stored f a b (row ∷ rows) h =
    let (first, rest) = both_hold (is_storable row) (all is_storable rows) h in
    ap (λ r. r ∷ map (project_node (b'/' ∷ a) (b'/' ∷ b)) (map stored_row rows))
      (row_back a b row first)
    ∙ ap (λ rs. kept_row row ∷ rs) (project_nodes-stored f a b rows rest)
