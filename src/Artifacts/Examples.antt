-- ===== src/Artifacts/Examples.antt =====
-- Records of a small plan, and the theorems about record sets on them.
use mathlib.Core.Option
use mathlib.Core.Logic.{◌↔◌}
use apg.Prelude.{
  ◌≡◌, refl, true, List, [], ◌∷◌, Option, none, some, is_some, nat_eq, list_eq, Member,
}
use apg.Text.{Text, codes}
use apg.Text.Decimal.{decimal, decimal_digits}
use apg.Schema.{Record}
use apg.Artifacts.Edges.{edge_merge, edge_endpoints, node_fqn}
use apg.Artifacts.Nodes.{node_merge, planned_merge, planned_label, node_label_fqn}
use apg.Artifacts.Remove.{remove_node, stays, remove_node_iff, Touches}
use apg.Artifacts.Cycle.{cycle_closing_path, parents_from, search_loop, visit, visit_one, climb}
use apg.Artifacts.Cycle.Climb.{Walk}
use apg.Artifacts.Cycle.Correct.{Edge, cycle_closing_path-Walk, cycle_closing_path_iff}
use apg.Artifacts.Edges.Agree.{ends, edge_merge-ends}
use apg.Artifacts.Nodes.Agree.{Fits, node_merge-Fits}

abbrev gates : Record → Option (Text × Text)
gates (Record.gates from to) = some (from, to)
gates _ = none

abbrev chain : List Record
chain =
    Record.plan_phase (codes "p1") 12 (codes "One") [] (codes "done")
    ∷ Record.gates (codes "p1") (codes "p2")
    ∷ Record.satisfies (codes "p1") (codes "p3")
    ∷ Record.gates (codes "p2") (codes "p3")
    ∷ []

closing :
    cycle_closing_path chain (codes "p3") (codes "p1") gates
    ≡ some (codes "p1" ∷ codes "p2" ∷ codes "p3" ∷ [])
unfolding cycle_closing_path parents_from search_loop visit visit_one climb
closing = refl

open_end : cycle_closing_path chain (codes "p1") (codes "p3") gates ≡ none
unfolding cycle_closing_path parents_from search_loop visit visit_one
open_end = refl

removed :
    remove_node chain (codes "p3")
    ≡ Record.plan_phase (codes "p1") 12 (codes "One") [] (codes "done")
      ∷ Record.gates (codes "p1") (codes "p2")
      ∷ []
unfolding remove_node stays node_fqn edge_endpoints
removed = refl

labelled :
    node_label_fqn (Record.planned_node (codes "m.S") (codes "struct") [] [])
    ≡ some (codes "Struct", codes "m.S")
unfolding node_label_fqn node_merge planned_merge planned_label
labelled = refl

printed : decimal 120 ≡ codes "120"
unfolding decimal decimal_digits
printed = refl

cycle_closing_path-Walk_example :
    Walk (Edge gates chain) (codes "p1") (codes "p3") (codes "p1" ∷ codes "p2" ∷ codes "p3" ∷ [])
cycle_closing_path-Walk_example =
    cycle_closing_path-Walk chain (codes "p3") (codes "p1") gates
      (codes "p1" ∷ codes "p2" ∷ codes "p3" ∷ []) closing

cycle_closing_path_iff_example :
    (is_some (cycle_closing_path chain (codes "p3") (codes "p1") gates) ≡ true)
    ↔ ∥ ((path : List Text) × Walk (Edge gates chain) (codes "p1") (codes "p3") path) ∥₁
cycle_closing_path_iff_example = cycle_closing_path_iff chain (codes "p3") (codes "p1") gates

remove_node_iff_example :
    Member (Record.gates (codes "p1") (codes "p2")) (remove_node chain (codes "p3")) ↔ (
      Member (Record.gates (codes "p1") (codes "p2")) chain
      × (Touches (codes "p3") (Record.gates (codes "p1") (codes "p2")) → ⊥))
remove_node_iff_example =
    remove_node_iff chain (codes "p3") (Record.gates (codes "p1") (codes "p2"))

edge_merge-ends_example :
    Option.map ends (edge_merge (Record.gates (codes "p1") (codes "p2")))
    ≡ edge_endpoints (Record.gates (codes "p1") (codes "p2"))
edge_merge-ends_example = edge_merge-ends (Record.gates (codes "p1") (codes "p2"))

node_merge-Fits_example :
    Fits
      (Record.task (codes "t") (codes "Do") [])
      (node_merge (Record.task (codes "t") (codes "Do") []))
node_merge-Fits_example = node_merge-Fits (Record.task (codes "t") (codes "Do") [])
