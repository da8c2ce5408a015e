-- ===== src/Artifacts/Merge/Examples.antt =====
-- A planned node and a gate between two phases, and the theorems about their merge.
use apg.Prelude.{
  ◌≡◌, ◌↔◌, refl, Bool, false, List, [], ◌∷◌, Option, none, some, ◌==◌, Member, nat_eq, list_eq,
}
use apg.Text.{Text, codes}
use apg.Schema.{Record}
use apg.Artifacts.Edges.{EdgeRow, edge_merge, plain_row}
use apg.Artifacts.Nodes.{NodeRow, Merge, node_merge, planned_merge, planned_label}
use apg.Artifacts.Merge.{
  Statement, planned_fqn, is_planned, kept_row, node_row, known_rows, known_languages,
  missing_language, applies_to_missing_languages, panic_of, realized, rel_pair_allowed,
  known_labels, link_row, merge_edge, label_of, merge_records,
}
use apg.Artifacts.Merge.Upserts.{is_realized}
use apg.Artifacts.Merge.Links.{Linked}
use apg.Artifacts.Merge.Correct.{merge_records-upsert, merge_records-link}

abbrev batch : List Record
batch =
    Record.planned_node (codes "m.S") (codes "struct") [] []
    ∷ Record.planned_node (codes "m.f") (codes "function") [] []
    ∷ Record.gates (codes "p1") (codes "p2")
    ∷ Record.satisfies (codes "p1") (codes "r")
    ∷ Record.applies_to (codes "c") (codes "go") []
    ∷ []

-- The node `m.f` is realized.
abbrev is_present : Text → Bool
is_present fqn = fqn == codes "m.f"

abbrev no_label : Text → Option Text
no_label fqn = none

abbrev phase_label : Text → Option Text
phase_label fqn = some (codes "PlanPhase")

abbrev declared : List (Text × Text × Text)
declared = (codes "Gates", codes "PlanPhase", codes "PlanPhase") ∷ []

abbrev struct_row : NodeRow
struct_row = record {
  label = codes "Struct";
  fqn = codes "m.S";
  props = (codes "status", codes "planned") ∷ [];
  properties = none;
}

abbrev gate_row : EdgeRow
gate_row = plain_row (codes "Gates") (codes "p1") (codes "p2")

abbrev statements : List Statement
statements =
    Statement.upsert struct_row
    ∷ Statement.language (codes "go")
    ∷ Statement.link (codes "PlanPhase") (codes "PlanPhase") gate_row
    ∷ []

sent_batch : merge_records is_present no_label phase_label declared batch ≡ some statements
unfolding merge_records realized planned_fqn is_planned kept_row node_row known_rows known_languages
    missing_language applies_to_missing_languages panic_of rel_pair_allowed known_labels link_row
    merge_edge label_of node_merge planned_merge planned_label edge_merge
sent_batch = refl

merge_records-upsert_example : Member (Statement.upsert struct_row) statements ↔ (
    (r : Record) × (Member r batch
      × (node_merge r ≡ Merge.merged struct_row)
      × (is_realized is_present batch r struct_row ≡ false)))
merge_records-upsert_example =
    merge_records-upsert is_present no_label phase_label declared batch statements struct_row
      sent_batch

merge_records-link_example :
    Member (Statement.link (codes "PlanPhase") (codes "PlanPhase") gate_row) statements ↔ (
      (r : Record) × (Member r batch
        × (edge_merge r ≡ some gate_row)
        × Linked declared
            (label_of is_present no_label phase_label declared batch)
            gate_row
            (codes "PlanPhase")
            (codes "PlanPhase")))
merge_records-link_example =
    merge_records-link is_present no_label phase_label declared batch statements (codes "PlanPhase")
      (codes "PlanPhase") gate_row sent_batch
