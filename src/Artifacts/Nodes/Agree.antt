-- ===== src/Artifacts/Nodes/Agree.antt =====
-- `node_merge`, `node_fqn` and `edge_merge` on one record.
use apg.Prelude.{◌≡◌, refl, arith, Option, none, some}
use apg.Text.{Text}
use apg.Schema.{Record}
use apg.Artifacts.Edges.{edge_merge, node_fqn}
use apg.Artifacts.Nodes.{Merge, row, planned_label, planned_merge, node_merge}

-- What a name and an answer of `node_merge` have to do with each other.
abbrev pub Fits : Record → Merge → Type 0
Fits r Merge.skipped = node_fqn r ≡ none
Fits r (Merge.merged row) = (node_fqn r ≡ some row.fqn) × (edge_merge r ≡ none)
Fits r (Merge.panicked kind) =
    (fqn : Text) × (name : Text) × (parent : Text) × ((r ≡ Record.planned_node fqn kind name parent)
      × (planned_label kind ≡ none))

planned_merge-Fits :
    (fqn kind name parent : Text) (label : Option Text)
    → planned_label kind ≡ label
    → Fits (Record.planned_node fqn kind name parent) (planned_merge fqn kind label)
unfolding node_fqn edge_merge planned_merge
planned_merge-Fits fqn kind name parent none h = (fqn, name, parent, (refl, h))
planned_merge-Fits fqn kind name parent (some label) h = (refl, refl)

-- `node_merge` skips exactly the records without a name, gives each other record its own name and
-- never an edge, and panics only on a planned node whose kind is none of the four.
pub node_merge-Fits : (r : Record) → Fits r (node_merge r)
unfolding node_merge node_fqn edge_merge
node_merge-Fits (Record.planned_node fqn kind name parent) =
    planned_merge-Fits fqn kind name parent (planned_label kind) refl
node_merge-Fits (Record.module_ _) = refl
node_merge-Fits _ = ground arith
