-- ===== src/Artifacts/Nodes.antt =====
-- `node_merge` and `node_label_fqn` of src/artifacts/merge.rs.
pub mod Agree
use apg.Prelude.{ℕ, Option, none, some, List, [], ◌∷◌, Map, if◌then◌else◌, ◌==◌, nat_eq, list_eq}
use apg.Text.{Text, codes}
use apg.Text.Decimal.{decimal}
use apg.Schema.{Record, NodeProperties}

-- The label, the name, the columns and the properties column of a node.
pub record NodeRow : Type 0 where
  pub label : Text
  pub fqn : Text
  pub props : Map Text Text
  pub properties : Option NodeProperties

-- A record is no node, is a node, or stops the program by `panic!`.
pub data Merge : Type 0 where
  skipped : Merge
  merged : NodeRow → Merge
  panicked : Text → Merge

abbrev pub row : Text → Text → Map Text Text → Option NodeProperties → Merge
row label fqn props properties =
    Merge.merged (record { label = label; fqn = fqn; props = props; properties = properties })

unfoldable pub planned_label : Text → Option Text
planned_label kind =
    if kind == codes "module"
    then some (codes "Module")
    else if kind == codes "file"
    then some (codes "File")
    else if kind == codes "struct"
    then some (codes "Struct")
    else if kind == codes "function"
    then some (codes "Function")
    else none

unfoldable pub planned_merge : Text → Text → Option Text → Merge
planned_merge fqn kind (some label) = row label fqn ((codes "status", codes "planned") ∷ []) none
planned_merge fqn kind none = Merge.panicked kind

unfoldable pub node_merge : Record → Merge
node_merge (Record.requirement fqn id title body feature properties) =
    row (codes "Requirement") fqn
      ((codes "id", id)
        ∷ (codes "title", title)
        ∷ (codes "body", body)
        ∷ (codes "feature", feature)
        ∷ [])
      (some properties)
node_merge (Record.note fqn body kind properties) =
    row (codes "Note") fqn ((codes "body", body) ∷ (codes "kind", kind) ∷ []) (some properties)
node_merge (Record.feedback fqn body status disposition) =
    row (codes "Feedback") fqn
      ((codes "body", body) ∷ (codes "status", status) ∷ (codes "disposition", disposition) ∷ [])
      none
node_merge (Record.plan fqn title strategy) =
    row (codes "Plan") fqn ((codes "title", title) ∷ (codes "strategy", strategy) ∷ []) none
node_merge (Record.plan_phase fqn number title deliverable status) =
    row (codes "PlanPhase") fqn
      ((codes "number", decimal number)
        ∷ (codes "title", title)
        ∷ (codes "deliverable", deliverable)
        ∷ (codes "status", status)
        ∷ [])
      none
node_merge (Record.task fqn title status) =
    row (codes "Task") fqn ((codes "title", title) ∷ (codes "status", status) ∷ []) none
node_merge (Record.stakeholder fqn name body properties) =
    row (codes "Stakeholder") fqn ((codes "name", name) ∷ (codes "body", body) ∷ [])
      (some properties)
node_merge (Record.entity fqn name body properties) =
    row (codes "Entity") fqn ((codes "name", name) ∷ (codes "body", body) ∷ []) (some properties)
node_merge (Record.system fqn name body properties) =
    row (codes "System") fqn ((codes "name", name) ∷ (codes "body", body) ∷ []) (some properties)
node_merge (Record.container fqn name kind body properties) =
    row (codes "Container") fqn
      ((codes "name", name) ∷ (codes "kind", kind) ∷ (codes "body", body) ∷ []) (some properties)
node_merge (Record.component fqn name body properties) =
    row (codes "Component") fqn ((codes "name", name) ∷ (codes "body", body) ∷ []) (some properties)
node_merge (Record.user fqn name body properties) =
    row (codes "User") fqn ((codes "name", name) ∷ (codes "body", body) ∷ []) (some properties)
node_merge (Record.group fqn name attribute root body properties) =
    row (codes "DomainGroup") fqn
      ((codes "name", name)
        ∷ (codes "attribute", attribute)
        ∷ (codes "root", root)
        ∷ (codes "body", body)
        ∷ [])
      (some properties)
node_merge (Record.value fqn name body properties) =
    row (codes "Value") fqn ((codes "name", name) ∷ (codes "body", body) ∷ []) (some properties)
node_merge (Record.service fqn name body properties) =
    row (codes "Service") fqn ((codes "name", name) ∷ (codes "body", body) ∷ []) (some properties)
node_merge (Record.person fqn name body properties) =
    row (codes "Person") fqn ((codes "name", name) ∷ (codes "body", body) ∷ []) (some properties)
node_merge (Record.actor fqn name body properties) =
    row (codes "Actor") fqn ((codes "name", name) ∷ (codes "body", body) ∷ []) (some properties)
node_merge (Record.role fqn name body properties) =
    row (codes "Role") fqn ((codes "name", name) ∷ (codes "body", body) ∷ []) (some properties)
node_merge (Record.constraint fqn name body properties) =
    row (codes "Constraint") fqn ((codes "name", name) ∷ (codes "body", body) ∷ [])
      (some properties)
node_merge (Record.planned_node fqn kind _ _) = planned_merge fqn kind (planned_label kind)
node_merge _ = Merge.skipped

-- `node_merge(r).map(|(label, fqn, _, _)| (label, fqn))`
unfoldable pub node_label_fqn : Record → Option (Text × Text)
unfolding node_merge
node_label_fqn r = elim (node_merge r) [
  | Merge.merged row ↦ some (row.label, row.fqn)
  | Merge.skipped ↦ none
  | Merge.panicked _ ↦ none
]
