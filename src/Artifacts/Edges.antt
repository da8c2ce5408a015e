-- ===== src/Artifacts/Edges.antt =====
-- `edge_merge`, `edge_endpoints` and `node_fqn` of src/artifacts/merge.rs.
pub mod Agree
use apg.Prelude.{Option, none, some, List, [], ◌∷◌}
use apg.Text.{Text, codes}
use apg.Schema.{Record, NodeProperties}

-- The table, the endpoints and the properties column of an edge.
pub record EdgeRow : Type 0 where
  pub table : Text
  pub from : Text
  pub to : Text
  pub properties : Option NodeProperties

abbrev pub plain_row : Text → Text → Text → EdgeRow
plain_row table from to = record { table = table; from = from; to = to; properties = none }

abbrev pub authored_row : Text → Text → Text → NodeProperties → EdgeRow
authored_row table from to properties = record {
  table = table;
  from = from;
  to = to;
  properties = some properties;
}

unfoldable pub edge_merge : Record → Option EdgeRow
edge_merge (Record.contains from to properties) =
    some (authored_row (codes "Contains") from to properties)
edge_merge (Record.calls from to properties) =
    some (authored_row (codes "Calls") from to properties)
edge_merge (Record.uses from to properties) = some (authored_row (codes "Uses") from to properties)
edge_merge (Record.assigned_to from to) = some (plain_row (codes "AssignedTo") from to)
edge_merge (Record.implements from to) = some (plain_row (codes "Implements") from to)
edge_merge (Record.target from to) = some (plain_row (codes "Target") from to)
edge_merge (Record.module_create from to) = some (plain_row (codes "ModuleCreate") from to)
edge_merge (Record.module_modify from to) = some (plain_row (codes "ModuleModify") from to)
edge_merge (Record.module_delete from to) = some (plain_row (codes "ModuleDelete") from to)
edge_merge (Record.module_move from to) = some (plain_row (codes "ModuleMove") from to)
edge_merge (Record.module_rename from to) = some (plain_row (codes "ModuleRename") from to)
edge_merge (Record.file_create from to) = some (plain_row (codes "FileCreate") from to)
edge_merge (Record.file_modify from to) = some (plain_row (codes "FileModify") from to)
edge_merge (Record.file_delete from to) = some (plain_row (codes "FileDelete") from to)
edge_merge (Record.file_move from to) = some (plain_row (codes "FileMove") from to)
edge_merge (Record.file_rename from to) = some (plain_row (codes "FileRename") from to)
edge_merge (Record.struct_create from to) = some (plain_row (codes "StructCreate") from to)
edge_merge (Record.struct_modify from to) = some (plain_row (codes "StructModify") from to)
edge_merge (Record.struct_delete from to) = some (plain_row (codes "StructDelete") from to)
edge_merge (Record.struct_move from to) = some (plain_row (codes "StructMove") from to)
edge_merge (Record.struct_rename from to) = some (plain_row (codes "StructRename") from to)
edge_merge (Record.function_create from to) = some (plain_row (codes "FunctionCreate") from to)
edge_merge (Record.function_modify from to) = some (plain_row (codes "FunctionModify") from to)
edge_merge (Record.function_delete from to) = some (plain_row (codes "FunctionDelete") from to)
edge_merge (Record.function_move from to) = some (plain_row (codes "FunctionMove") from to)
edge_merge (Record.function_rename from to) = some (plain_row (codes "FunctionRename") from to)
edge_merge (Record.details from to properties) =
    some (authored_row (codes "Details") from to properties)
edge_merge (Record.applies_to from to properties) =
    some (authored_row (codes "AppliesTo") from to properties)
edge_merge (Record.reviews from to) = some (plain_row (codes "Reviews") from to)
edge_merge (Record.gates from to) = some (plain_row (codes "Gates") from to)
edge_merge (Record.satisfies from to) = some (plain_row (codes "Satisfies") from to)
edge_merge (Record.driven_by from to properties) =
    some (authored_row (codes "DrivenBy") from to properties)
edge_merge (Record.represents from to properties) =
    some (authored_row (codes "Represents") from to properties)
edge_merge (Record.spec_implemented_by from to properties) =
    some (authored_row (codes "SpecImplementedBy") from to properties)
edge_merge (Record.publishes from to properties) =
    some (authored_row (codes "Publishes") from to properties)
edge_merge (Record.subscribes from to properties) =
    some (authored_row (codes "Subscribes") from to properties)
edge_merge (Record.requires from to properties) =
    some (authored_row (codes "Requires") from to properties)
edge_merge (Record.reads from to properties) =
    some (authored_row (codes "Reads") from to properties)
edge_merge (Record.writes from to properties) =
    some (authored_row (codes "Writes") from to properties)
edge_merge (Record.is_role from to properties) =
    some (authored_row (codes "IsRole") from to properties)
edge_merge (Record.realises from to properties) =
    some (authored_row (codes "Realises") from to properties)
edge_merge _ = none

unfoldable pub edge_endpoints : Record → Option (Text × Text)
edge_endpoints (Record.contains from to _) = some (from, to)
edge_endpoints (Record.calls from to _) = some (from, to)
edge_endpoints (Record.uses from to _) = some (from, to)
edge_endpoints (Record.assigned_to from to) = some (from, to)
edge_endpoints (Record.implements from to) = some (from, to)
edge_endpoints (Record.target from to) = some (from, to)
edge_endpoints (Record.module_create from to) = some (from, to)
edge_endpoints (Record.module_modify from to) = some (from, to)
edge_endpoints (Record.module_delete from to) = some (from, to)
edge_endpoints (Record.module_move from to) = some (from, to)
edge_endpoints (Record.module_rename from to) = some (from, to)
edge_endpoints (Record.file_create from to) = some (from, to)
edge_endpoints (Record.file_modify from to) = some (from, to)
edge_endpoints (Record.file_delete from to) = some (from, to)
edge_endpoints (Record.file_move from to) = some (from, to)
edge_endpoints (Record.file_rename from to) = some (from, to)
edge_endpoints (Record.struct_create from to) = some (from, to)
edge_endpoints (Record.struct_modify from to) = some (from, to)
edge_endpoints (Record.struct_delete from to) = some (from, to)
edge_endpoints (Record.struct_move from to) = some (from, to)
edge_endpoints (Record.struct_rename from to) = some (from, to)
edge_endpoints (Record.function_create from to) = some (from, to)
edge_endpoints (Record.function_modify from to) = some (from, to)
edge_endpoints (Record.function_delete from to) = some (from, to)
edge_endpoints (Record.function_move from to) = some (from, to)
edge_endpoints (Record.function_rename from to) = some (from, to)
edge_endpoints (Record.details from to _) = some (from, to)
edge_endpoints (Record.applies_to from to _) = some (from, to)
edge_endpoints (Record.reviews from to) = some (from, to)
edge_endpoints (Record.gates from to) = some (from, to)
edge_endpoints (Record.satisfies from to) = some (from, to)
edge_endpoints (Record.driven_by from to _) = some (from, to)
edge_endpoints (Record.represents from to _) = some (from, to)
edge_endpoints (Record.spec_implemented_by from to _) = some (from, to)
edge_endpoints (Record.publishes from to _) = some (from, to)
edge_endpoints (Record.subscribes from to _) = some (from, to)
edge_endpoints (Record.requires from to _) = some (from, to)
edge_endpoints (Record.reads from to _) = some (from, to)
edge_endpoints (Record.writes from to _) = some (from, to)
edge_endpoints (Record.is_role from to _) = some (from, to)
edge_endpoints (Record.realises from to _) = some (from, to)
edge_endpoints _ = none

unfoldable pub node_fqn : Record → Option Text
node_fqn (Record.requirement fqn _ _ _ _ _) = some fqn
node_fqn (Record.planned_node fqn _ _ _) = some fqn
node_fqn (Record.note fqn _ _ _) = some fqn
node_fqn (Record.feedback fqn _ _ _) = some fqn
node_fqn (Record.plan fqn _ _) = some fqn
node_fqn (Record.plan_phase fqn _ _ _ _) = some fqn
node_fqn (Record.task fqn _ _) = some fqn
node_fqn (Record.stakeholder fqn _ _ _) = some fqn
node_fqn (Record.entity fqn _ _ _) = some fqn
node_fqn (Record.system fqn _ _ _) = some fqn
node_fqn (Record.container fqn _ _ _ _) = some fqn
node_fqn (Record.component fqn _ _ _) = some fqn
node_fqn (Record.user fqn _ _ _) = some fqn
node_fqn (Record.group fqn _ _ _ _ _) = some fqn
node_fqn (Record.value fqn _ _ _) = some fqn
node_fqn (Record.service fqn _ _ _) = some fqn
node_fqn (Record.person fqn _ _ _) = some fqn
node_fqn (Record.actor fqn _ _ _) = some fqn
node_fqn (Record.role fqn _ _ _) = some fqn
node_fqn (Record.constraint fqn _ _ _) = some fqn
node_fqn _ = none
