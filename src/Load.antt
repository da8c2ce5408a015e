-- ===== src/Load.antt =====
-- The pairs of nodes that the edge tables of the database are declared for, from
-- src/load/tables.rs.
mod Examples
use apg.Prelude.{Bool, ◌||◌, List, [], ◌∷◌, ◌++◌, map, contains, nat_eq, list_eq, triple_eq}
use apg.Text.{Text, codes}
use apg.Graph.{
  NodeKind, module_, struct, function, file, unresolved_target, language, requirement, note,
  feedback, plan, plan_phase, task, stakeholder, user, group, entity, value, service, system,
  container, component, person, actor, role, constraint, agent, scan,
}

abbrev pub contains_pairs : List (NodeKind × NodeKind)
contains_pairs =
    (language, module_)
    ∷ (module_, module_)
    ∷ (module_, file)
    ∷ (file, struct)
    ∷ (file, function)
    ∷ (struct, struct)
    ∷ (struct, function)
    ∷ (plan, plan_phase)
    ∷ (plan_phase, task)
    ∷ (requirement, requirement)
    ∷ (group, group)
    ∷ (group, entity)
    ∷ (group, service)
    ∷ (entity, value)
    ∷ (system, container)
    ∷ (container, component)
    ∷ []

-- What a note details and a feedback reviews.
abbrev pub spec_targets : List NodeKind
spec_targets =
    module_ ∷ function ∷ struct ∷ file ∷ requirement ∷ plan ∷ plan_phase ∷ task ∷ stakeholder
    ∷ entity ∷ system ∷ container ∷ component ∷ user ∷ group ∷ value ∷ service ∷ person ∷ constraint
    ∷ []

abbrev pub implementation_kinds : List NodeKind
implementation_kinds = module_ ∷ file ∷ struct ∷ function ∷ []

abbrev pub spec_rel_pairs : List (Text × NodeKind × NodeKind)
spec_rel_pairs =
    map (λ to. (codes "Details", note, to)) spec_targets
    ++ map (λ to. (codes "Reviews", feedback, to)) spec_targets
    ++ ((codes "Reviews", feedback, note)
        ∷ (codes "Gates", plan_phase, plan_phase)
        ∷ (codes "Satisfies", plan_phase, requirement)
        ∷ (codes "Requires", stakeholder, requirement)
        ∷ (codes "Requires", user, requirement)
        ∷ (codes "DrivenBy", service, requirement)
        ∷ (codes "Represents", actor, user)
        ∷ (codes "Represents", person, actor)
        ∷ [])
    ++ map (λ to. (codes "SpecImplementedBy", component, to)) implementation_kinds
    ++ ((codes "Publishes", service, entity)
        ∷ (codes "Subscribes", service, entity)
        ∷ (codes "Subscribes", actor, entity)
        ∷ (codes "Reads", service, entity)
        ∷ (codes "Writes", service, entity)
        ∷ (codes "IsRole", container, role)
        ∷ (codes "IsRole", component, role)
        ∷ (codes "Realises", component, service)
        ∷ (codes "AppliesTo", constraint, language)
        ∷ (codes "AssignedTo", task, agent)
        ∷ (codes "Implements", task, component)
        ∷ [])
    ++ map (λ to. (codes "Target", task, to)) implementation_kinds
    ++ ((codes "ModuleCreate", task, module_)
        ∷ (codes "ModuleModify", task, module_)
        ∷ (codes "ModuleDelete", task, module_)
        ∷ (codes "ModuleMove", task, module_)
        ∷ (codes "ModuleRename", task, module_)
        ∷ (codes "FileCreate", task, file)
        ∷ (codes "FileModify", task, file)
        ∷ (codes "FileDelete", task, file)
        ∷ (codes "FileMove", task, file)
        ∷ (codes "FileRename", task, file)
        ∷ (codes "StructCreate", task, struct)
        ∷ (codes "StructModify", task, struct)
        ∷ (codes "StructDelete", task, struct)
        ∷ (codes "StructMove", task, struct)
        ∷ (codes "StructRename", task, struct)
        ∷ (codes "FunctionCreate", task, function)
        ∷ (codes "FunctionModify", task, function)
        ∷ (codes "FunctionDelete", task, function)
        ∷ (codes "FunctionMove", task, function)
        ∷ (codes "FunctionRename", task, function)
        ∷ [])

unfoldable pub label_of : NodeKind → Text
label_of module_ = codes "Module"
label_of struct = codes "Struct"
label_of function = codes "Function"
label_of file = codes "File"
label_of unresolved_target = codes "UnresolvedTarget"
label_of language = codes "Language"
label_of requirement = codes "Requirement"
label_of note = codes "Note"
label_of feedback = codes "Feedback"
label_of plan = codes "Plan"
label_of plan_phase = codes "PlanPhase"
label_of task = codes "Task"
label_of stakeholder = codes "Stakeholder"
label_of user = codes "User"
label_of group = codes "DomainGroup"
label_of entity = codes "Entity"
label_of value = codes "Value"
label_of service = codes "Service"
label_of system = codes "System"
label_of container = codes "Container"
label_of component = codes "Component"
label_of person = codes "Person"
label_of actor = codes "Actor"
label_of role = codes "Role"
label_of constraint = codes "Constraint"
label_of agent = codes "Agent"
label_of scan = codes "Scan"

-- `AUTHORED_REL_PAIRS`
abbrev pub authored_rel_pairs : List (Text × Text × Text)
authored_rel_pairs =
    (codes "Calls", codes "Service", codes "Service")
    ∷ (codes "Calls", codes "Actor", codes "Service")
    ∷ (codes "Uses", codes "Person", codes "Component")
    ∷ []

abbrev contains_row : NodeKind × NodeKind → Text × Text × Text
contains_row (from, to) = (codes "Contains", label_of from, label_of to)

abbrev spec_row : Text × NodeKind × NodeKind → Text × Text × Text
spec_row (table, from, to) = (table, label_of from, label_of to)

unfoldable pub rel_table_pairs : List (Text × Text × Text)
rel_table_pairs =
    map contains_row contains_pairs ++ map spec_row spec_rel_pairs ++ authored_rel_pairs

-- The pairs of code in the `CREATE REL TABLE` statements of `Calls` and `Uses`.
abbrev pub code_rel_pairs : List (Text × Text × Text)
code_rel_pairs =
    (codes "Calls", codes "Function", codes "Function")
    ∷ (codes "Uses", codes "Function", codes "Struct")
    ∷ (codes "Uses", codes "Struct", codes "Struct")
    ∷ []

-- The database has a place for an edge of the table between nodes of these kinds.
unfoldable pub declares : Text → NodeKind → NodeKind → Bool
declares table from to =
    contains rel_table_pairs (table, label_of from, label_of to)
    || contains code_rel_pairs (table, label_of from, label_of to)
