-- ===== src/Ingest/Finalize.antt =====
-- `finalize_graph` of src/ingest/mod.rs, which drops edges by the kinds of their endpoints, and the
-- tests on endpoints of src/ingest/edges.rs.
pub mod Valid
pub mod Schema
use apg.Prelude.{
  Bool, true, false, ◌&&◌, ◌||◌, List, filter, contains, [], ◌∷◌, Option, none, some, Map, lookup,
  has_key, ◌==◌, nat_eq, list_eq,
}
use apg.Text.{Text}
use apg.Graph.{NodeKind}
use apg.Ingest.Kinds.{kind_eq}
use apg.Ingest.Assembly.{GraphNode, EdgeSet, Assembly}

unfoldable pub valid_contains_pair : NodeKind → NodeKind → Bool
valid_contains_pair NodeKind.language NodeKind.module_ = true
valid_contains_pair NodeKind.module_ NodeKind.module_ = true
valid_contains_pair NodeKind.module_ NodeKind.file = true
valid_contains_pair NodeKind.file NodeKind.struct = true
valid_contains_pair NodeKind.file NodeKind.function = true
valid_contains_pair NodeKind.struct NodeKind.struct = true
valid_contains_pair NodeKind.struct NodeKind.function = true
valid_contains_pair NodeKind.plan NodeKind.plan_phase = true
valid_contains_pair NodeKind.plan_phase NodeKind.task = true
valid_contains_pair NodeKind.requirement NodeKind.requirement = true
valid_contains_pair NodeKind.group NodeKind.group = true
valid_contains_pair NodeKind.group NodeKind.entity = true
valid_contains_pair NodeKind.group NodeKind.service = true
valid_contains_pair NodeKind.entity NodeKind.value = true
valid_contains_pair NodeKind.system NodeKind.container = true
valid_contains_pair NodeKind.container NodeKind.component = true
valid_contains_pair _ _ = false

-- `graph.nodes.get(fqn).is_some_and(|n| n.kind == k)`
unfoldable pub kind_is : Map Text GraphNode → Text → NodeKind → Bool
kind_is nodes fqn k = elim (lookup fqn nodes) [ none ↦ false | some n ↦ n.kind == k ]

-- `matches!(nodes[fqn].kind, A | B)`
unfoldable pub kind_among : Map Text GraphNode → Text → List NodeKind → Bool
kind_among nodes fqn ks = elim (lookup fqn nodes) [ none ↦ false | some n ↦ contains ks n.kind ]

unfoldable pub keep_contains : Map Text GraphNode → Text → Text → Bool
keep_contains nodes a b = elim (lookup a nodes) [
  | none ↦ false
  | some n ↦ elim (lookup b nodes) [ none ↦ false | some m ↦ valid_contains_pair n.kind m.kind ]
]

abbrev pub code_kinds : List NodeKind
code_kinds = NodeKind.module_ ∷ NodeKind.file ∷ NodeKind.struct ∷ NodeKind.function ∷ []

abbrev pub callers : List NodeKind
callers = NodeKind.function ∷ NodeKind.struct ∷ []

-- The test of `filter_task_ops`.
abbrev keep_task_op : Map Text GraphNode → NodeKind → Text → Text → Bool
keep_task_op nodes to a b = kind_is nodes a NodeKind.task && kind_is nodes b to

-- The edges of each set that stay, by the kinds of their endpoints.
unfoldable pub keep_edge : EdgeSet → Map Text GraphNode → Text → Text → Bool
keep_edge EdgeSet.contains nodes a b = keep_contains nodes a b
keep_edge EdgeSet.calls nodes a b =
    (kind_is nodes a NodeKind.function && kind_is nodes b NodeKind.function)
    || (kind_is nodes a NodeKind.service && kind_is nodes b NodeKind.service)
    || (kind_is nodes a NodeKind.actor && kind_is nodes b NodeKind.service)
keep_edge EdgeSet.uses nodes a b =
    (kind_is nodes b NodeKind.struct && kind_among nodes a callers)
    || (kind_is nodes a NodeKind.person && kind_is nodes b NodeKind.component)
keep_edge EdgeSet.details nodes a b = has_key b nodes && kind_is nodes a NodeKind.note
keep_edge EdgeSet.applies_to nodes a b =
    kind_is nodes a NodeKind.constraint && kind_is nodes b NodeKind.language
keep_edge EdgeSet.reviews nodes a b = has_key b nodes && kind_is nodes a NodeKind.feedback
keep_edge EdgeSet.gates nodes a b =
    kind_is nodes a NodeKind.plan_phase && kind_is nodes b NodeKind.plan_phase
keep_edge EdgeSet.satisfies nodes a b =
    kind_is nodes a NodeKind.plan_phase && kind_is nodes b NodeKind.requirement
keep_edge EdgeSet.driven_by nodes a b =
    kind_is nodes a NodeKind.service && kind_is nodes b NodeKind.requirement
keep_edge EdgeSet.represents nodes a b =
    (kind_is nodes a NodeKind.actor && kind_is nodes b NodeKind.user)
    || (kind_is nodes a NodeKind.person && kind_is nodes b NodeKind.actor)
keep_edge EdgeSet.spec_implemented_by nodes a b =
    kind_is nodes a NodeKind.component && kind_among nodes b code_kinds
keep_edge EdgeSet.publishes nodes a b =
    kind_is nodes a NodeKind.service && kind_is nodes b NodeKind.entity
keep_edge EdgeSet.subscribes nodes a b =
    (kind_is nodes a NodeKind.service || kind_is nodes a NodeKind.actor)
    && kind_is nodes b NodeKind.entity
keep_edge EdgeSet.requires nodes a b =
    (kind_is nodes a NodeKind.stakeholder || kind_is nodes a NodeKind.user)
    && kind_is nodes b NodeKind.requirement
keep_edge EdgeSet.reads nodes a b =
    kind_is nodes a NodeKind.service && kind_is nodes b NodeKind.entity
keep_edge EdgeSet.writes nodes a b =
    kind_is nodes a NodeKind.service && kind_is nodes b NodeKind.entity
keep_edge EdgeSet.is_role nodes a b =
    kind_among nodes a (NodeKind.container ∷ NodeKind.component ∷ [])
    && kind_is nodes b NodeKind.role
keep_edge EdgeSet.realises nodes a b =
    kind_is nodes a NodeKind.component && kind_is nodes b NodeKind.service
keep_edge EdgeSet.assigned_to nodes a b =
    kind_is nodes a NodeKind.task && kind_is nodes b NodeKind.agent
keep_edge EdgeSet.implements nodes a b =
    kind_is nodes a NodeKind.task && kind_is nodes b NodeKind.component
keep_edge EdgeSet.target nodes a b = kind_is nodes a NodeKind.task && kind_among nodes b code_kinds
keep_edge EdgeSet.module_create nodes a b = keep_task_op nodes NodeKind.module_ a b
keep_edge EdgeSet.module_modify nodes a b = keep_task_op nodes NodeKind.module_ a b
keep_edge EdgeSet.module_delete nodes a b = keep_task_op nodes NodeKind.module_ a b
keep_edge EdgeSet.module_move nodes a b = keep_task_op nodes NodeKind.module_ a b
keep_edge EdgeSet.module_rename nodes a b = keep_task_op nodes NodeKind.module_ a b
keep_edge EdgeSet.file_create nodes a b = keep_task_op nodes NodeKind.file a b
keep_edge EdgeSet.file_modify nodes a b = keep_task_op nodes NodeKind.file a b
keep_edge EdgeSet.file_delete nodes a b = keep_task_op nodes NodeKind.file a b
keep_edge EdgeSet.file_move nodes a b = keep_task_op nodes NodeKind.file a b
keep_edge EdgeSet.file_rename nodes a b = keep_task_op nodes NodeKind.file a b
keep_edge EdgeSet.struct_create nodes a b = keep_task_op nodes NodeKind.struct a b
keep_edge EdgeSet.struct_modify nodes a b = keep_task_op nodes NodeKind.struct a b
keep_edge EdgeSet.struct_delete nodes a b = keep_task_op nodes NodeKind.struct a b
keep_edge EdgeSet.struct_move nodes a b = keep_task_op nodes NodeKind.struct a b
keep_edge EdgeSet.struct_rename nodes a b = keep_task_op nodes NodeKind.struct a b
keep_edge EdgeSet.function_create nodes a b = keep_task_op nodes NodeKind.function a b
keep_edge EdgeSet.function_modify nodes a b = keep_task_op nodes NodeKind.function a b
keep_edge EdgeSet.function_delete nodes a b = keep_task_op nodes NodeKind.function a b
keep_edge EdgeSet.function_move nodes a b = keep_task_op nodes NodeKind.function a b
keep_edge EdgeSet.function_rename nodes a b = keep_task_op nodes NodeKind.function a b

unfoldable pub keep_unresolved_call : Map Text GraphNode → Text × Text × Text → Bool
keep_unresolved_call nodes (a, b, _) =
    kind_is nodes a NodeKind.function && kind_is nodes b NodeKind.unresolved_target

unfoldable pub keep_unresolved_use : Map Text GraphNode → Text × Text → Bool
keep_unresolved_use nodes (a, b) =
    kind_is nodes b NodeKind.unresolved_target && kind_among nodes a callers

unfoldable pub finalize_graph : Assembly → Assembly
finalize_graph g = record g {
  edges = λ s. filter (λ e. keep_edge s g.nodes e.0 e.1) (g.edges s);
  unresolved_calls = filter (keep_unresolved_call g.nodes) g.unresolved_calls;
  unresolved_uses = filter (keep_unresolved_use g.nodes) g.unresolved_uses;
}
