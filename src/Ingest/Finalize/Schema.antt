-- ===== src/Ingest/Finalize/Schema.antt =====
-- The kinds that the edges of a graph may run between, by the tables of the database.
pub mod Ends
pub mod Kept
use apg.Prelude.{
  ◌≡◌, ◌⊎◌, inl, inr, refl, ap, ◌∙◌, Bool, true, false, not, ◌&&◌, ◌||◌, List, [], ◌∷◌, Option,
  none, some, Map, lookup, has_key, has_key-lookup, contains, arith, nat_eq, list_eq, triple_eq,
  ◌==◌, ==_iff,
}
use apg.Text.{Text, codes}
use apg.Graph.{NodeKind}
use apg.Load.{declares, rel_table_pairs, label_of}
use apg.Ingest.Kinds.{kind_eq}
use apg.Ingest.Assembly.{GraphNode, EdgeSet}
use apg.Ingest.Finalize.{
  callers, code_kinds, kind_is, kind_among, keep_contains, valid_contains_pair, keep_edge,
}

-- The table that holds a set of edges.
unfoldable pub table_of : EdgeSet → Text
table_of EdgeSet.contains = codes "Contains"
table_of EdgeSet.calls = codes "Calls"
table_of EdgeSet.uses = codes "Uses"
table_of EdgeSet.details = codes "Details"
table_of EdgeSet.applies_to = codes "AppliesTo"
table_of EdgeSet.reviews = codes "Reviews"
table_of EdgeSet.gates = codes "Gates"
table_of EdgeSet.satisfies = codes "Satisfies"
table_of EdgeSet.driven_by = codes "DrivenBy"
table_of EdgeSet.represents = codes "Represents"
table_of EdgeSet.spec_implemented_by = codes "SpecImplementedBy"
table_of EdgeSet.publishes = codes "Publishes"
table_of EdgeSet.subscribes = codes "Subscribes"
table_of EdgeSet.requires = codes "Requires"
table_of EdgeSet.reads = codes "Reads"
table_of EdgeSet.writes = codes "Writes"
table_of EdgeSet.is_role = codes "IsRole"
table_of EdgeSet.realises = codes "Realises"
table_of EdgeSet.assigned_to = codes "AssignedTo"
table_of EdgeSet.implements = codes "Implements"
table_of EdgeSet.target = codes "Target"
table_of EdgeSet.module_create = codes "ModuleCreate"
table_of EdgeSet.module_modify = codes "ModuleModify"
table_of EdgeSet.module_delete = codes "ModuleDelete"
table_of EdgeSet.module_move = codes "ModuleMove"
table_of EdgeSet.module_rename = codes "ModuleRename"
table_of EdgeSet.file_create = codes "FileCreate"
table_of EdgeSet.file_modify = codes "FileModify"
table_of EdgeSet.file_delete = codes "FileDelete"
table_of EdgeSet.file_move = codes "FileMove"
table_of EdgeSet.file_rename = codes "FileRename"
table_of EdgeSet.struct_create = codes "StructCreate"
table_of EdgeSet.struct_modify = codes "StructModify"
table_of EdgeSet.struct_delete = codes "StructDelete"
table_of EdgeSet.struct_move = codes "StructMove"
table_of EdgeSet.struct_rename = codes "StructRename"
table_of EdgeSet.function_create = codes "FunctionCreate"
table_of EdgeSet.function_modify = codes "FunctionModify"
table_of EdgeSet.function_delete = codes "FunctionDelete"
table_of EdgeSet.function_move = codes "FunctionMove"
table_of EdgeSet.function_rename = codes "FunctionRename"

-- The kinds that a set allows: those of its table, but any target for a detail, which starts at a
-- note, and for a review, which starts at a feedback.
unfoldable pub permits : EdgeSet → NodeKind → NodeKind → Bool
permits EdgeSet.details from to = from == NodeKind.note
permits EdgeSet.reviews from to = from == NodeKind.feedback
permits s from to = declares (table_of s) from to

-- Both ends are nodes of the graph, of kinds that the set allows.
pub record Permitted (s : EdgeSet) (nodes : Map Text GraphNode) (a b : Text) : Type 0 where
  pub source : GraphNode
  pub sink : GraphNode
  pub at_source : lookup a nodes ≡ some source
  pub at_sink : lookup b nodes ≡ some sink
  pub kinds : permits s source.kind sink.kind ≡ true
