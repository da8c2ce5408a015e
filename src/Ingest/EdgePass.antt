-- ===== src/Ingest/EdgePass.antt =====
-- The last pass of `ingest_records` in src/ingest/mod.rs: the edges of the spool, one by one.
use Prim.Native.String.{String}
use mathlib.Core.Option.{get_or}
use apg.Prelude.{
  ℕ, ◌+◌, Bool, ◌||◌, List, [], Option, none, some, is_empty, contains, insert, put, Map, lookup,
  nat_eq, list_eq, pair_eq, triple_eq, if◌then◌else◌,
}
use apg.Text.{Text, codes}
use apg.Schema.{Record, NodeProperties}
use apg.Ingest.Outcome.{Outcome, panic, ok, ◌>>=◌}
use apg.Ingest.Blacklist.{IngestOptions, is_blacklisted}
use apg.Ingest.Assembly.{EdgeSet, set_eq, Assembly}
use apg.Ingest.Admit.{add_edge, materialise_language}

-- The set that an edge joins, its name among the edge properties, its ends and its properties.
pub record Authored : Type 0 where
  pub set : EdgeSet
  pub wire : Text
  pub from : Text
  pub to : Text
  pub properties : NodeProperties

abbrev pub authored : EdgeSet → String → Text → Text → NodeProperties → Authored
authored set wire from to properties = record {
  set = set;
  wire = codes wire;
  from = from;
  to = to;
  properties = properties;
}

-- The arms that admit an edge without a further test, from `implemented-by` on.
unfoldable pub target_edge : Record → Option Authored
target_edge (Record.spec_implemented_by from to properties) =
    some (authored EdgeSet.spec_implemented_by "implemented-by" from to properties)
target_edge (Record.publishes from to properties) =
    some (authored EdgeSet.publishes "publishes" from to properties)
target_edge (Record.subscribes from to properties) =
    some (authored EdgeSet.subscribes "subscribes" from to properties)
target_edge (Record.requires from to properties) =
    some (authored EdgeSet.requires "requires" from to properties)
target_edge (Record.reads from to properties) =
    some (authored EdgeSet.reads "reads" from to properties)
target_edge (Record.writes from to properties) =
    some (authored EdgeSet.writes "writes" from to properties)
target_edge (Record.is_role from to properties) =
    some (authored EdgeSet.is_role "is-role" from to properties)
target_edge (Record.realises from to properties) =
    some (authored EdgeSet.realises "realises" from to properties)
target_edge _ = none

-- The arms before them; reviews, gates and satisfies hold no properties.
unfoldable pub plain_edge : Record → Option Authored
plain_edge (Record.calls from to properties) =
    some (authored EdgeSet.calls "calls" from to properties)
plain_edge (Record.uses from to properties) = some (authored EdgeSet.uses "uses" from to properties)
plain_edge (Record.details from to properties) =
    some (authored EdgeSet.details "details" from to properties)
plain_edge (Record.reviews from to) = some (authored EdgeSet.reviews "reviews" from to [])
plain_edge (Record.gates from to) = some (authored EdgeSet.gates "gates" from to [])
plain_edge (Record.satisfies from to) = some (authored EdgeSet.satisfies "satisfies" from to [])
plain_edge (Record.driven_by from to properties) =
    some (authored EdgeSet.driven_by "driven-by" from to properties)
plain_edge (Record.represents from to properties) =
    some (authored EdgeSet.represents "represents" from to properties)
plain_edge r = target_edge r

-- The arms of `admit_task_record`.
unfoldable pub task_edge : Record → Option (EdgeSet × Text × Text)
task_edge (Record.assigned_to from to) = some (EdgeSet.assigned_to, from, to)
task_edge (Record.implements from to) = some (EdgeSet.implements, from, to)
task_edge (Record.target from to) = some (EdgeSet.target, from, to)
task_edge (Record.module_create from to) = some (EdgeSet.module_create, from, to)
task_edge (Record.module_modify from to) = some (EdgeSet.module_modify, from, to)
task_edge (Record.module_delete from to) = some (EdgeSet.module_delete, from, to)
task_edge (Record.module_move from to) = some (EdgeSet.module_move, from, to)
task_edge (Record.module_rename from to) = some (EdgeSet.module_rename, from, to)
task_edge (Record.file_create from to) = some (EdgeSet.file_create, from, to)
task_edge (Record.file_modify from to) = some (EdgeSet.file_modify, from, to)
task_edge (Record.file_delete from to) = some (EdgeSet.file_delete, from, to)
task_edge (Record.file_move from to) = some (EdgeSet.file_move, from, to)
task_edge (Record.file_rename from to) = some (EdgeSet.file_rename, from, to)
task_edge (Record.struct_create from to) = some (EdgeSet.struct_create, from, to)
task_edge (Record.struct_modify from to) = some (EdgeSet.struct_modify, from, to)
task_edge (Record.struct_delete from to) = some (EdgeSet.struct_delete, from, to)
task_edge (Record.struct_move from to) = some (EdgeSet.struct_move, from, to)
task_edge (Record.struct_rename from to) = some (EdgeSet.struct_rename, from, to)
task_edge (Record.function_create from to) = some (EdgeSet.function_create, from, to)
task_edge (Record.function_modify from to) = some (EdgeSet.function_modify, from, to)
task_edge (Record.function_delete from to) = some (EdgeSet.function_delete, from, to)
task_edge (Record.function_move from to) = some (EdgeSet.function_move, from, to)
task_edge (Record.function_rename from to) = some (EdgeSet.function_rename, from, to)
task_edge _ = none

-- What the last pass reads and what it changes.
pub record EdgePass : Type 0 where
  pub graph : Assembly
  pub skipped : ℕ

abbrev pub drop_edge : EdgePass → EdgePass
drop_edge s = record s { skipped = s.skipped + 1 }

-- `if !properties.is_empty() { graph.edge_properties.insert(…) }`
abbrev pub keep_properties : Text × Text × Text → NodeProperties → Assembly → Assembly
keep_properties key properties g =
    if is_empty properties
    then g
    else record g { edge_properties = put key properties g.edge_properties }

module _ (opts : IngestOptions) (lang : Text) (id_to_fqn : Map Text Text)
    (shadowed : List Text) where
  -- `id_to_fqn.get(s).cloned().unwrap_or_else(|| s.to_string())`
  abbrev pub resolve : Text → Text
  resolve s = get_or (lookup s id_to_fqn) s

  abbrev pub is_out : Text → Bool
  is_out fqn = is_blacklisted fqn none lang opts

  abbrev pub add_authored : Authored → Assembly → Assembly
  add_authored e g =
      add_edge e.set (resolve e.from, resolve e.to)
        (keep_properties (e.wire, resolve e.from, resolve e.to) e.properties g)

  unfoldable pub admit_authored : Authored → EdgePass → EdgePass
  admit_authored e s =
      if is_out (resolve e.from) || is_out (resolve e.to)
      then drop_edge s
      else record s { graph = add_authored e s.graph }

  -- `applies-to`, whose language becomes a node
  unfoldable pub admit_applies_to : Authored → EdgePass → Outcome EdgePass
  admit_applies_to e s =
      if is_out (resolve e.from) || is_out (resolve e.to)
      then ok (drop_edge s)
      else materialise_language (resolve e.to) s.graph >>= λ g.
          ok (record s { graph = add_authored e g })

  unfoldable pub admit_task_record : EdgeSet × Text × Text → EdgePass → EdgePass
  admit_task_record (set, from, to) s =
      if is_out from || is_out to
      then drop_edge s
      else record s { graph = add_edge set (from, to) s.graph }

  unfoldable pub admit_unresolved_call : Text → Text → Text → EdgePass → EdgePass
  admit_unresolved_call from to target_type s =
      if is_out (resolve from) then drop_edge s else record s {
        graph = record s.graph {
          unresolved_calls = insert (resolve from, to, target_type) s.graph.unresolved_calls;
        };
      }

  unfoldable pub admit_unresolved_use : Text → Text → EdgePass → EdgePass
  admit_unresolved_use from to s = if is_out (resolve from) then drop_edge s else record s {
    graph = record s.graph { unresolved_uses = insert (resolve from, to) s.graph.unresolved_uses };
  }

  -- The arms left over: a record that is no edge is a panic.
  unfoldable pub admit_other : Record → EdgePass → Outcome EdgePass
  admit_other r s = elim (plain_edge r) [
    | some e ↦ ok (admit_authored e s)
    | none ↦ elim (task_edge r) [ some e ↦ ok (admit_task_record e s) | none ↦ panic ]
  ]

  -- The arms of the second `match` of `ingest_records`.
  unfoldable pub admit_edge : Record → EdgePass → Outcome EdgePass
  admit_edge (Record.contains from to properties) s =
      if contains shadowed from
      then ok s
      else ok (admit_authored (authored EdgeSet.contains "contains" from to properties) s)
  admit_edge (Record.unresolved_call from to target_type) s =
      ok (admit_unresolved_call from to target_type s)
  admit_edge (Record.unresolved_use from to) s = ok (admit_unresolved_use from to s)
  admit_edge (Record.applies_to from to properties) s =
      admit_applies_to (authored EdgeSet.applies_to "applies-to" from to properties) s
  admit_edge r s = admit_other r s
