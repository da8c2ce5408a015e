-- ===== src/Ingest/Spool.antt =====
-- The edge spool of src/ingest/edges.rs: the bytes that `write_edge` writes and `EdgeReader` reads.
pub mod Roundtrip
pub mod Ends
use apg.Prelude.{
  ℕ, zero, suc, ◌+◌, ◌*◌, ◌/◌, ◌%◌, ◌^◌, Bool, List, [], ◌∷◌, ◌++◌, Option, none, some, length, all,
  lookup, nat_eq, if◌then◌else◌,
}
use mathlib.Core.Option
use apg.Text.{Text, is_whitespace}
use apg.Text.Utf8.{as_bytes, from_utf8}
use apg.Schema.{Record, NodeProperties}
use apg.Ingest.Outcome.{Outcome, panic, ok, ◌>>=◌, unwrap}

-- `serde_json` on a map of texts.
pub record Serde : Type 0 where
  pub to_string : NodeProperties → Text
  pub from_str : Text → Option NodeProperties

-- `layers::properties_from_json`
unfoldable pub properties_from_json : Serde → Text → Option NodeProperties
properties_from_json serde raw = if all is_whitespace raw then some [] else serde.from_str raw

-- `u32::to_le_bytes` and `u32::from_le_bytes`
abbrev pub to_le_bytes : ℕ → List ℕ
to_le_bytes n = n % 256 ∷ n / 256 % 256 ∷ n / 65536 % 256 ∷ n / 16777216 % 256 ∷ []

abbrev pub from_le_bytes : ℕ → ℕ → ℕ → ℕ → ℕ
from_le_bytes a b c d = a + b * 256 + c * 65536 + d * 16777216

-- A length as a `u32`, then the bytes.
unfoldable pub write_str : Text → List ℕ
write_str s = to_le_bytes (length (as_bytes s) % 2 ^ 32) ++ as_bytes s

-- What `write_edge` hands to `write_edge_fields`.
pub record EdgeFields : Type 0 where
  pub tag : ℕ
  pub from : Text
  pub to : Text
  pub target_type : Text
  pub properties : NodeProperties

unfoldable pub write_edge_fields : Serde → EdgeFields → List ℕ
write_edge_fields serde e =
    e.tag ∷ write_str e.from
    ++ (write_str e.to ++ (write_str e.target_type ++ write_str (serde.to_string e.properties)))

abbrev fields : ℕ → Text → Text → Text → NodeProperties → Option EdgeFields
fields tag from to target_type properties =
    some (record {
      tag = tag;
      from = from;
      to = to;
      target_type = target_type;
      properties = properties;
    })

-- The arms of `write_edge`: the tag and the columns that an edge is written under. Those of the
-- task edges, which have no properties:
unfoldable pub task_edge_fields : Record → Option EdgeFields
task_edge_fields (Record.assigned_to from to) = fields 21 from to [] []
task_edge_fields (Record.implements from to) = fields 22 from to [] []
task_edge_fields (Record.target from to) = fields 23 from to [] []
task_edge_fields (Record.module_create from to) = fields 24 from to [] []
task_edge_fields (Record.module_modify from to) = fields 25 from to [] []
task_edge_fields (Record.module_delete from to) = fields 26 from to [] []
task_edge_fields (Record.module_move from to) = fields 27 from to [] []
task_edge_fields (Record.module_rename from to) = fields 28 from to [] []
task_edge_fields (Record.file_create from to) = fields 29 from to [] []
task_edge_fields (Record.file_modify from to) = fields 30 from to [] []
task_edge_fields (Record.file_delete from to) = fields 31 from to [] []
task_edge_fields (Record.file_move from to) = fields 32 from to [] []
task_edge_fields (Record.file_rename from to) = fields 33 from to [] []
task_edge_fields (Record.struct_create from to) = fields 34 from to [] []
task_edge_fields (Record.struct_modify from to) = fields 35 from to [] []
task_edge_fields (Record.struct_delete from to) = fields 36 from to [] []
task_edge_fields (Record.struct_move from to) = fields 37 from to [] []
task_edge_fields (Record.struct_rename from to) = fields 38 from to [] []
task_edge_fields (Record.function_create from to) = fields 39 from to [] []
task_edge_fields (Record.function_modify from to) = fields 40 from to [] []
task_edge_fields (Record.function_delete from to) = fields 41 from to [] []
task_edge_fields (Record.function_move from to) = fields 42 from to [] []
task_edge_fields (Record.function_rename from to) = fields 43 from to [] []
task_edge_fields _ = none

-- and those of all others:
unfoldable pub edge_fields : Record → Option EdgeFields
edge_fields (Record.contains from to properties) = fields 0 from to [] properties
edge_fields (Record.calls from to properties) = fields 1 from to [] properties
edge_fields (Record.uses from to properties) = fields 2 from to [] properties
edge_fields (Record.unresolved_call from to target_type) = fields 3 from to target_type []
edge_fields (Record.unresolved_use from to) = fields 4 from to [] []
edge_fields (Record.details from to properties) = fields 5 from to [] properties
edge_fields (Record.applies_to from to properties) = fields 44 from to [] properties
edge_fields (Record.reviews from to) = fields 6 from to [] []
edge_fields (Record.gates from to) = fields 8 from to [] []
edge_fields (Record.satisfies from to) = fields 9 from to [] []
edge_fields (Record.driven_by from to properties) = fields 10 from to [] properties
edge_fields (Record.represents from to properties) = fields 11 from to [] properties
edge_fields (Record.spec_implemented_by from to properties) = fields 13 from to [] properties
edge_fields (Record.publishes from to properties) = fields 14 from to [] properties
edge_fields (Record.subscribes from to properties) = fields 15 from to [] properties
edge_fields (Record.requires from to properties) = fields 16 from to [] properties
edge_fields (Record.reads from to properties) = fields 17 from to [] properties
edge_fields (Record.writes from to properties) = fields 18 from to [] properties
edge_fields (Record.is_role from to properties) = fields 19 from to [] properties
edge_fields (Record.realises from to properties) = fields 20 from to [] properties
edge_fields r = task_edge_fields r

-- `write_edge`, which panics on a record that is no edge
unfoldable pub write_edge : Serde → Record → Outcome (List ℕ)
write_edge serde r = unwrap (edge_fields r) >>= λ e. ok (write_edge_fields serde e)

abbrev pub push_front : ℕ → Option (List ℕ × List ℕ) → Option (List ℕ × List ℕ)
push_front b none = none
push_front b (some (front, rest)) = some (b ∷ front, rest)

-- `read_exact` on `n` bytes: what it read and what is left
unfoldable pub read_exact : ℕ → List ℕ → Option (List ℕ × List ℕ)
read_exact zero bytes = some ([], bytes)
read_exact (suc n) [] = none
read_exact (suc n) (b ∷ bytes) = push_front b (read_exact n bytes)

abbrev pub read_body : Option (List ℕ × List ℕ) → Outcome (Text × List ℕ)
read_body none = panic
read_body (some (front, rest)) = unwrap (from_utf8 front) >>= λ s. ok (s, rest)

-- `EdgeReader::read_str`
unfoldable pub read_str : List ℕ → Outcome (Text × List ℕ)
read_str (a ∷ b ∷ c ∷ d ∷ bytes) = read_body (read_exact (from_le_bytes a b c d) bytes)
read_str _ = panic

-- The arms of `next_edge`: for each tag the record that it builds.
abbrev pub edge_arms : List (ℕ × (Text → Text → Text → NodeProperties → Record))
edge_arms =
    (0, λ a b _ p. Record.contains a b p)
    ∷ (1, λ a b _ p. Record.calls a b p)
    ∷ (2, λ a b _ p. Record.uses a b p)
    ∷ (3, λ a b c _. Record.unresolved_call a b c)
    ∷ (4, λ a b _ _. Record.unresolved_use a b)
    ∷ (5, λ a b _ p. Record.details a b p)
    ∷ (6, λ a b _ _. Record.reviews a b)
    ∷ (8, λ a b _ _. Record.gates a b)
    ∷ (9, λ a b _ _. Record.satisfies a b)
    ∷ (10, λ a b _ p. Record.driven_by a b p)
    ∷ (11, λ a b _ p. Record.represents a b p)
    ∷ (13, λ a b _ p. Record.spec_implemented_by a b p)
    ∷ (14, λ a b _ p. Record.publishes a b p)
    ∷ (15, λ a b _ p. Record.subscribes a b p)
    ∷ (16, λ a b _ p. Record.requires a b p)
    ∷ (17, λ a b _ p. Record.reads a b p)
    ∷ (18, λ a b _ p. Record.writes a b p)
    ∷ (19, λ a b _ p. Record.is_role a b p)
    ∷ (20, λ a b _ p. Record.realises a b p)
    ∷ (21, λ a b _ _. Record.assigned_to a b)
    ∷ (22, λ a b _ _. Record.implements a b)
    ∷ (23, λ a b _ _. Record.target a b)
    ∷ (24, λ a b _ _. Record.module_create a b)
    ∷ (25, λ a b _ _. Record.module_modify a b)
    ∷ (26, λ a b _ _. Record.module_delete a b)
    ∷ (27, λ a b _ _. Record.module_move a b)
    ∷ (28, λ a b _ _. Record.module_rename a b)
    ∷ (29, λ a b _ _. Record.file_create a b)
    ∷ (30, λ a b _ _. Record.file_modify a b)
    ∷ (31, λ a b _ _. Record.file_delete a b)
    ∷ (32, λ a b _ _. Record.file_move a b)
    ∷ (33, λ a b _ _. Record.file_rename a b)
    ∷ (34, λ a b _ _. Record.struct_create a b)
    ∷ (35, λ a b _ _. Record.struct_modify a b)
    ∷ (36, λ a b _ _. Record.struct_delete a b)
    ∷ (37, λ a b _ _. Record.struct_move a b)
    ∷ (38, λ a b _ _. Record.struct_rename a b)
    ∷ (39, λ a b _ _. Record.function_create a b)
    ∷ (40, λ a b _ _. Record.function_modify a b)
    ∷ (41, λ a b _ _. Record.function_delete a b)
    ∷ (42, λ a b _ _. Record.function_move a b)
    ∷ (43, λ a b _ _. Record.function_rename a b)
    ∷ (44, λ a b _ p. Record.applies_to a b p)
    ∷ []

unfoldable pub decoded_edge : ℕ → Text → Text → Text → NodeProperties → Option Record
decoded_edge tag a b c properties =
    Option.map (λ make. make a b c properties) (lookup tag edge_arms)

-- `EdgeReader::next_edge`: no edge at the end of the bytes, else an edge and the bytes after it
unfoldable pub next_edge : Serde → List ℕ → Outcome (Option (Record × List ℕ))
next_edge serde [] = ok none
next_edge serde (tag ∷ bytes) = read_str bytes >>= λ (a, bytes1). read_str bytes1 >>= λ (b, bytes2).
    read_str bytes2 >>= λ (c, bytes3). read_str bytes3 >>= λ (d, rest).
    unwrap (properties_from_json serde d) >>= λ properties.
    unwrap (decoded_edge tag a b c properties) >>= λ edge. ok (some (edge, rest))

abbrev pub push_edge : Record → Option (Outcome (List Record)) → Option (Outcome (List Record))
push_edge edge none = none
push_edge edge (some panic) = some panic
push_edge edge (some (ok edges)) = some (ok (edge ∷ edges))

-- `while let Some(e) = er.next_edge()`, with a round of fuel for each byte; `none` is out of fuel.
unfoldable pub read_edges : ℕ → Serde → List ℕ → Option (Outcome (List Record))
read_edges zero serde bytes = none
read_edges (suc fuel) serde bytes = elim (next_edge serde bytes) [
  | panic ↦ some panic
  | ok none ↦ some (ok [])
  | ok (some (edge, rest)) ↦ push_edge edge (read_edges fuel serde rest)
]

-- The spool that a row of records leaves.
unfoldable pub write_edges : Serde → List Record → Outcome (List ℕ)
write_edges serde [] = ok []
write_edges serde (r ∷ rs) =
    write_edge serde r >>= λ bytes. write_edges serde rs >>= λ rest. ok (bytes ++ rest)
