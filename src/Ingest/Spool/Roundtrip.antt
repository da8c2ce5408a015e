-- ===== src/Ingest/Spool/Roundtrip.antt =====
-- What the reader of the edge spool makes of the bytes that the writer left.
use apg.Prelude.{
  ℕ, zero, suc, ◌/◌, ◌%◌, ◌^◌, ◌<◌, ◌≡◌, refl, List, [], ◌∷◌, ◌++◌, Option, none, some, arith,
  length, length-append, All, is_some, if◌then◌else◌,
}
use mathlib.Core.List.{append_assoc}
use apg.Text.{Text, is_whitespace}
use apg.Text.Utf8.{as_bytes, IsText, from_utf8-as_bytes}
use apg.Schema.{Record, NodeProperties}
use apg.Ingest.Outcome.{ok}
use apg.Ingest.Spool.{
  Serde, properties_from_json, from_le_bytes, write_str, EdgeFields, write_edge_fields, edge_fields,
  task_edge_fields, write_edge, read_exact, read_str, decoded_edge, next_edge, read_edges,
  write_edges,
}

-- A text whose length a `u32` holds.
pub record IsColumn (s : Text) : Type 0 where
  pub is_text : IsText s
  pub fits : length (as_bytes s) < 2 ^ 32

-- What `serde_json` promises of a map: an object's text, which reads back.
pub record IsFaithful (serde : Serde) (p : NodeProperties) : Type 0 where
  pub reads_back : serde.from_str (serde.to_string p) ≡ some p
  pub opens : (rest : Text) × (serde.to_string p ≡ b'{' ∷ rest)
  pub column : IsColumn (serde.to_string p)

pub record IsSpoolable (serde : Serde) (e : EdgeFields) : Type 0 where
  pub from_column : IsColumn e.from
  pub to_column : IsColumn e.to
  pub target_column : IsColumn e.target_type
  pub faithful : IsFaithful serde e.properties

read_exact-append :
    (front rest : List ℕ) → read_exact (length front) (front ++ rest) ≡ some (front, rest)
unfolding read_exact
read_exact-append [] rest = refl
read_exact-append (b ∷ front) rest = rw (read_exact-append front rest)

le_bytes_back :
    (n : ℕ)
    → n < 2 ^ 32
    → from_le_bytes
        (n % 2 ^ 32 % 256)
        (n % 2 ^ 32 / 256 % 256)
        (n % 2 ^ 32 / 65536 % 256)
        (n % 2 ^ 32 / 16777216 % 256)
      ≡ n
le_bytes_back n h = omega arith

read_str-write_str :
    (s : Text) (rest : List ℕ) → IsColumn s → read_str (write_str s ++ rest) ≡ ok (s, rest)
unfolding read_str write_str
read_str-write_str s rest c = rw (
  le_bytes_back (length (as_bytes s)) c.fits,
  read_exact-append (as_bytes s) rest,
  from_utf8-as_bytes s c.is_text,
)

properties_back :
    (serde : Serde) (p : NodeProperties)
    → IsFaithful serde p
    → properties_from_json serde (serde.to_string p) ≡ some p
unfolding properties_from_json is_whitespace
properties_back serde p f =
    let (rest, e) = f.opens in let back = f.reads_back in ground (arith, e, back)

-- The arms of the reader invert those of the writer.
rebuilt : Option EdgeFields → Option Record
rebuilt none = none
rebuilt (some e) = decoded_edge e.tag e.from e.to e.target_type e.properties

rebuilt-edge_fields :
    (r : Record) → rebuilt (edge_fields r) ≡ (if is_some (edge_fields r) then some r else none)
unfolding rebuilt decoded_edge edge_fields task_edge_fields
rebuilt-edge_fields (Record.module_ _) = refl
rebuilt-edge_fields _ = refl

decoded_edge-edge_fields :
    (r : Record) (e : EdgeFields)
    → edge_fields r ≡ some e
    → decoded_edge e.tag e.from e.to e.target_type e.properties ≡ some r
unfolding rebuilt
decoded_edge-edge_fields r e h = rw h at (rebuilt-edge_fields r)

next_edge-fields :
    (serde : Serde) (r : Record) (e : EdgeFields) (rest : List ℕ)
    → edge_fields r ≡ some e
    → IsSpoolable serde e
    → next_edge serde (write_edge_fields serde e ++ rest) ≡ ok (some (r, rest))
unfolding next_edge write_edge_fields
next_edge-fields serde r e rest h s = rw (
  append_assoc,
  read_str-write_str e.from _ s.from_column,
  append_assoc,
  read_str-write_str e.to _ s.to_column,
  append_assoc,
  read_str-write_str e.target_type _ s.target_column,
  read_str-write_str (serde.to_string e.properties) rest s.faithful.column,
  properties_back serde e.properties s.faithful,
  decoded_edge-edge_fields r e h,
)

-- A record that the spool takes.
pub record IsSpooled (serde : Serde) (r : Record) : Type 0 where
  pub columns : EdgeFields
  pub arm : edge_fields r ≡ some columns
  pub spoolable : IsSpoolable serde columns

-- `write_edge` writes an edge whose columns fit, and `next_edge` reads it back from the front of
-- any bytes that begin with what was written, leaving the rest.
pub next_edge-write_edge :
    (serde : Serde) (r : Record) (rest : List ℕ)
    → IsSpooled serde r
    → (bytes : List ℕ) × (write_edge serde r ≡ ok bytes)
      × (next_edge serde (bytes ++ rest) ≡ ok (some (r, rest)))
unfolding write_edge
next_edge-write_edge serde r rest s = (
  write_edge_fields serde s.columns,
  rw (s.arm),
  next_edge-fields serde r s.columns rest s.arm s.spoolable,
)

read_edges_step :
    (fuel : ℕ) (serde : Serde) (bytes rest : List ℕ) (r : Record) (rs : List Record)
    → next_edge serde bytes ≡ ok (some (r, rest))
    → read_edges fuel serde rest ≡ some (ok rs)
    → read_edges (suc fuel) serde bytes ≡ some (ok (r ∷ rs))
unfolding read_edges
read_edges_step fuel serde bytes rest r rs h k = ground (arith, h, k)

read_edges_end : (fuel : ℕ) (serde : Serde) → 0 < fuel → read_edges fuel serde [] ≡ some (ok [])
unfolding read_edges next_edge
read_edges_end zero serde h = absurd (omega (arith, h))
read_edges_end (suc fuel) serde h = refl

longer :
    (serde : Serde) (e : EdgeFields) (rest : List ℕ)
    → length rest < length (write_edge_fields serde e ++ rest)
unfolding write_edge_fields
longer serde e rest = omega (arith, length-append (write_edge_fields serde e) rest)

read_edges_more :
    (fuel : ℕ) (serde : Serde) (r : Record) (rs : List Record) (rest : List ℕ)
    → (s : IsSpooled serde r)
    → ((fuel : ℕ) → length rest < fuel → read_edges fuel serde rest ≡ some (ok rs))
    → length (write_edge_fields serde s.columns ++ rest) < fuel
    → read_edges fuel serde (write_edge_fields serde s.columns ++ rest) ≡ some (ok (r ∷ rs))
read_edges_more zero serde r rs rest s back h = absurd (omega (arith, h))
read_edges_more (suc fuel) serde r rs rest s back h =
    read_edges_step fuel serde (write_edge_fields serde s.columns ++ rest) rest r rs
      (next_edge-fields serde r s.columns rest s.arm s.spoolable)
      (back fuel (omega (arith, h, longer serde s.columns rest)))

-- Any fuel above the number of bytes reads the whole spool.
spool_back :
    (serde : Serde) (rs : List Record)
    → All (IsSpooled serde) rs
    → (bytes : List ℕ) × (write_edges serde rs ≡ ok bytes)
      × ((fuel : ℕ) → length bytes < fuel → read_edges fuel serde bytes ≡ some (ok rs))
unfolding write_edges write_edge
spool_back serde [] h = ([], refl, λ fuel. read_edges_end fuel serde)
spool_back serde (r ∷ rs) (s, hs) =
    let (rest, written, back) = spool_back serde rs hs in
    (
      write_edge_fields serde s.columns ++ rest,
      rw (s.arm, written),
      λ fuel. read_edges_more fuel serde r rs rest s back,
    )

-- A row of edges whose columns fit is written without a panic, and the reading loop gives the same
-- edges back in their order and stops at the end of the bytes; a round for each byte and one more
-- is fuel enough.
pub read_edges-write_edges :
    (serde : Serde) (rs : List Record)
    → All (IsSpooled serde) rs
    → (bytes : List ℕ) × (write_edges serde rs ≡ ok bytes)
      × (read_edges (suc (length bytes)) serde bytes ≡ some (ok rs))
read_edges-write_edges serde rs h =
    let (bytes, written, back) = spool_back serde rs h in
    (bytes, written, back (suc (length bytes)) (omega arith))
