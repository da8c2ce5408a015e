-- ===== src/Artifacts/Merge.antt =====
-- `merge_records` of src/artifacts/merge.rs as the statements that it sends to the database.
-- `present` stands for its query for a realized node, `code_label` and `node_label` for the label
-- queries of src/artifacts/db.rs, and `pairs` for `load::rel_table_pairs()`.
pub mod Upserts
pub mod Links
pub mod Correct
pub mod Examples
use apg.Prelude.{
  Bool, true, false, not, ◌&&◌, ◌||◌, List, [], ◌∷◌, ◌++◌, Option, none, some, map, any, filter,
  filter_map, contains, Map, lookup, has_key, put, if◌then◌else◌, ◌==◌, nat_eq, list_eq,
}
use apg.Text.{Text, codes}
use apg.Schema.{Record}
use apg.Artifacts.Edges.{EdgeRow, edge_merge}
use apg.Artifacts.Nodes.{NodeRow, Merge, node_merge}

-- `MERGE` of a node with its columns, of a language, and of an edge between two labelled nodes
pub data Statement : Type 0 where
  upsert : NodeRow → Statement
  language : Text → Statement
  link : (from_label to_label : Text) → EdgeRow → Statement

-- `Record::PlannedNode { fqn, .. } => Some(fqn)`
unfoldable pub planned_fqn : Record → Option Text
planned_fqn (Record.planned_node fqn _ _ _) = some fqn
planned_fqn _ = none

unfoldable pub is_planned : Record → Bool
is_planned (Record.planned_node _ _ _ _) = true
is_planned _ = false

-- the row of a record that is merged, unless the planned node is realized
unfoldable pub kept_row : List Text → Bool → Merge → Option NodeRow
kept_row realized planned (Merge.merged row) =
    if planned && contains realized row.fqn then none else some row
kept_row realized planned _ = none

unfoldable pub node_row : List Text → Record → Option NodeRow
node_row realized r = kept_row realized (is_planned r) (node_merge r)

-- `known` after the loop over the nodes
unfoldable pub known_rows : List NodeRow → Map Text Text → Map Text Text
known_rows [] known = known
known_rows (row ∷ rows) known = known_rows rows (put row.fqn row.label known)

-- `known` after the loop over the languages
unfoldable pub known_languages : List Text → Map Text Text → Map Text Text
known_languages [] known = known
known_languages (to ∷ missing) known = known_languages missing (put to (codes "Language") known)

-- `applies_to_missing_languages`
unfoldable pub missing_language : Map Text Text → Record → Option Text
missing_language known (Record.applies_to _ to _) = if has_key to known then none else some to
missing_language known _ = none

unfoldable pub applies_to_missing_languages : List Record → Map Text Text → List Text
applies_to_missing_languages records known = filter_map (missing_language known) records

-- the kind at which `node_merge` panics
unfoldable pub panic_of : Merge → Bool
panic_of (Merge.panicked _) = true
panic_of _ = false

abbrev pub or_label : Option Text → Option Text → Option Text
or_label (some label) other = some label
or_label none other = other

unfoldable pub realized : (Text → Bool) → List Record → List Text
realized present records = filter present (filter_map planned_fqn records)

unfoldable pub rel_pair_allowed : List (Text × Text × Text) → Text → Text → Text → Bool
rel_pair_allowed pairs table from to = any (λ (t, a, b). t == table && a == from && b == to) pairs

-- `known` when the edges are merged
unfoldable pub known_labels : (Text → Bool) → List Record → Map Text Text
known_labels present records =
    let known = known_rows (filter_map (node_row (realized present records)) records) [] in
    known_languages (applies_to_missing_languages records known) known

-- the end of `merge_edge`
unfoldable pub link_row :
    List (Text × Text × Text) → Option Text → Option Text → EdgeRow → Option Statement
link_row pairs (some a) (some b) row =
    if rel_pair_allowed pairs row.table a b then some (Statement.link a b row) else none
link_row pairs _ _ row = none

-- `merge_edge`, with the lookup of a label
unfoldable pub merge_edge :
    List (Text × Text × Text) → (Text → Option Text) → Option EdgeRow → Option Statement
merge_edge pairs label none = none
merge_edge pairs label (some row) = link_row pairs (label row.from) (label row.to) row

module _ (present : Text → Bool) (code_label node_label : Text → Option Text)
    (pairs : List (Text × Text × Text)) where
  -- `known.get(fqn)`, then the two queries
  unfoldable pub label_of : List Record → Text → Option Text
  label_of records fqn =
      or_label (lookup fqn (known_labels present records))
        (or_label (code_label fqn) (node_label fqn))

  -- The statements in their order, or none where `node_merge` panics.
  unfoldable pub merge_records : List Record → Option (List Statement)
  merge_records records =
      let rows = filter_map (node_row (realized present records)) records in
      let missing = applies_to_missing_languages records (known_rows rows []) in
      let links = filter_map (λ r. merge_edge pairs (label_of records) (edge_merge r)) records in
      if any (λ r. panic_of (node_merge r)) records
      then none
      else some (map Statement.upsert rows ++ (map Statement.language missing ++ links))
