-- ===== src/Artifacts/Merge/Correct.antt =====
-- Which nodes and edges `merge_records` sends to the database.
use apg.Prelude.{
  ◌≡◌, ◌↔◌, refl, ap, sym, subst, ◌∙◌, Bool, false, List, [], ◌++◌, Option, some, map, any,
  filter_map, Member, Bool-cases, inl, inr, nat_eq, list_eq, Member-append_left,
  Member-append_right, Member-append_cases, Member-map, Member-map_from, Member-filter_map,
  Member-filter_map_from,
}
use apg.Text.{Text}
use apg.Schema.{Record}
use apg.Artifacts.Edges.{EdgeRow, edge_merge}
use apg.Artifacts.Nodes.{NodeRow, Merge, node_merge}
use apg.Artifacts.Merge.{
  Statement, node_row, panic_of, realized, label_of, merge_edge, merge_records,
  applies_to_missing_languages, known_rows,
}
use apg.Artifacts.Merge.Upserts.{is_realized, node_row_iff}
use apg.Artifacts.Merge.Links.{Linked, LinkOf, merge_edge-some, merge_edge-Linked}

-- The row of an upsert, or the given one.
row_of : NodeRow → Statement → NodeRow
row_of d (Statement.upsert row) = row
row_of d _ = d

-- The edge of a link, or the given one.
edge_of : EdgeRow → Statement → EdgeRow
edge_of d (Statement.link _ _ row) = row
edge_of d _ = d

-- The labels of a link, or the given ones.
labels_of : Text × Text → Statement → Text × Text
labels_of d (Statement.link a b _) = (a, b)
labels_of d _ = d

-- What is linked by one statement is linked by an equal one.
same_link :
    (pairs : List (Text × Text × Text)) (label : Text → Option Text) (edge row : EdgeRow)
    (x y a b : Text)
    → Statement.link a b row ≡ Statement.link x y edge
    → Linked pairs label edge x y
    → Linked pairs label row a b
unfolding labels_of edge_of
same_link pairs label edge row x y a b e linked =
    let to_row = ap (edge_of edge) (sym e) in
    let to_labels = ap (labels_of (x, y)) (sym e) in
    subst (λ r. Linked pairs label r a b) to_row
      (subst (λ (l : Text × Text). Linked pairs label edge l.0 l.1) to_labels linked)

module _ (present : Text → Bool) (code_label node_label : Text → Option Text)
    (pairs : List (Text × Text × Text)) (records : List Record) where
  abbrev label : Text → Option Text
  label = label_of present code_label node_label pairs records

  abbrev rows : List NodeRow
  rows = filter_map (node_row (realized present records)) records

  abbrev missing : List Text
  missing = applies_to_missing_languages records (known_rows rows [])

  abbrev links : List Statement
  links = filter_map (λ r. merge_edge pairs label (edge_merge r)) records

  abbrev sent : List Statement
  sent = map Statement.upsert rows ++ (map Statement.language missing ++ links)

  merge_records-sent :
      (statements : List Statement)
      → merge_records present code_label node_label pairs records ≡ some statements
      → sent ≡ statements
  unfolding merge_records
  merge_records-sent statements h = elim (Bool-cases (any (λ r. panic_of (node_merge r)) records)) [
    | inl e ↦ cc (rw e at h)
    | inr e ↦ let inner : some sent ≡ some statements = rw e at h in cc
  ]

  link_found :
      (s : Statement)
      → Member s links
      → (r : Record) × ((row : EdgeRow) × (Member r records
            × (edge_merge r ≡ some row)
            × LinkOf pairs label row s))
  link_found s m =
      let (r, k, e) =
        Member-filter_map_from (λ x. merge_edge pairs label (edge_merge x)) records s m in
      let (row, (q, linked)) = merge_edge-some pairs label (edge_merge r) s e in
      (r, (row, (k, q, linked)))

  not_upsert :
      (row : NodeRow) → Member (Statement.upsert row) (map Statement.language missing ++ links) → ⊥
  not_upsert row m =
      elim (Member-append_cases (map Statement.language missing) links (Statement.upsert row) m) [
        | inl k ↦
            let (t, _, e) = Member-map_from Statement.language missing (Statement.upsert row) k in
            cc
        | inr k ↦
            let (r, (edge, (_, _, (a, (b, (e, _, _, _)))))) = link_found (Statement.upsert row) k in
            cc
      ]

  sent-upsert : (row : NodeRow) → Member (Statement.upsert row) sent → Member row rows
  unfolding row_of
  sent-upsert row m =
      elim (Member-append_cases (map Statement.upsert rows)
        (map Statement.language missing ++ links) (Statement.upsert row) m) [
          | inl k ↦
              let (x, k', e) = Member-map_from Statement.upsert rows (Statement.upsert row) k in
              subst (λ y. Member y rows) (ap (row_of row) e) k'
          | inr k ↦ absurd (not_upsert row k)
        ]

  sent-link :
      (s : Statement) (a b : Text) (row : EdgeRow)
      → s ≡ Statement.link a b row
      → Member s sent
      → Member s links
  sent-link s a b row q m =
      elim (Member-append_cases (map Statement.upsert rows)
        (map Statement.language missing ++ links) s m) [
          | inl k ↦ let (x, _, e) = Member-map_from Statement.upsert rows s k in cc
          | inr k ↦ elim (Member-append_cases (map Statement.language missing) links s k) [
            | inl l ↦ let (t, _, e) = Member-map_from Statement.language missing s l in cc
            | inr l ↦ l
          ]
        ]

-- A merge that does not panic sends a row to the database exactly if it is that of a record of the
-- set, and the record is no planned node that is realized.
pub merge_records-upsert :
    (present : Text → Bool) (code_label node_label : Text → Option Text)
    (pairs : List (Text × Text × Text)) (records : List Record) (statements : List Statement)
    (row : NodeRow)
    → merge_records present code_label node_label pairs records ≡ some statements
    → Member (Statement.upsert row) statements ↔ (
        (r : Record) × (Member r records
          × (node_merge r ≡ Merge.merged row)
          × (is_realized present records r row ≡ false)))
merge_records-upsert present code_label node_label pairs records statements row h =
    let same = merge_records-sent present code_label node_label pairs records statements h in
    let all_rows = filter_map (node_row (realized present records)) records in
    let others =
      map Statement.language (applies_to_missing_languages records (known_rows all_rows []))
      ++ filter_map
          (λ r.
            merge_edge pairs (label_of present code_label node_label pairs records) (edge_merge r))
          records in
    (
      λ m.
          let m' = subst (Member (Statement.upsert row)) (sym same) m in
          let (r, k, q) =
            Member-filter_map_from (node_row (realized present records)) records row
              (sent-upsert present code_label node_label pairs records row m') in
          let (merged, free) = (node_row_iff present records r row k).0 q in (r, (k, merged, free)),
      λ (r, (k, merged, free)).
          let q = (node_row_iff present records r row k).1 (merged, free) in
          let listed = Member-filter_map (node_row (realized present records)) records r row k q in
          subst (Member (Statement.upsert row)) same (
            Member-append_left (map Statement.upsert all_rows) others (Statement.upsert row)
              (Member-map Statement.upsert all_rows row listed)),
    )

-- A merge that does not panic sends an edge between two labels to the database exactly if it is
-- that of a record of the set, these are the labels of its ends, and the schema declares their pair
-- for its table.
pub merge_records-link :
    (present : Text → Bool) (code_label node_label : Text → Option Text)
    (pairs : List (Text × Text × Text)) (records : List Record) (statements : List Statement)
    (a b : Text) (row : EdgeRow)
    → merge_records present code_label node_label pairs records ≡ some statements
    → Member (Statement.link a b row) statements ↔ (
        (r : Record) × (Member r records
          × (edge_merge r ≡ some row)
          × Linked pairs (label_of present code_label node_label pairs records) row a b))
unfolding edge_of
merge_records-link present code_label node_label pairs records statements a b row h =
    let same = merge_records-sent present code_label node_label pairs records statements h in
    let lookup_label = label_of present code_label node_label pairs records in
    let all_rows = filter_map (node_row (realized present records)) records in
    let languages =
      map Statement.language (applies_to_missing_languages records (known_rows all_rows [])) in
    let merge_one = λ (r : Record). merge_edge pairs lookup_label (edge_merge r) in
    let s = Statement.link a b row in
    (
      λ m.
          let m' = subst (Member s) (sym same) m in
          let listed = sent-link present code_label node_label pairs records s a b row refl m' in
          let (r, (edge, (k, q, (x, (y, (e, from, to, allowed)))))) =
            link_found present code_label node_label pairs records s listed in
          (
            r,
            (
              k,
              q ∙ ap some (ap (edge_of edge) (sym e)),
              same_link pairs lookup_label edge row x y a b e (from, to, allowed),
            ),
          ),
      λ (r, (k, q, linked)).
          let made =
            ap (merge_edge pairs lookup_label) q
            ∙ merge_edge-Linked pairs lookup_label row a b linked in
          let listed = Member-filter_map merge_one records r s k made in
          subst (Member s) same (
            Member-append_right (map Statement.upsert all_rows)
              (languages ++ filter_map merge_one records) s
              (Member-append_right languages (filter_map merge_one records) s listed)),
    )
