-- ===== src/Artifacts/Merge/Links.antt =====
-- What `merge_edge` makes of an edge.
use apg.Prelude.{◌≡◌, refl, true, List, Option, none, some, Bool-cases, inl, inr, nat_eq, list_eq}
use apg.Text.{Text}
use apg.Artifacts.Edges.{EdgeRow}
use apg.Artifacts.Merge.{Statement, rel_pair_allowed, link_row, merge_edge}

-- Both labels of an edge are found, and the schema declares their pair for its table.
abbrev pub Linked :
    List (Text × Text × Text) → (Text → Option Text) → EdgeRow → Text → Text → Type 0
Linked pairs label row a b =
    (label row.from ≡ some a)
    × (label row.to ≡ some b)
    × (rel_pair_allowed pairs row.table a b ≡ true)

-- What `merge_edge` makes of an edge.
abbrev pub LinkOf : List (Text × Text × Text) → (Text → Option Text) → EdgeRow → Statement → Type 0
LinkOf pairs label row s =
    (a : Text) × ((b : Text) × ((s ≡ Statement.link a b row)
        × (label row.from ≡ some a)
        × (label row.to ≡ some b)
        × (rel_pair_allowed pairs row.table a b ≡ true)))

link_row-some :
    (pairs : List (Text × Text × Text)) (la lb : Option Text) (row : EdgeRow) (s : Statement)
    → link_row pairs la lb row ≡ some s
    → (a : Text) × ((b : Text) × ((s ≡ Statement.link a b row)
          × (la ≡ some a)
          × (lb ≡ some b)
          × (rel_pair_allowed pairs row.table a b ≡ true)))
unfolding link_row
link_row-some pairs none lb row s h = cc
link_row-some pairs (some a) none row s h = cc
link_row-some pairs (some a) (some b) row s h =
    elim (Bool-cases (rel_pair_allowed pairs row.table a b)) [
      | inl e ↦
          let inner : some (Statement.link a b row) ≡ some s = rw e at h in
          let same : s ≡ Statement.link a b row = cc in (a, (b, (same, refl, refl, e)))
      | inr e ↦ cc (rw e at h)
    ]

link_row-allowed :
    (pairs : List (Text × Text × Text)) (a b : Text) (row : EdgeRow)
    → rel_pair_allowed pairs row.table a b ≡ true
    → link_row pairs (some a) (some b) row ≡ some (Statement.link a b row)
unfolding link_row
link_row-allowed pairs a b row e = rw e refl

pub merge_edge-some :
    (pairs : List (Text × Text × Text)) (label : Text → Option Text) (o : Option EdgeRow)
    (s : Statement)
    → merge_edge pairs label o ≡ some s
    → (row : EdgeRow) × ((o ≡ some row) × LinkOf pairs label row s)
unfolding merge_edge
merge_edge-some pairs label none s h = cc
merge_edge-some pairs label (some row) s h =
    (row, (refl, link_row-some pairs (label row.from) (label row.to) row s h))

pub merge_edge-Linked :
    (pairs : List (Text × Text × Text)) (label : Text → Option Text) (row : EdgeRow) (a b : Text)
    → Linked pairs label row a b
    → merge_edge pairs label (some row) ≡ some (Statement.link a b row)
unfolding merge_edge
merge_edge-Linked pairs label row a b (from, to, allowed) =
    rw (from, to) (link_row-allowed pairs a b row allowed)
