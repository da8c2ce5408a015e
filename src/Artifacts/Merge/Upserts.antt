-- ===== src/Artifacts/Merge/Upserts.antt =====
-- Which rows the records of a set have that `merge_records` merges.
use apg.Prelude.{
  ◌≡◌, ◌↔◌, refl, ap, sym, subst, ◌∙◌, Bool, true, false, ◌&&◌, List, Option, none, some, arith,
  filter_map, filter_map-contains, contains, contains-filter, Member, Bool-cases, inl, inr, nat_eq,
  list_eq,
}
use apg.Text.{Text}
use apg.Schema.{Record}
use apg.Artifacts.Nodes.{NodeRow, Merge, node_merge, planned_merge, planned_label}
use apg.Artifacts.Merge.{planned_fqn, is_planned, kept_row, node_row, realized}

-- The name of a row, or the given one.
fqn_of : Text → Merge → Text
fqn_of name (Merge.merged row) = row.fqn
fqn_of name _ = name

planned_row :
    (fqn kind : Text) (label : Option Text) (row : NodeRow)
    → planned_merge fqn kind label ≡ Merge.merged row
    → fqn ≡ row.fqn
unfolding planned_merge fqn_of
planned_row fqn kind none row h = ap (fqn_of fqn) h
planned_row fqn kind (some label) row h = ap (fqn_of fqn) h

planned_name :
    (r : Record) (row : NodeRow)
    → is_planned r ≡ true
    → node_merge r ≡ Merge.merged row
    → planned_fqn r ≡ some row.fqn
unfolding is_planned node_merge planned_fqn
planned_name (Record.planned_node fqn kind name parent) row p h =
    ap some (planned_row fqn kind (planned_label kind) row h)
planned_name (Record.module_ _) row p h = cc
planned_name _ row p h = ground arith

kept_row-some :
    (real : List Text) (planned : Bool) (m : Merge) (row : NodeRow)
    → kept_row real planned m ≡ some row
    → (m ≡ Merge.merged row) × ((planned && contains real row.fqn) ≡ false)
unfolding kept_row
kept_row-some real planned (Merge.merged r) row h =
    elim (Bool-cases (planned && contains real r.fqn)) [
      | inl e ↦ cc (rw e at h)
      | inr e ↦
          let inner : some r ≡ some row = rw e at h in
          let same : r ≡ row = cc in
          (ap Merge.merged same, subst (λ x. (planned && contains real x.fqn) ≡ false) same e)
    ]
kept_row-some real planned Merge.skipped row h = cc
kept_row-some real planned (Merge.panicked kind) row h = cc

kept_row-merged :
    (real : List Text) (planned : Bool) (row : NodeRow)
    → (planned && contains real row.fqn) ≡ false
    → kept_row real planned (Merge.merged row) ≡ some row
unfolding kept_row
kept_row-merged real planned row e = rw e refl

module _ (present : Text → Bool) (records : List Record) where
  -- The record is a planned node that is realized.
  abbrev pub is_realized : Record → NodeRow → Bool
  is_realized r row = is_planned r && present row.fqn

  realized-contains :
      (r : Record) (row : NodeRow)
      → Member r records
      → node_merge r ≡ Merge.merged row
      → (is_planned r && contains (realized present records) row.fqn) ≡ is_realized r row
  unfolding realized
  realized-contains r row m h =
      let listed = contains-filter present (filter_map planned_fqn records) row.fqn in
      elim (Bool-cases (is_planned r)) [
        | inl p ↦
            let named =
              filter_map-contains planned_fqn records row.fqn r m (planned_name r row p h) in
            ground (arith, listed, named)
        | inr p ↦ ground (arith, p)
      ]

  pub node_row_iff :
      (r : Record) (row : NodeRow)
      → Member r records
      → (node_row (realized present records) r ≡ some row)
        ↔ ((node_merge r ≡ Merge.merged row) × (is_realized r row ≡ false))
  unfolding node_row
  node_row_iff r row m =
      let real = realized present records in
      (
        λ h.
            let (q, kept) = kept_row-some real (is_planned r) (node_merge r) row h in
            (q, sym (realized-contains r row m q) ∙ kept),
        λ (q, free).
            ap (kept_row real (is_planned r)) q
            ∙ kept_row-merged real (is_planned r) row (realized-contains r row m q ∙ free),
      )
