-- ===== src/Delta/Compute/Added.antt =====
-- The added paths of a delta.
use apg.Prelude.{
  ◌≡◌, refl, true, false, ◌||◌, List, [], ◌∷◌, Option, none, some, arith, Bool-cases, inl, inr,
  contains, contains-insert, nat_eq, list_eq,
}
use apg.Text.{Text}
use apg.Delta.Compute.{
  Delta, DiffDelta, apply_diff, Flags, StatusEntry, rename_old, or_default, rename_or_modify,
  apply_flags, apply_entry, apply_entries, normalise, no_changes, compute,
}
use apg.Delta.Compute.Reports.{remove_all-contains}

rename_or_modify-added :
    (old : Option Text) (path : Text) (d : Delta) → (rename_or_modify old path d).added ≡ d.added
rename_or_modify-added none path d = refl
rename_or_modify-added (some old) path d = refl

apply_flags-added :
    (p : Text) (s : Flags) (old : Option Text) (path : Text) (d : Delta)
    → contains d.added p ≡ true
    → contains (apply_flags s old path d).added p ≡ true
unfolding apply_flags
apply_flags-added p s old path d h = elim (Bool-cases (s.index_renamed || s.wt_renamed)) [
  | inl e ↦ rw (e, rename_or_modify-added old path d) h
  | inr e ↦ rw e (ground (arith, contains-insert path d.added p))
]

apply_entries-added :
    (p : Text) (es : List StatusEntry) (d : Delta)
    → contains d.added p ≡ true
    → contains (apply_entries es d).added p ≡ true
unfolding apply_entries apply_entry
apply_entries-added p [] d h = h
apply_entries-added p (e ∷ es) d h =
    let old = rename_old e.head_to_index e.index_to_workdir in
    let path = or_default e.path in
    apply_entries-added p es (apply_flags e.status old path d)
      (apply_flags-added p e.status old path d h)

-- A path that the committed changes add is added and not removed in the delta, whatever the status
-- of the working tree says of it.
pub compute_added :
    (deltas : List DiffDelta) (statuses : List StatusEntry) (p : Text)
    → contains (apply_diff deltas no_changes).added p ≡ true
    → (contains (compute deltas statuses).added p ≡ true)
      × (contains (compute deltas statuses).removed p ≡ false)
unfolding compute normalise
compute_added deltas statuses p h =
    let d = apply_entries statuses (apply_diff deltas no_changes) in
    let kept = apply_entries-added p statuses (apply_diff deltas no_changes) h in
    (kept, ground (arith, kept, remove_all-contains p d.added d.removed))
