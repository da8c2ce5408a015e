-- ===== src/Delta/Compute/Reports.antt =====
-- The paths of a delta are those that git reports.
use mathlib.Core.Option
use apg.Prelude.{
  Bool, true, false, refl, not, if◌then◌else◌, Bool-cases, inl, inr, ◌&&◌, ◌||◌, ◌≡◌, List, [], ◌∷◌,
  Option, none, some, arith, any, any-append, filter, contains, contains-insert, contains-extend,
  contains-filter, insert, extend, is_some, ◌==◌, ==_iff, nat_eq, list_eq,
}
use apg.Text.{Text}
use apg.Delta.Compute.{
  Delta, insert_pairs, changed, Status, DiffDelta, slashes, add_path, modify_path, remove_path,
  on_path, or_path, on_paths, apply_status, apply_delta_status, apply_diff, Flags, StatusEntry,
  old_path, rename_old, or_default, rename_or_modify, apply_flags, apply_entry, apply_entries,
  remove_all, normalise, no_changes, compute,
}

abbrev pub is_renamed : Status → Bool
is_renamed Status.renamed = true
is_renamed _ = false

module _ (p : Text) where
  abbrev pub named : Option Text → Bool
  named none = false
  named (some q) = q == p

  -- One of the two ends of a rename is the path.
  abbrev pub is_end : Text × Text → Bool
  is_end (o, n) = o == p || n == p

  -- A committed change that is about the path.
  abbrev pub status_names : Status → Option Text → Option Text → Bool
  status_names Status.added old new = named new
  status_names Status.untracked old new = named new
  status_names Status.copied old new = named new
  status_names Status.deleted old new = named old
  status_names Status.modified old new = named (or_path new old)
  status_names Status.typechange old new = named (or_path new old)
  status_names Status.renamed old new = is_some old && is_some new && (named old || named new)
  status_names _ old new = false

  abbrev pub diff_names : DiffDelta → Bool
  diff_names e = status_names e.status (Option.map slashes e.old) (Option.map slashes e.new)

  -- A diff that renames the path to another.
  abbrev pub renames_from : DiffDelta → Bool
  renames_from e = is_renamed e.status && named e.old

  -- The diff of an entry that tells the old path, the one from HEAD to the index where there is one.
  abbrev pub is_old_end : Option DiffDelta → Option DiffDelta → Bool
  is_old_end (some staged) _ = renames_from staged
  is_old_end none (some unstaged) = renames_from unstaged
  is_old_end none none = false

  -- A status that is about the path.
  abbrev pub flags_name : Flags → Bool → Text → Bool
  flags_name s from_here path =
      if s.index_renamed || s.wt_renamed
      then from_here || path == p
      else (s.index_new || s.wt_new || s.index_deleted || s.wt_deleted || s.index_modified
          || s.wt_modified || s.index_typechange || s.wt_typechange || s.conflicted)
        && path == p

  abbrev pub entry_names : StatusEntry → Bool
  entry_names e =
      flags_name e.status (is_old_end e.head_to_index e.index_to_workdir) (or_default e.path)

  old_path-named :
      (s : Status) (old : Option Text) → named (old_path s old) ≡ (is_renamed s && named old)
  old_path-named Status.renamed old = refl
  old_path-named _ old = refl

  rename_old-is_old_end : (a b : Option DiffDelta) → named (rename_old a b) ≡ is_old_end a b
  unfolding rename_old
  rename_old-is_old_end (some d) b = old_path-named d.status d.old
  rename_old-is_old_end none (some d) = old_path-named d.status d.old
  rename_old-is_old_end none none = refl

  -- The delta has the path in a set or at an end of a rename.
  abbrev pub touches : Delta → Bool
  touches d =
      contains d.added p || contains d.modified p || contains d.removed p || any is_end d.renamed

  insert_pairs-contains :
      (pairs : List (Text × Text)) (out : List Text)
      → contains (insert_pairs pairs out) p ≡ (contains out p || any is_end pairs)
  unfolding insert_pairs
  insert_pairs-contains [] out = ground arith
  insert_pairs-contains ((o, n) ∷ pairs) out = ground (
    arith,
    insert_pairs-contains pairs (insert n (insert o out)),
    contains-insert n (insert o out) p,
    contains-insert o out p,
  )

  changed-contains : (d : Delta) → contains (changed d) p ≡ touches d
  unfolding changed
  changed-contains d = ground (
    arith,
    insert_pairs-contains d.renamed (extend (extend (extend [] d.added) d.modified) d.removed),
    contains-extend (extend (extend [] d.added) d.modified) d.removed p,
    contains-extend (extend [] d.added) d.modified p,
    contains-extend [] d.added p,
  )

  add_touches :
      (q : Option Text) (d : Delta) → touches (on_path add_path q d) ≡ (touches d || named q)
  add_touches none d = ground arith
  add_touches (some q) d = ground (arith, contains-insert q d.added p)

  modify_touches :
      (q : Option Text) (d : Delta) → touches (on_path modify_path q d) ≡ (touches d || named q)
  modify_touches none d = ground arith
  modify_touches (some q) d = ground (arith, contains-insert q d.modified p)

  remove_touches :
      (q : Option Text) (d : Delta) → touches (on_path remove_path q d) ≡ (touches d || named q)
  remove_touches none d = ground arith
  remove_touches (some q) d = ground (arith, contains-insert q d.removed p)

  rename_touches :
      (o n : Option Text) (d : Delta)
      → touches (on_paths o n d) ≡ (touches d || (is_some o && is_some n && (named o || named n)))
  rename_touches none n d = ground arith
  rename_touches (some o) none d = ground arith
  rename_touches (some o) (some n) d = ground (arith, any-append is_end d.renamed ((o, n) ∷ []))

  apply_status-touches :
      (s : Status) (old new : Option Text) (d : Delta)
      → touches (apply_status s old new d) ≡ (touches d || status_names s old new)
  unfolding apply_status
  apply_status-touches Status.added old new d = add_touches new d
  apply_status-touches Status.untracked old new d = add_touches new d
  apply_status-touches Status.copied old new d = add_touches new d
  apply_status-touches Status.deleted old new d = remove_touches old d
  apply_status-touches Status.modified old new d = modify_touches (or_path new old) d
  apply_status-touches Status.typechange old new d = modify_touches (or_path new old) d
  apply_status-touches Status.renamed old new d = rename_touches old new d
  apply_status-touches _ old new d = ground arith

  apply_diff-touches :
      (es : List DiffDelta) (d : Delta)
      → touches (apply_diff es d) ≡ (touches d || any diff_names es)
  unfolding apply_diff apply_delta_status
  apply_diff-touches [] d = ground arith
  apply_diff-touches (e ∷ es) d =
      let old = Option.map slashes e.old in
      let new = Option.map slashes e.new in
      ground (
        arith,
        apply_diff-touches es (apply_status e.status old new d),
        apply_status-touches e.status old new d,
      )

  rename_or_modify-touches :
      (old : Option Text) (path : Text) (d : Delta)
      → touches (rename_or_modify old path d) ≡ (touches d || (named old || path == p))
  rename_or_modify-touches none path d = modify_touches (some path) d
  rename_or_modify-touches (some old) path d = rename_touches (some old) (some path) d

  apply_flags-touches :
      (s : Flags) (old : Option Text) (path : Text) (d : Delta)
      → touches (apply_flags s old path d) ≡ (touches d || flags_name s (named old) path)
  unfolding apply_flags
  apply_flags-touches s old path d = elim (Bool-cases (s.index_renamed || s.wt_renamed)) [
    | inl e ↦ rw e (rename_or_modify-touches old path d)
    | inr e ↦ rw e (
        ground (
          arith,
          add_touches (some path) d,
          remove_touches (some path) d,
          modify_touches (some path) d,
        ))
  ]

  apply_entries-touches :
      (es : List StatusEntry) (d : Delta)
      → touches (apply_entries es d) ≡ (touches d || any entry_names es)
  unfolding apply_entries apply_entry
  apply_entries-touches [] d = ground arith
  apply_entries-touches (e ∷ es) d =
      let old = rename_old e.head_to_index e.index_to_workdir in
      let path = or_default e.path in
      ground (
        arith,
        apply_entries-touches es (apply_flags e.status old path d),
        apply_flags-touches e.status old path d,
        rename_old-is_old_end e.head_to_index e.index_to_workdir,
      )

  pub remove_all-contains :
      (ps removed : List Text)
      → contains (remove_all ps removed) p ≡ (contains removed p && not (contains ps p))
  unfolding remove_all
  remove_all-contains [] removed = ground arith
  remove_all-contains (q ∷ ps) removed = ground (
    arith,
    remove_all-contains ps (filter (λ r. not (r == q)) removed),
    contains-filter (λ r. not (r == q)) removed p,
    ==_iff p q,
    ==_iff q p,
  )

  normalise-touches : (d : Delta) → touches (normalise d) ≡ touches d
  unfolding normalise
  normalise-touches d = ground (arith, remove_all-contains d.added d.removed)

-- The delta's paths are exactly those that a committed change or a status of the working tree
-- names. A committed rename names both ends, where git tells both. A rename in the working tree
-- names its own path, and the old one if the diff from HEAD to the index is a rename that has it, or
-- if there is no such diff and the one from the index to the working tree is.
pub compute-changed :
    (deltas : List DiffDelta) (statuses : List StatusEntry) (p : Text)
    → contains (changed (compute deltas statuses)) p
      ≡ (any (diff_names p) deltas || any (entry_names p) statuses)
unfolding compute
compute-changed deltas statuses p =
    let d = apply_diff deltas no_changes in
    ground (
      arith,
      changed-contains p (normalise (apply_entries statuses d)),
      normalise-touches p (apply_entries statuses d),
      apply_entries-touches p statuses d,
      apply_diff-touches p deltas no_changes,
    )

-- No path of the delta is both added and removed.
pub compute_disjoint :
    (deltas : List DiffDelta) (statuses : List StatusEntry) (p : Text)
    → (contains (compute deltas statuses).added p && contains (compute deltas statuses).removed p)
      ≡ false
unfolding compute normalise
compute_disjoint deltas statuses p =
    let d = apply_entries statuses (apply_diff deltas no_changes) in
    ground (arith, remove_all-contains p d.added d.removed)
