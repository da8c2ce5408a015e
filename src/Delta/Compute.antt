-- ===== src/Delta/Compute.antt =====
-- The git delta of src/delta.rs: `compute` on what git answers. A path of git is the text that
-- `to_string_lossy` makes of it.
pub mod Reports
pub mod Added
use mathlib.Core.Option
use apg.Prelude.{
  ℕ, Bool, true, false, not, ◌||◌, List, [], ◌∷◌, ◌++◌, Option, none, some, map, filter,
  if◌then◌else◌, insert, extend, is_empty, ◌&&◌, ◌==◌, nat_eq, list_eq,
}
use apg.Text.{Text, codes}

pub record Delta : Type 0 where
  pub added : List Text
  pub modified : List Text
  pub removed : List Text
  pub renamed : List (Text × Text)

-- `out.insert(old); out.insert(new)` for each pair
unfoldable pub insert_pairs : List (Text × Text) → List Text → List Text
insert_pairs [] out = out
insert_pairs ((old, new) ∷ pairs) out = insert_pairs pairs (insert new (insert old out))

-- `Delta::changed`
unfoldable pub changed : Delta → List Text
changed d = insert_pairs d.renamed (extend (extend (extend [] d.added) d.modified) d.removed)

-- `Delta::is_empty`
unfoldable pub is_unchanged : Delta → Bool
is_unchanged d = is_empty d.added && is_empty d.modified && is_empty d.removed && is_empty d.renamed

-- `git2::Delta`
pub data Status : Type 0 where
  unmodified added deleted modified renamed copied ignored untracked typechange unreadable
        conflicted :
      Status

-- `git2::DiffDelta`: the status and the paths of the two files
pub record DiffDelta : Type 0 where
  pub status : Status
  pub old : Option Text
  pub new : Option Text

-- `s.replace('\\', "/")`
unfoldable pub slashes : Text → Text
slashes = map (λ c. if c == b'\\' then b'/' else c)

abbrev pub add_path : Text → Delta → Delta
add_path p d = record {
  added = insert p d.added;
  modified = d.modified;
  removed = d.removed;
  renamed = d.renamed;
}

abbrev pub modify_path : Text → Delta → Delta
modify_path p d = record {
  added = d.added;
  modified = insert p d.modified;
  removed = d.removed;
  renamed = d.renamed;
}

abbrev pub remove_path : Text → Delta → Delta
remove_path p d = record {
  added = d.added;
  modified = d.modified;
  removed = insert p d.removed;
  renamed = d.renamed;
}

abbrev pub rename_path : Text → Text → Delta → Delta
rename_path o n d = record {
  added = d.added;
  modified = d.modified;
  removed = d.removed;
  renamed = d.renamed ++ (o, n) ∷ [];
}

-- `if let Some(p) = path { … }`
abbrev pub on_path : (Text → Delta → Delta) → Option Text → Delta → Delta
on_path f none d = d
on_path f (some p) d = f p d

-- `a.or(b)`
abbrev pub or_path : Option Text → Option Text → Option Text
or_path none b = b
or_path (some p) b = some p

abbrev pub on_paths : Option Text → Option Text → Delta → Delta
on_paths (some o) (some n) d = rename_path o n d
on_paths _ _ d = d

-- the `match` of `apply_delta_status`, on the two paths with slashes
unfoldable pub apply_status : Status → Option Text → Option Text → Delta → Delta
apply_status Status.added old new d = on_path add_path new d
apply_status Status.untracked old new d = on_path add_path new d
apply_status Status.deleted old new d = on_path remove_path old d
apply_status Status.modified old new d = on_path modify_path (or_path new old) d
apply_status Status.typechange old new d = on_path modify_path (or_path new old) d
apply_status Status.renamed old new d = on_paths old new d
apply_status Status.copied old new d = on_path add_path new d
apply_status _ old new d = d

unfoldable pub apply_delta_status : Delta → DiffDelta → Delta
apply_delta_status d e =
    apply_status e.status (Option.map slashes e.old) (Option.map slashes e.new) d

-- the loop over the committed changes
unfoldable pub apply_diff : List DiffDelta → Delta → Delta
apply_diff [] d = d
apply_diff (e ∷ es) d = apply_diff es (apply_delta_status d e)

-- `git2::Status`, a flag per bit that the code tests
pub record Flags : Type 0 where
  pub index_new : Bool
  pub index_modified : Bool
  pub index_deleted : Bool
  pub index_renamed : Bool
  pub index_typechange : Bool
  pub wt_new : Bool
  pub wt_modified : Bool
  pub wt_deleted : Bool
  pub wt_renamed : Bool
  pub wt_typechange : Bool
  pub conflicted : Bool

-- `git2::StatusEntry`
pub record StatusEntry : Type 0 where
  pub status : Flags
  pub path : Option Text
  pub head_to_index : Option DiffDelta
  pub index_to_workdir : Option DiffDelta

-- `|d| if d.status() == Renamed { d.old_file().path() … } else { None }`
abbrev pub old_path : Status → Option Text → Option Text
old_path Status.renamed old = old
old_path _ old = none

-- `entry.head_to_index().or_else(|| entry.index_to_workdir()).and_then(…)`
unfoldable pub rename_old : Option DiffDelta → Option DiffDelta → Option Text
rename_old (some d) _ = old_path d.status d.old
rename_old none (some d) = old_path d.status d.old
rename_old none none = none

abbrev pub or_default : Option Text → Text
or_default none = []
or_default (some p) = p

abbrev pub rename_or_modify : Option Text → Text → Delta → Delta
rename_or_modify (some old) path d = rename_path old path d
rename_or_modify none path d = modify_path path d

-- the chain of tests on the flags
unfoldable pub apply_flags : Flags → Option Text → Text → Delta → Delta
apply_flags s old path d =
    if s.index_renamed || s.wt_renamed
    then rename_or_modify old path d
    else if s.index_new || s.wt_new
    then add_path path d
    else if s.index_deleted || s.wt_deleted
    then remove_path path d
    else if s.index_modified || s.wt_modified || s.index_typechange || s.wt_typechange
        || s.conflicted
    then modify_path path d
    else d

unfoldable pub apply_entry : StatusEntry → Delta → Delta
apply_entry e d =
    apply_flags e.status (rename_old e.head_to_index e.index_to_workdir) (or_default e.path) d

-- the loop over the statuses
unfoldable pub apply_entries : List StatusEntry → Delta → Delta
apply_entries [] d = d
apply_entries (e ∷ es) d = apply_entries es (apply_entry e d)

-- `for p in added { removed.remove(&p) }`
unfoldable pub remove_all : List Text → List Text → List Text
remove_all [] removed = removed
remove_all (p ∷ ps) removed = remove_all ps (filter (λ r. not (r == p)) removed)

unfoldable pub normalise : Delta → Delta
normalise d = record {
  added = d.added;
  modified = d.modified;
  removed = remove_all d.added d.removed;
  renamed = d.renamed;
}

abbrev pub no_changes : Delta
no_changes = record { added = []; modified = []; removed = []; renamed = [] }

-- `compute`, on the changes and the statuses that git reports
unfoldable pub compute : List DiffDelta → List StatusEntry → Delta
compute deltas statuses = normalise (apply_entries statuses (apply_diff deltas no_changes))
