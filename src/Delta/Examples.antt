-- ===== src/Delta/Examples.antt =====
-- A rename and an untracked file, and the theorems about the delta on them.
use apg.Prelude.{
  refl, Bool, true, false, not, ◌&&◌, ◌||◌, ◌≡◌, ◌↔◌, ◌⊎◌, List, [], ◌∷◌, Option, none, some, any,
  contains, is_some, is_empty, nat_eq, list_eq,
}
use apg.Text.{Text, codes}
use apg.Cache.Key.{CacheKey}
use apg.Delta.Verdict.{
  ScanRecord, ScanVerdict, scan_verdict, is_warm_cache, requires_full_scan, Recorded,
  scan_verdict-warm_cache, scan_verdict_usable,
}
use apg.Delta.Compute.Added.{compute_added}
use apg.Delta.Compute.{
  apply_diff, apply_delta_status, apply_status, slashes, DiffDelta, Status, Flags, StatusEntry,
  changed, compute,
}
use apg.Delta.Compute.Reports.{diff_names, entry_names, compute-changed}
use apg.Delta.Plan.{plan, one_of, is_incremental, sha_of, plan_decides}

abbrev deltas : List DiffDelta
deltas =
    record { status = Status.renamed; old = some (codes "a.rs"); new = some (codes "b.rs") }
    ∷ record { status = Status.deleted; old = some (codes "c.rs"); new = none }
    ∷ []

abbrev untracked_flags : Flags
untracked_flags = record {
  index_new = false;
  index_modified = false;
  index_deleted = false;
  index_renamed = false;
  index_typechange = false;
  wt_new = true;
  wt_modified = false;
  wt_deleted = false;
  wt_renamed = false;
  wt_typechange = false;
  conflicted = false;
}

abbrev statuses : List StatusEntry
statuses =
    record {
      status = untracked_flags;
      path = some (codes "c.rs");
      head_to_index = none;
      index_to_workdir = none;
    }
    ∷ []

compute-changed_example :
    contains (changed (compute deltas statuses)) (codes "a.rs")
    ≡ (any (diff_names (codes "a.rs")) deltas || any (entry_names (codes "a.rs")) statuses)
compute-changed_example = compute-changed deltas statuses (codes "a.rs")

-- A file that is modified in the index and renamed in the working tree: its old path gets lost.
abbrev staged_and_renamed : StatusEntry
staged_and_renamed = record {
  status = record {
    index_new = false;
    index_modified = true;
    index_deleted = false;
    index_renamed = false;
    index_typechange = false;
    wt_new = false;
    wt_modified = false;
    wt_deleted = false;
    wt_renamed = true;
    wt_typechange = false;
    conflicted = false;
  };
  path = some (codes "b.rs");
  head_to_index =
      some
        (record { status = Status.modified; old = some (codes "a.rs"); new = some (codes "a.rs") });
  index_to_workdir =
      some
        (record { status = Status.renamed; old = some (codes "a.rs"); new = some (codes "b.rs") });
}

old_path_lost : contains (changed (compute [] (staged_and_renamed ∷ []))) (codes "a.rs") ≡ false
old_path_lost = compute-changed [] (staged_and_renamed ∷ []) (codes "a.rs")

abbrev key : CacheKey
key = record {
  binary_version = codes "1.0";
  jsonl_schema = codes "1";
  projection = codes "2";
  config = codes "c";
}

abbrev scan_record : ScanRecord
scan_record = record {
  sha = codes "abc";
  cache_key = key;
  manifest = record { root = codes "/r"; entries = [] };
  content_key = none;
}

abbrev not_empty : Text → Bool
not_empty t = not (is_empty t)

abbrev same : Text → Text
same t = t

scan_verdict-warm_cache_example :
    (is_warm_cache
        (scan_verdict not_empty same true (some scan_record) key (some (codes "abc")) none)
      ≡ true)
    ↔ Recorded not_empty same true (some scan_record) key (some (codes "abc")) (λ r h. r.sha ≡ h)
scan_verdict-warm_cache_example =
    scan_verdict-warm_cache not_empty same true (some scan_record) key (some (codes "abc")) none

scan_verdict_usable_example :
    (requires_full_scan
        (scan_verdict not_empty same true (some scan_record) key (some (codes "abd")) (some true))
      ≡ false)
    ↔ Recorded not_empty same true
        (some scan_record)
        key
        (some (codes "abd"))
        (λ r h. (r.sha ≡ h) ⊎ ((not_empty r.sha ≡ true) × (some true ≡ some true)))
scan_verdict_usable_example =
    scan_verdict_usable not_empty same true (some scan_record) key (some (codes "abd")) (some true)

abbrev answers : Text → Option (List DiffDelta × List StatusEntry)
answers sha = some (deltas, statuses)

plan_decides_example :
    (one_of
        (is_some (plan answers (some scan_record) ScanVerdict.incremental).delta)
        (is_some (plan answers (some scan_record) ScanVerdict.incremental).full_scan)
        (plan answers (some scan_record) ScanVerdict.incremental).warm_cache
      ≡ true)
    × (is_some (plan answers (some scan_record) ScanVerdict.incremental).full_scan ≡ (
        requires_full_scan ScanVerdict.incremental
        || (is_incremental ScanVerdict.incremental
            && not (is_some (answers (sha_of (some scan_record)))))))
plan_decides_example = plan_decides answers (some scan_record) ScanVerdict.incremental

abbrev new_file : List DiffDelta
new_file = record { status = Status.added; old = none; new = some (codes "c.rs") } ∷ []

abbrev deleted_flags : Flags
deleted_flags = record {
  index_new = false;
  index_modified = false;
  index_deleted = false;
  index_renamed = false;
  index_typechange = false;
  wt_new = false;
  wt_modified = false;
  wt_deleted = true;
  wt_renamed = false;
  wt_typechange = false;
  conflicted = false;
}

abbrev deleted_file : List StatusEntry
deleted_file =
    record {
      status = deleted_flags;
      path = some (codes "c.rs");
      head_to_index = none;
      index_to_workdir = none;
    }
    ∷ []

compute_added_example :
    (contains (compute new_file deleted_file).added (codes "c.rs") ≡ true)
    × (contains (compute new_file deleted_file).removed (codes "c.rs") ≡ false)
unfolding apply_diff apply_delta_status apply_status slashes
compute_added_example = compute_added new_file deleted_file (codes "c.rs") refl
