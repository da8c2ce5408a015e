-- ===== src/Delta/Plan.antt =====
-- `plan` of src/delta.rs. `git` stands for git's answers to `compute`, which has none when git
-- reports an error.
use apg.Prelude.{
  Bool, true, false, ◌≡◌, refl, List, Option, none, some, is_some, not, ◌&&◌, ◌||◌, nat_eq, list_eq,
  [],
}
use apg.Text.{Text}
use apg.Delta.Verdict.{
  FullScanReason, ScanRecord, ScanVerdict, full_scan_reason, requires_full_scan,
}
use apg.Delta.Compute.{Delta, DiffDelta, StatusEntry, compute}

pub record Plan : Type 0 where
  pub delta : Option Delta
  pub full_scan : Option FullScanReason
  pub warm_cache : Bool

-- `record.map(|r| r.sha).unwrap_or_default()`
abbrev pub sha_of : Option ScanRecord → Text
sha_of none = []
sha_of (some r) = r.sha

unfoldable pub incremental_plan : Option (List DiffDelta × List StatusEntry) → Plan
incremental_plan none = record {
  delta = none;
  full_scan = some FullScanReason.delta_unavailable;
  warm_cache = false;
}
incremental_plan (some (deltas, statuses)) = record {
  delta = some (compute deltas statuses);
  full_scan = none;
  warm_cache = false;
}

unfoldable pub plan :
    (Text → Option (List DiffDelta × List StatusEntry)) → Option ScanRecord → ScanVerdict → Plan
plan git record_ (ScanVerdict.full_scan reason) = record {
  delta = none;
  full_scan = some reason;
  warm_cache = false;
}
plan git record_ ScanVerdict.warm_cache = record {
  delta = none;
  full_scan = none;
  warm_cache = true;
}
plan git record_ ScanVerdict.incremental = incremental_plan (git (sha_of record_))

-- Of the delta, the reason and the warm cache, exactly one is there.
abbrev pub one_of : Bool → Bool → Bool → Bool
one_of a b c = (a && not b && not c) || (not a && b && not c) || (not a && not b && c)

abbrev pub is_incremental : ScanVerdict → Bool
is_incremental ScanVerdict.incremental = true
is_incremental _ = false

incremental_plan-one :
    (answer : Option (List DiffDelta × List StatusEntry))
    → (one_of
          (is_some (incremental_plan answer).delta)
          (is_some (incremental_plan answer).full_scan)
          (incremental_plan answer).warm_cache
        ≡ true)
      × (is_some (incremental_plan answer).full_scan ≡ not (is_some answer))
unfolding incremental_plan
incremental_plan-one none = (refl, refl)
incremental_plan-one (some (deltas, statuses)) = (refl, refl)

-- A plan has a delta, a reason for a full scan or the warm cache, and no two of them; it has a
-- reason exactly if the verdict requires a full scan or git fails on the incremental path.
pub plan_decides :
    (git : Text → Option (List DiffDelta × List StatusEntry)) (r : Option ScanRecord)
    (v : ScanVerdict)
    → (one_of
          (is_some (plan git r v).delta)
          (is_some (plan git r v).full_scan)
          (plan git r v).warm_cache
        ≡ true)
      × (is_some (plan git r v).full_scan
          ≡ (requires_full_scan v || (is_incremental v && not (is_some (git (sha_of r))))))
unfolding plan requires_full_scan full_scan_reason
plan_decides git r (ScanVerdict.full_scan reason) = (refl, refl)
plan_decides git r ScanVerdict.warm_cache = (refl, refl)
plan_decides git r ScanVerdict.incremental = incremental_plan-one (git (sha_of r))
