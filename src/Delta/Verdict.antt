-- ===== src/Delta/Verdict.antt =====
-- `scan_verdict` of src/delta.rs. `is_oid` stands for `git2::Oid::from_str(_).is_ok()`, `digest` for
-- `digest_str` of src/cache/manifest.rs, and nothing is assumed of either.
use apg.Prelude.{
  Bool, true, false, not, ◌≡◌, ◌↔◌, ◌⊎◌, Option, none, some, arith, if◌then◌else◌, is_some, ◌==◌,
  ==_iff, nat_eq, list_eq, inl, inr,
}
use apg.Text.{Text}
use apg.Cache.Key.{CacheKey, matches, token, matches_iff}
use apg.Cache.Manifest.{Manifest}

pub data FullScanReason : Type 0 where
  not_a_git_repo no_recorded_scan no_head : FullScanReason
  not_ancestor : (recorded head : Text) → FullScanReason
  cache_key_drift : (recorded current : Text) → FullScanReason
  no_previous_database delta_unavailable forced : FullScanReason

pub record ScanRecord : Type 0 where
  pub sha : Text
  pub cache_key : CacheKey
  pub manifest : Manifest
  pub content_key : Option Text

pub data ScanVerdict : Type 0 where
  warm_cache incremental : ScanVerdict
  full_scan : FullScanReason → ScanVerdict

-- `ScanVerdict::full_scan_reason`
unfoldable pub full_scan_reason : ScanVerdict → Option FullScanReason
full_scan_reason (ScanVerdict.full_scan reason) = some reason
full_scan_reason _ = none

-- `ScanVerdict::requires_full_scan`
unfoldable pub requires_full_scan : ScanVerdict → Bool
unfolding full_scan_reason
requires_full_scan verdict = is_some (full_scan_reason verdict)

-- `ScanVerdict::is_warm_cache`
unfoldable pub is_warm_cache : ScanVerdict → Bool
is_warm_cache ScanVerdict.warm_cache = true
is_warm_cache _ = false

module _ (is_oid : Text → Bool) (digest : Text → Text) where
  -- from the drift of the cache key on
  unfoldable pub record_verdict : ScanRecord → CacheKey → Text → Option Bool → ScanVerdict
  record_verdict record_ current_key head recorded_is_ancestor =
      if not (matches record_.cache_key current_key)
      then ScanVerdict.full_scan (
          FullScanReason.cache_key_drift (token digest record_.cache_key)
            (token digest current_key))
      else if record_.sha == head
      then ScanVerdict.warm_cache
      else if not (is_oid record_.sha)
      then ScanVerdict.full_scan FullScanReason.delta_unavailable
      else elim recorded_is_ancestor [
        | some true ↦ ScanVerdict.incremental
        | _ ↦ ScanVerdict.full_scan (FullScanReason.not_ancestor record_.sha head)
      ]

  unfoldable pub scan_verdict :
      Bool → Option ScanRecord → CacheKey → Option Text → Option Bool → ScanVerdict
  scan_verdict false record_ current_key head recorded_is_ancestor =
      ScanVerdict.full_scan FullScanReason.not_a_git_repo
  scan_verdict true record_ current_key none recorded_is_ancestor =
      ScanVerdict.full_scan FullScanReason.no_head
  scan_verdict true none current_key (some head) recorded_is_ancestor =
      ScanVerdict.full_scan FullScanReason.no_recorded_scan
  scan_verdict true (some record_) current_key (some head) recorded_is_ancestor =
      record_verdict record_ current_key head recorded_is_ancestor

  record_verdict_warm :
      (r : ScanRecord) (key : CacheKey) (head : Text) (ancestor : Option Bool)
      → (is_warm_cache (record_verdict r key head ancestor) ≡ true)
        ↔ ((matches r.cache_key key ≡ true) × (r.sha == head ≡ true))
  unfolding record_verdict is_warm_cache
  record_verdict_warm r key head none = ground arith
  record_verdict_warm r key head (some true) = ground arith
  record_verdict_warm r key head (some false) = ground arith

  record_verdict_usable :
      (r : ScanRecord) (key : CacheKey) (head : Text) (ancestor : Option Bool)
      → (requires_full_scan (record_verdict r key head ancestor) ≡ false) ↔ (
          (matches r.cache_key key ≡ true)
          × ((r.sha == head ≡ true) ⊎ ((is_oid r.sha ≡ true) × (ancestor ≡ some true))))
  unfolding record_verdict requires_full_scan full_scan_reason
  record_verdict_usable r key head none = ground arith
  record_verdict_usable r key head (some true) = ground arith
  record_verdict_usable r key head (some false) = ground arith

  -- The checkout is a repository with a HEAD, and there is a record under the current key, of
  -- which `P` holds.
  abbrev pub Recorded :
      Bool → Option ScanRecord → CacheKey → Option Text → (ScanRecord → Text → Type 0) → Type 0
  Recorded true (some r) key (some h) P = (r.cache_key ≡ key) × P r h
  Recorded _ _ _ _ _ = ⊥

  -- The verdict is the warm cache exactly if the checkout is a repository with a HEAD and the
  -- recorded scan ran at HEAD under the current key.
  pub scan_verdict-warm_cache :
      (in_repo : Bool) (record_ : Option ScanRecord) (key : CacheKey) (head : Option Text)
      (ancestor : Option Bool)
      → (is_warm_cache (scan_verdict in_repo record_ key head ancestor) ≡ true)
        ↔ Recorded in_repo record_ key head (λ r h. r.sha ≡ h)
  unfolding scan_verdict is_warm_cache
  scan_verdict-warm_cache false record_ key head ancestor = (λ h. cc, λ x. absurd x)
  scan_verdict-warm_cache true none key none ancestor = (λ h. cc, λ x. absurd x)
  scan_verdict-warm_cache true (some r) key none ancestor = (λ h. cc, λ x. absurd x)
  scan_verdict-warm_cache true none key (some head) ancestor = (λ h. cc, λ x. absurd x)
  scan_verdict-warm_cache true (some r) key (some head) ancestor =
      let (there, back) = record_verdict_warm r key head ancestor in
      let (same, found) = matches_iff r.cache_key key in
      let (at, equal) = ==_iff r.sha head in
      (λ h. (same (there h).0, at (there h).1), λ (k, s). back (found k, equal s))

  -- No full scan is required exactly if the checkout is a repository with a HEAD and there is a
  -- recorded scan under the current key that ran at HEAD, or at a commit whose id is well-formed
  -- and that is known to be an ancestor of HEAD.
  pub scan_verdict_usable :
      (in_repo : Bool) (record_ : Option ScanRecord) (key : CacheKey) (head : Option Text)
      (ancestor : Option Bool)
      → (requires_full_scan (scan_verdict in_repo record_ key head ancestor) ≡ false)
        ↔ Recorded in_repo record_ key head
            (λ r h. (r.sha ≡ h) ⊎ ((is_oid r.sha ≡ true) × (ancestor ≡ some true)))
  unfolding scan_verdict requires_full_scan full_scan_reason
  scan_verdict_usable false record_ key head ancestor = (λ h. cc, λ x. absurd x)
  scan_verdict_usable true none key none ancestor = (λ h. cc, λ x. absurd x)
  scan_verdict_usable true (some r) key none ancestor = (λ h. cc, λ x. absurd x)
  scan_verdict_usable true none key (some head) ancestor = (λ h. cc, λ x. absurd x)
  scan_verdict_usable true (some r) key (some head) ancestor =
      let (there, back) = record_verdict_usable r key head ancestor in
      let (same, found) = matches_iff r.cache_key key in
      let (at, equal) = ==_iff r.sha head in
      (
        λ h. (same (there h).0, elim (there h).1 [ inl s ↦ inl (at s) | inr a ↦ inr a ]),
        λ (k, u). back (found k, elim u [ inl s ↦ inl (equal s) | inr a ↦ inr a ]),
      )
