-- ===== src/Cache/Manifest.antt =====
-- The manifest of a checkout and the difference of two, from src/cache/manifest.rs.
use apg.Prelude.{
  Bool, false, not, ◌&&◌, ◌||◌, ◌≡◌, refl, ◌∙◌, sym, ap, subst, inl, inr, Bool-cases, lookup-none,
  List, [], ◌∷◌, Option, none, some, arith, contains, contains-insert, insert, insert_if,
  contains-insert_if, extend, contains-extend, is_empty, Map, IsMap, lookup, has_key,
  has_key-lookup, is_some, ◌==◌, ==_iff, nat_eq, list_eq,
}
use apg.Text.{Text}

pub record Manifest : Type 0 where
  pub root : Text
  pub entries : Map Text Text

pub record ManifestDelta : Type 0 where
  pub added : List Text
  pub modified : List Text
  pub removed : List Text

-- one round of the loop over the newer entries, on what the older manifest has at the path
unfoldable pub diff_entry : Text → Text → Option Text → ManifestDelta → ManifestDelta
diff_entry rel oid none d = record {
  added = insert rel d.added;
  modified = d.modified;
  removed = d.removed;
}
diff_entry rel oid (some old) d = record {
  added = d.added;
  modified = insert_if (not (old == oid)) rel d.modified;
  removed = d.removed;
}

unfoldable pub diff_newer : Map Text Text → Map Text Text → ManifestDelta → ManifestDelta
diff_newer older [] d = d
diff_newer older ((rel, oid) ∷ newer) d =
    diff_newer older newer (diff_entry rel oid (lookup rel older) d)

-- the loop over the older paths
unfoldable pub diff_older : Map Text Text → Map Text Text → ManifestDelta → ManifestDelta
diff_older [] newer d = d
diff_older ((rel, _) ∷ older) newer d = diff_older older newer (record {
  added = d.added;
  modified = d.modified;
  removed = insert_if (not (has_key rel newer)) rel d.removed;
})

-- `Manifest::diff`
unfoldable pub diff : Manifest → Manifest → ManifestDelta
diff older newer =
    diff_older older.entries newer.entries
      (diff_newer older.entries newer.entries (record { added = []; modified = []; removed = [] }))

-- `ManifestDelta::is_empty`
unfoldable pub delta_unchanged : ManifestDelta → Bool
delta_unchanged d = is_empty d.added && is_empty d.modified && is_empty d.removed

-- `ManifestDelta::changed`
unfoldable pub delta_paths : ManifestDelta → List Text
delta_paths d = extend (extend (extend [] d.added) d.modified) d.removed

-- The two record a value each, and not the same.
abbrev pub both_differ : Option Text → Option Text → Bool
both_differ (some a) (some b) = not (a == b)
both_differ _ _ = false

both_differ-none : (a : Option Text) → both_differ a none ≡ false
both_differ-none none = refl
both_differ-none (some a) = refl

module _ (p : Text) where
  pub delta_paths-contains :
      (d : ManifestDelta)
      → contains (delta_paths d) p
        ≡ (contains d.added p || contains d.modified p || contains d.removed p)
  unfolding delta_paths
  delta_paths-contains d = ground (
    arith,
    contains-extend (extend (extend [] d.added) d.modified) d.removed p,
    contains-extend (extend [] d.added) d.modified p,
    contains-extend [] d.added p,
  )

  diff_entry-added :
      (rel oid : Text) (old : Option Text) (d : ManifestDelta)
      → contains (diff_entry rel oid old d).added p
        ≡ (contains d.added p || (rel == p && not (is_some old)))
  unfolding diff_entry
  diff_entry-added rel oid none d = ground (arith, contains-insert rel d.added p)
  diff_entry-added rel oid (some old) d = ground arith

  diff_entry-modified :
      (rel oid : Text) (old : Option Text) (d : ManifestDelta)
      → contains (diff_entry rel oid old d).modified p
        ≡ (contains d.modified p || (rel == p && both_differ old (some oid)))
  unfolding diff_entry
  diff_entry-modified rel oid none d = ground arith
  diff_entry-modified rel oid (some old) d =
      ground (arith, contains-insert_if (not (old == oid)) rel d.modified p)

  diff_entry-removed :
      (rel oid : Text) (old : Option Text) (d : ManifestDelta)
      → (diff_entry rel oid old d).removed ≡ d.removed
  unfolding diff_entry
  diff_entry-removed rel oid none d = refl
  diff_entry-removed rel oid (some old) d = refl

  module _ (older : Map Text Text) where
    newer_added :
        (newer : Map Text Text) (d : ManifestDelta)
        → contains (diff_newer older newer d).added p
          ≡ (contains d.added p || (has_key p newer && not (is_some (lookup p older))))
    unfolding diff_newer
    newer_added [] d = ground arith
    newer_added ((rel, oid) ∷ newer) d =
        let old = lookup rel older in
        ground (
          arith,
          newer_added newer (diff_entry rel oid old d),
          diff_entry-added rel oid old d,
          ==_iff rel p,
        )

    newer_modified :
        (newer : Map Text Text) (d : ManifestDelta)
        → IsMap newer
        → contains (diff_newer older newer d).modified p
          ≡ (contains d.modified p || both_differ (lookup p older) (lookup p newer))
    unfolding diff_newer
    newer_modified [] d u = ground (arith, both_differ-none (lookup p older))
    newer_modified ((rel, oid) ∷ newer) d u =
        let old = lookup rel older in
        let later = newer_modified newer (diff_entry rel oid old d) u.1 in
        let here = diff_entry-modified rel oid old d in
        elim (Bool-cases (rel == p)) [
          | inl e ↦
              let same = (==_iff rel p).0 e in
              let gone = subst (λ x. lookup x newer ≡ none) same (lookup-none rel newer u.0) in
              let at = ap (λ x. both_differ (lookup x older) (some oid)) same in
              rw e (
                ground (
                  arith,
                  later,
                  here,
                  ap (both_differ (lookup p older)) gone,
                  both_differ-none (lookup p older),
                  at,
                ))
          | inr e ↦ rw e (ground (arith, later, here))
        ]

    newer_removed :
        (newer : Map Text Text) (d : ManifestDelta) → (diff_newer older newer d).removed ≡ d.removed
    unfolding diff_newer
    newer_removed [] d = refl
    newer_removed ((rel, oid) ∷ newer) d =
        newer_removed newer (diff_entry rel oid (lookup rel older) d)
        ∙ diff_entry-removed rel oid (lookup rel older) d

  older_kept :
      (older newer : Map Text Text) (d : ManifestDelta)
      → ((diff_older older newer d).added ≡ d.added)
        × ((diff_older older newer d).modified ≡ d.modified)
  unfolding diff_older
  older_kept [] newer d = (refl, refl)
  older_kept ((rel, _) ∷ older) newer d = older_kept older newer (record {
    added = d.added;
    modified = d.modified;
    removed = insert_if (not (has_key rel newer)) rel d.removed;
  })

  older_removed :
      (older newer : Map Text Text) (d : ManifestDelta)
      → contains (diff_older older newer d).removed p
        ≡ (contains d.removed p || (has_key p older && not (has_key p newer)))
  unfolding diff_older
  older_removed [] newer d = ground arith
  older_removed ((rel, oid) ∷ older) newer d = ground (
    arith,
    older_removed older newer (record {
      added = d.added;
      modified = d.modified;
      removed = insert_if (not (has_key rel newer)) rel d.removed;
    }),
    contains-insert_if (not (has_key rel newer)) rel d.removed p,
    ==_iff rel p,
  )

-- With one entry for each path in the newer manifest, `diff` sorts a path by what the two record:
-- added is what only the newer has, modified what both have differently, removed what only the
-- older has.
pub diff_sorts :
    (older newer : Manifest) (p : Text)
    → IsMap newer.entries
    → (contains (diff older newer).added p
        ≡ (is_some (lookup p newer.entries) && not (is_some (lookup p older.entries))))
      × (contains (diff older newer).modified p
          ≡ both_differ (lookup p older.entries) (lookup p newer.entries))
      × (contains (diff older newer).removed p
          ≡ (is_some (lookup p older.entries) && not (is_some (lookup p newer.entries))))
unfolding diff
diff_sorts older newer p u =
    let start : ManifestDelta = record { added = []; modified = []; removed = [] } in
    let d = diff_newer older.entries newer.entries start in
    let (added, modified) = older_kept p older.entries newer.entries d in
    (
      ap (λ s. contains s p) added
          ∙ (rw (sym (has_key-lookup p newer.entries))
              (newer_added p older.entries newer.entries start)),
      ap (λ s. contains s p) modified ∙ newer_modified p older.entries newer.entries start u,
      rw (sym (has_key-lookup p older.entries), sym (has_key-lookup p newer.entries))
          (older_removed p older.entries newer.entries d
            ∙ rw (newer_removed p older.entries newer.entries start) refl),
    )
