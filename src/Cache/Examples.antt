-- ===== src/Cache/Examples.antt =====
-- A changed checkout and an edited config, and the theorems about the cache on them.
use apg.Prelude.{
  ◌≡◌, refl, not, ◌&&◌, [], ◌∷◌, ◌++◌, none, contains, lookup, is_some, nat_eq, list_eq,
}
use apg.Text.{codes}
use apg.Classify.Config.{ApgConfig}
use apg.Cache.Render.{classification_render, classification_render-shift, with_rules, rule_of}
use apg.Cache.Manifest.{Manifest, diff, diff_sorts, both_differ}

abbrev older : Manifest
older = record { root = codes "/r"; entries = (codes "a", codes "1") ∷ (codes "b", codes "2") ∷ [] }

abbrev newer : Manifest
newer = record { root = codes "/r"; entries = (codes "b", codes "3") ∷ (codes "c", codes "4") ∷ [] }

diff_sorts_example :
    (contains (diff older newer).added (codes "c") ≡ (
      is_some (lookup (codes "c") newer.entries)
      && not (is_some (lookup (codes "c") older.entries))))
    × (contains (diff older newer).modified (codes "c")
        ≡ both_differ (lookup (codes "c") older.entries) (lookup (codes "c") newer.entries))
    × (contains (diff older newer).removed (codes "c") ≡ (
        is_some (lookup (codes "c") older.entries)
        && not (is_some (lookup (codes "c") newer.entries))))
diff_sorts_example = diff_sorts older newer (codes "c") (refl, (refl, tt))

abbrev plain : ApgConfig
plain = record { default = codes "project"; types = []; structural = none }

classification_render-shift_example :
    classification_render (
      with_rules plain (
        []
        ++ rule_of
            (codes "test")
            ((codes "a" ∷ []) ++ codes "names" ∷ codes "b" ∷ [])
            (codes "c" ∷ [])
          ∷ []))
    ≡ classification_render (
        with_rules plain (
          []
          ++ rule_of
              (codes "test")
              (codes "a" ∷ [])
              ((codes "b" ∷ []) ++ codes "names" ∷ codes "c" ∷ [])
            ∷ []))
classification_render-shift_example =
    classification_render-shift plain [] [] (codes "test") (codes "a") [] (codes "b") [] (codes "c")
      []
