-- ===== src/Classify/Examples.antt =====
-- The classification at concrete paths, with the inputs of the unit tests of src/classify.
use apg.Prelude.{◌≡◌, refl, ◌↔◌, true, false, [], ◌∷◌, none, some, arith, nat_eq, list_eq}
use apg.Text.{codes}
use apg.Classify.Config.{CodeTypeRule, ApgConfig}
use apg.Classify.CodeType.{rule_matches, classify_code_type}
use apg.Classify.Priority.{classify_code_type-first_rule}
use apg.Classify.Glob.{matches_glob, glob_loop, retry, skip_stars, star}
use apg.Classify.Glob.Spec.{Matches}
use apg.Classify.Glob.Sound.{matches_glob_sound}
use apg.Classify.Glob.Complete.{matches_glob_iff, matches_glob-star}

backtracks : matches_glob (codes "src/*_test.r?") (codes "src/a_test/b_test.rs") ≡ true
unfolding matches_glob glob_loop retry skip_stars
backtracks = refl

matches_glob_sound_example : Matches (codes "src/*_test.r?") (codes "src/a_test/b_test.rs")
matches_glob_sound_example =
    matches_glob_sound (codes "src/*_test.r?") (codes "src/a_test/b_test.rs") backtracks

matches_glob_iff_example :
    (matches_glob (codes "*.rs") (codes "a.go") ≡ true) ↔ Matches (codes "*.rs") (codes "a.go")
matches_glob_iff_example = matches_glob_iff (codes "*.rs") (codes "a.go") (ground arith)

matches_glob-star_example :
    Matches (star ∷ []) (codes "*a") × (matches_glob (star ∷ []) (codes "*a") ≡ false)
matches_glob-star_example = matches_glob-star (codes "*a") b'a' []

abbrev generated_rule : CodeTypeRule
generated_rule = record { name = codes "generated"; globs = codes "*.pb.go" ∷ []; names = [] }

abbrev api_rule : CodeTypeRule
api_rule = record { name = codes "api"; globs = codes "api/*" ∷ []; names = codes "Api*" ∷ [] }

abbrev config : ApgConfig
config = record { default = codes "lib"; types = generated_rule ∷ api_rule ∷ []; structural = none }

first_misses : rule_matches (codes "api/x.go") (codes "go.api.X") generated_rule ≡ false
unfolding rule_matches matches_glob glob_loop retry skip_stars
first_misses = refl

second_hits : rule_matches (codes "api/x.go") (codes "go.api.X") api_rule ≡ true
unfolding rule_matches matches_glob glob_loop retry skip_stars
second_hits = refl

classify_code_type-first_rule_example :
    classify_code_type (codes "api/x.go") (codes "go.api.X") (codes "go") (some config)
    ≡ codes "api"
classify_code_type-first_rule_example =
    classify_code_type-first_rule (codes "api/x.go") (codes "go.api.X") (codes "go") config
      (generated_rule ∷ []) [] api_rule refl (ground (arith, first_misses)) second_hits
