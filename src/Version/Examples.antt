-- ===== src/Version/Examples.antt =====
-- The version gate on concrete versions, and its theorems at concrete inputs.
use apg.Prelude.{◌≡◌, ◌≢◌, ◌↔◌, refl, none, some, arith}
use apg.Text.{Text, codes, is_whitespace, split}
use apg.Version.{Verdict, VersionBlock, u64_digits, parse_u64, parse_major_minor, check_version}
use apg.Version.Gate.{version, parse_major_minor-bounds, check_version-version, check_version_iff}

two_parts : check_version (codes "0.10.4") (some (codes " 0.10 ")) ≡ Verdict.proceed
unfolding check_version parse_major_minor parse_u64 u64_digits split is_whitespace
two_parts = refl

one_part :
    check_version (codes "0.10.4") (some (codes "7"))
    ≡ Verdict.blocked (VersionBlock.malformed (codes "7"))
unfolding check_version parse_major_minor parse_u64 u64_digits split is_whitespace
one_part = refl

too_large : parse_major_minor (codes "18446744073709551616.0") ≡ none
unfolding parse_major_minor parse_u64 u64_digits split is_whitespace
too_large = refl

parse_major_minor-bounds_example :
    parse_major_minor (version 18446744073709551616 10 (codes "4")) ≡ none
unfolding is_whitespace
parse_major_minor-bounds_example = parse_major_minor-bounds 18446744073709551616 10 (codes "4") refl

check_version-version_example :
    check_version (version 0 10 (codes "4")) (some (version 0 9 (codes "1")))
    ≡ Verdict.blocked (VersionBlock.mismatch (version 0 9 (codes "1")) 0 9)
unfolding is_whitespace
check_version-version_example =
    check_version-version 0 10 0 9 (codes "4") (codes "1") (omega arith) (omega arith) (omega arith)
      (omega arith) refl refl

check_version_iff_example :
    (check_version (codes "0.10.4") (some (codes "0.10")) ≢ Verdict.no_binary_version)
    × ((check_version (codes "0.10.4") (some (codes "0.10")) ≡ Verdict.proceed) ↔ (
        (raw : Text) × (some (codes "0.10") ≡ some raw) × (parse_major_minor raw ≡ some (0, 10))))
unfolding parse_major_minor parse_u64 u64_digits split is_whitespace
check_version_iff_example = check_version_iff (codes "0.10.4") (some (codes "0.10")) 0 10 refl
