-- ===== src/Version.antt =====
-- src/version_gate.rs: whether the binary may touch a layout of a declared version. The texts of the
-- refusals and the config file are left out.
pub mod Gate
pub mod Numbers
mod Examples
use apg.Prelude.{
  ℕ, ◌+◌, ◌-◌, ◌*◌, ◌^◌, Bool, true, false, ◌&&◌, List, [], ◌∷◌, ◌++◌, Option, none, some, leb, ltb,
  ◌==◌, nat_eq, if◌then◌else◌,
}
use apg.Text.{Text, is_whitespace, split}

-- Where the number that a row of digits continues passes the largest `u64`, there is none.
unfoldable pub u64_digits : ℕ → Text → Option ℕ
u64_digits acc [] = some acc
u64_digits acc (c ∷ s) =
    let next = acc * 10 + (c - b'0') in
    let rest = u64_digits next s in
    if leb b'0' c && leb c b'9' && ltb next (2 ^ 64) then rest else none

-- `s.parse::<u64>()`: digits after at most one plus sign
unfoldable pub parse_u64 : Text → Option ℕ
parse_u64 [] = none
parse_u64 (c ∷ []) = u64_digits 0 (c ∷ [])
parse_u64 (c ∷ d ∷ s) = if c == b'+' then u64_digits 0 (d ∷ s) else u64_digits 0 (c ∷ d ∷ s)

abbrev pub trim_start : Text → Text
trim_start [] = []
trim_start (c ∷ s) = let rest = trim_start s in if is_whitespace c then rest else c ∷ s

abbrev pub keep_char : ℕ → Text → Text
keep_char c [] = if is_whitespace c then [] else c ∷ []
keep_char c (d ∷ rest) = c ∷ d ∷ rest

abbrev pub trim_end : Text → Text
trim_end [] = []
trim_end (c ∷ s) = keep_char c (trim_end s)

-- `s.trim()`
abbrev pub trim : Text → Text
trim s = trim_end (trim_start s)

abbrev pub first_two : List Text → Option (Text × Text)
first_two (a ∷ b ∷ _) = some (a, b)
first_two _ = none

abbrev pub both : Option ℕ → Option ℕ → Option (ℕ × ℕ)
both (some a) (some b) = some (a, b)
both _ _ = none

abbrev pub read_pieces : Option (Text × Text) → Option (ℕ × ℕ)
read_pieces none = none
read_pieces (some (a, b)) = both (parse_u64 a) (parse_u64 b)

unfoldable pub parse_major_minor : Text → Option (ℕ × ℕ)
parse_major_minor version = read_pieces (first_two (split (λ c. c == b'.') (trim version)))

pub data VersionBlock : Type 0 where
  unversioned : VersionBlock
  malformed : (raw : Text) → VersionBlock
  mismatch : (layout_version : Text) (layout_major layout_minor : ℕ) → VersionBlock

-- What `check_version` returns; `no_binary_version` is the panic on the binary's own version.
pub data Verdict : Type 0 where
  proceed : Verdict
  blocked : VersionBlock → Verdict
  no_binary_version : Verdict

abbrev pub compare_versions : Option (ℕ × ℕ) → Text → ℕ → ℕ → Verdict
compare_versions none layout major minor = no_binary_version
compare_versions (some (bin_major, bin_minor)) layout major minor =
    if bin_major == major && bin_minor == minor
    then proceed
    else blocked (VersionBlock.mismatch layout major minor)

abbrev pub judge : Text → Text → Option (ℕ × ℕ) → Verdict
judge binary_version layout none = blocked (VersionBlock.malformed layout)
judge binary_version layout (some (major, minor)) =
    compare_versions (parse_major_minor binary_version) layout major minor

unfoldable pub check_version : Text → Option Text → Verdict
check_version binary_version none = blocked VersionBlock.unversioned
check_version binary_version (some layout) = judge binary_version layout (parse_major_minor layout)
