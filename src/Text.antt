-- ===== src/Text.antt =====
-- Rust's `str` as the list of its characters, and the string methods that the program calls.
pub mod Decimal
pub mod Utf8
pub mod Path
use Prim.Native.Char.{code}
use Prim.Native.String.{String}
use mathlib.Core.Option
use apg.Prelude.{
  ℕ, ◌+◌, ◌≡◌, refl, Bool, true, false, ◌&&◌, ◌||◌, List, [], ◌∷◌, ◌++◌, map, Option, none, some,
  arith, leb, if◌then◌else◌, ◌==◌, nat_eq, list_eq, is_empty, Bool-cases, inl, inr,
}

abbrev pub Text : Type 0
Text = List ℕ

abbrev pub codes : String → Text
codes String.[] = []
codes (String.◌∷◌ c s) = code c ∷ codes s

-- `char::is_whitespace`
unfoldable pub is_whitespace : ℕ → Bool
is_whitespace c =
    (leb 9 c && leb c 13)
    || c == 0x20
    || c == 0x85
    || c == 0xa0
    || c == 0x1680
    || (leb 0x2000 c && leb c 0x200a)
    || c == 0x2028
    || c == 0x2029
    || c == 0x202f
    || c == 0x205f
    || c == 0x3000

-- `s.starts_with(pre)`
unfoldable pub starts_with : Text → Text → Bool
starts_with s [] = true
starts_with [] (p ∷ pre) = false
starts_with (c ∷ s) (p ∷ pre) = c == p && starts_with s pre

-- `s.strip_prefix(pre)`
unfoldable pub strip_text : Text → Text → Option Text
strip_text s [] = some s
strip_text [] (p ∷ pre) = none
strip_text (c ∷ s) (p ∷ pre) = let rest = strip_text s pre in if c == p then rest else none

-- `s.ends_with(suf)`
unfoldable pub ends_with : Text → Text → Bool
ends_with [] suf = is_empty suf
ends_with (c ∷ s) suf = (c ∷ s) == suf || ends_with s suf

-- `s.strip_suffix(suf)`
unfoldable pub strip_suffix : Text → Text → Option Text
strip_suffix [] suf = if is_empty suf then some [] else none
strip_suffix (c ∷ s) suf =
    if (c ∷ s) == suf then some [] else Option.map (λ r. c ∷ r) (strip_suffix s suf)

-- `s.to_ascii_lowercase()`
unfoldable pub to_ascii_lowercase : Text → Text
to_ascii_lowercase = map (λ c. if leb b'A' c && leb c b'Z' then c + 32 else c)

-- The first piece of a split, one character longer.
abbrev pub cons_head : ℕ → List Text → List Text
cons_head c [] = (c ∷ []) ∷ []
cons_head c (s ∷ ss) = (c ∷ s) ∷ ss

-- `s.split(sep)`: there is always a first piece
unfoldable pub split : (ℕ → Bool) → Text → List Text
split sep [] = [] ∷ []
split sep (c ∷ s) = if sep c then [] ∷ split sep s else cons_head c (split sep s)

-- `pieces.last()`, with the default of an `unwrap_or`
abbrev pub last_or : Text → List Text → Text
last_or d [] = d
last_or d (s ∷ ss) = last_or s ss

-- `s.rsplit_once(sep)`
unfoldable pub rsplit_once : ℕ → Text → Option (Text × Text)
rsplit_once sep [] = none
rsplit_once sep (c ∷ s) = elim (rsplit_once sep s) [
  | some (before, after) ↦ some (c ∷ before, after)
  | none ↦ if c == sep then some ([], s) else none
]

split-cons : (sep : ℕ → Bool) (s : Text) → (p : Text) × (ps : List Text) × (split sep s ≡ p ∷ ps)
unfolding split
split-cons sep [] = ([], [], refl)
split-cons sep (c ∷ s) = elim (Bool-cases (sep c)) [
  | inl e ↦ ([], split sep s, rw e)
  | inr e ↦ let (p, ps, eq) = split-cons sep s in (c ∷ p, ps, rw (e, eq))
]

-- A separator cuts the pieces before it from those after it.
pub split-sep :
    (sep : ℕ → Bool) (s t : Text) (c : ℕ)
    → sep c ≡ true
    → split sep (s ++ c ∷ t) ≡ split sep s ++ split sep t
unfolding split
split-sep sep [] t c h = rw h
split-sep sep (x ∷ s) t c h =
    let (p, ps, eq) = split-cons sep s in ground (arith, split-sep sep s t c h)
