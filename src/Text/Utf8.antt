-- ===== src/Text/Utf8.antt =====
-- The UTF-8 form of a text, `as_bytes` and `String::from_utf8`: each character takes one to four
-- bytes, and the reader refuses surplus bytes, surrogates and what is above the last character.
use apg.Prelude.{
  ℕ, ◌+◌, ◌-◌, ◌*◌, ◌/◌, ◌%◌, ◌<◌, ◌≤◌, ◌≡◌, refl, Bool, true, ◌&&◌, ◌||◌, List, [], ◌∷◌, ◌++◌,
  Option, none, some, arith, leb, ltb, All, if◌then◌else◌, nat_beq, ap, ◌∙◌,
}
use apg.Text.{Text}

-- A Rust `char`: a Unicode scalar value.
abbrev pub is_char : ℕ → Bool
is_char c = ltb c 0xd800 || (leb 0xe000 c && ltb c 0x110000)

abbrev pub IsText : Text → Type 0
IsText = All (λ c. is_char c ≡ true)

abbrev pub utf8_char : ℕ → List ℕ
utf8_char c =
    if ltb c 0x80
    then c ∷ []
    else if ltb c 0x800
    then (0xc0 + c / 64) ∷ (0x80 + c % 64) ∷ []
    else if ltb c 0x10000
    then (0xe0 + c / 4096) ∷ (0x80 + c / 64 % 64) ∷ (0x80 + c % 64) ∷ []
    else (0xf0 + c / 262144) ∷ (0x80 + c / 4096 % 64) ∷ (0x80 + c / 64 % 64) ∷ (0x80 + c % 64) ∷ []

-- `s.as_bytes()`
unfoldable pub as_bytes : Text → List ℕ
as_bytes [] = []
as_bytes (c ∷ s) = utf8_char c ++ as_bytes s

-- How many bytes of a character are still to come, its bits so far, and the range of the next byte.
pub record Partial : Type 0 where
  pub missing : ℕ
  pub bits : ℕ
  pub low : ℕ
  pub high : ℕ

pub data Step : Type 0 where
  bad start : Step
  char : ℕ → Step
  more : Partial → Step

abbrev await : ℕ → ℕ → ℕ → ℕ → Step
await missing bits low high =
    more (record { missing = missing; bits = bits; low = low; high = high })

-- The range of a second byte, which rules out surplus bytes, surrogates and what is too large.
abbrev pub second_low : ℕ → ℕ → ℕ
second_low lead floor = if leb lead 0 then floor else 0x80

abbrev pub second_high : ℕ → ℕ → ℕ → ℕ
second_high lead last ceiling = if nat_beq lead last then ceiling else 0xbf

abbrev pub lead_byte : ℕ → Step
lead_byte b =
    if ltb b 0x80
    then char b
    else if ltb b 0xc2
    then bad
    else if ltb b 0xe0
    then await 1 (b - 0xc0) 0x80 0xbf
    else if ltb b 0xf0
    then await 2 (b - 0xe0) (second_low (b - 0xe0) 0xa0) (second_high (b - 0xe0) 13 0x9f)
    else if ltb b 0xf5
    then await 3 (b - 0xf0) (second_low (b - 0xf0) 0x90) (second_high (b - 0xf0) 4 0x8f)
    else bad

abbrev pub with_bits : Partial → ℕ → Step
with_bits p bits = if leb p.missing 1 then char bits else await (p.missing - 1) bits 0x80 0xbf

abbrev pub next_byte : Partial → ℕ → Step
next_byte p b = if leb p.low b && leb b p.high then with_bits p (p.bits * 64 + (b - 0x80)) else bad

abbrev pub cons_char : ℕ → Option Text → Option Text
cons_char c none = none
cons_char c (some s) = some (c ∷ s)

-- The reader after a byte; a character is given out when the next one starts.
unfoldable pub decode : Step → List ℕ → Option Text
decode bad bytes = none
decode start [] = some []
decode start (b ∷ bytes) = decode (lead_byte b) bytes
decode (char c) [] = some (c ∷ [])
decode (char c) (b ∷ bytes) = cons_char c (decode (lead_byte b) bytes)
decode (more p) [] = none
decode (more p) (b ∷ bytes) = decode (next_byte p b) bytes

-- `String::from_utf8(bytes)`
unfoldable pub from_utf8 : List ℕ → Option Text
from_utf8 = decode start

decode-char : (c : ℕ) (bytes : List ℕ) → decode (char c) bytes ≡ cons_char c (decode start bytes)
unfolding decode
decode-char c [] = refl
decode-char c (b ∷ bytes) = refl

next_last :
    (bits low high r : ℕ)
    → low ≤ 0x80 + r
    → 0x80 + r ≤ high
    → next_byte (record { missing = 1; bits = bits; low = low; high = high }) (0x80 + r)
      ≡ char (bits * 64 + r)
next_last bits low high r hl hh = ground arith

next_more :
    (n bits low high r : ℕ)
    → low ≤ 0x80 + r
    → 0x80 + r ≤ high
    → next_byte (record { missing = n + 2; bits = bits; low = low; high = high }) (0x80 + r)
      ≡ await (n + 1) (bits * 64 + r) 0x80 0xbf
next_more n bits low high r hl hh = ground arith

lead_two : (q : ℕ) → 2 ≤ q → q < 32 → lead_byte (0xc0 + q) ≡ await 1 q 0x80 0xbf
lead_two q h h' = ground arith

lead_three :
    (q : ℕ) → q < 16 → lead_byte (0xe0 + q) ≡ await 2 q (second_low q 0xa0) (second_high q 13 0x9f)
lead_three q h = ground arith

lead_four :
    (q : ℕ) → q < 5 → lead_byte (0xf0 + q) ≡ await 3 q (second_low q 0x90) (second_high q 4 0x8f)
lead_four q h = ground arith

two_bytes :
    (q r : ℕ) (rest : List ℕ)
    → 2 ≤ q
    → q < 32
    → r < 64
    → decode start ((0xc0 + q) ∷ (0x80 + r) ∷ rest) ≡ decode (char (q * 64 + r)) rest
unfolding decode
two_bytes q r rest hq hq' hr =
    ap (λ s. decode s ((0x80 + r) ∷ rest)) (lead_two q hq hq')
    ∙ ap (λ s. decode s rest) (next_last q 0x80 0xbf r (omega arith) (omega arith))

three_bytes :
    (q r t : ℕ) (rest : List ℕ)
    → q < 16
    → r < 64
    → t < 64
    → second_low q 0xa0 ≤ 0x80 + r
    → 0x80 + r ≤ second_high q 13 0x9f
    → decode start ((0xe0 + q) ∷ (0x80 + r) ∷ (0x80 + t) ∷ rest)
      ≡ decode (char ((q * 64 + r) * 64 + t)) rest
unfolding decode
three_bytes q r t rest hq hr ht low high =
    ap (λ s. decode s ((0x80 + r) ∷ (0x80 + t) ∷ rest)) (lead_three q hq)
    ∙ ap (λ s. decode s ((0x80 + t) ∷ rest))
        (next_more 0 q (second_low q 0xa0) (second_high q 13 0x9f) r low high)
    ∙ ap (λ s. decode s rest) (next_last (q * 64 + r) 0x80 0xbf t (omega arith) (omega arith))

four_bytes :
    (q r t u : ℕ) (rest : List ℕ)
    → q < 5
    → r < 64
    → t < 64
    → u < 64
    → second_low q 0x90 ≤ 0x80 + r
    → 0x80 + r ≤ second_high q 4 0x8f
    → decode start ((0xf0 + q) ∷ (0x80 + r) ∷ (0x80 + t) ∷ (0x80 + u) ∷ rest)
      ≡ decode (char (((q * 64 + r) * 64 + t) * 64 + u)) rest
unfolding decode
four_bytes q r t u rest hq hr ht hu low high =
    ap (λ s. decode s ((0x80 + r) ∷ (0x80 + t) ∷ (0x80 + u) ∷ rest)) (lead_four q hq)
    ∙ ap (λ s. decode s ((0x80 + t) ∷ (0x80 + u) ∷ rest))
        (next_more 1 q (second_low q 0x90) (second_high q 4 0x8f) r low high)
    ∙ ap (λ s. decode s ((0x80 + u) ∷ rest))
        (next_more 0 (q * 64 + r) 0x80 0xbf t (omega arith) (omega arith))
    ∙ ap (λ s. decode s rest)
        (next_last ((q * 64 + r) * 64 + t) 0x80 0xbf u (omega arith) (omega arith))

split_two : (c : ℕ) → c / 64 * 64 + c % 64 ≡ c
split_two c = omega arith

split_three : (c : ℕ) → (c / 4096 * 64 + c / 64 % 64) * 64 + c % 64 ≡ c
split_three c = omega arith

split_four : (c : ℕ) → ((c / 262144 * 64 + c / 4096 % 64) * 64 + c / 64 % 64) * 64 + c % 64 ≡ c
split_four c = omega arith

lead_one : (c : ℕ) → c < 0x80 → lead_byte c ≡ char c
lead_one c h = ground arith

read_one : (c : ℕ) (rest : List ℕ) → c < 0x80 → decode start (c ∷ rest) ≡ decode (char c) rest
unfolding decode
read_one c rest h = ap (λ s. decode s rest) (lead_one c h)

read_two :
    (c : ℕ) (rest : List ℕ)
    → 0x80 ≤ c
    → c < 0x800
    → decode start ((0xc0 + c / 64) ∷ (0x80 + c % 64) ∷ rest) ≡ decode (char c) rest
read_two c rest h h' =
    rw (split_two c) at (two_bytes (c / 64) (c % 64) rest (omega arith) (omega arith) (omega arith))

read_three :
    (c : ℕ) (rest : List ℕ)
    → 0x800 ≤ c
    → c < 0x10000
    → is_char c ≡ true
    → decode start ((0xe0 + c / 4096) ∷ (0x80 + c / 64 % 64) ∷ (0x80 + c % 64) ∷ rest)
      ≡ decode (char c) rest
read_three c rest h h' k = rw (split_three c) at (
    three_bytes (c / 4096) (c / 64 % 64) (c % 64) rest (omega arith) (omega arith) (omega arith)
      (ground arith) (ground arith))

read_four :
    (c : ℕ) (rest : List ℕ)
    → 0x10000 ≤ c
    → is_char c ≡ true
    → decode start (
        (0xf0 + c / 262144)
        ∷ (0x80 + c / 4096 % 64)
        ∷ (0x80 + c / 64 % 64)
        ∷ (0x80 + c % 64)
        ∷ rest)
      ≡ decode (char c) rest
read_four c rest h k = rw (split_four c) at (
    four_bytes (c / 262144) (c / 4096 % 64) (c / 64 % 64) (c % 64) rest (ground arith) (omega arith)
      (omega arith) (omega arith) (ground arith) (ground arith))

utf8_char_read :
    (c : ℕ) (rest : List ℕ)
    → is_char c ≡ true
    → decode start (utf8_char c ++ rest) ≡ decode (char c) rest
utf8_char_read c rest h =
    ground (arith, read_one c rest, read_two c rest, read_three c rest, read_four c rest)

-- The reader gives back the text of any row of characters.
pub from_utf8-as_bytes : (s : Text) → IsText s → from_utf8 (as_bytes s) ≡ some s
unfolding as_bytes from_utf8
from_utf8-as_bytes [] h = unfold decode in refl
from_utf8-as_bytes (c ∷ s) h =
    rw (utf8_char_read c (as_bytes s) h.0, decode-char c (as_bytes s), from_utf8-as_bytes s h.1)
