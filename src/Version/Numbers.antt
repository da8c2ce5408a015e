-- ===== src/Version/Numbers.antt =====
-- The numbers of a version: what is parsed, and that a printed number is read back.
use apg.Prelude.{
  ℕ, zero, suc, ◌+◌, ◌-◌, ◌*◌, ◌/◌, ◌%◌, ◌^◌, ◌<◌, ◌≤◌, ◌≡◌, refl, Bool, true, false, ◌&&◌, [], ◌∷◌,
  ◌++◌, some, none, if◌then◌else◌, all, arith, leb, ltb, nat_eq, Bool-cases, inl, inr, ◌∙◌, ap, sym,
}
use apg.Text.{Text}
use apg.Text.Decimal.{decimal_digits, decimal, digits_value, digits_value-decimal}
use apg.Version.{u64_digits, parse_u64}

abbrev pub is_digit : ℕ → Bool
is_digit c = leb b'0' c && leb c b'9'

all_digits-append :
    (s t : Text) → all is_digit s ≡ true → all is_digit t ≡ true → all is_digit (s ++ t) ≡ true
all_digits-append [] t h k = k
all_digits-append (c ∷ s) t h k = ground (arith, h, all_digits-append s t)

decimal_digits-all_digits : (fuel n : ℕ) → all is_digit (decimal_digits fuel n) ≡ true
unfolding decimal_digits
decimal_digits-all_digits zero n = refl
decimal_digits-all_digits (suc fuel) n = elim (Bool-cases (ltb n 10)) [
  | inl small ↦ ground (arith, small)
  | inr big ↦ rw big (
      all_digits-append (decimal_digits fuel (n / 10)) ((b'0' + n % 10) ∷ [])
        (decimal_digits-all_digits fuel (n / 10)) (ground arith))
]

pub decimal-all_digits : (n : ℕ) → all is_digit (decimal n) ≡ true
unfolding decimal
decimal-all_digits n = decimal_digits-all_digits (suc n) n

snoc_shape : (s : Text) (c : ℕ) → (d : ℕ) × (t : Text) × (s ++ c ∷ [] ≡ d ∷ t)
snoc_shape [] c = (c, [], refl)
snoc_shape (d ∷ s) c = (d, s ++ c ∷ [], refl)

pub decimal_shape : (n : ℕ) → (c : ℕ) × (s : Text) × (decimal n ≡ c ∷ s)
unfolding decimal decimal_digits
decimal_shape n = elim (Bool-cases (ltb n 10)) [
  | inl small ↦ (b'0' + n, [], rw small)
  | inr big ↦ rw big (snoc_shape (decimal_digits n (n / 10)) (b'0' + n % 10))
]

value_grows : (acc : ℕ) (s : Text) → acc ≤ digits_value acc s
unfolding digits_value
value_grows acc [] = omega arith
value_grows acc (c ∷ s) = omega (arith, value_grows (acc * 10 + (c - b'0')) s)

u64_digits-value :
    (acc : ℕ) (s : Text)
    → all is_digit s ≡ true
    → digits_value acc s < 2 ^ 64
    → u64_digits acc s ≡ some (digits_value acc s)
unfolding u64_digits digits_value
u64_digits-value acc [] h fits = refl
u64_digits-value acc (c ∷ s) h fits =
    ground
      (arith, h, u64_digits-value (acc * 10 + (c - b'0')) s, value_grows (acc * 10 + (c - b'0')) s)

parse_u64-digits :
    (c : ℕ) (s : Text) → all is_digit (c ∷ s) ≡ true → parse_u64 (c ∷ s) ≡ u64_digits 0 (c ∷ s)
unfolding parse_u64
parse_u64-digits c [] h = refl
parse_u64-digits c (d ∷ s) h = ground (arith, h)

-- A number that a `u64` holds is read back from its digits.
pub parse_u64-decimal : (n : ℕ) → n < 2 ^ 64 → parse_u64 (decimal n) ≡ some n
parse_u64-decimal n h =
    let (c, s, e) = decimal_shape n in
    ap parse_u64 e
    ∙ parse_u64-digits c s (rw e at (decimal-all_digits n))
    ∙ ap (u64_digits 0) (sym e)
    ∙ u64_digits-value 0 (decimal n) (decimal-all_digits n) (omega (arith, digits_value-decimal n))
    ∙ ap some (digits_value-decimal n)

u64_digits-overflow :
    (acc : ℕ) (s : Text)
    → acc < 2 ^ 64
    → all is_digit s ≡ true
    → 2 ^ 64 ≤ digits_value acc s
    → u64_digits acc s ≡ none
unfolding u64_digits digits_value
u64_digits-overflow acc [] small h large = absurd (omega arith)
u64_digits-overflow acc (c ∷ s) small h large =
    ground (arith, h, u64_digits-overflow (acc * 10 + (c - b'0')) s)

-- A printed number is read back if a `u64` holds it, and is refused if it is larger.
pub parse_u64-decimal_or_none :
    (n : ℕ) → parse_u64 (decimal n) ≡ (if ltb n (2 ^ 64) then some n else none)
parse_u64-decimal_or_none n = elim (Bool-cases (ltb n (2 ^ 64))) [
  | inl small ↦ rw small (parse_u64-decimal n (ground (arith, small)))
  | inr large ↦
      let (c, s, e) = decimal_shape n in
      rw large (
        ap parse_u64 e
        ∙ parse_u64-digits c s (rw e at (decimal-all_digits n))
        ∙ ap (u64_digits 0) (sym e)
        ∙ u64_digits-overflow 0 (decimal n) (omega arith) (decimal-all_digits n)
            (omega (arith, large_lem n large, digits_value-decimal n)))
]
  where
    large_lem : (n : ℕ) → ltb n (2 ^ 64) ≡ false → 2 ^ 64 ≤ n
    large_lem n h = ground (arith, h)
