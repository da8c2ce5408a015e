-- ===== src/Version/Gate.antt =====
-- Which layouts the gate lets the binary touch.
use apg.Prelude.{
  ℕ, ◌^◌, ◌<◌, ◌≡◌, ◌≢◌, ◌↔◌, refl, Bool, true, false, ltb, not, ◌&&◌, [], ◌∷◌, ◌++◌, Option, none,
  some, all, arith, if◌then◌else◌, ◌==◌, nat_eq, ◌∙◌, ap,
}
use apg.Text.{Text, is_whitespace, split, split-sep}
use apg.Text.Decimal.{decimal}
use apg.Version.{
  trim_start, keep_char, trim_end, trim, first_two, both, read_pieces, judge, parse_u64,
  parse_major_minor, VersionBlock, Verdict, compare_versions, check_version,
}
use apg.Version.Numbers.{is_digit, decimal-all_digits, parse_u64-decimal_or_none}

-- A version of three parts or more.
abbrev pub version : ℕ → ℕ → Text → Text
version a b rest = decimal a ++ b'.' ∷ (decimal b ++ b'.' ∷ rest)

abbrev pub has_no_space : Text → Bool
has_no_space = all (λ c. not (is_whitespace c))

both_hold : (a b : Bool) → (a && b) ≡ true → (a ≡ true) × (b ≡ true)
both_hold a b h = ground arith

keep_char-itself : (c : ℕ) (s : Text) → not (is_whitespace c) ≡ true → keep_char c s ≡ c ∷ s
keep_char-itself c [] h = ground (arith, h)
keep_char-itself c (d ∷ s) h = refl

digit_is_no_space : (c : ℕ) → is_digit c ≡ true → not (is_whitespace c) ≡ true
unfolding is_whitespace
digit_is_no_space c h = ground (arith, h)

dot_is_no_space : not (is_whitespace b'.') ≡ true
unfolding is_whitespace
dot_is_no_space = refl

trim_start-itself : (s : Text) → has_no_space s ≡ true → trim_start s ≡ s
trim_start-itself [] h = refl
trim_start-itself (c ∷ s) h = ground (arith, h)

trim_end-itself : (s : Text) → has_no_space s ≡ true → trim_end s ≡ s
trim_end-itself [] h = refl
trim_end-itself (c ∷ s) h =
    let (front, rest) = both_hold (not (is_whitespace c)) (has_no_space s) h in
    ap (keep_char c) (trim_end-itself s rest) ∙ keep_char-itself c s front

trim-itself : (s : Text) → has_no_space s ≡ true → trim s ≡ s
trim-itself s h = rw (trim_start-itself s h) (trim_end-itself s h)

digits_have_no_space : (s : Text) → all is_digit s ≡ true → has_no_space s ≡ true
digits_have_no_space [] h = refl
digits_have_no_space (c ∷ s) h = ground (arith, h, digit_is_no_space c, digits_have_no_space s)

no_space-append :
    (s t : Text) → has_no_space s ≡ true → has_no_space t ≡ true → has_no_space (s ++ t) ≡ true
no_space-append [] t h k = k
no_space-append (c ∷ s) t h k = ground (arith, h, no_space-append s t)

dot-append : (s : Text) → has_no_space s ≡ true → has_no_space (b'.' ∷ s) ≡ true
dot-append s h = ground (arith, h, dot_is_no_space)

version-has_no_space :
    (a b : ℕ) (rest : Text) → has_no_space rest ≡ true → has_no_space (version a b rest) ≡ true
version-has_no_space a b rest h =
    let digits = λ (n : ℕ). digits_have_no_space (decimal n) (decimal-all_digits n) in
    let dotted = λ (s : Text) (k : has_no_space s ≡ true). dot-append s k in
    no_space-append (decimal a) (b'.' ∷ (decimal b ++ b'.' ∷ rest)) (digits a) (
      dotted (decimal b ++ b'.' ∷ rest)
        (no_space-append (decimal b) (b'.' ∷ rest) (digits b) (dotted rest h)))

split-digits : (s : Text) → all is_digit s ≡ true → split (λ c. c == b'.') s ≡ s ∷ []
unfolding split
split-digits [] h = refl
split-digits (c ∷ s) h = ground (arith, h, split-digits s)

split-version :
    (a b : ℕ) (rest : Text)
    → split (λ c. c == b'.') (version a b rest)
      ≡ decimal a ∷ decimal b ∷ split (λ c. c == b'.') rest
split-version a b rest = rw (
  split-sep (λ c. c == b'.') (decimal a) (decimal b ++ b'.' ∷ rest) b'.' refl,
  split-sep (λ c. c == b'.') (decimal b) rest b'.' refl,
  split-digits (decimal a) (decimal-all_digits a),
  split-digits (decimal b) (decimal-all_digits b),
)

both_fit :
    (p q : Bool) (a b : ℕ)
    → both (if p then some a else none) (if q then some b else none)
      ≡ (if p && q then some (a, b) else none)
both_fit true true a b = refl
both_fit true false a b = refl
both_fit false q a b = refl

-- Of a version of three parts or more without white space, the first two numbers are read if a `u64`
-- holds both of them; if one is larger, the version is malformed.
pub parse_major_minor-bounds :
    (a b : ℕ) (rest : Text)
    → has_no_space rest ≡ true
    → parse_major_minor (version a b rest)
      ≡ (if ltb a (2 ^ 64) && ltb b (2 ^ 64) then some (a, b) else none)
unfolding parse_major_minor
parse_major_minor-bounds a b rest h =
    ap (λ t. read_pieces (first_two (split (λ c. c == b'.') t)))
      (trim-itself (version a b rest) (version-has_no_space a b rest h))
    ∙ ap (λ ps. read_pieces (first_two ps)) (split-version a b rest)
    ∙ ap (λ o. both o (parse_u64 (decimal b))) (parse_u64-decimal_or_none a)
    ∙ ap (both (if ltb a (2 ^ 64) then some a else none)) (parse_u64-decimal_or_none b)
    ∙ both_fit (ltb a (2 ^ 64)) (ltb b (2 ^ 64)) a b

-- The first two numbers of a version without white space are read back from its text.
pub parse_major_minor-version :
    (a b : ℕ) (rest : Text)
    → a < 2 ^ 64
    → b < 2 ^ 64
    → has_no_space rest ≡ true
    → parse_major_minor (version a b rest) ≡ some (a, b)
parse_major_minor-version a b rest ha hb h = ground (arith, parse_major_minor-bounds a b rest h)

-- Between two versions of three parts or more, without white space and with numbers that fit, the
-- gate lets the binary on exactly if the first two numbers agree, whatever follows them; else it
-- blocks and names the layout's numbers.
pub check_version-version :
    (a b c d : ℕ) (rest other : Text)
    → a < 2 ^ 64
    → b < 2 ^ 64
    → c < 2 ^ 64
    → d < 2 ^ 64
    → has_no_space rest ≡ true
    → has_no_space other ≡ true
    → check_version (version a b rest) (some (version c d other)) ≡ (
        if a == c && b == d
        then Verdict.proceed
        else Verdict.blocked (VersionBlock.mismatch (version c d other) c d))
unfolding check_version
check_version-version a b c d rest other ha hb hc hd h k =
    ap (judge (version a b rest) (version c d other)) (parse_major_minor-version c d other hc hd k)
    ∙ ap (λ o. compare_versions o (version c d other) c d)
        (parse_major_minor-version a b rest ha hb h)

some_inj : {x y : Text} → some x ≡ some y → x ≡ y
some_inj e = cc

read_version :
    (binary raw : Text) (a b : ℕ) (o : Option (ℕ × ℕ))
    → parse_major_minor binary ≡ some (a, b)
    → parse_major_minor raw ≡ o
    → (check_version binary (some raw) ≢ Verdict.no_binary_version)
      × ((check_version binary (some raw) ≡ Verdict.proceed) ↔ (o ≡ some (a, b)))
unfolding check_version
read_version binary raw a b none h e =
    (λ p. ground (arith, e, p), (λ p. absurd (ground (arith, e, p)), λ p. cc))
read_version binary raw a b (some (c, d)) h e =
    (λ p. ground (arith, h, e, p), (λ p. ground (arith, h, e, p), λ p. ground (arith, h, e, p)))

-- With a binary whose version is read, the gate never panics, and it lets the binary on exactly if
-- the layout has a version of which the same two numbers are read: without a version and with one
-- that is malformed it blocks.
pub check_version_iff :
    (binary : Text) (layout : Option Text) (a b : ℕ)
    → parse_major_minor binary ≡ some (a, b)
    → (check_version binary layout ≢ Verdict.no_binary_version)
      × ((check_version binary layout ≡ Verdict.proceed)
          ↔ ((raw : Text) × (layout ≡ some raw) × (parse_major_minor raw ≡ some (a, b))))
unfolding check_version
check_version_iff binary none a b h = (λ p. cc, (λ p. absurd (cc), λ (raw, e, p). absurd (cc)))
check_version_iff binary (some raw) a b h =
    let (safe, iff) = read_version binary raw a b (parse_major_minor raw) h refl in
    (
      safe,
      (λ p. (raw, refl, iff.0 p), λ (other, e, p). iff.1 (ap parse_major_minor (some_inj e) ∙ p)),
    )
