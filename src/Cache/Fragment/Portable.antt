-- ===== src/Cache/Fragment/Portable.antt =====
-- Stored names are those of the files below a checkout, whichever checkout wrote or reads them.
use apg.Prelude.{
  ◌⊎◌, ℕ, ◌≡◌, refl, Bool, true, not, [], ◌∷◌, ◌++◌, Option, none, some, arith, nat_eq, inl, inr,
  ◌∙◌, sym, ap,
}
use apg.Text.{Text, strip_text}
use apg.Cache.Fragment.{is_separator, trim_separators, separated, below, rebase}

strip_text-append : (root s : Text) → strip_text (root ++ s) root ≡ some s
unfolding strip_text
strip_text-append [] s = refl
strip_text-append (c ∷ root) s = ground (arith, strip_text-append root s)

below-join :
    (c : ℕ) (root tail : Text)
    → below ((c ∷ root) ++ b'/' ∷ tail) (c ∷ root) ≡ some (trim_separators (b'/' ∷ tail))
unfolding below separated
below-join c root tail = rw (strip_text-append (c ∷ root) (b'/' ∷ tail)) refl

-- A path below the root that wrote it keeps its tail alone, whoever reads it.
rebase-join :
    (c : ℕ) (root reader tail : Text)
    → rebase (c ∷ root) reader ((c ∷ root) ++ b'/' ∷ tail) ≡ trim_separators (b'/' ∷ tail)
unfolding rebase
rebase-join c root reader tail = ground (arith, below-join c root tail)

abbrev pub starts_unseparated : Text → Bool
starts_unseparated [] = true
starts_unseparated (c ∷ s) = not (is_separator c)

trim_separators-starts : (s : Text) → starts_unseparated (trim_separators s) ≡ true
unfolding trim_separators
trim_separators-starts [] = refl
trim_separators-starts (c ∷ s) = ground (arith, trim_separators-starts s)

separated-starts : (s t : Text) → separated s ≡ some t → starts_unseparated t ≡ true
unfolding separated
separated-starts [] t h = ground (arith, h)
separated-starts (c ∷ s) t h = ground (arith, h, trim_separators-starts (c ∷ s))

below-starts : (s root t : Text) → below s root ≡ some t → starts_unseparated t ≡ true
unfolding below
below-starts s root t h = grind (arith, h, separated-starts)

below-unseparated : (s root : Text) → starts_unseparated s ≡ true → below s (b'/' ∷ root) ≡ none
unfolding below strip_text
below-unseparated [] root h = refl
below-unseparated (c ∷ s) root h = ground (arith, h)

pub rebase-unseparated :
    (a b s : Text) → starts_unseparated s ≡ true → rebase (b'/' ∷ a) (b'/' ∷ b) s ≡ s
unfolding rebase
rebase-unseparated a b s h = ground (arith, below-unseparated s a h, below-unseparated s b h)

found : (o : Option Text) → (o ≡ none) ⊎ ((t : Text) × (o ≡ some t))
found none = inl refl
found (some t) = inr (t, refl)

rebase-cases : (a b s : Text) → (starts_unseparated (rebase a b s) ≡ true) ⊎ (rebase a b s ≡ s)
unfolding rebase
rebase-cases a b s = elim (found (below s a)) [
  | inr (t, e) ↦ inl (ground (arith, e, below-starts s a t e))
  | inl e ↦ elim (found (below s b)) [
    | inr (t, k) ↦ inl (ground (arith, e, k, below-starts s b t k))
    | inl k ↦ inr (ground (arith, e, k))
  ]
]

-- Between absolute roots a stored name stays as it is when it is read again.
rebase-rebase :
    (a b s : Text)
    → rebase (b'/' ∷ a) (b'/' ∷ b) (rebase (b'/' ∷ a) (b'/' ∷ b) s) ≡ rebase (b'/' ∷ a) (b'/' ∷ b) s
rebase-rebase a b s = elim (rebase-cases (b'/' ∷ a) (b'/' ∷ b) s) [
  | inl e ↦ rebase-unseparated a b (rebase (b'/' ∷ a) (b'/' ∷ b) s) e
  | inr e ↦ ap (rebase (b'/' ∷ a) (b'/' ∷ b)) e
]

-- Two checkouts with roots that are not empty, a name below each of them with the same tail: whoever
-- reads them, both have the same stored name.
pub rebase-portable :
    (c d : ℕ) (a b reader other tail : Text)
    → rebase (c ∷ a) reader ((c ∷ a) ++ b'/' ∷ tail) ≡ rebase (d ∷ b) other ((d ∷ b) ++ b'/' ∷ tail)
rebase-portable c d a b reader other tail =
    rebase-join c a reader tail ∙ sym (rebase-join d b other tail)
