-- ===== src/Classify/Glob.antt =====
-- The glob matcher of src/classify.rs. A cursor into the pattern or the text is what is left of it
-- from there on; the saved star is the pattern after the star and the text from `star_ti` on.
pub mod Spec
pub mod Sound
pub mod Complete
use apg.Prelude.{
  ℕ, zero, suc, ◌+◌, ◌*◌, ◌<◌, ◌≤◌, ◌≡◌, refl, Bool, true, false, ◌&&◌, ◌||◌, List, [], ◌∷◌, Option,
  none, some, arith, if◌then◌else◌, ◌==◌, nat_eq, length, is_empty, Bool-cases, inl, inr,
}
use apg.Text.{Text}

abbrev pub star : ℕ
star = b'*'

abbrev pub Saved : Type 0
Saved = Option (Text × Text)

-- `while pi < pat.len() && pat[pi] == '*' { pi += 1; }`
unfoldable pub skip_stars : Text → Text
skip_stars [] = []
skip_stars (c ∷ p) = if c == star then skip_stars p else c ∷ p

-- `at + 1`
abbrev pub next : Text → Text
next [] = []
next (c ∷ t) = t

abbrev pub Round : Type 0
Round = Text → Text → Saved → Option Bool

-- The last two branches of the loop.
unfoldable pub retry : Saved → Round → Option Bool
retry none again = some false
retry (some (sp, st)) again = again sp (next st) (some (sp, next st))

unfoldable pub glob_loop : ℕ → Round
glob_loop zero p t saved = none
glob_loop (suc f) p [] saved = some (is_empty (skip_stars p))
glob_loop (suc f) [] (d ∷ t) saved = retry saved (glob_loop f)
glob_loop (suc f) (c ∷ p) (d ∷ t) saved =
    let advance = glob_loop f p t saved in
    let expand = glob_loop f (skip_stars p) (d ∷ t) (some (p, d ∷ t)) in
    if c == b'?' || c == d then advance else if c == star then expand else retry saved (glob_loop f)

abbrev pub fuel : Text → Text → ℕ
fuel pattern path = length path * (length pattern + 1) + length pattern + 1

unfoldable pub matches_glob : Text → Text → Bool
unfolding glob_loop
matches_glob pattern path = elim (glob_loop (fuel pattern path) pattern path none) [
  | some b ↦ b
  | none ↦ false
]

skip_stars-le : (p : Text) → length (skip_stars p) ≤ length p
unfolding skip_stars
skip_stars-le [] = omega arith
skip_stars-le (c ∷ p) = ground (arith, skip_stars-le p)

abbrev SavedBound : ℕ → ℕ → Text → Saved → Type 0
SavedBound m k t none = Unit
SavedBound m k t (some (sp, st)) = (length st ≤ m) × (length t ≤ length st) × (length sp < k)

-- What is left of the text after the saved star bounds the retries to come.
abbrev Bounded : ℕ → ℕ → ℕ → Text → Text → Saved → Type 0
Bounded f m k p t saved =
    (length t ≤ m) × (length p < k) × SavedBound m k t saved × (m * k + length p < f)

abbrev Returns : Option Bool → Type 0
Returns o = (b : Bool) × (o ≡ some b)

retry-Returns :
    (f m k d : ℕ) (p t : Text) (saved : Saved) (again : Round)
    → ((n : ℕ) (q u : Text) (s : Saved) → Bounded f n k q u s → Returns (again q u s))
    → Bounded (suc f) m k p (d ∷ t) saved
    → Returns (retry saved again)
unfolding retry
retry-Returns f m k d p t none again ih h = (false, refl)
retry-Returns f m k d p t (some (sp, [])) again ih h = absurd (omega arith)
retry-Returns f zero k d p t (some (sp, x ∷ st)) again ih h = absurd (omega arith)
retry-Returns f (suc m) k d p t (some (sp, x ∷ st)) again ih h =
    ih m sp st (some (sp, st)) (omega arith)

glob_loop-Returns :
    (f m k : ℕ) (p t : Text) (saved : Saved)
    → Bounded f m k p t saved
    → Returns (glob_loop f p t saved)
unfolding glob_loop
glob_loop-Returns zero m k p t saved h = absurd (omega arith)
glob_loop-Returns (suc f) m k p [] saved h = (is_empty (skip_stars p), ground arith)
glob_loop-Returns (suc f) m k [] (d ∷ t) saved h =
    retry-Returns f m k d [] t saved (glob_loop f) (λ n q u s. glob_loop-Returns f n k q u s) h
glob_loop-Returns (suc f) m k (c ∷ p) (d ∷ t) saved h = elim (Bool-cases (c == b'?' || c == d)) [
  | inl e ↦ rw e (glob_loop-Returns f m k p t saved (advance-Bounded saved h))
  | inr e ↦ rw e (elim (Bool-cases (c == star)) [
    | inl e' ↦ rw e' (
        glob_loop-Returns f m k (skip_stars p) (d ∷ t) (some (p, d ∷ t))
          (omega (arith, skip_stars-le p)))
    | inr e' ↦ rw e' (
        retry-Returns f m k d (c ∷ p) t saved (glob_loop f)
          (λ n q u s. glob_loop-Returns f n k q u s) h)
  ])
]
  where
    advance-Bounded : (s : Saved) → Bounded (suc f) m k (c ∷ p) (d ∷ t) s → Bounded f m k p t s
    advance-Bounded none b = omega arith
    advance-Bounded (some (sp, st)) b = omega arith

pub matches_glob-glob_loop :
    (pattern path : Text)
    → glob_loop (fuel pattern path) pattern path none ≡ some (matches_glob pattern path)
unfolding matches_glob
matches_glob-glob_loop pattern path =
    let (b, e) =
      glob_loop-Returns (fuel pattern path) (length path) (length pattern + 1) pattern path none
        (omega arith) in
    ground arith
