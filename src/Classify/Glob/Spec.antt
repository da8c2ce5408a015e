-- ===== src/Classify/Glob/Spec.antt =====
-- What a glob means, with no search in it.
use apg.Prelude.{ℕ, ◌≡◌, ◌≢◌, ◌⊎◌, [], ◌∷◌}
use apg.Text.{Text}

-- A pattern character that stands for the one character `d`.
abbrev pub Single : ℕ → ℕ → Type 0
Single c d = (c ≢ b'*') × ((c ≡ b'?') ⊎ (c ≡ d))

-- `*` matches any run, `?` any one character, and any other character itself.
pub data Matches : Text → Text → Type 0 where
  done : Matches [] []
  one : {c d : ℕ} {p t : Text} → Single c d → Matches p t → Matches (c ∷ p) (d ∷ t)
  leave : {c : ℕ} {p t : Text} → c ≡ b'*' → Matches p t → Matches (c ∷ p) t
  take : {c d : ℕ} {p t : Text} → c ≡ b'*' → Matches (c ∷ p) t → Matches (c ∷ p) (d ∷ t)
