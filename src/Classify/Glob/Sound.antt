-- ===== src/Classify/Glob/Sound.antt =====
-- A glob that the matcher accepts matches.
use apg.Prelude.{
  ℕ, zero, suc, ◌≡◌, ◌⊎◌, inl, inr, refl, true, ◌||◌, [], ◌∷◌, none, some, arith, ◌==◌, nat_eq,
  ==_iff, Bool-cases, List-cases, is_empty, ap, ◌∙◌,
}
use apg.Text.{Text}
use apg.Classify.Glob.{
  star, Saved, Round, skip_stars, retry, glob_loop, fuel, matches_glob, matches_glob-glob_loop,
}
use apg.Classify.Glob.Spec.{Matches, done, one, leave, take}

pub skip_stars-Matches : (p : Text) {t : Text} → Matches (skip_stars p) t → Matches p t
unfolding skip_stars
skip_stars-Matches [] h = h
skip_stars-Matches (c ∷ p) h = elim (Bool-cases (c == star)) [
  | inl e ↦ leave ((==_iff c star).0 e) (skip_stars-Matches p (rw e at h))
  | inr e ↦ rw e at h
]

-- The question that the saved star leaves open.
abbrev Back : Saved → Type 0
Back none = ⊥
Back (some (sp, st)) = Matches (star ∷ sp) st

-- A character that passes the first test matches, also where both are stars.
single-Matches :
    {c d : ℕ} {p t : Text} → (c == b'?' || c == d) ≡ true → Matches p t → Matches (c ∷ p) (d ∷ t)
single-Matches {c} {d} h m = elim (Bool-cases (c == star)) [
  | inl e ↦ take ((==_iff c star).0 e) (leave ((==_iff c star).0 e) m)
  | inr e ↦ one (ground arith, ground arith) m
]

retry_sound :
    (saved : Saved) (again : Round)
    → ((q u : Text) (s : Saved) → again q u s ≡ some true → Matches q u ⊎ Back s)
    → retry saved again ≡ some true
    → Back saved
unfolding retry
retry_sound none again ih h = cc
retry_sound (some (sp, [])) again ih h = elim (ih sp [] (some (sp, [])) h) [
  | inl m ↦ leave refl m
  | inr b ↦ b
]
retry_sound (some (sp, x ∷ st)) again ih h = elim (ih sp st (some (sp, st)) h) [
  | inl m ↦ take refl (leave refl m)
  | inr b ↦ take refl b
]

empty-Matches : (p : Text) → is_empty (skip_stars p) ≡ true → Matches p []
empty-Matches p h = elim (List-cases (skip_stars p)) [
  | inl e ↦ skip_stars-Matches p (rw e done)
  | inr (c, q, e) ↦ cc (rw e at h)
]

glob_loop_sound :
    (f : ℕ) (p t : Text) (saved : Saved)
    → glob_loop f p t saved ≡ some true
    → Matches p t ⊎ Back saved
unfolding glob_loop
glob_loop_sound zero p t saved h = cc
glob_loop_sound (suc f) [] [] saved h = inl done
glob_loop_sound (suc f) (c ∷ p) [] saved h = inl (empty-Matches (c ∷ p) (cc))
glob_loop_sound (suc f) [] (d ∷ t) saved h =
    inr (retry_sound saved (glob_loop f) (glob_loop_sound f) h)
glob_loop_sound (suc f) (c ∷ p) (d ∷ t) saved h = elim (Bool-cases (c == b'?' || c == d)) [
  | inl e ↦ elim (glob_loop_sound f p t saved (rw e at h)) [
    | inl m ↦ inl (single-Matches e m)
    | inr b ↦ inr b
  ]
  | inr e ↦ elim (Bool-cases (c == star)) [
    | inl e' ↦ inl (
        expanded ((==_iff c star).0 e')
          (glob_loop_sound f (skip_stars p) (d ∷ t) (some (p, d ∷ t)) (rw (e, e') at h)))
    | inr e' ↦ inr (retry_sound saved (glob_loop f) (glob_loop_sound f) (rw (e, e') at h))
  ]
]
  where
    expanded :
        c ≡ star → Matches (skip_stars p) (d ∷ t) ⊎ Back (some (p, d ∷ t)) → Matches (c ∷ p) (d ∷ t)
    expanded e (inl m) = leave e (skip_stars-Matches p m)
    expanded e (inr b) = rw e b

-- Whatever the pattern and the text, a text that `matches_glob` accepts is one that the glob
-- describes: `*` for a run, `?` for one character, any other character for itself.
pub matches_glob_sound :
    (pattern path : Text) → matches_glob pattern path ≡ true → Matches pattern path
matches_glob_sound pattern path h =
    elim (glob_loop_sound (fuel pattern path) pattern path none
      (matches_glob-glob_loop pattern path ∙ ap some h)) [ inl m ↦ m | inr b ↦ absurd b ]
