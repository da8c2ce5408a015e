-- ===== src/Classify/BuildOutput.antt =====
-- `is_build_output_path` of src/classify.rs.
use apg.Prelude.{
  ℕ, ◌≡◌, Bool, true, ◌||◌, ◌∷◌, ◌++◌, [], ◌==◌, nat_eq, list_eq, any, any-append, contains,
}
use apg.Text.{Text, split, split-sep}
use apg.Classify.Config.{texts}

-- `/` or `\`
abbrev pub is_separator : ℕ → Bool
is_separator c = c == b'/' || c == 92

unfoldable pub is_build_output_path : Text → Bool
is_build_output_path path =
    any (λ seg. contains (texts (".git" ∷ "target" ∷ [])) seg) (split is_separator path)

-- A path joined from two by a separator lies in a build tree exactly if one of the two does: a
-- component is judged whole, wherever it stands.
pub is_build_output_path-join :
    (s t : Text) (c : ℕ)
    → is_separator c ≡ true
    → is_build_output_path (s ++ c ∷ t) ≡ (is_build_output_path s || is_build_output_path t)
unfolding is_build_output_path
is_build_output_path-join s t c h =
    rw (split-sep is_separator s t c h) (any-append _ (split is_separator s) (split is_separator t))
