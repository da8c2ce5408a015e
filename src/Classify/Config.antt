-- ===== src/Classify/Config.antt =====
-- The classification section of `apg/config.json`, as it is after deserialisation
-- (src/classify.rs).
use apg.Prelude.{Bool, List, Option, nat_eq, list_eq, contains, map}
use Prim.Native.String.{String}
use mathlib.Core.List.{[], ◌∷◌}
use apg.Text.{Text, codes}

pub record CodeTypeRule : Type 0 where
  pub name : Text
  pub globs : List Text
  pub names : List Text

pub record StructuralScope : Type 0 where
  pub include : List Text
  pub exclude : List Text
  pub code_type : Option Text

pub record ApgConfig : Type 0 where
  pub default : Text
  pub types : List CodeTypeRule
  pub structural : Option StructuralScope

-- A Rust list of string literals.
abbrev pub texts : List String → List Text
texts = map codes

unfoldable pub is_structural_language : Text → Bool
is_structural_language language =
    contains
      (texts (
        "md" ∷ "sh" ∷ "yaml" ∷ "json" ∷ "toml" ∷ "xml" ∷ "dockerfile" ∷ "makefile" ∷ "ini" ∷ "misc"
        ∷ []))
      language
