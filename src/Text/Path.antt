-- ===== src/Text/Path.antt =====
-- Rust's `Path` on Unix: a text cut at `/`, empty pieces and inner `.` pieces left out.
use apg.Prelude.{
  Bool, true, false, List, [], ◌∷◌, ◌++◌, filter_map, Option, none, some, is_empty, if◌then◌else◌,
  ◌==◌, nat_eq, list_eq,
}
use apg.Text.{Text, codes, split, starts_with}

pub data Component : Type 0 where
  root_dir cur_dir parent_dir : Component
  normal : Text → Component

abbrev piece_component : Text → Option Component
piece_component piece =
    if is_empty piece
    then none
    else if piece == codes "."
    then none
    else if piece == codes ".."
    then some parent_dir
    else some (normal piece)

abbrev pub pieces : Text → List Text
pieces = split (λ c. c == b'/')

-- `path.is_absolute()`
abbrev pub is_absolute : Text → Bool
is_absolute path = starts_with path (codes "/")

abbrev leading_dot : List Text → List Component
leading_dot [] = []
leading_dot (p ∷ ps) = if p == codes "." then cur_dir ∷ [] else []

-- `path.components()`
unfoldable pub components : Text → List Component
components path =
    (if is_absolute path then root_dir ∷ [] else leading_dot (pieces path))
    ++ filter_map piece_component (pieces path)

abbrev component_beq : Component → Component → Bool
component_beq root_dir root_dir = true
component_beq cur_dir cur_dir = true
component_beq parent_dir parent_dir = true
component_beq (normal a) (normal b) = a == b
component_beq _ _ = false

-- `path.strip_prefix(base)`
unfoldable pub strip_prefix : List Component → List Component → Option (List Component)
strip_prefix path [] = some path
strip_prefix [] (b ∷ base) = none
strip_prefix (c ∷ path) (b ∷ base) =
    let rest = strip_prefix path base in if component_beq c b then rest else none

-- `path.file_name()`
abbrev pub last_name : List Component → Option Text
last_name [] = none
last_name (normal name ∷ []) = some name
last_name (_ ∷ []) = none
last_name (_ ∷ c ∷ cs) = last_name (c ∷ cs)

unfoldable pub file_name : Text → Option Text
file_name path = last_name (components path)
