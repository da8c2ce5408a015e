-- ===== src/Artifacts/Cycle.antt =====
-- `cycle_closing_path` of src/artifacts/merge.rs: a breadth-first search with parents.
pub mod Round
pub mod Climb
pub mod Correct
use mathlib.Core.Option
use mathlib.Core.List.{reverse}
use apg.Prelude.{
  ℕ, zero, suc, ◌+◌, Bool, true, false, not, ◌&&◌, List, [], ◌∷◌, ◌++◌, Option, none, some,
  if◌then◌else◌, length, Map, lookup, has_key, ◌==◌, nat_eq, list_eq,
}
use apg.Text.{Text}
use apg.Schema.{Record}

-- `parent` with the latest entry in front, and `queue`
pub record Frontier : Type 0 where
  pub parent : Map Text Text
  pub queue : List Text

-- the body of `for r in records`, on the value of `is_edge(r)`
unfoldable pub visit_one : Text → Option (Text × Text) → Frontier → Frontier
visit_one cur none s = s
visit_one cur (some (a, b)) s =
    if a == cur && not (has_key b s.parent)
    then record { parent = (b, cur) ∷ s.parent; queue = s.queue ++ b ∷ [] }
    else s

module _ (is_edge : Record → Option (Text × Text)) where
  unfoldable pub visit : Text → List Record → Frontier → Frontier
  visit cur [] s = s
  visit cur (r ∷ rs) s = visit cur rs (visit_one cur (is_edge r) s)

  -- `while let Some(cur) = queue.pop_front()`
  unfoldable pub search_loop : List Record → ℕ → Frontier → Option (Map Text Text)
  search_loop records zero s = none
  search_loop records (suc fuel) s = elim s.queue [
    | [] ↦ some s.parent
    | cur ∷ rest ↦
        search_loop records fuel (visit cur records (record { parent = s.parent; queue = rest }))
  ]

-- `while cur != to`
unfoldable pub climb : Map Text Text → Text → ℕ → Text → List Text → Option (List Text)
climb parent to zero cur path = none
climb parent to (suc fuel) cur path = if cur == to then some path else elim (lookup cur parent) [
  | none ↦ none
  | some prev ↦ climb parent to fuel prev (path ++ prev ∷ [])
]

abbrev pub or_no_parents : Option (Map Text Text) → Map Text Text
or_no_parents none = []
or_no_parents (some parent) = parent

unfoldable pub parents_from : (Record → Option (Text × Text)) → List Record → Text → Map Text Text
parents_from is_edge records to =
    or_no_parents
      (search_loop is_edge records (length records + 2) (record { parent = []; queue = to ∷ [] }))

unfoldable pub cycle_closing_path :
    List Record → Text → Text → (Record → Option (Text × Text)) → Option (List Text)
cycle_closing_path records from to is_edge =
    if from == to
    then some (from ∷ [])
    else let parent = parents_from is_edge records to in
      if has_key from parent
      then Option.map reverse (climb parent to (length parent + 1) from (from ∷ []))
      else none
