-- ===== src/Impact/Closure.antt =====
-- `DepIndex::reverse_closure` of src/impact/depindex.rs, and its proof of correctness.
pub mod Loop
pub mod Correct
use apg.Prelude.{
  ℕ, zero, suc, ◌+◌, Bool, true, false, List, [], ◌∷◌, ◌++◌, Option, none, some, if◌then◌else◌,
  contains, insert, length, Map, entry, nat_eq, list_eq,
}
use mathlib.Core.List.{reverse}
use apg.Text.{Text}
use apg.Impact.DepIndex.{DepIndex}

-- `out`, and `queue` with its last element, the one that `pop` takes, in front
pub record Work : Type 0 where
  pub out : List Text
  pub queue : List Text

-- `if out.insert(d.clone()) { queue.push(d.clone()) }`
unfoldable pub push_one : Text → Work → Work
push_one d w = if contains w.out d then w else record { out = insert d w.out; queue = d ∷ w.queue }

-- `for d in deps { if out.insert(d.clone()) { queue.push(d.clone()) } }`
unfoldable pub push_new : List Text → Work → Work
push_new [] w = w
push_new (d ∷ deps) w = push_new deps (push_one d w)

unfoldable pub closure_loop : DepIndex → ℕ → Work → Option (List Text)
closure_loop idx zero w = none
closure_loop idx (suc fuel) w = elim w.queue [
  | [] ↦ some w.out
  | f ∷ rest ↦
      closure_loop idx fuel (push_new (entry f idx.reverse) (record { out = w.out; queue = rest }))
]

-- All dependents that the index names, as often as it names them.
abbrev pub dependents : Map Text (List Text) → List Text
dependents [] = []
dependents ((_, s) ∷ m) = s ++ dependents m

abbrev pub closure_fuel : DepIndex → List Text → ℕ
closure_fuel idx seeds = length seeds + length (dependents idx.reverse) + 1

abbrev pub or_empty : Option (List Text) → List Text
or_empty none = []
or_empty (some s) = s

unfoldable pub reverse_closure : DepIndex → List Text → List Text
reverse_closure idx seeds =
    or_empty
      (closure_loop idx (closure_fuel idx seeds) (record { out = seeds; queue = reverse seeds }))
