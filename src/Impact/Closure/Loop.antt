-- ===== src/Impact/Closure/Loop.antt =====
-- One round of the closure loop: what it marks, what it queues, and that it comes to an end.
use apg.Prelude.{
  ℕ, zero, suc, ◌+◌, ◌≤◌, ◌<◌, ◌≡◌, ap, true, false, not, ◌&&◌, ◌||◌, List, [], ◌∷◌, some, arith,
  if◌then◌else◌, contains, contains-insert, contains-append, insert, length, Map, entry, ==_iff,
  nat_eq, list_eq, ◌==◌, inl, inr, List-cases, All,
}
use apg.Text.{Text}
use apg.Impact.DepIndex.{DepIndex}
use apg.Impact.Closure.{Work, push_one, push_new, closure_loop, dependents}

module _ (a : Text) where
  push_one-out :
      (d : Text) (w : Work) → contains (push_one d w).out a ≡ (contains w.out a || d == a)
  unfolding push_one
  push_one-out d w = ground (arith, contains-insert d w.out a, ==_iff d a)

  push_one-queue :
      (d : Text) (w : Work)
      → contains (push_one d w).queue a ≡ (contains w.queue a || (d == a && not (contains w.out a)))
  unfolding push_one
  push_one-queue d w = ground (arith, ==_iff d a)

  pub push_new-out :
      (deps : List Text) (w : Work)
      → contains (push_new deps w).out a ≡ (contains w.out a || contains deps a)
  unfolding push_new
  push_new-out [] w = ground arith
  push_new-out (d ∷ deps) w = ground (arith, push_new-out deps (push_one d w), push_one-out d w)

  -- What is queued is what was queued and what is new.
  pub push_new-queue :
      (deps : List Text) (w : Work)
      → contains (push_new deps w).queue a
        ≡ (contains w.queue a || (contains deps a && not (contains w.out a)))
  unfolding push_new
  push_new-queue [] w = ground arith
  push_new-queue (d ∷ deps) w =
      ground (arith, push_new-queue deps (push_one d w), push_one-queue d w, push_one-out d w)

-- How many of `vs` are not in `out`.
abbrev pub missing : List Text → List Text → ℕ
missing out [] = 0
missing out (v ∷ vs) = if contains out v then missing out vs else suc (missing out vs)

missing-insert : (d : Text) (out vs : List Text) → missing (insert d out) vs ≤ missing out vs
missing-insert d out [] = omega arith
missing-insert d out (v ∷ vs) = ground (arith, missing-insert d out vs, contains-insert d out v)

missing-insert_new :
    (d : Text) (out vs : List Text)
    → contains vs d ≡ true
    → contains out d ≡ false
    → missing (insert d out) vs < missing out vs
missing-insert_new d out [] m n = cc
missing-insert_new d out (v ∷ vs) m n = ground (
  arith,
  missing-insert_new d out vs,
  missing-insert d out vs,
  contains-insert d out v,
  ==_iff v d,
  ==_iff d v,
)

abbrev pub work : List Text → Work → ℕ
work vs w = missing w.out vs + length w.queue

push_one-work :
    (vs : List Text) (d : Text) (w : Work)
    → contains vs d ≡ true
    → work vs (push_one d w) ≤ work vs w
unfolding push_one
push_one-work vs d w m = ground (arith, missing-insert_new d w.out vs m)

pub push_new-work :
    (vs deps : List Text) (w : Work)
    → All (λ d. contains vs d ≡ true) deps
    → work vs (push_new deps w) ≤ work vs w
unfolding push_new
push_new-work vs [] w h = omega arith
push_new-work vs (d ∷ deps) w h =
    omega (arith, push_one-work vs d w h.0, push_new-work vs deps (push_one d w) h.1)

All-contains :
    (vs deps : List Text)
    → ((a : Text) → contains deps a ≡ true → contains vs a ≡ true)
    → All (λ d. contains vs d ≡ true) deps
All-contains vs [] h = tt
All-contains vs (d ∷ deps) h =
    (h d (ground (arith, ==_iff d d)), All-contains vs deps (λ a m. h a (ground arith)))

entry-dependents :
    (m : Map Text (List Text)) (f a : Text)
    → contains (entry f m) a ≡ true
    → contains (dependents m) a ≡ true
entry-dependents [] f a h = cc
entry-dependents ((j, s) ∷ m) f a h =
    ground (arith, entry-dependents m f a, contains-append s (dependents m) a)

-- The loop ends with a set once its fuel exceeds the work that is left.
pub closure_loop_returns :
    (idx : DepIndex) (fuel : ℕ) (w : Work)
    → work (dependents idx.reverse) w < fuel
    → (s : List Text) × (closure_loop idx fuel w ≡ some s)
unfolding closure_loop
closure_loop_returns idx zero w h = absurd (omega arith)
closure_loop_returns idx (suc fuel) w h = elim (List-cases w.queue) [
  | inl e ↦ (w.out, rw (e, closure_loop))
  | inr (f, rest, e) ↦
      let vs = dependents idx.reverse in
      let deps = entry f idx.reverse in
      let w' : Work = record { out = w.out; queue = rest } in
      let less = push_new-work vs deps w' (All-contains vs deps (entry-dependents idx.reverse f)) in
      let (s, ends) =
        closure_loop_returns idx fuel (push_new deps w') (omega (arith, ap length e)) in
      (s, rw (e, closure_loop) ends)
]
