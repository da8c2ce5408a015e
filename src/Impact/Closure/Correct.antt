-- ===== src/Impact/Closure/Correct.antt =====
-- The closure holds exactly the files that depend on a seed.
use mathlib.Core.List.{reverse, reverse-append}
use mathlib.Core.Logic.{∥∥₁_elim}
use mathlib.Core.Bool.{So-prop}
use apg.Prelude.{
  ℕ, zero, suc, ◌≤◌, ◌≡◌, ◌⊎◌, ◌↔◌, refl, ap, subst, sym, ◌∙◌, true, List, [], ◌∷◌, some, arith,
  contains, contains-append, length, length-append, entry, ==_iff, nat_eq, list_eq, ◌==◌,
  Bool-cases, inl, inr, List-cases,
}
use apg.Text.{Text}
use apg.Impact.DepIndex.{DepIndex}
use apg.Impact.Closure.{
  Work, push_new, closure_loop, closure_fuel, dependents, or_empty, reverse_closure,
}
use apg.Impact.Closure.Loop.{push_new-out, push_new-queue, missing, closure_loop_returns}

-- A seed, or a file that references one that depends on a seed.
pub data Depends (idx : DepIndex) (seeds : List Text) : Text → Type 0 where
  seed : {f : Text} → contains seeds f ≡ true → Depends idx seeds f
  via :
      {f d : Text}
      → Depends idx seeds d
      → contains (entry d idx.reverse) f ≡ true
      → Depends idx seeds f

contains-reverse : (s : List Text) (a : Text) → contains (reverse s) a ≡ contains s a
contains-reverse [] a = refl
contains-reverse (x ∷ s) a =
    rw (reverse-append (x ∷ []) s)
      (ground (arith, contains-append (reverse s) (x ∷ []) a, contains-reverse s a))

length-reverse : (s : List Text) → length (reverse s) ≡ length s
length-reverse [] = refl
length-reverse (x ∷ s) =
    rw (reverse-append (x ∷ []) s)
      (omega (arith, length-append (reverse s) (x ∷ []), length-reverse s))

missing-le : (out vs : List Text) → missing out vs ≤ length vs
missing-le out [] = omega arith
missing-le out (v ∷ vs) = ground (arith, missing-le out vs)

module _ (idx : DepIndex) (seeds : List Text) where
  record Inv (w : Work) : Type 0 where
    seeded : (a : Text) → contains seeds a ≡ true → contains w.out a ≡ true
    queued : (a : Text) → contains w.queue a ≡ true → contains w.out a ≡ true
    sound : (a : Text) → contains w.out a ≡ true → Depends idx seeds a
    closed :
        (u v : Text)
        → contains w.out u ≡ true
        → contains (entry u idx.reverse) v ≡ true
        → (contains w.queue u ≡ true) ⊎ (contains w.out v ≡ true)

  start-Inv : Inv (record { out = seeds; queue = reverse seeds })
  start-Inv = record {
    seeded = λ a m. m;
    queued = λ a m. sym (contains-reverse seeds a) ∙ m;
    sound = λ a m. seed m;
    closed = λ u v m _. inl (contains-reverse seeds u ∙ m);
  }

  round-Inv :
      (w : Work) (f : Text) (rest : List Text)
      → w.queue ≡ f ∷ rest
      → Inv w
      → Inv (push_new (entry f idx.reverse) (record { out = w.out; queue = rest }))
  round-Inv w f rest e i =
      let deps = entry f idx.reverse in
      let w' : Work = record { out = w.out; queue = rest } in
      let out = λ (a : Text). push_new-out a deps w' in
      let queue = λ (a : Text). push_new-queue a deps w' in
      let popped = λ (a : Text). ap (λ q. contains q a) e in
      record {
        seeded = λ a m. ground (arith, out a, i.seeded a m);
        queued = λ a m. ground (arith, out a, queue a, i.queued a, popped a);
        sound = λ a m. elim (Bool-cases (contains w.out a)) [
          | inl old ↦ i.sound a old
          | inr new ↦
              via (i.sound f (i.queued f (ground (arith, popped f, ==_iff f f))))
                (ground (arith, out a))
        ];
        closed = λ u v m d. elim (Bool-cases (f == u)) [
          | inl e' ↦
              let d' =
                subst (λ x. contains (entry x idx.reverse) v ≡ true) (sym ((==_iff f u).0 e')) d in
              inr (ground (arith, out v))
          | inr n ↦ ground (arith, out u, out v, queue u, popped u, i.closed u v)
        ];
      }

  closure_loop-Inv :
      (fuel : ℕ) (w : Work) (s : List Text)
      → Inv w
      → closure_loop idx fuel w ≡ some s
      → Inv (record { out = s; queue = [] })
  unfolding closure_loop
  closure_loop-Inv zero w s i h = cc
  closure_loop-Inv (suc fuel) w s i h = elim (List-cases w.queue) [
    | inl e ↦
        let ends : w.out ≡ s = cc (rw (e, closure_loop) at h) in
        let idle = subst (λ q. Inv (record { out = w.out; queue = q })) e i in
        subst (λ x. Inv (record { out = x; queue = [] })) ends idle
    | inr (f, rest, e) ↦
        closure_loop-Inv fuel
          (push_new (entry f idx.reverse) (record { out = w.out; queue = rest })) s
          (round-Inv w f rest e i) (rw (e, closure_loop) at h)
  ]

  reverse_closure-Inv : Inv (record { out = reverse_closure idx seeds; queue = [] })
  unfolding reverse_closure
  reverse_closure-Inv =
      let w : Work = record { out = seeds; queue = reverse seeds } in
      let (s, ends) =
        closure_loop_returns idx (closure_fuel idx seeds) w
          (omega (arith, missing-le seeds (dependents idx.reverse), length-reverse seeds)) in
      subst (λ x. Inv (record { out = or_empty x; queue = [] })) (sym ends)
        (closure_loop-Inv (closure_fuel idx seeds) w s start-Inv ends)

  complete :
      (s : List Text)
      → Inv (record { out = s; queue = [] })
      → {f : Text} → Depends idx seeds f
      → contains s f ≡ true
  complete s i (seed {f} m) = i.seeded f m
  complete s i (via {f} {d} p m) = elim (i.closed d f (complete s i p) m) [ inl q ↦ cc | inr o ↦ o ]

-- `reverse_closure` ends, and holds a file exactly if the file is a seed or references, over any
-- number of steps, a file that is one.
pub reverse_closure_iff :
    (idx : DepIndex) (seeds : List Text) (f : Text)
    → (contains (reverse_closure idx seeds) f ≡ true) ↔ ∥ Depends idx seeds f ∥₁
reverse_closure_iff idx seeds f =
    let i = reverse_closure-Inv idx seeds in
    (
      λ m. ∣ i.sound f m ∣₁,
      λ d. ∥∥₁_elim d (So-prop _) (complete idx seeds (reverse_closure idx seeds) i),
    )
