-- ===== src/Artifacts/Cycle/Climb.antt =====
-- The climb along the parents reaches its goal and reads off a walk.
use mathlib.Core.List.{reverse, reverse-append}
use apg.Prelude.{
  ℕ, zero, suc, ◌+◌, ◌≤◌, ◌<◌, ◌≡◌, ◌⊎◌, sym, subst, true, false, List, [], ◌∷◌, ◌++◌, some, arith,
  if◌then◌else◌, length, Map, lookup, has_key, ==_iff, nat_eq, list_eq, ◌==◌, inl, inr, Bool-cases,
}
use apg.Text.{Text}
use apg.Artifacts.Cycle.{climb}

module _ (Edge : Text → Text → Type 0) where
  -- A walk, with the names that it passes, both ends included.
  pub data Walk : Text → Text → List Text → Type 0 where
    stop : {a : Text} → Walk a a (a ∷ [])
    step : {a b c : Text} {path : List Text} → Edge a b → Walk b c path → Walk a c (a ∷ path)

  module _ (to : Text) where
    -- Each parent is the goal, or has a parent that was found before it.
    abbrev pub Chained : Map Text Text → Type 0
    Chained [] = Unit
    Chained ((k, p) ∷ m) =
        Edge p k × ((p ≡ to) ⊎ (has_key p m ≡ true)) × (has_key k m ≡ false) × Chained m

    -- How many entries there are from that of a key on.
    abbrev rank : Text → Map Text Text → ℕ
    rank k [] = 0
    rank k ((j, p) ∷ m) = if j == k then suc (length m) else rank k m

    rank-le : (k : Text) (m : Map Text Text) → rank k m ≤ length m
    rank-le k [] = omega arith
    rank-le k ((j, p) ∷ m) = ground (arith, rank-le k m)

    abbrev Earlier : Text → Text → Map Text Text → Type 0
    Earlier p k m =
        Edge p k × (0 < rank k m) × ((p ≡ to) ⊎ ((has_key p m ≡ true) × (rank p m < rank k m)))

    Chained-lookup :
        (m : Map Text Text) (k : Text)
        → Chained m
        → has_key k m ≡ true
        → (p : Text) × (lookup k m ≡ some p) × Earlier p k m
    Chained-lookup [] k c h = cc
    Chained-lookup ((j, p) ∷ m) k (edge, known, new, c) h = elim (Bool-cases (j == k)) [
      | inl e ↦
          let before : (p ≡ to)
              ⊎ ((has_key p ((j, p) ∷ m) ≡ true) × (rank p ((j, p) ∷ m) < rank k ((j, p) ∷ m))) =
            elim known [
              | inl goal ↦ inl goal
              | inr kept ↦ inr (ground arith, ground (arith, rank-le p m, ==_iff j p))
            ] in
          (p, ground arith, (subst (Edge p) ((==_iff j k).0 e) edge, ground arith, before))
      | inr n ↦
          let (q, found, (edge', some_rank, before)) = Chained-lookup m k c (ground arith) in
          let before' : (q ≡ to)
              ⊎ ((has_key q ((j, p) ∷ m) ≡ true) × (rank q ((j, p) ∷ m) < rank k ((j, p) ∷ m))) =
            elim before [
              | inl goal ↦ inl goal
              | inr (kept, less) ↦ inr (ground arith, ground (arith, ==_iff j q))
            ] in
          (q, ground arith, (edge', ground arith, before'))
    ]

    -- The climb from `cur` completes a walk that starts at `cur`.
    pub climb_reaches :
        (parent : Map Text Text) (end cur : Text) (fuel : ℕ) (path : List Text)
        → Chained parent
        → (cur ≡ to) ⊎ ((has_key cur parent ≡ true) × (rank cur parent < fuel))
        → 0 < fuel
        → Walk cur end (reverse path)
        → (q : List Text) × (climb parent to fuel cur path ≡ some q) × Walk to end (reverse q)
    unfolding climb
    climb_reaches parent end cur zero path c k r w = absurd (omega arith)
    climb_reaches parent end cur (suc fuel) path c k r w = elim (Bool-cases (cur == to)) [
      | inl e ↦ (path, ground arith, subst (λ x. Walk x end (reverse path)) ((==_iff cur to).0 e) w)
      | inr n ↦
          let has : (has_key cur parent ≡ true) × (rank cur parent < suc fuel) = elim k [
            | inl goal ↦ absurd (ground (arith, ==_iff cur to))
            | inr h ↦ h
          ] in
          let (p, found, (edge, some_rank, before)) = Chained-lookup parent cur c has.0 in
          let reached : (p ≡ to) ⊎ ((has_key p parent ≡ true) × (rank p parent < fuel)) =
            elim before [
              | inl goal ↦ inl goal
              | inr (kept, less) ↦ inr (kept, omega (arith, has.1))
            ] in
          let w' = subst (Walk p end) (sym (reverse-append path (p ∷ []))) (step edge w) in
          let (q, ends, walk) =
            climb_reaches parent end p fuel (path ++ p ∷ []) c reached (omega (arith, has.1)) w' in
          (q, ground (arith, found, ends), walk)
    ]

    pub climb_fuel : (parent : Map Text Text) (k : Text) → rank k parent < length parent + 1
    climb_fuel parent k = omega (arith, rank-le k parent)
