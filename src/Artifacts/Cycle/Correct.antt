-- ===== src/Artifacts/Cycle/Correct.antt =====
-- The search finds a walk back exactly if there is one.
use mathlib.Core.Logic.{∥∥₁_elim}
use mathlib.Core.Bool.{So-prop}
use mathlib.Core.List.{reverse}
use apg.Prelude.{
  ℕ, zero, suc, ◌+◌, ◌≡◌, ◌⊎◌, ◌↔◌, refl, ap, subst, sym, Bool, true, false, not, ◌&&◌, ◌||◌, List,
  [], ◌∷◌, Option, none, some, arith, contains, length, Map, has_key, is_some, ==_iff, ==_refl,
  nat_eq, list_eq, ◌==◌, inl, inr, Bool-cases, List-cases,
}
use apg.Text.{Text}
use apg.Schema.{Record}
use apg.Artifacts.Cycle.{
  Frontier, visit_one, visit, search_loop, or_no_parents, parents_from, cycle_closing_path,
}
use apg.Artifacts.Cycle.Round.{
  leads, linked_by, visit-parent, visit-queue, open_targets-le, search_loop_returns,
}
use apg.Artifacts.Cycle.Climb.{Walk, stop, step, Chained, climb_reaches, climb_fuel}

module _ (is_edge : Record → Option (Text × Text)) (records : List Record) where
  -- Some record is an edge between the two.
  abbrev pub Edge : Text → Text → Type 0
  Edge u v = linked_by is_edge u v records ≡ true

  module _ (to : Text) where
    visit_one-Chained :
        (cur : Text) (e : Option (Text × Text)) (s : Frontier)
        → ((u v : Text) → leads u v e ≡ true → Edge u v)
        → (cur ≡ to) ⊎ (has_key cur s.parent ≡ true)
        → Chained Edge to s.parent
        → Chained Edge to (visit_one cur e s).parent
          × ((cur ≡ to) ⊎ (has_key cur (visit_one cur e s).parent ≡ true))
    unfolding visit_one
    visit_one-Chained cur none s h k c = (c, k)
    visit_one-Chained cur (some (a, b)) s h k c =
        elim (Bool-cases (a == cur && not (has_key b s.parent))) [
          | inl e ↦ rw e (
            (h cur b (ground (arith, ==_refl b)), k, ground arith, c),
            elim k [ inl goal ↦ inl goal | inr had ↦ inr (ground arith) ],
          )
          | inr e ↦ rw e (c, k)
        ]

    visit-Chained :
        (cur : Text) (rs : List Record) (s : Frontier)
        → ((u v : Text) → linked_by is_edge u v rs ≡ true → Edge u v)
        → (cur ≡ to) ⊎ (has_key cur s.parent ≡ true)
        → Chained Edge to s.parent
        → Chained Edge to (visit is_edge cur rs s).parent
    unfolding visit
    visit-Chained cur [] s h k c = c
    visit-Chained cur (r ∷ rs) s h k c =
        let (c', k') = visit_one-Chained cur (is_edge r) s (λ u v m. h u v (ground arith)) k c in
        visit-Chained cur rs (visit_one cur (is_edge r) s) (λ u v m. h u v (ground arith)) k' c'

    -- The goal, or a name that has a parent.
    abbrev known : Text → Map Text Text → Bool
    known u parent = u == to || has_key u parent

    known_cases :
        (u : Text) (parent : Map Text Text)
        → known u parent ≡ true
        → (u ≡ to) ⊎ (has_key u parent ≡ true)
    known_cases u parent k = elim (Bool-cases (u == to)) [
      | inl e ↦ inl ((==_iff u to).0 e)
      | inr n ↦ inr (ground arith)
    ]

    record Inv (s : Frontier) : Type 0 where
      chained : Chained Edge to s.parent
      queued : (u : Text) → contains s.queue u ≡ true → known u s.parent ≡ true
      closed :
          (u v : Text)
          → known u s.parent ≡ true
          → Edge u v
          → (contains s.queue u ≡ true) ⊎ (has_key v s.parent ≡ true)

    start-Inv : Inv (record { parent = []; queue = to ∷ [] })
    start-Inv = record {
      chained = tt;
      queued = λ u m. ground (arith, ==_iff to u, ==_iff u to);
      closed = λ u v k e. inl (ground (arith, ==_iff to u, ==_iff u to));
    }

    round-Inv :
        (s : Frontier) (cur : Text) (rest : List Text)
        → s.queue ≡ cur ∷ rest
        → Inv s
        → Inv (visit is_edge cur records (record { parent = s.parent; queue = rest }))
    round-Inv s cur rest e i =
        let s' : Frontier = record { parent = s.parent; queue = rest } in
        let parent = λ (u : Text). visit-parent is_edge cur u records s' in
        let queue = λ (u : Text). visit-queue is_edge cur u records s' in
        let popped = λ (u : Text). ap (λ q. contains q u) e in
        record {
          chained =
              visit-Chained cur records s' (λ u v m. m)
                (known_cases cur s.parent (i.queued cur (ground (arith, popped cur, ==_refl cur))))
                i.chained;
          queued = λ u m. ground (arith, parent u, queue u, i.queued u, popped u);
          closed = λ u v k m. elim (Bool-cases (cur == u)) [
            | inl e' ↦
                let m' = subst (λ x. Edge x v) (sym ((==_iff cur u).0 e')) m in
                inr (ground (arith, parent v))
            | inr n ↦ ground (arith, parent u, parent v, queue u, popped u, i.closed u v)
          ];
        }

    search_loop-Inv :
        (fuel : ℕ) (s : Frontier) (parent : Map Text Text)
        → Inv s
        → search_loop is_edge records fuel s ≡ some parent
        → Inv (record { parent = parent; queue = [] })
    unfolding search_loop
    search_loop-Inv zero s parent i h = cc
    search_loop-Inv (suc fuel) s parent i h = elim (List-cases s.queue) [
      | inl e ↦
          let ends : s.parent ≡ parent = cc (rw (e, search_loop) at h) in
          let idle = subst (λ q. Inv (record { parent = s.parent; queue = q })) e i in
          subst (λ x. Inv (record { parent = x; queue = [] })) ends idle
      | inr (cur, rest, e) ↦
          search_loop-Inv fuel
            (visit is_edge cur records (record { parent = s.parent; queue = rest })) parent
            (round-Inv s cur rest e i) (rw (e, search_loop) at h)
    ]

    parents_from-Inv : Inv (record { parent = parents_from is_edge records to; queue = [] })
    unfolding parents_from
    parents_from-Inv =
        let s : Frontier = record { parent = []; queue = to ∷ [] } in
        let (parent, ends) =
          search_loop_returns is_edge records (length records + 2) s
            (omega (arith, open_targets-le is_edge [] records)) in
        subst (λ x. Inv (record { parent = or_no_parents x; queue = [] })) (sym ends)
          (search_loop-Inv (length records + 2) s parent start-Inv ends)

    -- What a walk from a known name reaches is known.
    walked :
        (parent : Map Text Text) {a b : Text} {path : List Text}
        → Inv (record { parent = parent; queue = [] })
        → known a parent ≡ true
        → Walk Edge a b path
        → known b parent ≡ true
    walked parent i k stop = k
    walked parent i k (step {a} {b} edge walk) =
        walked parent i (elim (i.closed a b k edge) [ inl q ↦ cc | inr h ↦ ground arith ]) walk

    found :
        (from : Text)
        → from == to ≡ false
        → has_key from (parents_from is_edge records to) ≡ true
        → (path : List Text) × (cycle_closing_path records from to is_edge ≡ some path)
          × Walk Edge to from path
    unfolding cycle_closing_path
    found from n h =
        let parent = parents_from is_edge records to in
        let (q, ends, walk) =
          climb_reaches Edge to parent from from (length parent + 1) (from ∷ [])
            parents_from-Inv.chained (inr (h, climb_fuel Edge to parent from)) (omega arith) stop in
        (reverse q, rw (n, h, ends) refl, walk)

    closes :
        (from : Text) {path : List Text}
        → Walk Edge to from path
        → (p : List Text) × (cycle_closing_path records from to is_edge ≡ some p)
    unfolding cycle_closing_path
    closes from walk = elim (Bool-cases (from == to)) [
      | inl e ↦ (from ∷ [], rw e refl)
      | inr n ↦
          let parent = parents_from is_edge records to in
          let k = walked parent parents_from-Inv (ground (arith, ==_refl to)) walk in
          let (p, ends, _) = found from n (ground arith) in (p, ends)
    ]

-- A path that `cycle_closing_path` returns is a walk over the selected edges from `to` to `from`,
-- both ends included.
pub cycle_closing_path-Walk :
    (records : List Record) (from to : Text) (is_edge : Record → Option (Text × Text))
    (path : List Text)
    → cycle_closing_path records from to is_edge ≡ some path
    → Walk (Edge is_edge records) to from path
unfolding cycle_closing_path
cycle_closing_path-Walk records from to is_edge path h = elim (Bool-cases (from == to)) [
  | inl e ↦
      let p : from ∷ [] ≡ path = cc (rw e at h) in
      subst (Walk (Edge is_edge records) to from) p
        (subst (λ x. Walk (Edge is_edge records) x from (from ∷ [])) ((==_iff from to).0 e) stop)
  | inr n ↦ elim (Bool-cases (has_key from (parents_from is_edge records to))) [
    | inl k ↦
        let (q, ends, walk) = found is_edge records to from n k in
        let p : q ≡ path = cc in subst (Walk (Edge is_edge records) to from) p walk
    | inr k ↦ cc (rw (n, k) at h)
  ]
]

is_some_cases : {A : Type 0} (o : Option A) → is_some o ≡ true → (a : A) × (o ≡ some a)
is_some_cases none h = cc
is_some_cases (some a) h = (a, refl)

-- `cycle_closing_path` ends, and returns a path exactly if the selected edges lead from `to` to
-- `from`, over any number of steps, none included.
pub cycle_closing_path_iff :
    (records : List Record) (from to : Text) (is_edge : Record → Option (Text × Text))
    → (is_some (cycle_closing_path records from to is_edge) ≡ true)
      ↔ ∥ ((path : List Text) × Walk (Edge is_edge records) to from path) ∥₁
cycle_closing_path_iff records from to is_edge = (
  λ h.
      let (path, e) = is_some_cases (cycle_closing_path records from to is_edge) h in
      ∣ (path, cycle_closing_path-Walk records from to is_edge path e) ∣₁,
  λ w. ∥∥₁_elim w (So-prop _) (λ (path, walk). ap is_some (closes is_edge records to from walk).1),
)
