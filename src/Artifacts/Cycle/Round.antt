-- ===== src/Artifacts/Cycle/Round.antt =====
-- One round of the search: what it marks, what it queues, and that it comes to an end.
use apg.Prelude.{
  ℕ, zero, suc, ◌+◌, ◌≤◌, ◌<◌, ◌≡◌, ap, Bool, true, false, not, ◌&&◌, ◌||◌, List, [], ◌∷◌, Option,
  none, some, arith, if◌then◌else◌, contains, contains-append, length, length-append, Map, has_key,
  ==_iff, nat_eq, list_eq, ◌==◌, inl, inr, List-cases, Bool-cases, ==_refl,
}
use apg.Text.{Text}
use apg.Schema.{Record}
use apg.Artifacts.Cycle.{Frontier, visit_one, visit, search_loop}

-- The edge leads from `u` to `v`.
abbrev pub leads : Text → Text → Option (Text × Text) → Bool
leads u v none = false
leads u v (some (a, b)) = a == u && b == v

module _ (cur v : Text) where
  visit_one-parent :
      (e : Option (Text × Text)) (s : Frontier)
      → has_key v (visit_one cur e s).parent ≡ (has_key v s.parent || leads cur v e)
  unfolding visit_one
  visit_one-parent none s = ground arith
  visit_one-parent (some (a, b)) s = ground (arith, ==_iff b v)

  visit_one-queue :
      (e : Option (Text × Text)) (s : Frontier)
      → contains (visit_one cur e s).queue v
        ≡ (contains s.queue v || (leads cur v e && not (has_key v s.parent)))
  unfolding visit_one
  visit_one-queue none s = ground arith
  visit_one-queue (some (a, b)) s = ground (arith, ==_iff b v, contains-append s.queue (b ∷ []) v)

-- The target of an edge that has no parent yet.
abbrev pub open_target : Map Text Text → Option (Text × Text) → ℕ
open_target parent none = 0
open_target parent (some (a, b)) = if has_key b parent then 0 else 1

open_target-cons :
    (k w : Text) (parent : Map Text Text) (e : Option (Text × Text))
    → open_target ((k, w) ∷ parent) e ≤ open_target parent e
open_target-cons k w parent none = omega arith
open_target-cons k w parent (some (a, b)) = ground arith

open_target-le : (parent : Map Text Text) (e : Option (Text × Text)) → open_target parent e ≤ 1
open_target-le parent none = omega arith
open_target-le parent (some (a, b)) = ground arith

open_target-new :
    (a k w : Text) (parent : Map Text Text) (e : Option (Text × Text))
    → has_key k parent ≡ false
    → leads a k e ≡ true
    → open_target ((k, w) ∷ parent) e < open_target parent e
open_target-new a k w parent none n m = cc
open_target-new a k w parent (some (c, b)) n m =
    let same : b ≡ k = (==_iff b k).0 (ground arith) in ground (arith, ==_iff k b)

module _ (is_edge : Record → Option (Text × Text)) where
  -- Some record is an edge from `u` to `v`.
  abbrev pub linked_by : Text → Text → List Record → Bool
  linked_by u v [] = false
  linked_by u v (r ∷ rs) = leads u v (is_edge r) || linked_by u v rs

  pub visit-parent :
      (cur v : Text) (rs : List Record) (s : Frontier)
      → has_key v (visit is_edge cur rs s).parent ≡ (has_key v s.parent || linked_by cur v rs)
  unfolding visit
  visit-parent cur v [] s = ground arith
  visit-parent cur v (r ∷ rs) s = ground (
    arith,
    visit-parent cur v rs (visit_one cur (is_edge r) s),
    visit_one-parent cur v (is_edge r) s,
  )

  -- What is queued is what was queued and what is new.
  pub visit-queue :
      (cur v : Text) (rs : List Record) (s : Frontier)
      → contains (visit is_edge cur rs s).queue v
        ≡ (contains s.queue v || (linked_by cur v rs && not (has_key v s.parent)))
  unfolding visit
  visit-queue cur v [] s = ground arith
  visit-queue cur v (r ∷ rs) s = ground (
    arith,
    visit-queue cur v rs (visit_one cur (is_edge r) s),
    visit_one-queue cur v (is_edge r) s,
    visit_one-parent cur v (is_edge r) s,
  )

  -- How many of the records lead to a name without a parent.
  abbrev pub open_targets : Map Text Text → List Record → ℕ
  open_targets parent [] = 0
  open_targets parent (r ∷ rs) = open_target parent (is_edge r) + open_targets parent rs

  pub open_targets-le :
      (parent : Map Text Text) (rs : List Record) → open_targets parent rs ≤ length rs
  open_targets-le parent [] = omega arith
  open_targets-le parent (r ∷ rs) =
      omega (arith, open_target-le parent (is_edge r), open_targets-le parent rs)

  open_targets-cons :
      (k w : Text) (parent : Map Text Text) (rs : List Record)
      → open_targets ((k, w) ∷ parent) rs ≤ open_targets parent rs
  open_targets-cons k w parent [] = omega arith
  open_targets-cons k w parent (r ∷ rs) =
      omega (arith, open_target-cons k w parent (is_edge r), open_targets-cons k w parent rs)

  open_targets-new :
      (a k w : Text) (parent : Map Text Text) (rs : List Record)
      → has_key k parent ≡ false
      → linked_by a k rs ≡ true
      → open_targets ((k, w) ∷ parent) rs < open_targets parent rs
  open_targets-new a k w parent [] n m = cc
  open_targets-new a k w parent (r ∷ rs) n m = elim (Bool-cases (leads a k (is_edge r))) [
    | inl here ↦
        omega
          (arith, open_target-new a k w parent (is_edge r) n here, open_targets-cons k w parent rs)
    | inr other ↦ omega (
      arith,
      open_target-cons k w parent (is_edge r),
      open_targets-new a k w parent rs n (ground arith),
    )
  ]

  -- The rounds that are left at most.
  abbrev pub rounds : List Record → Frontier → ℕ
  rounds records s = open_targets s.parent records + length s.queue

  visit_one-rounds :
      (cur : Text) (records : List Record) (e : Option (Text × Text)) (s : Frontier)
      → ((a b : Text) → leads a b e ≡ true → linked_by a b records ≡ true)
      → rounds records (visit_one cur e s) ≤ rounds records s
  unfolding visit_one
  visit_one-rounds cur records none s h = omega arith
  visit_one-rounds cur records (some (a, b)) s h =
      let m = h a b (ground (arith, ==_refl a, ==_refl b)) in
      elim (Bool-cases (a == cur && not (has_key b s.parent))) [
        | inl e ↦ rw e (
            omega (
              arith,
              open_targets-new a b cur s.parent records (ground arith) m,
              length-append s.queue (b ∷ []),
            ))
        | inr e ↦ rw e (omega arith)
      ]

  pub visit-rounds :
      (cur : Text) (records rs : List Record) (s : Frontier)
      → ((a b : Text) → linked_by a b rs ≡ true → linked_by a b records ≡ true)
      → rounds records (visit is_edge cur rs s) ≤ rounds records s
  unfolding visit
  visit-rounds cur records [] s h = omega arith
  visit-rounds cur records (r ∷ rs) s h = omega (
    arith,
    visit_one-rounds cur records (is_edge r) s (λ a b m. h a b (ground arith)),
    visit-rounds cur records rs (visit_one cur (is_edge r) s) (λ a b m. h a b (ground arith)),
  )

  -- The search ends once its fuel exceeds the rounds that are left.
  pub search_loop_returns :
      (records : List Record) (fuel : ℕ) (s : Frontier)
      → rounds records s < fuel
      → (parent : Map Text Text) × (search_loop is_edge records fuel s ≡ some parent)
  unfolding search_loop
  search_loop_returns records zero s h = absurd (omega arith)
  search_loop_returns records (suc fuel) s h = elim (List-cases s.queue) [
    | inl e ↦ (s.parent, rw (e, search_loop))
    | inr (cur, rest, e) ↦
        let s' : Frontier = record { parent = s.parent; queue = rest } in
        let less = visit-rounds cur records records s' (λ a b m. m) in
        let (parent, ends) =
          search_loop_returns records fuel (visit is_edge cur records s')
            (omega (arith, ap length e)) in
        (parent, rw (e, search_loop) ends)
  ]
