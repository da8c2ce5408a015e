-- ===== src/Prelude/Sets.antt =====
-- `BTreeSet`, `HashSet`: lists read by membership alone, so the order of a traversal is left open.
use mathlib.Core.Path.{◌≡◌, refl, subst, ap, ◌∙◌}
use mathlib.Core.Logic.{◌⊎◌, ◌↔◌, inl, inr}
use mathlib.Core.Bool.{Bool, true, false, not, ◌&&◌, ◌||◌}
use mathlib.Core.List.{List, [], ◌∷◌, ◌++◌}
use native.Mathlib.Omega.{arith}
use apg.Prelude.Tests.{if◌then◌else◌, Bool-cases}
use apg.Prelude.Equality.{Eq, ◌==◌, ==_iff}
use mathlib.Core.Option.{Option, none, some}
use apg.Prelude.Lists.{filter, any, All, filter_map, is_empty, List-cases}

module _ {ℓ} {A : Type ℓ} ⦃e : Eq A⦄ where
  -- `s.contains(&a)`
  abbrev pub contains : List A → A → Bool
  contains [] a = false
  contains (x ∷ xs) a = x == a || contains xs a

  -- `s.insert(a)`, without the returned flag, which is `not (contains s a)`
  abbrev pub insert : A → List A → List A
  insert a s = if contains s a then s else s ++ a ∷ []

  -- An insertion under a test.
  unfoldable pub insert_if : Bool → A → List A → List A
  insert_if test a s = if test then insert a s else s

  -- `s.extend(t)`
  abbrev pub extend : List A → List A → List A
  extend s [] = s
  extend s (x ∷ t) = extend (insert x s) t

  -- `s.intersection(t)`
  abbrev pub intersection : List A → List A → List A
  intersection s t = filter (contains t) s

  -- `s.difference(t)`
  abbrev pub difference : List A → List A → List A
  difference s t = filter (λ a. not (contains t a)) s

  pub contains-append :
      (s t : List A) (a : A) → contains (s ++ t) a ≡ (contains s a || contains t a)
  contains-append [] t a = refl
  contains-append (x ∷ s) t a = ground (arith, contains-append s t a)

  pub contains-insert :
      (x : A) (s : List A) (a : A) → contains (insert x s) a ≡ (x == a || contains s a)
  contains-insert x s a = ground (arith, contains-append s (x ∷ []) a, ==_iff x a)

  pub contains-insert_if :
      (test : Bool) (x : A) (s : List A) (a : A)
      → contains (insert_if test x s) a ≡ (contains s a || (test && x == a))
  unfolding insert_if
  contains-insert_if test x s a = ground (arith, contains-insert x s a)

  pub contains-extend :
      (s t : List A) (a : A) → contains (extend s t) a ≡ (contains s a || contains t a)
  contains-extend s [] a = ground arith
  contains-extend s (x ∷ t) a =
      ground (arith, contains-extend (insert x s) t a, contains-insert x s a)

  pub contains-filter :
      (p : A → Bool) (s : List A) (a : A) → contains (filter p s) a ≡ (contains s a && p a)
  contains-filter p [] a = refl
  contains-filter p (x ∷ s) a = ground (arith, contains-filter p s a, ==_iff x a)

  -- A member is found by a test that holds of it.
  pub any-contains :
      (p : A → Bool) (s : List A) (a : A) → contains s a ≡ true → p a ≡ true → any p s ≡ true
  any-contains p [] a m h = ground arith
  any-contains p (x ∷ s) a m h = ground (arith, any-contains p s a, ==_iff x a)

  -- What holds of each element holds of a member.
  pub contains-All {κ} : (P : A → Type κ) (s : List A) (a : A) → contains s a ≡ true → All P s → P a
  contains-All P [] a m h = cc
  contains-All P (x ∷ s) a m h = elim (Bool-cases (x == a)) [
    | inl e ↦ subst P ((==_iff x a).0 e) h.0
    | inr e ↦ contains-All P s a (rw e at m) h.1
  ]

  pub ruleset set_laws = (contains-append, contains-insert, contains-extend, contains-filter)

-- An element of a list, with its place.
abbrev pub Member : {A : Type 0} → A → List A → Type 0
Member a [] = ⊥
Member a (x ∷ xs) = (x ≡ a) ⊎ Member a xs

-- A member of what `filter_map` gives comes from an element, and each element gives one.
module _ {κ} {A : Type 0} {B : Type κ} ⦃e : Eq B⦄ (f : A → Option B) where
  filter_map-step :
      (xs : List A) (b : B) (x : A) (o : Option B)
      → (contains (filter_map f xs) b ≡ true → (y : A) × Member y xs × (f y ≡ some b))
      → f x ≡ o
      → contains (filter_map f (x ∷ xs)) b ≡ true
      → (y : A) × Member y (x ∷ xs) × (f y ≡ some b)
  filter_map-step xs b x none later q h =
      let (y, m, p) = later (rw (q, filter_map) at h) in (y, inr m, p)
  filter_map-step xs b x (some c) later q h = elim (Bool-cases (c == b)) [
    | inl same ↦ (x, inl refl, q ∙ ap some ((==_iff c b).0 same))
    | inr other ↦ let (y, m, p) = later (ground (arith, rw (q, filter_map) at h)) in (y, inr m, p)
  ]

  pub filter_map-from :
      (xs : List A) (b : B)
      → contains (filter_map f xs) b ≡ true
      → (x : A) × Member x xs × (f x ≡ some b)
  filter_map-from [] b h = cc
  filter_map-from (x ∷ xs) b h = filter_map-step xs b x (f x) (filter_map-from xs b) refl h

  pub filter_map-contains :
      (xs : List A) (b : B) (x : A)
      → Member x xs
      → f x ≡ some b
      → contains (filter_map f xs) b ≡ true
  filter_map-contains [] b x m q = absurd m
  filter_map-contains (y ∷ xs) b x m q = elim m [
    | inl here ↦ rw (ap f here ∙ q, filter_map) (ground (arith, ==_iff b b))
    | inr there ↦ ground (arith, filter_map-contains xs b x there q)
  ]

module _ {ℓ} {A : Type ℓ} ⦃e : Eq A⦄ where
  -- A difference is empty exactly between a set and one that includes it.
  pub difference-is_empty :
      (s t : List A)
      → (is_empty (difference s t) ≡ true) ↔ ((a : A) → contains s a ≡ true → contains t a ≡ true)
  difference-is_empty s t = (
    λ h a m. covers h a m,
    λ sub. elim (List-cases (difference s t)) [
      | inl none_left ↦ rw none_left
      | inr (x, rest, q) ↦ ground (
        arith,
        ap (λ d. contains d x) q,
        contains-filter (λ a. not (contains t a)) s x,
        sub x,
        ==_iff x x,
      )
    ],
  )
    where
      covers :
          is_empty (difference s t) ≡ true → (a : A) → contains s a ≡ true → contains t a ≡ true
      covers h a m = elim (List-cases (difference s t)) [
        | inl q ↦
            ground (arith, ap (λ d. contains d a) q, contains-filter (λ b. not (contains t b)) s a)
        | inr (x, rest, q) ↦ cc (h, q)
      ]

-- A test that passes somewhere passes at an element.
pub any-from {ℓ} :
    {A : Type ℓ} ⦃e : Eq A⦄ (p : A → Bool) (xs : List A)
    → any p xs ≡ true
    → (x : A) × (contains xs x ≡ true) × (p x ≡ true)
any-from p [] h = cc
any-from p (x ∷ xs) h = elim (Bool-cases (p x)) [
  | inl e ↦ (x, ground (arith, ==_iff x x), e)
  | inr e ↦ let (y, m, q) = any-from p xs (ground arith) in (y, ground arith, q)
]
