-- ===== src/Prelude/Members.antt =====
-- What is a member of a list that another function builds.
use mathlib.Core.Path.{◌≡◌, refl, ap, ◌∙◌, subst}
use mathlib.Core.Logic.{◌⊎◌, ◌↔◌, inl, inr}
use mathlib.Core.Option.{Option, none, some}
use mathlib.Core.List.{List, [], ◌∷◌, ◌++◌, map}
use mathlib.Core.Bool.{Bool, true, false}
use apg.Prelude.Tests.{Bool-cases}
use apg.Prelude.Lists.{filter_map, filter}
use apg.Prelude.Sets.{Member}

module _ {A : Type 0} where
  pub Member-append_left : (xs ys : List A) (a : A) → Member a xs → Member a (xs ++ ys)
  Member-append_left [] ys a m = absurd m
  Member-append_left (x ∷ xs) ys a (inl e) = inl e
  Member-append_left (x ∷ xs) ys a (inr m) = inr (Member-append_left xs ys a m)

  pub Member-append_right : (xs ys : List A) (a : A) → Member a ys → Member a (xs ++ ys)
  Member-append_right [] ys a m = m
  Member-append_right (x ∷ xs) ys a m = inr (Member-append_right xs ys a m)

  pub Member-append_cases :
      (xs ys : List A) (a : A) → Member a (xs ++ ys) → Member a xs ⊎ Member a ys
  Member-append_cases [] ys a m = inr m
  Member-append_cases (x ∷ xs) ys a (inl e) = inl (inl e)
  Member-append_cases (x ∷ xs) ys a (inr m) = elim (Member-append_cases xs ys a m) [
    | inl l ↦ inl (inr l)
    | inr r ↦ inr r
  ]

  later :
      (o : Option A) (rest : List A) (b : A)
      → Member b rest
      → Member b (elim o [ none ↦ rest | some c ↦ c ∷ rest ])
  later none rest b m = m
  later (some c) rest b m = inr m

  first_or_later :
      (o : Option A) (rest : List A) (b : A)
      → Member b (elim o [ none ↦ rest | some c ↦ c ∷ rest ])
      → (o ≡ some b) ⊎ Member b rest
  first_or_later none rest b m = inr m
  first_or_later (some c) rest b (inl e) = inl (ap some e)
  first_or_later (some c) rest b (inr m) = inr m

  first :
      (o : Option A) (rest : List A) (b : A)
      → o ≡ some b
      → Member b (elim o [ none ↦ rest | some c ↦ c ∷ rest ])
  first none rest b e = cc
  first (some c) rest b e = inl (cc)

module _ {A B : Type 0} where
  pub Member-map : (f : A → B) (xs : List A) (a : A) → Member a xs → Member (f a) (map f xs)
  Member-map f [] a m = absurd m
  Member-map f (x ∷ xs) a (inl e) = inl (ap f e)
  Member-map f (x ∷ xs) a (inr m) = inr (Member-map f xs a m)

  pub Member-map_from :
      (f : A → B) (xs : List A) (b : B) → Member b (map f xs) → (x : A) × Member x xs × (f x ≡ b)
  Member-map_from f [] b m = absurd m
  Member-map_from f (x ∷ xs) b (inl e) = (x, inl refl, e)
  Member-map_from f (x ∷ xs) b (inr m) = let (y, k, e) = Member-map_from f xs b m in (y, inr k, e)

  pub Member-filter_map :
      (f : A → Option B) (xs : List A) (x : A) (b : B)
      → Member x xs
      → f x ≡ some b
      → Member b (filter_map f xs)
  Member-filter_map f [] x b m e = absurd m
  Member-filter_map f (y ∷ xs) x b (inl here) e = first (f y) (filter_map f xs) b (ap f here ∙ e)
  Member-filter_map f (y ∷ xs) x b (inr m) e =
      later (f y) (filter_map f xs) b (Member-filter_map f xs x b m e)

  pub Member-filter_map_from :
      (f : A → Option B) (xs : List A) (b : B)
      → Member b (filter_map f xs)
      → (x : A) × Member x xs × (f x ≡ some b)
  Member-filter_map_from f [] b m = absurd m
  Member-filter_map_from f (x ∷ xs) b m = elim (first_or_later (f x) (filter_map f xs) b m) [
    | inl e ↦ (x, inl refl, e)
    | inr k ↦ let (y, k', e) = Member-filter_map_from f xs b k in (y, inr k', e)
  ]

pub Member-filter :
    {A : Type 0} (p : A → Bool) (xs : List A) (a : A)
    → Member a (filter p xs) ↔ (Member a xs × (p a ≡ true))
Member-filter p [] a = (λ m. absurd m, λ (m, _). m)
Member-filter p (x ∷ xs) a =
    let (there, back) = Member-filter p xs a in
    elim (Bool-cases (p x)) [
      | inl e ↦ rw e (
        λ m. elim m [
          | inl same ↦ (inl same, subst (λ z. p z ≡ true) same e)
          | inr later ↦ let (m', h) = there later in (inr m', h)
        ],
        λ (m, h). elim m [ inl same ↦ inl same | inr later ↦ inr (back (later, h)) ],
      )
      | inr e ↦ rw e (
        λ m. let (m', h) = there m in (inr m', h),
        λ (m, h). elim m [
          | inl same ↦ let differs = subst (λ z. p z ≡ false) same e in cc
          | inr later ↦ back (later, h)
        ],
      )
    ]
