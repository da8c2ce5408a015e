-- ===== src/Prelude/Equality.antt =====
-- Rust's `==` on the types that the program compares.
use Prim.Native.Nat.{ℕ, compare, Ordering}
use mathlib.Core.Path.{◌≡◌, refl, subst}
use mathlib.Core.Logic.{◌↔◌}
use mathlib.Core.Bool.{Bool, true, false, ◌&&◌}
use mathlib.Core.List.{List, [], ◌∷◌}
use native.Mathlib.Omega.{arith}

-- `PartialEq`, with the law that the derived implementations have
pub record Eq {ℓ} (T : Type ℓ) : Type ℓ where
  pub same : T → T → Bool
  pub only : (x y : T) → same x y ≡ true → x ≡ y
  pub itself : (x : T) → same x x ≡ true

module _ {ℓ} {T : Type ℓ} ⦃q : Eq T⦄ where
  infix 50 ◌==◌
  abbrev pub ◌==◌ : T → T → Bool
  ◌==◌ x y = q.same x y

  pub ==_refl : (x : T) → x == x ≡ true
  ==_refl x = q.itself x

  pub ==_iff : (x y : T) → (x == y ≡ true) ↔ (x ≡ y)
  ==_iff x y = (q.only x y, λ p. subst (λ z. x == z ≡ true) p (q.itself x))

abbrev pub nat_beq : ℕ → ℕ → Bool
nat_beq m n = elim (compare m n) [ Ordering.eq ↦ true | _ ↦ false ]

pub nat_beq_only : (m n : ℕ) → nat_beq m n ≡ true → m ≡ n
nat_beq_only m n h = ground arith

pub nat_beq_itself : (m : ℕ) → nat_beq m m ≡ true
nat_beq_itself m = ground arith

instance abbrev pub nat_eq : Eq ℕ
nat_eq = record { same = nat_beq; only = nat_beq_only; itself = nat_beq_itself }

module _ {ℓ} {T : Type ℓ} ⦃q : Eq T⦄ where
  abbrev pub list_beq : List T → List T → Bool
  list_beq [] [] = true
  list_beq (x ∷ xs) (y ∷ ys) = x == y && list_beq xs ys
  list_beq _ _ = false

  pub list_beq_only : (xs ys : List T) → list_beq xs ys ≡ true → xs ≡ ys
  list_beq_only [] [] h = refl
  list_beq_only [] (y ∷ ys) h = ground arith
  list_beq_only (x ∷ xs) [] h = ground arith
  list_beq_only (x ∷ xs) (y ∷ ys) h = ground (arith, q.only x y, list_beq_only xs ys)

  pub list_beq_itself : (xs : List T) → list_beq xs xs ≡ true
  list_beq_itself [] = refl
  list_beq_itself (x ∷ xs) = ground (arith, q.itself x, list_beq_itself xs)

instance abbrev pub list_eq {ℓ} : {T : Type ℓ} ⦃q : Eq T⦄ → Eq (List T)
list_eq = record { same = list_beq; only = list_beq_only; itself = list_beq_itself }

module _ {ℓ κ} {A : Type ℓ} {B : Type κ} ⦃q : Eq A⦄ ⦃r : Eq B⦄ where
  abbrev pub pair_beq : A × B → A × B → Bool
  pair_beq (a, b) (c, d) = a == c && b == d

  pub pair_beq_only : (x y : A × B) → pair_beq x y ≡ true → x ≡ y
  pair_beq_only (a, b) (c, d) h = ground (arith, q.only a c, r.only b d)

  pub pair_beq_itself : (x : A × B) → pair_beq x x ≡ true
  pair_beq_itself (a, b) = ground (arith, q.itself a, r.itself b)

  instance abbrev pub pair_eq : Eq (A × B)
  pair_eq = record { same = pair_beq; only = pair_beq_only; itself = pair_beq_itself }

module _ {A B C : Type 0} ⦃q : Eq A⦄ ⦃r : Eq B⦄ ⦃s : Eq C⦄ where
  abbrev pub triple_beq : A × B × C → A × B × C → Bool
  triple_beq (a, b, c) (d, e, f) = a == d && b == e && c == f

  pub triple_beq_only : (x y : A × B × C) → triple_beq x y ≡ true → x ≡ y
  triple_beq_only (a, b, c) (d, e, f) h = ground (arith, q.only a d, r.only b e, s.only c f)

  pub triple_beq_itself : (x : A × B × C) → triple_beq x x ≡ true
  triple_beq_itself (a, b, c) = ground (arith, q.itself a, r.itself b, s.itself c)

  instance abbrev pub triple_eq : Eq (A × B × C)
  triple_eq = record { same = triple_beq; only = triple_beq_only; itself = triple_beq_itself }
