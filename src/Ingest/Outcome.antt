-- ===== src/Ingest/Outcome.antt =====
-- Calls that return or panic.
use apg.Prelude.{◌≡◌, refl, ap, subst, Option, none, some, List, [], ◌∷◌}

pub data Outcome {ℓ} (A : Type ℓ) : Type ℓ where
  panic : Outcome A
  ok : A → Outcome A

infixl 5 ◌>>=◌
abbrev pub ◌>>=◌ {ℓ κ} : {A : Type ℓ} {B : Type κ} → Outcome A → (A → Outcome B) → Outcome B
panic >>= f = panic
ok a >>= f = f a

-- `o.unwrap()`
abbrev pub unwrap {ℓ} : {A : Type ℓ} → Option A → Outcome A
unwrap none = panic
unwrap (some a) = ok a

-- A loop whose body may panic.
abbrev pub for_each {ℓ κ} : {A : Type ℓ} {S : Type κ} → (A → S → Outcome S) → List A → S → Outcome S
for_each body [] s = ok s
for_each body (x ∷ xs) s = body x s >>= for_each body xs

pub >>=-eq-ok {ℓ κ} :
    {A : Type ℓ} {B : Type κ} (m : Outcome A) (f : A → Outcome B) {b : B}
    → (m >>= f) ≡ ok b
    → (a : A) × (m ≡ ok a) × (f a ≡ ok b)
>>=-eq-ok panic f h = cc
>>=-eq-ok (ok a) f h = (a, refl, h)

unfoldable pub from_ok {ℓ} : {A : Type ℓ} → A → Outcome A → A
from_ok d panic = d
from_ok d (ok a) = a

pub ok_inj {ℓ} : {A : Type ℓ} {a b : A} → Outcome.ok a ≡ ok b → a ≡ b
unfolding from_ok
ok_inj {a = a} h = ap (from_ok a) h

-- What every round keeps, the loop keeps.
pub for_each-keeps {ℓ κ ι} :
    {A : Type ℓ} {S : Type κ} (P : S → Type ι) (body : A → S → Outcome S)
    → ((x : A) (s t : S) → P s → body x s ≡ ok t → P t)
    → (xs : List A) (s t : S) → P s
    → for_each body xs s ≡ ok t
    → P t
for_each-keeps P body keep [] s t p h = subst P (ok_inj h) p
for_each-keeps P body keep (x ∷ xs) s t p h =
    let (u, e, rest) = >>=-eq-ok (body x s) (for_each body xs) h in
    for_each-keeps P body keep xs u t (keep x s u p e) rest
