-- ===== src/Prelude/Maps.antt =====
-- `BTreeMap`, `HashMap`: association lists with one entry for each key.
use mathlib.Core.Path.{◌≡◌, refl}
use mathlib.Core.Bool.{Bool, true, false, ◌&&◌, ◌||◌}
use mathlib.Core.Option.{Option, none, some}
use mathlib.Core.List.{List, [], ◌∷◌}
use native.Mathlib.Omega.{arith}
use apg.Prelude.Tests.{if◌then◌else◌}
use apg.Prelude.Equality.{Eq, ◌==◌, ==_iff}
use apg.Prelude.Lists.{filter}
use apg.Prelude.Sets.{contains, insert, contains-insert}

abbrev pub Map {ℓ κ} : Type ℓ → Type κ → Type (ℓ ⊔ κ)
Map K V = List (K × V)

module _ {ℓ κ} {K : Type ℓ} {V : Type κ} ⦃e : Eq K⦄ where
  -- `m.get(&k)`
  abbrev pub lookup : K → Map K V → Option V
  lookup k [] = none
  lookup k ((j, v) ∷ m) = if j == k then some v else lookup k m

  -- `m.contains_key(&k)`
  abbrev pub has_key : K → Map K V → Bool
  has_key k [] = false
  has_key k ((j, v) ∷ m) = j == k || has_key k m

  -- `m.insert(k, v)`
  abbrev pub put : K → V → Map K V → Map K V
  put k v [] = (k, v) ∷ []
  put k v ((j, w) ∷ m) = if j == k then (j, v) ∷ m else (j, w) ∷ put k v m

  -- Each key has one entry.
  abbrev pub IsMap : Map K V → Type 0
  IsMap [] = Unit
  IsMap ((k, v) ∷ m) = (has_key k m ≡ false) × IsMap m

  pub lookup-put :
      (k j : K) (v : V) (m : Map K V)
      → lookup j (put k v m) ≡ (if k == j then some v else lookup j m)
  lookup-put k j v [] = refl
  lookup-put k j v ((i, w) ∷ m) =
      ground (arith, lookup-put k j v m, ==_iff i k, ==_iff i j, ==_iff k j)

  pub lookup-none : (k : K) (m : Map K V) → has_key k m ≡ false → lookup k m ≡ none
  lookup-none k [] h = refl
  lookup-none k ((j, v) ∷ m) h = ground (arith, lookup-none k m)

-- `o.is_some()`
abbrev pub is_some {ℓ} : {A : Type ℓ} → Option A → Bool
is_some none = false
is_some (some a) = true

-- A map whose values are sets.
module _ {ℓ κ} {K : Type ℓ} {V : Type κ} ⦃e : Eq K⦄ ⦃d : Eq V⦄ where
  -- the set at a key; an absent key has the empty one
  abbrev pub entry : K → Map K (List V) → List V
  entry k [] = []
  entry k ((j, s) ∷ m) = if j == k then s else entry k m

  -- `m.entry(k).or_default().insert(v)`
  abbrev pub entry_insert : K → V → Map K (List V) → Map K (List V)
  entry_insert k v [] = (k, v ∷ []) ∷ []
  entry_insert k v ((j, s) ∷ m) =
      if j == k then (j, insert v s) ∷ m else (j, s) ∷ entry_insert k v m

  pub contains-entry_insert :
      (k j : K) (v w : V) (m : Map K (List V))
      → contains (entry j (entry_insert k v m)) w ≡ ((k == j && v == w) || contains (entry j m) w)
  contains-entry_insert k j v w [] = ground arith
  contains-entry_insert k j v w ((i, s) ∷ m) = ground (
    arith,
    contains-entry_insert k j v w m,
    contains-insert v s w,
    ==_iff i k,
    ==_iff i j,
    ==_iff k j,
  )

  pub has_key-entry_insert :
      (k j : K) (v : V) (m : Map K (List V))
      → has_key j (entry_insert k v m) ≡ (k == j || has_key j m)
  has_key-entry_insert k j v [] = refl
  has_key-entry_insert k j v ((i, s) ∷ m) =
      ground (arith, has_key-entry_insert k j v m, ==_iff i k, ==_iff i j, ==_iff k j)

  pub IsMap-entry_insert :
      (k : K) (v : V) (m : Map K (List V)) → IsMap m → IsMap (entry_insert k v m)
  IsMap-entry_insert k v [] h = ground arith
  IsMap-entry_insert k v ((i, s) ∷ m) h =
      ground (arith, IsMap-entry_insert k v m, has_key-entry_insert k i v m, ==_iff i k, ==_iff k i)

  -- Some entry of the key holds the value.
  abbrev pub linked : K → V → Map K (List V) → Bool
  linked k v [] = false
  linked k v ((j, s) ∷ m) = (j == k && contains s v) || linked k v m

  linked-absent : (k : K) (v : V) (m : Map K (List V)) → has_key k m ≡ false → linked k v m ≡ false
  linked-absent k v [] h = refl
  linked-absent k v ((j, s) ∷ m) h = ground (arith, linked-absent k v m)

  pub linked-entry :
      (k : K) (v : V) (m : Map K (List V)) → IsMap m → linked k v m ≡ contains (entry k m) v
  linked-entry k v [] h = refl
  linked-entry k v ((j, s) ∷ m) h =
      ground (arith, linked-entry k v m, linked-absent j v m, ==_iff j k)

pub has_key-lookup {ℓ κ} :
    {K : Type ℓ} {V : Type κ} ⦃e : Eq K⦄ (k : K) (m : Map K V) → has_key k m ≡ is_some (lookup k m)
has_key-lookup k [] = refl
has_key-lookup k ((j, v) ∷ m) = ground (arith, has_key-lookup k m)

-- `retain` on a map.
module _ {K V : Type 0} ⦃e : Eq K⦄ where
  pub lookup-filter_absent :
      (keep : K × V → Bool) (k : K) (m : Map K V)
      → has_key k m ≡ false
      → lookup k (filter keep m) ≡ none
  lookup-filter_absent keep k [] h = refl
  lookup-filter_absent keep k ((j, v) ∷ m) h = ground (arith, lookup-filter_absent keep k m)

  pub lookup-filter :
      (keep : K × V → Bool) (k : K) (v : V) (m : Map K V)
      → IsMap m
      → lookup k m ≡ some v
      → lookup k (filter keep m) ≡ (if keep (k, v) then some v else none)
  lookup-filter keep k v [] h l = cc
  lookup-filter keep k v ((j, w) ∷ m) h l =
      ground (arith, lookup-filter_absent keep k m, lookup-filter keep k v m, ==_iff j k)
