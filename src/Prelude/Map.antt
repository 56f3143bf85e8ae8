-- ===== src/Prelude/Map.antt =====
-- `HashMap`, `BTreeMap` and `papaya::HashMap` as association lists, and sets as lists: an insertion
-- replaces the entry of the key, a removal drops it.
use grcache.Prelude.Tests.{if◌then◌else◌, is_some}
use grcache.Prelude.Equality.{Eq, ◌==◌, contains, eq_refl, eq_cases}
use Prim.Native.Nat.{ℕ, ◌+◌, ◌≤◌}
use mathlib.Core.Path.{◌≡◌, refl}
use mathlib.Core.Bool.{Bool, ◌&&◌, ◌||◌, not}
use mathlib.Core.Logic.{◌≢◌, ◌⊎◌, inl, inr}
use mathlib.Core.Option.{Option, none, some, some-injective}
use mathlib.Core.List.{List, [], ◌∷◌}
use native.Mathlib.Omega.{arith}

abbrev pub Map {ℓ κ} : Type ℓ → Type κ → Type (ℓ ⊔ κ)
Map K V = List (K × V)

module _ {ℓ κ} {K : Type ℓ} {V : Type κ} ⦃e : Eq K⦄ where
  unfoldable pub lookup : K → Map K V → Option V
  lookup k [] = none
  lookup k ((j, v) ∷ m) = if j == k then some v else lookup k m

  unfoldable pub insert : K → V → Map K V → Map K V
  insert k new [] = (k, new) ∷ []
  insert k new ((j, old) ∷ m) = if j == k then (k, new) ∷ m else (j, old) ∷ insert k new m

  unfoldable pub remove : K → Map K V → Map K V
  remove k [] = []
  remove k ((j, w) ∷ m) = if j == k then remove k m else (j, w) ∷ remove k m

  abbrev pub contains_key : K → Map K V → Bool
  contains_key k m = is_some (lookup k m)

  -- `retain` with a test on the key
  unfoldable pub retain : (K → Bool) → Map K V → Map K V
  retain p [] = []
  retain p ((j, w) ∷ m) = if p j then (j, w) ∷ retain p m else retain p m

  -- the keys that such a `retain` drops, in the order of the map
  unfoldable pub dropped : (K → Bool) → Map K V → List K
  dropped p [] = []
  dropped p ((j, w) ∷ m) = if p j then dropped p m else j ∷ dropped p m

  pub lookup-insert :
      (k j : K) (new : V) (m : Map K V)
      → lookup j (insert k new m) ≡ (if k == j then some new else lookup j m)
  unfolding lookup insert
  lookup-insert k j new [] = refl
  lookup-insert k j new ((i, w) ∷ rest) =
      ground (lookup-insert k j new rest, e.beq_iff i k, e.beq_iff i j, e.beq_iff k j, arith)

  -- An entry after an insertion is the one that was inserted, or one from before.
  pub lookup-insert_cases :
      (k j : K) (new v : V) (m : Map K V)
      → lookup j (insert k new m) ≡ some v
      → ((k ≡ j) × (new ≡ v)) ⊎ ((k ≢ j) × (lookup j m ≡ some v))
  lookup-insert_cases k j new v m h = elim (eq_cases k j) [
    | inl (t, same) ↦ inl (same, some-injective _ _ (rw (lookup-insert, t) at h))
    | inr (t, other) ↦ inr (other, rw (lookup-insert, t) at h)
  ]

  pub lookup-remove :
      (k j : K) (m : Map K V) → lookup j (remove k m) ≡ (if k == j then none else lookup j m)
  unfolding lookup remove
  lookup-remove k j [] = ground arith
  lookup-remove k j ((i, w) ∷ m) =
      ground (arith, e.beq_iff k j, e.beq_iff i k, e.beq_iff i j, lookup-remove k j m)

  pub lookup-retain :
      (p : K → Bool) (j : K) (m : Map K V)
      → lookup j (retain p m) ≡ (if p j then lookup j m else none)
  unfolding lookup retain
  lookup-retain p j [] = ground arith
  lookup-retain p j ((i, w) ∷ m) = elim (eq_cases i j) [
    | inl (t, q) ↦ rw q (ground (arith, eq_refl j, lookup-retain p j m))
    | inr (t, q) ↦ ground (arith, lookup-retain p j m)
  ]

  pub contains-dropped :
      (p : K → Bool) (j : K) (m : Map K V)
      → contains j (dropped p m) ≡ (contains_key j m && not (p j))
  unfolding lookup dropped
  contains-dropped p j [] = refl
  contains-dropped p j ((i, w) ∷ m) = elim (eq_cases i j) [
    | inl (t, q) ↦ rw q (ground (arith, eq_refl j, contains-dropped p j m))
    | inr (t, q) ↦ ground (arith, contains-dropped p j m)
  ]

abbrev pub weight_of : {V : Type 0} → (V → ℕ) → Option V → ℕ
weight_of weight none = 0
weight_of weight (some v) = weight v

-- The sum of a weight over the entries of a map.
module _ {K V : Type 0} ⦃e : Eq K⦄ (weight : V → ℕ) where
  abbrev pub total : Map K V → ℕ
  total [] = 0
  total ((j, v) ∷ m) = weight v + total m

  pub total-insert :
      (k : K) (new : V) (m : Map K V)
      → total (insert k new m) + weight_of weight (lookup k m) ≡ total m + weight new
  unfolding lookup insert
  total-insert k new [] = omega arith
  total-insert k new ((i, w) ∷ m) = elim (eq_cases i k) [
    | inl (t, q) ↦ rw t (omega arith)
    | inr (t, q) ↦ rw t (omega (arith, total-insert k new m))
  ]

  pub weight_of-lookup : (k : K) (m : Map K V) → weight_of weight (lookup k m) ≤ total m
  unfolding lookup
  weight_of-lookup k [] = omega arith
  weight_of-lookup k ((i, w) ∷ m) = elim (eq_cases i k) [
    | inl (t, q) ↦ rw t (omega arith)
    | inr (t, q) ↦ rw t (omega (arith, weight_of-lookup k m))
  ]

  pub total-remove : (k : K) (m : Map K V) → total (remove k m) ≤ total m
  unfolding remove
  total-remove k [] = omega arith
  total-remove k ((i, w) ∷ m) = elim (eq_cases i k) [
    | inl (t, q) ↦ rw t (omega (arith, total-remove k m))
    | inr (t, q) ↦ rw t (omega (arith, total-remove k m))
  ]

pub ruleset map_laws = (lookup-insert, lookup-remove, lookup-retain)

module _ {ℓ} {K : Type ℓ} ⦃e : Eq K⦄ where
  -- `HashSet::insert` and `HashSet::remove`
  unfoldable pub set_insert : K → List K → List K
  set_insert k s = if contains k s then s else k ∷ s

  unfoldable pub set_remove : K → List K → List K
  set_remove k [] = []
  set_remove k (j ∷ s) = if j == k then set_remove k s else j ∷ set_remove k s

  pub contains-set_insert :
      (k j : K) (s : List K) → contains j (set_insert k s) ≡ (k == j || contains j s)
  unfolding set_insert
  contains-set_insert k j s = elim (eq_cases k j) [
    | inl (t, q) ↦ rw q (ground (arith, eq_refl j))
    | inr (t, q) ↦ ground arith
  ]

  pub contains-set_remove :
      (k j : K) (s : List K) → contains j (set_remove k s) ≡ (not (k == j) && contains j s)
  unfolding set_remove
  contains-set_remove k j [] = ground arith
  contains-set_remove k j (i ∷ s) =
      ground (arith, e.beq_iff k j, e.beq_iff i k, e.beq_iff i j, contains-set_remove k j s)
