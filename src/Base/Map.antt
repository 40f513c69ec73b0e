-- ===== src/Base/Map.antt =====
-- The JavaScript `Map`: an association list in insertion order. `set` writes an old key in place
-- and appends a new one; `delete` drops the key.
use revisium_engine.Base.Tests.{Eq, ◌==◌, if◌then◌else◌, Bool-cases}
use mathlib.Core.Path.{◌≡◌, refl}
use mathlib.Core.Logic.{inl, inr, ◌≢◌}
use mathlib.Core.List.{List, [], ◌∷◌, Memᴰ}
use mathlib.Core.Option.{Option, none, some}
use native.Mathlib.Omega.{arith}

abbrev pub Map {ℓ κ} : Type ℓ → Type κ → Type (ℓ ⊔ κ)
Map K V = List (K × V)

module _ {ℓ κ} {K : Type ℓ} {V : Type κ} ⦃e : Eq K⦄ where
  unfoldable pub get : Map K V → K → Option V
  get [] k = none
  get ((j, v) ∷ m) k = if j == k then some v else get m k

  unfoldable pub set : Map K V → K → V → Map K V
  set [] k v = (k, v) ∷ []
  set ((j, w) ∷ m) k v = if j == k then (j, v) ∷ m else (j, w) ∷ set m k v

  unfoldable pub delete : Map K V → K → Map K V
  delete [] k = []
  delete ((j, w) ∷ m) k = let rest = delete m k in if j == k then rest else (j, w) ∷ rest

  pub get-nil : (k : K) → get ([]) k ≡ none
  unfolding get
  get-nil k = refl

  pub get-set :
      (m : Map K V) (k j : K) (v : V) → get (set m k v) j ≡ (if k == j then some v else get m j)
  unfolding get set
  get-set [] k j v = refl
  get-set ((i, w) ∷ m) k j v =
      ground (arith, e.beq_iff k j, e.beq_iff i k, e.beq_iff i j, get-set m k j v)

  pub get-set_same : (m : Map K V) (k : K) (v : V) → get (set m k v) k ≡ some v
  get-set_same m k v = ground (arith, get-set m k k v, e.beq_iff k k)

  pub get-set_other : (m : Map K V) (k j : K) (v : V) → k ≢ j → get (set m k v) j ≡ get m j
  get-set_other m k j v other = ground (arith, get-set m k j v, e.beq_iff k j)

  pub get-delete : (m : Map K V) (k j : K) → get (delete m k) j ≡ (if k == j then none else get m j)
  unfolding get delete
  get-delete [] k j = ground arith
  get-delete ((i, w) ∷ m) k j =
      ground (arith, e.beq_iff k j, e.beq_iff i k, e.beq_iff i j, get-delete m k j)

  pub get-delete_other : (m : Map K V) (k j : K) → k ≢ j → get (delete m k) j ≡ get m j
  get-delete_other m k j other = ground (arith, get-delete m k j, e.beq_iff k j)

  -- What a key holds is among the entries.
  pub mem_of_get : (m : Map K V) (k : K) (v : V) → get m k ≡ some v → Memᴰ (k, v) m
  unfolding get
  mem_of_get [] k v h = cc
  mem_of_get ((j, w) ∷ m) k v h = elim (Bool-cases (j == k)) [
    | inl same ↦ Memᴰ.head (ground (arith, e.beq_iff j k))
    | inr other ↦ Memᴰ.tail (mem_of_get m k v (rw other at h))
  ]

module _ {ℓ κ μ} {K : Type ℓ} {V : Type κ} ⦃e : Eq K⦄ (P : V → Type μ) where
  -- Every value satisfies `P`.
  abbrev pub AllValues : Map K V → Type μ
  AllValues [] = Unit
  AllValues ((k, v) ∷ m) = P v × AllValues m

  pub AllValues-set : (m : Map K V) (k : K) (v : V) → AllValues m → P v → AllValues (set m k v)
  unfolding set
  AllValues-set [] k v h p = (p, tt)
  AllValues-set ((j, w) ∷ m) k v h p = elim (Bool-cases (j == k)) [
    | inl same ↦ rw same (p, h.1)
    | inr other ↦ rw other (h.0, AllValues-set m k v h.1 p)
  ]
