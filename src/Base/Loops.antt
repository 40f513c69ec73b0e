-- ===== src/Base/Loops.antt =====
-- A loop that sets one key of a map for each element that has one.
use Prim.Native.Nat.{ℕ, zero, suc}
use Prim.Native.String.{String}
use mathlib.Core.Path.{◌≡◌, refl}
use mathlib.Core.Logic.{◌⊎◌, inl, inr}
use mathlib.Core.List.{List, [], ◌∷◌}
use mathlib.Core.Option.{Option, none, some}
use native.Mathlib.Omega.{arith}
use text.Mathlib.TextEquality.{eq_iff}
use revisium_engine.Base.Tests.{Eq-String, ◌==◌, Option-cases, Bool-cases}
use revisium_engine.Base.Lists.{get_elem?}
use revisium_engine.Base.Map
use revisium_engine.Base.Map.{Map, get-set}

module _ {A V : Type 0} (entry : A → Option (String × V)) where
  abbrev pub set_entry : Map String V → Option (String × V) → Map String V
  set_entry m none = m
  set_entry m (some (id, v)) = Map.set m id v

  unfoldable pub set_entries : Map String V → List A → Map String V
  set_entries m [] = m
  set_entries m (a ∷ l) = set_entries (set_entry m (entry a)) l

  -- Every element with the key has the value.
  abbrev pub OnlyValue : List A → String → V → Type 0
  OnlyValue l id v =
      (i : ℕ) (a : A) (w : V) → get_elem? l i ≡ some a → entry a ≡ some (id, w) → w ≡ v

  set_entries-kept :
      (m : Map String V) (l : List A) (id : String) (v : V)
      → OnlyValue l id v
      → Map.get m id ≡ some v
      → Map.get (set_entries m l) id ≡ some v
  unfolding set_entries
  set_entries-kept m [] id v only h = h
  set_entries-kept m (a ∷ l) id v only h =
      set_entries-kept (set_entry m (entry a)) l id v (λ i b w. only (suc i) b w)
        (elim (Option-cases (entry a)) [
          | inl nothing ↦ rw nothing h
          | inr (key, e) ↦
              let (j, w) = key in rw e (ground (arith, get-set m j id w, eq_iff j id, only 0 a w))
        ])

  pub set_entries-found :
      (m : Map String V) (l : List A) (id : String) (v : V) (i : ℕ) (a : A)
      → OnlyValue l id v
      → get_elem? l i ≡ some a
      → entry a ≡ some (id, v)
      → Map.get (set_entries m l) id ≡ some v
  unfolding set_entries
  set_entries-found m [] id v i a only g e = cc
  set_entries-found m (b ∷ l) id v zero a only g e =
      set_entries-kept (set_entry m (entry b)) l id v (λ i b w. only (suc i) b w)
        (ground (arith, get-set m id id v, eq_iff id id))
  set_entries-found m (b ∷ l) id v (suc i) a only g e =
      set_entries-found (set_entry m (entry b)) l id v i a (λ j b w. only (suc j) b w) g e

  first_or_before :
      (m : Map String V) (a : A) (l : List A) (id : String) (v : V)
      → Map.get (set_entry m (entry a)) id ≡ some v
      → (Map.get m id ≡ some v)
        ⊎ ((i : ℕ) × (b : A) × (get_elem? (a ∷ l) i ≡ some b) × (entry b ≡ some (id, v)))
  first_or_before m a l id v was = elim (Option-cases (entry a)) [
    | inl nothing ↦ inl (ground arith)
    | inr (key, e) ↦
        let (j, w) = key in
        elim (Bool-cases (j == id)) [
          | inl same ↦ inr (0, a, refl, ground (arith, get-set m j id w, eq_iff j id))
          | inr other ↦ inl (ground (arith, get-set m j id w))
        ]
  ]

  -- A key that the loop leaves in the map comes from an element, or was there.
  pub set_entries-origin :
      (m : Map String V) (l : List A) (id : String) (v : V)
      → Map.get (set_entries m l) id ≡ some v
      → (Map.get m id ≡ some v)
        ⊎ ((i : ℕ) × (a : A) × (get_elem? l i ≡ some a) × (entry a ≡ some (id, v)))
  unfolding set_entries
  set_entries-origin m [] id v h = inl h
  set_entries-origin m (a ∷ l) id v h = elim (set_entries-origin (set_entry m (entry a)) l id v h) [
    | inl was ↦ first_or_before m a l id v was
    | inr (i, b, g, e) ↦ inr (suc i, b, g, e)
  ]
