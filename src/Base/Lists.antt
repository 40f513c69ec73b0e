-- ===== src/Base/Lists.antt =====
-- Lists indexed by native numbers, under the library's names, and the array methods that the
-- program uses.
use Prim.Native.Nat.{ℕ, zero, suc, ◌+◌, ◌≤◌, ◌<◌}
use mathlib.Core.Path.{◌≡◌, refl, ap, subst, ◌∙◌}
use mathlib.Core.Bool.{Bool, true, false, ◌||◌, ◌&&◌}
use mathlib.Core.Logic.{inl, inr, ◌↔◌}
use mathlib.Core.List.{List, [], ◌∷◌, ◌++◌}
use mathlib.Core.Option.{Option, none, some}
use native.Mathlib.Omega.{arith}
use revisium_engine.Base.Tests.{if◌then◌else◌, nat_eq, Eq, ◌==◌, Bool-cases}

module _ {ℓ} {A : Type ℓ} where
  abbrev pub length : List A → ℕ
  length [] = 0
  length (x ∷ xs) = suc (length xs)

  abbrev pub get_elem? : List A → ℕ → Option A
  get_elem? [] i = none
  get_elem? (x ∷ xs) zero = some x
  get_elem? (x ∷ xs) (suc i) = get_elem? xs i

  -- A write through a reference: the object at the index is replaced.
  abbrev pub modify : List A → ℕ → (A → A) → List A
  modify [] i f = []
  modify (x ∷ xs) zero f = f x ∷ xs
  modify (x ∷ xs) (suc i) f = x ∷ modify xs i f

  pub length-append : (xs ys : List A) → length (xs ++ ys) ≡ length xs + length ys
  length-append [] ys = omega arith
  length-append (x ∷ xs) ys = omega (arith, length-append xs ys)

  pub length-modify : (xs : List A) (i : ℕ) (f : A → A) → length (modify xs i f) ≡ length xs
  length-modify [] i f = refl
  length-modify (x ∷ xs) zero f = refl
  length-modify (x ∷ xs) (suc i) f = ap suc (length-modify xs i f)

  abbrev on_some : (A → A) → Option A → Option A
  on_some f none = none
  on_some f (some a) = some (f a)

  pub get_elem?-modify :
      (xs : List A) (i j : ℕ) (f : A → A)
      → get_elem? (modify xs i f) j
        ≡ (if nat_eq i j then on_some f (get_elem? xs j) else get_elem? xs j)
  get_elem?-modify [] i j f = ground arith
  get_elem?-modify (x ∷ xs) zero zero f = ground arith
  get_elem?-modify (x ∷ xs) zero (suc j) f = ground arith
  get_elem?-modify (x ∷ xs) (suc i) zero f = ground arith
  get_elem?-modify (x ∷ xs) (suc i) (suc j) f = ground (arith, get_elem?-modify xs i j f)

  pub get_elem?-concat :
      (xs : List A) (a : A) (j : ℕ)
      → get_elem? (xs ++ a ∷ []) j ≡ (if nat_eq (length xs) j then some a else get_elem? xs j)
  get_elem?-concat [] a zero = ground arith
  get_elem?-concat [] a (suc j) = ground arith
  get_elem?-concat (x ∷ xs) a zero = ground arith
  get_elem?-concat (x ∷ xs) a (suc j) = ground (arith, get_elem?-concat xs a j)

  pub get_elem?-length : (xs : List A) → get_elem? xs (length xs) ≡ none
  get_elem?-length [] = refl
  get_elem?-length (x ∷ xs) = get_elem?-length xs

  pub lt-length_of_get_elem? :
      (xs : List A) (i : ℕ) {a : A} → get_elem? xs i ≡ some a → i < length xs
  lt-length_of_get_elem? [] i h = cc
  lt-length_of_get_elem? (x ∷ xs) zero h = omega arith
  lt-length_of_get_elem? (x ∷ xs) (suc i) h = omega (arith, lt-length_of_get_elem? xs i h)

  pub get_elem?-lt : (xs : List A) (i : ℕ) → i < length xs → (a : A) × (get_elem? xs i ≡ some a)
  get_elem?-lt [] i h = absurd (omega arith)
  get_elem?-lt (x ∷ xs) zero h = (x, refl)
  get_elem?-lt (x ∷ xs) (suc i) h = get_elem?-lt xs i (omega arith)

  -- `filter`
  abbrev pub filter : (A → Bool) → List A → List A
  filter p [] = []
  filter p (x ∷ xs) = let rest = filter p xs in if p x then x ∷ rest else rest

  -- A predicate on every element, by recursion.
  abbrev pub All {κ} : (A → Type κ) → List A → Type κ
  All P [] = Unit
  All P (x ∷ xs) = P x × All P xs

module _ {ℓ} {A : Type ℓ} ⦃e : Eq A⦄ where
  -- `includes` of an array, and `has` of a `Set` that is kept as the list of its elements.
  abbrev pub includes : List A → A → Bool
  includes [] a = false
  includes (x ∷ xs) a = x == a || includes xs a

  abbrev pub IsDistinct : List A → Type 0
  IsDistinct [] = Unit
  IsDistinct (x ∷ xs) = (includes xs x ≡ false) × IsDistinct xs

  pub All_of_includes {κ} :
      (P : A → Type κ) (xs : List A) (a : A) → All P xs → includes xs a ≡ true → P a
  All_of_includes P [] a h m = cc
  All_of_includes P (x ∷ xs) a h m = elim (Bool-cases (x == a)) [
    | inl same ↦ subst P ((e.beq_iff x a).0 same) h.0
    | inr other ↦ All_of_includes P xs a h.1 (ground arith)
  ]

  -- `add` of a `Set`, which keeps the order of insertion, and `new Set(values)`
  abbrev pub add : List A → A → List A
  add s x = if includes s x then s else s ++ x ∷ []

  abbrev pub add_all : List A → List A → List A
  add_all s [] = s
  add_all s (x ∷ xs) = add_all (add s x) xs

  length-add : (s : List A) (x : A) → length (add s x) ≤ suc (length s)
  length-add s x = elim (Bool-cases (includes s x)) [
    | inl old ↦ ground arith
    | inr new ↦ ground (arith, length-append s (x ∷ []))
  ]

  pub length-add_all : (s xs : List A) → length (add_all s xs) ≤ length s + length xs
  length-add_all s [] = omega arith
  length-add_all s (x ∷ xs) = omega (arith, length-add_all (add s x) xs, length-add s x)

  pub includes-append :
      (xs ys : List A) (a : A) → includes (xs ++ ys) a ≡ (includes xs a || includes ys a)
  includes-append [] ys a = refl
  includes-append (x ∷ xs) ys a = ground (arith, includes-append xs ys a)

  pub includes-filter :
      (p : A → Bool) (xs : List A) (a : A) → includes (filter p xs) a ≡ (includes xs a && p a)
  includes-filter p [] a = refl
  includes-filter p (x ∷ xs) a = elim (Bool-cases (x == a)) [
    | inl same ↦
        let same_test = ap p ((e.beq_iff x a).0 same) in ground (arith, includes-filter p xs a)
    | inr other ↦ ground (arith, includes-filter p xs a)
  ]

  pub includes-add : (s : List A) (x a : A) → includes (add s x) a ≡ (includes s a || x == a)
  includes-add s x a = elim (Bool-cases (includes s x)) [
    | inl old ↦ elim (Bool-cases (x == a)) [
      | inl same ↦
          let equal = (e.beq_iff x a).0 same in
          let held = ap (λ b. includes s b) equal in ground arith
      | inr other ↦ ground arith
    ]
    | inr new ↦ ground (arith, includes-append s (x ∷ []) a)
  ]

  pub includes-add_all :
      (s xs : List A) (a : A) → includes (add_all s xs) a ≡ (includes s a || includes xs a)
  includes-add_all s [] a = ground arith
  includes-add_all s (x ∷ xs) a =
      ground (arith, includes-add_all (add s x) xs a, includes-add s x a)

  pub filter-nil :
      (p : A → Bool) (xs : List A) (a : A) → filter p xs ≡ [] → includes xs a ≡ true → p a ≡ false
  filter-nil p xs a h i =
      let kept = includes-filter p xs a in let none_kept = ap (λ l. includes l a) h in ground arith

  -- Lists are equal when they have equal elements.
  unfoldable pub list_eq : List A → List A → Bool
  list_eq [] [] = true
  list_eq [] (y ∷ ys) = false
  list_eq (x ∷ xs) [] = false
  list_eq (x ∷ xs) (y ∷ ys) = x == y && list_eq xs ys

  list_eq_refl : (xs : List A) → list_eq xs xs ≡ true
  unfolding list_eq
  list_eq_refl [] = refl
  list_eq_refl (x ∷ xs) = ground (arith, e.beq_iff x x, list_eq_refl xs)

  list_eq-eq : (xs ys : List A) → list_eq xs ys ≡ true → xs ≡ ys
  unfolding list_eq
  list_eq-eq [] [] h = refl
  list_eq-eq [] (y ∷ ys) h = cc
  list_eq-eq (x ∷ xs) [] h = cc
  list_eq-eq (x ∷ xs) (y ∷ ys) h =
      ap (λ a. a ∷ xs) ((e.beq_iff x y).0 (ground arith))
      ∙ ap (λ l. y ∷ l) (list_eq-eq xs ys (ground arith))

  pub list_eq_iff : (xs ys : List A) → (list_eq xs ys ≡ true) ↔ (xs ≡ ys)
  list_eq_iff xs ys =
      (list_eq-eq xs ys, λ same. subst (λ l. list_eq xs l ≡ true) same (list_eq_refl xs))

  instance abbrev pub Eq-List : Eq (List A)
  Eq-List = record { beq = list_eq; beq_iff = list_eq_iff }
