-- ===== src/Outcome/Owners.antt =====
-- The units that own the parts of a row, and the units among them that pass a test.
use revisium_engine.Base.{
  ◌≤◌, String, Bool, true, false, none, some, List, [], ◌∷◌, Eq-String, ◌==◌, ◌||◌, includes,
  filter, length, nat_eq, ◌≡◌, refl, ap, arith, Bool-cases, List-cases, inl, inr,
}
use text.Mathlib.TextEquality.{eq_iff}
use revisium_engine.Base.Map
use revisium_engine.Base.Map.{Map}
use revisium_engine.Outcome.{CatalogueRow, values}

-- The unit keys that own a part of a row.
abbrev pub owns : {R : Type 0} → CatalogueRow R → String → Bool
owns row owner =
    (includes (values row.columns) owner || includes (values row.leaves) owner)
    || (elim row.existence [ none ↦ false | some key ↦ key == owner ])

pub nil_of_length : {A : Type 0} (l : List A) → nat_eq (length l) 0 ≡ true → l ≡ []
nil_of_length l h = elim (List-cases l) [ inl nothing ↦ nothing | inr (x, xs, e) ↦ ground arith ]

length-filter-le : (p : String → Bool) (l : List String) → length (filter p l) ≤ length l
length-filter-le p [] = ground arith
length-filter-le p (x ∷ xs) = ground (arith, length-filter-le p xs)

pub filter-full :
    (p : String → Bool) (l : List String) (a : String)
    → length (filter p l) ≡ length l
    → includes l a ≡ true
    → p a ≡ true
filter-full p [] a h i = ground arith
filter-full p (x ∷ xs) a h i = elim (Bool-cases (p x)) [
  | inr out ↦ ground (arith, length-filter-le p xs)
  | inl kept ↦ elim (Bool-cases (x == a)) [
    | inl same ↦ ground (arith, ap p ((eq_iff x a).0 same))
    | inr other ↦ filter-full p xs a (ground arith) (ground arith)
  ]
]

pub includes-values :
    (m : Map String String) (key value : String)
    → Map.get m key ≡ some value
    → includes (values m) value ≡ true
unfolding Map.get
includes-values [] key value h = ground arith
includes-values ((k, v) ∷ m) key value h = elim (Bool-cases (k == key)) [
  | inl same ↦ ground (arith, eq_iff v value)
  | inr other ↦ ground (arith, includes-values m key value (rw other at h))
]

pub filter-none :
    (p : String → Bool) (l : List String)
    → ((x : String) → includes l x ≡ true → p x ≡ false)
    → filter p l ≡ []
filter-none p [] fails = refl
filter-none p (x ∷ xs) fails = ground (
  arith,
  fails x (ground (arith, eq_iff x x)),
  filter-none p xs (λ y i. fails y (ground (arith))),
)

pub filter_congr :
    (p q : String → Bool) (l : List String)
    → ((x : String) → includes l x ≡ true → p x ≡ q x)
    → filter p l ≡ filter q l
filter_congr p q [] same = refl
filter_congr p q (x ∷ xs) same =
    ground (
      arith,
      same x (ground (arith, eq_iff x x)),
      filter_congr p q xs (λ y i. same y (ground arith)),
    )
