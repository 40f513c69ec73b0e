-- ===== src/CodePoints/Lexicographic.antt =====
-- The comparison of compare-code-points.ts is the lexicographic order of code points.
use revisium_engine.Base.{
  ℕ, zero, suc, false, List, [], ◌∷◌, ◌≡◌, refl, sym, ◌∙◌, ap, arith, ◌<◌, ◌≤◌, ltb, length, Eq-ℕ,
  ◌==◌, if◌then◌else◌, All, Bool-cases, inl, inr, eq_of_beq,
}
use revisium_engine.CodePoints.{
  ℤ, pos, negsuc, difference, is_pair, pair_code_point, code_point_at, length_of, skip,
  compare_from, compare_code_points,
}

pub data Order : Type 0 where
  less equal greater : Order

abbrev pub sign : ℤ → Order
sign (negsuc n) = less
sign (pos zero) = equal
sign (pos (suc n)) = greater

abbrev pub order_of : ℕ → ℕ → Order
order_of left right = if ltb left right then less else (if left == right then equal else greater)

abbrev pub then_by : Order → Order → Order
then_by equal next = next
then_by less next = less
then_by greater next = greater

-- lists in the order of their first difference, a list after its beginnings
unfoldable pub lexicographic : List ℕ → List ℕ → Order
lexicographic [] [] = equal
lexicographic [] (y ∷ ys) = less
lexicographic (x ∷ xs) [] = greater
lexicographic (x ∷ xs) (y ∷ ys) = let rest = lexicographic xs ys in then_by (order_of x y) rest

-- the code points of a text
unfoldable pub code_points : List ℕ → List ℕ
code_points [] = []
code_points (unit ∷ []) = unit ∷ []
code_points (unit ∷ next ∷ text) =
    let after = code_points text in
    let apart = code_points (next ∷ text) in
    if is_pair unit next then pair_code_point unit next ∷ after else unit ∷ apart

-- Units of UTF-16 are below 65536.
abbrev pub AreUnits : List ℕ → Type 0
AreUnits text = All (λ unit. unit < 65536) text

sign-difference : (left right : ℕ) → sign (difference left right) ≡ order_of left right
unfolding difference
sign-difference zero zero = refl
sign-difference (suc left) zero = ground arith
sign-difference zero (suc right) = ground arith
sign-difference (suc left) (suc right) = ground (arith, sign-difference left right)

length_of-unit : (unit : ℕ) → unit < 65536 → length_of unit ≡ 1
length_of-unit unit h = ground arith

length_of-pair : (high low : ℕ) → length_of (pair_code_point high low) ≡ 2
length_of-pair high low = ground arith

code_points-first :
    (unit : ℕ) (text : List ℕ)
    → AreUnits (unit ∷ text)
    → code_points (unit ∷ text)
      ≡ code_point_at (unit ∷ text)
        ∷ code_points (skip (length_of (code_point_at (unit ∷ text))) (unit ∷ text))
unfolding code_points
code_points-first unit [] units =
    ap (λ n. unit ∷ code_points (skip n (unit ∷ []))) (sym (length_of-unit unit units.0))
code_points-first unit (next ∷ text) units = elim (Bool-cases (is_pair unit next)) [
  | inl pair ↦ rw pair (
      ap (λ n. pair_code_point unit next ∷ code_points (skip n (unit ∷ next ∷ text)))
        (sym (length_of-pair unit next)))
  | inr apart ↦ rw apart (
      ap (λ n. unit ∷ code_points (skip n (unit ∷ next ∷ text)))
        (sym (length_of-unit unit units.0)))
]

AreUnits-skip : (n : ℕ) (text : List ℕ) → AreUnits text → AreUnits (skip n text)
AreUnits-skip zero text h = h
AreUnits-skip (suc n) [] h = h
AreUnits-skip (suc n) (unit ∷ text) h = AreUnits-skip n text h.1

length-skip : (n : ℕ) (text : List ℕ) → length (skip n text) ≤ length text
length-skip zero text = omega arith
length-skip (suc n) [] = omega arith
length-skip (suc n) (unit ∷ text) = omega (arith, length-skip n text)

length-skip_first :
    (code_point unit : ℕ) (text : List ℕ)
    → length (skip (length_of code_point) (unit ∷ text)) ≤ length text
length-skip_first code_point unit text = elim (Bool-cases (ltb 65535 code_point)) [
  | inl pair ↦ rw pair (length-skip 1 text)
  | inr single ↦ rw single (length-skip 0 text)
]

order_of-other :
    (x y : ℕ) (next : Order) → (x == y) ≡ false → then_by (order_of x y) next ≡ order_of x y
order_of-other x y next h = elim (Bool-cases (ltb x y)) [
  | inl below ↦ rw below refl
  | inr above ↦ rw (above, h) refl
]

order_of-same : (x : ℕ) → order_of x x ≡ equal
order_of-same x = ground arith

-- Texts are ordered by their first code points, and then by the rest.
lexicographic-first :
    (unit other : ℕ) (left right : List ℕ)
    → AreUnits (unit ∷ left)
    → AreUnits (other ∷ right)
    → let x = code_point_at (unit ∷ left) in
      let y = code_point_at (other ∷ right) in
      lexicographic (code_points (unit ∷ left)) (code_points (other ∷ right))
      ≡ then_by (order_of x y) (
          lexicographic
            (code_points (skip (length_of x) (unit ∷ left)))
            (code_points (skip (length_of y) (other ∷ right))))
unfolding lexicographic
lexicographic-first unit other left right h k =
    let x = code_point_at (unit ∷ left) in
    ap (λ l. lexicographic l (code_points (other ∷ right))) (code_points-first unit left h)
    ∙ ap (lexicographic (x ∷ code_points (skip (length_of x) (unit ∷ left))))
        (code_points-first other right k)

compare_from-lexicographic :
    (fuel : ℕ) (left right : List ℕ)
    → AreUnits left
    → AreUnits right
    → length left ≤ fuel
    → sign (compare_from fuel left right) ≡ lexicographic (code_points left) (code_points right)
unfolding compare_from lexicographic code_points difference
compare_from-lexicographic zero [] [] h k enough = refl
compare_from-lexicographic zero [] (other ∷ right) h k enough =
    ap (lexicographic []) (sym (code_points-first other right k))
compare_from-lexicographic zero (unit ∷ left) right h k enough = absurd (omega arith)
compare_from-lexicographic (suc fuel) [] [] h k enough = refl
compare_from-lexicographic (suc fuel) [] (other ∷ right) h k enough =
    ap (lexicographic []) (sym (code_points-first other right k))
compare_from-lexicographic (suc fuel) (unit ∷ left) [] h k enough =
    ap (λ l. lexicographic l []) (sym (code_points-first unit left h))
compare_from-lexicographic (suc fuel) (unit ∷ left) (other ∷ right) h k enough =
    let x = code_point_at (unit ∷ left) in
    let y = code_point_at (other ∷ right) in
    let rest =
      compare_from fuel (skip (length_of x) (unit ∷ left)) (skip (length_of x) (other ∷ right)) in
    let later =
      lexicographic (code_points (skip (length_of x) (unit ∷ left)))
        (code_points (skip (length_of y) (other ∷ right))) in
    elim (Bool-cases (x == y)) [
      | inl same ↦
          let equal_points = eq_of_beq x y same in
          ap (λ b. sign (if b then rest else difference x y)) same
          ∙ compare_from-lexicographic fuel (skip (length_of x) (unit ∷ left))
              (skip (length_of x) (other ∷ right)) (AreUnits-skip (length_of x) (unit ∷ left) h)
              (AreUnits-skip (length_of x) (other ∷ right) k)
              (omega (arith, length-skip_first x unit left))
          ∙ ap
              (λ n.
                lexicographic (code_points (skip (length_of x) (unit ∷ left)))
                  (code_points (skip (length_of n) (other ∷ right))))
              equal_points
          ∙ sym (ap (λ o. then_by o later) (ap (order_of x) (sym equal_points) ∙ order_of-same x))
          ∙ sym (lexicographic-first unit other left right h k)
      | inr apart ↦
          ap (λ b. sign (if b then rest else difference x y)) apart
          ∙ sign-difference x y
          ∙ sym (order_of-other x y later apart)
          ∙ sym (lexicographic-first unit other left right h k)
    ]

-- Two texts of UTF-16 compare as their code points do, in the order of lists by their first
-- difference: the sign of what the comparison returns says which text comes first.
pub compare_code_points-lexicographic :
    (left right : List ℕ)
    → AreUnits left
    → AreUnits right
    → sign (compare_code_points left right) ≡ lexicographic (code_points left) (code_points right)
unfolding compare_code_points
compare_code_points-lexicographic left right h k =
    compare_from-lexicographic (length left) left right h k (omega arith)
