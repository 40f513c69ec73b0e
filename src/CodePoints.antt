-- ===== src/CodePoints.antt =====
-- src/features/share/utils/compare-code-points.ts: the order of texts by their Unicode code points. A
-- text is the list of its UTF-16 units.
pub mod Lexicographic
mod Tests
use revisium_engine.Base.{
  ℕ, zero, suc, Bool, true, false, List, [], ◌∷◌, ◌+◌, ◌-◌, ◌*◌, ltb, ◌&&◌, not, length, Eq-ℕ, ◌==◌,
  if◌then◌else◌,
}

-- the numbers that a comparison returns
pub data ℤ : Type 0 where
  pos negsuc : ℕ → ℤ

-- `left - right`
unfoldable pub difference : ℕ → ℕ → ℤ
difference left zero = pos left
difference zero (suc right) = negsuc right
difference (suc left) (suc right) = difference left right

abbrev is_high_surrogate : ℕ → Bool
is_high_surrogate unit = not (ltb unit 55296) && ltb unit 56320

abbrev is_low_surrogate : ℕ → Bool
is_low_surrogate unit = not (ltb unit 56320) && ltb unit 57344

abbrev pub is_pair : ℕ → ℕ → Bool
is_pair high low = is_high_surrogate high && is_low_surrogate low

-- the code point of a surrogate pair
abbrev pub pair_code_point : ℕ → ℕ → ℕ
pair_code_point high low = (high - 55296) * 1024 + (low - 56320) + 65536

-- `codePointAt(index) ?? 0`, of the text from the index on
abbrev pub code_point_at : List ℕ → ℕ
code_point_at [] = 0
code_point_at (unit ∷ []) = unit
code_point_at (unit ∷ next ∷ text) = if is_pair unit next then pair_code_point unit next else unit

-- `lengthOf`
abbrev pub length_of : ℕ → ℕ
length_of code_point = if ltb 65535 code_point then 2 else 1

abbrev pub skip : ℕ → List ℕ → List ℕ
skip zero text = text
skip (suc n) [] = []
skip (suc n) (unit ∷ text) = skip n text

-- The loop, on fuel, of the texts from the index on: their lengths differ by what the whole texts'
-- lengths differ by.
unfoldable pub compare_from : ℕ → List ℕ → List ℕ → ℤ
compare_from zero left right = difference (length left) (length right)
compare_from (suc fuel) [] right = difference 0 (length right)
compare_from (suc fuel) (unit ∷ left) [] = difference (length (unit ∷ left)) 0
compare_from (suc fuel) (unit ∷ left) (other ∷ right) =
    let left_code_point = code_point_at (unit ∷ left) in
    let right_code_point = code_point_at (other ∷ right) in
    let rest =
      compare_from fuel (skip (length_of left_code_point) (unit ∷ left))
        (skip (length_of left_code_point) (other ∷ right)) in
    if left_code_point == right_code_point
    then rest
    else difference left_code_point right_code_point

unfoldable pub compare_code_points : List ℕ → List ℕ → ℤ
compare_code_points left right = compare_from (length left) left right
