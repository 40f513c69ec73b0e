-- ===== src/CodePoints/Tests.antt =====
-- Texts of compare-code-points.ts that their units would order otherwise.
use revisium_engine.Base.{ℕ, List, [], ◌∷◌, ◌≡◌, refl, arith}
use revisium_engine.CodePoints.{compare_code_points, compare_from, difference}
use revisium_engine.CodePoints.Lexicographic.{
  sign, less, lexicographic, code_points, compare_code_points-lexicographic,
}

-- U+FFFD, and U+1F600 as a surrogate pair
abbrev replacement : List ℕ
replacement = 65533 ∷ []

abbrev face : List ℕ
face = 55357 ∷ 56832 ∷ []

compare_replacement : sign (compare_code_points replacement face) ≡ less
unfolding compare_code_points compare_from difference
compare_replacement = refl

compare_code_points-lexicographic_example :
    sign (compare_code_points replacement face)
    ≡ lexicographic (code_points replacement) (code_points face)
compare_code_points-lexicographic_example =
    compare_code_points-lexicographic replacement face (omega arith, tt)
      (omega arith, (omega arith, tt))
