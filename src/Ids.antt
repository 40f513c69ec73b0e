-- ===== src/Ids.antt =====
-- src/features/share/utils/validateUrlLikeId: which texts are ids. A text is read as the list of its
-- code points; every accepted text is ASCII, where these are the units that `length` counts, and a
-- text with any other character is refused by the pattern.
pub mod Accepted
mod Tests
use Prim.Native.Char.{code}
use mathlib.Core.Bool.{◌||◌}
use revisium_engine.Base.Result.{Result, ok, throw, ◌>>=◌, ◌>>◌}
use revisium_engine.Rules.Messages.{url_like_id_error_message}
use revisium_engine.Base.{
  ◌+◌, ℕ, String, Bool, true, false, Option, none, some, List, [], ◌∷◌, ◌&&◌, not, length, ltb,
  nat_eq, if◌then◌else◌, Eq-String,
}

codes : String → List ℕ
codes String.[] = []
codes (String.◌∷◌ c s) = code c ∷ codes s

abbrev is_between : ℕ → ℕ → ℕ → Bool
is_between lo hi c = not (ltb c lo) && not (ltb hi c)

abbrev is_letter : ℕ → Bool
is_letter c = is_between b'a' b'z' c || is_between b'A' b'Z' c

abbrev is_digit : ℕ → Bool
is_digit c = is_between b'0' b'9' c

-- [a-zA-Z_], [a-zA-Z0-9_-]
abbrev is_first : ℕ → Bool
is_first c = is_letter c || nat_eq c b'_'

abbrev is_rest : ℕ → Bool
is_rest c = is_letter c || is_digit c || nat_eq c b'_' || nat_eq c b'-'

pub every : (ℕ → Bool) → List ℕ → Bool
every p [] = true
every p (c ∷ s) = p c && every p s

starts_with : List ℕ → List ℕ → Bool
starts_with [] s = true
starts_with (p ∷ ps) [] = false
starts_with (p ∷ ps) (c ∷ s) = nat_eq p c && starts_with ps s

-- /^[a-zA-Z_][a-zA-Z0-9_-]*$/
matches_table_id_pattern : List ℕ → Bool
unfolding every
matches_table_id_pattern [] = false
matches_table_id_pattern (c ∷ s) = is_first c && every is_rest s

fits : List ℕ → Bool
fits s = not (ltb (length s) 1) && not (ltb 64 (length s))

abbrev system_table_prefix : String
system_table_prefix = "revisium_"

abbrev table_id_error_message : String
table_id_error_message =
    "Table ID must be 1 to 64 characters, start with a letter or underscore, and contain only letters (a-z, A-Z), digits (0-9), underscores (_), and hyphens (-)."

abbrev table_id_system_prefix_error_message : String
table_id_system_prefix_error_message =
    "Table ID cannot start with \"revisium_\" prefix (reserved for system tables)."

unfoldable pub find_table_id_error : String → Option String
unfolding codes fits matches_table_id_pattern starts_with
find_table_id_error id =
    if not (fits (codes id) && matches_table_id_pattern (codes id))
    then some table_id_error_message
    else if starts_with (codes system_table_prefix) (codes id)
    then some table_id_system_prefix_error_message
    else none

-- `validateTableId`
validate_table_id : String → Result (Unit {0})
validate_table_id id = elim (find_table_id_error id) [ none ↦ ok tt | some error ↦ throw error ]

-- /^[a-zA-Z0-9_-]+$/
matches_row_id_pattern : List ℕ → Bool
unfolding every
matches_row_id_pattern [] = false
matches_row_id_pattern (c ∷ s) = is_rest c && every is_rest s

abbrev row_id_error_message : String
row_id_error_message =
    "Row ID must be 1 to 64 characters and contain only letters (a-z, A-Z), digits (0-9), underscores (_), and hyphens (-)."

pub validate_row_id : String → Result (Unit {0})
unfolding codes fits matches_row_id_pattern
validate_row_id id =
    if not (fits (codes id) && matches_row_id_pattern (codes id))
    then throw row_id_error_message
    else ok tt

-- (?!__)
starts_with_two_underscores : List ℕ → Bool
unfolding starts_with
starts_with_two_underscores s = starts_with (b'_' ∷ b'_' ∷ []) s

-- `validateJsonFieldName`
pub validate_json_field_name : String → Bool
unfolding codes fits matches_table_id_pattern starts_with_two_underscores
validate_json_field_name id =
    fits (codes id)
    && (matches_table_id_pattern (codes id) && not (starts_with_two_underscores (codes id)))

-- `validateUrlLikeId`, with the pattern and the length of a field name
validate_url_like_id : String → Result (Unit {0})
unfolding validate_json_field_name
validate_url_like_id id =
    if validate_json_field_name id then ok tt else throw url_like_id_error_message

-- `toLowerCase` of a text that `validateUrlLikeId` accepts, which is ASCII
abbrev lower : ℕ → ℕ
lower c = if is_between b'A' b'Z' c then c + 32 else c

lower_case : List ℕ → List ℕ
lower_case [] = []
lower_case (c ∷ s) = lower c ∷ lower_case s

same_codes : List ℕ → List ℕ → Bool
same_codes [] [] = true
same_codes [] (d ∷ t) = false
same_codes (c ∷ s) [] = false
same_codes (c ∷ s) (d ∷ t) = nat_eq c d && same_codes s t

is_reserved : List String → List ℕ → Bool
unfolding codes same_codes
is_reserved [] s = false
is_reserved (name ∷ names) s = same_codes (codes name) s || is_reserved names s

abbrev reserved_branch_names : List String
reserved_branch_names = "head" ∷ "draft" ∷ []

abbrev reserved_branch_name_error_message : String
reserved_branch_name_error_message = "This branch name is reserved and cannot be used."

validate_branch_name : String → Result (Unit {0})
unfolding codes lower_case is_reserved
validate_branch_name name = do
  validate_url_like_id name
  (if is_reserved reserved_branch_names (lower_case (codes name))
      then throw reserved_branch_name_error_message
      else ok tt)
