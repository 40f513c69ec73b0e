-- ===== src/Rules/Messages.antt =====
-- The texts of the errors: template literals, `join`, and a number printed in decimal.
use Prim.Native.Nat.{ℕ, zero, suc, ◌/◌, ◌%◌}
use Prim.Native.String.{String, ◌++◌}
use mathlib.Core.List.{List, [], ◌∷◌, map}
use mathlib.Core.Option.{none, some}
use revisium_engine.Base.{length, if◌then◌else◌, ltb, get_elem?}

abbrev digits : List String
digits = "0" ∷ "1" ∷ "2" ∷ "3" ∷ "4" ∷ "5" ∷ "6" ∷ "7" ∷ "8" ∷ "9" ∷ []

digit : ℕ → String
digit n = elim (get_elem? digits n) [ none ↦ "" | some d ↦ d ]

show_loop : ℕ → ℕ → String
unfolding digit
show_loop zero n = digit (n % 10)
show_loop (suc fuel) n =
    let front = show_loop fuel (n / 10) in if ltb n 10 then digit n else front ++ digit (n % 10)

-- A number has fewer digits than its value, so that the fuel is enough.
show : ℕ → String
unfolding show_loop
show n = show_loop n n

unfoldable pub join : String → List String → String
join separator [] = ""
join separator (x ∷ []) = x
join separator (x ∷ y ∷ rest) = x ++ separator ++ join separator (y ∷ rest)

unfoldable pub quoted : String → String
quoted text = "\"" ++ text ++ "\""

pub table_missing : String → String
unfolding quoted
table_missing id = "Table " ++ quoted id ++ " does not exist"

pub table_exists : String → String
unfolding quoted
table_exists id = "Table " ++ quoted id ++ " already exists"

pub target_missing : String → String
unfolding quoted
target_missing id = "Foreign key target " ++ quoted id ++ " does not exist"

unfoldable pub table_referenced : String → List String → String
unfolding quoted join
table_referenced id ids =
    "Table " ++ quoted id ++ " is referenced by " ++ join ", " (map quoted ids)

pub depends_on_unreplayable : String → String
unfolding quoted
depends_on_unreplayable id = "Depends on unreplayable table " ++ quoted id

pub record FormulaErrorDetail : Type 0 where
  pub field : String
  pub error : String

pub format_formula_validation_message : List FormulaErrorDetail → String
unfolding quoted show
format_formula_validation_message [] = "Formula validation failed"
format_formula_validation_message (first ∷ []) =
    "Formula validation error in field " ++ quoted first.field ++ ": " ++ first.error
format_formula_validation_message (a ∷ b ∷ rest) =
    "Formula validation failed with " ++ show (length (a ∷ b ∷ rest)) ++ " errors"

pub url_like_id_error_message : String
url_like_id_error_message =
    "It must contain between 1 and 64 characters, start with a letter or underscore (_), cannot start with two underscores (__), and can only include letters (a-z, A-Z), numbers (0-9), hyphens (-), and underscores (_)."

pub invalid_field_names_message : List String → String
unfolding join url_like_id_error_message
invalid_field_names_message names =
    "Invalid field names: " ++ join ", " names ++ ". " ++ url_like_id_error_message
