-- ===== src/Rules.antt =====
-- src/features/share/ledger-replay/native-schema-rules.ts: the checks of schemas and patches that a
-- replay makes, over the functions of @revisium/schema-toolkit and the validator that it is given.
pub mod Messages
pub mod Renaming
use Prim.Native.String.{◌++◌}
use mathlib.Core.List
use revisium_engine.Base.{String, Bool, true, false, Option, none, some, List, [], ◌∷◌, map}
use revisium_engine.Base.Result.{Result, ok, throw, ◌>>=◌, ◌>>◌}
use revisium_engine.Ledger.{JsonPatch}
use revisium_engine.Rules.Messages.{
  FormulaErrorDetail, format_formula_validation_message, invalid_field_names_message, join,
}

-- `errors` is empty where the validator leaves it out.
pub record ValidationOutcome : Type 0 where
  pub result : Bool
  pub errors : List (String × Option String)

-- What @revisium/schema-toolkit and the validator compute: no code of this repository.
pub record Toolkit (S : Type 0) : Type 0 where
  pub foreign_keys : S → List String
  pub foreign_key_patches : S → String → String → List (JsonPatch S)
  pub apply_patches : S → List (JsonPatch S) → Result S
  pub formula_errors : S → Option (List FormulaErrorDetail)
  pub invalid_field_names : S → List String
  pub validate_meta_schema : S → ValidationOutcome
  pub validate_json_patch_schema : List (JsonPatch S) → ValidationOutcome

error_detail : String × Option String → String
error_detail (path, none) = path ++ " <no message>"
error_detail (path, some message) = path ++ " " ++ message

details_of : ValidationOutcome → String
unfolding error_detail join
details_of outcome = join "; " (map error_detail outcome.errors)

abbrev guard : Bool → String → Result (Unit {0})
guard true e = ok tt
guard false e = throw e

patch_value : {S : Type 0} → JsonPatch S → List S
patch_value (JsonPatch.add path v) = v ∷ []
patch_value (JsonPatch.replace path v) = v ∷ []
patch_value (JsonPatch.move from to) = []
patch_value (JsonPatch.remove path) = []

unfoldable pub patch_values : {S : Type 0} → List (JsonPatch S) → List S
unfolding patch_value
patch_values [] = []
patch_values (p ∷ ps) = List.◌++◌ (patch_value p) (patch_values ps)

module _ {S : Type 0} (toolkit : Toolkit S) where
  open toolkit use {
    foreign_keys, foreign_key_patches, apply_patches, formula_errors, invalid_field_names,
    validate_meta_schema, validate_json_patch_schema,
  }

  unfoldable pub foreign_keys_of : S → List String
  foreign_keys_of schema = foreign_keys schema

  unfoldable pub patched_schema : S → List (JsonPatch S) → Result S
  patched_schema schema patches = apply_patches schema patches

  check_field_names : List String → Result (Unit {0})
  check_field_names [] = ok tt
  check_field_names (name ∷ names) = throw (invalid_field_names_message (name ∷ names))

  unfoldable pub ensure_valid_field_names : List S → Result (Unit {0})
  unfolding check_field_names
  ensure_valid_field_names [] = ok tt
  ensure_valid_field_names (schema ∷ schemas) =
      check_field_names (invalid_field_names schema) >> ensure_valid_field_names schemas

  unfoldable pub ensure_recordable_change : S → List (JsonPatch S) → Result (Unit {0})
  unfolding ensure_valid_field_names
  ensure_recordable_change schema patches = do
    guard (validate_meta_schema schema).result "data is not valid"
    guard (validate_json_patch_schema patches).result "patches is not valid"
    ensure_valid_field_names (patch_values patches)

  unfoldable pub renamed_foreign_keys : S → String → String → Result S
  unfolding patched_schema ensure_recordable_change
  renamed_foreign_keys schema table next = do
    let patches = foreign_key_patches schema table next
    renamed ← patched_schema schema patches
    ensure_recordable_change renamed patches
    ok renamed

  unfoldable pub ensure_valid_patches : List (JsonPatch S) → Result (Unit {0})
  unfolding details_of
  ensure_valid_patches [] = throw "Invalid length of patches"
  ensure_valid_patches (p ∷ ps) =
      let outcome = validate_json_patch_schema (p ∷ ps) in
      guard outcome.result ("patches is not valid: " ++ details_of outcome)

  check_formulas : Option (List FormulaErrorDetail) → Result (Unit {0})
  check_formulas none = ok tt
  check_formulas (some errors) = throw (format_formula_validation_message errors)

  unfoldable pub ensure_valid_schema : S → Result (Unit {0})
  unfolding details_of check_formulas
  ensure_valid_schema schema = do
    let outcome = validate_meta_schema schema
    guard outcome.result ("schema is not valid: " ++ details_of outcome)
    check_formulas (formula_errors schema)
