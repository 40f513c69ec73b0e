-- ===== src/Ids/Accepted.antt =====
-- What the validators of ids accept.
use revisium_engine.Base.{
  ℕ, String, true, none, List, [], ◌∷◌, ◌≡◌, ◌⊎◌, inl, inr, arith, Bool-cases,
}
use revisium_engine.Base.Result.{ok}
use revisium_engine.Ids.{
  codes, fits, starts_with, matches_table_id_pattern, matches_row_id_pattern, find_table_id_error,
  validate_json_field_name, validate_row_id, system_table_prefix,
}

row_of_table_pattern :
    (s : List ℕ) → matches_table_id_pattern s ≡ true → matches_row_id_pattern s ≡ true
unfolding matches_table_id_pattern matches_row_id_pattern
row_of_table_pattern [] h = ground arith
row_of_table_pattern (c ∷ s) h = ground arith

row_id_of_codes :
    (id : String)
    → fits (codes id) ≡ true
    → matches_table_id_pattern (codes id) ≡ true
    → validate_row_id id ≡ ok tt
unfolding validate_row_id
row_id_of_codes id f m = ground (arith, row_of_table_pattern (codes id) m)

-- Every id that is accepted as a table id, or as a field name, is accepted as a row id.
pub accepted-row_id :
    (id : String)
    → (find_table_id_error id ≡ none) ⊎ (validate_json_field_name id ≡ true)
    → validate_row_id id ≡ ok tt
unfolding find_table_id_error validate_json_field_name
accepted-row_id id (inl h) =
    row_id_of_codes id
      (ground (arith, Bool-cases (starts_with (codes system_table_prefix) (codes id))))
      (ground (arith, Bool-cases (starts_with (codes system_table_prefix) (codes id))))
accepted-row_id id (inr h) = row_id_of_codes id (ground arith) (ground arith)
