-- ===== src/Replay/Checks.antt =====
-- The methods of ledger-replay.ts that throw: they change nothing but the list of reads.
use revisium_engine.Base.{
  ℕ, String, Bool, not, Option, none, some, List, [], ◌∷◌, ◌++◌, Eq-String, ◌==◌, is_some, filter,
  includes, add_all, if◌then◌else◌,
}
use revisium_engine.Base.Map
use revisium_engine.Base.Result.{Result, ok, throw}
use revisium_engine.Base.Result
use revisium_engine.Base.Exec.{pure, lift, ◌>>◌}
use revisium_engine.Ledger.{Migration, JsonPatch, table_id}
use revisium_engine.Ids.{find_table_id_error}
use revisium_engine.Rules.{
  Toolkit, foreign_keys_of, ensure_valid_patches, ensure_valid_schema, renamed_foreign_keys,
  patch_values,
}
use revisium_engine.Rules.Messages.{
  table_missing, table_exists, target_missing, table_referenced, depends_on_unreplayable,
}
use revisium_engine.Replay.State.{
  LedgerReplay, CurrentTable, Replaying, schema_of, is_tainted, record_reads, current_tables,
}

unfoldable pub table_ids_of : {S : Type 0} → List (CurrentTable S) → List String
table_ids_of [] = []
table_ids_of (t ∷ ts) = t.table_id ∷ table_ids_of ts

-- `throw new Error(message)` where there is a message
abbrev throw_some : Option String → Result (Unit {0})
throw_some none = ok tt
throw_some (some message) = throw message

module _ {S : Type 0} where
  unfoldable pub existing_schema : ℕ → String → Replaying S S
  existing_schema k id r = elim (schema_of k r) [
    | none ↦ (throw (table_missing id), r)
    | some schema ↦ (ok schema, r)
  ]

  unfoldable pub ensure_valid_table_id : String → Replaying S (Unit {0})
  ensure_valid_table_id id = lift (throw_some (find_table_id_error id))

  unfoldable pub ensure_free : String → Option ℕ → Replaying S (Unit {0})
  ensure_free id none r = (ok tt, r)
  ensure_free id (some k) r =
      if is_tainted k r
      then (throw (depends_on_unreplayable id), r)
      else (throw (table_exists id), r)

  -- the targets with no current slot
  unfoldable pub missing_of : LedgerReplay S → List String → List String
  missing_of r = filter (λ target. not (is_some (Map.get r.table_slots.current target)))

  unfoldable pub refuse_missing : Migration S → List String → Replaying S (Unit {0})
  refuse_missing m [] r = (ok tt, r)
  refuse_missing m (first ∷ rest) r =
      (throw (target_missing first), record_reads m (first ∷ rest) r)

  unfoldable pub refuse_referenced : String → List String → Replaying S (Unit {0})
  refuse_referenced id [] r = (ok tt, r)
  refuse_referenced id (first ∷ rest) r = (throw (table_referenced id (first ∷ rest)), r)

module _ {S : Type 0} (toolkit : Toolkit S) where
  abbrev all_foreign_keys : List S → List String
  all_foreign_keys [] = []
  all_foreign_keys (s ∷ ss) = foreign_keys_of toolkit s ++ all_foreign_keys ss

  unfoldable pub foreign_key_targets_of : String → List S → List String
  foreign_key_targets_of id schemas =
      add_all [] (filter (λ target. not (target == id)) (all_foreign_keys schemas))

  unfoldable pub references : S → String → Bool
  references schema id = includes (foreign_keys_of toolkit schema) id

  unfoldable pub keep_referrers : String → List (CurrentTable S) → List (CurrentTable S)
  unfolding references
  keep_referrers id [] = []
  keep_referrers id (t ∷ ts) =
      let rest = keep_referrers id ts in if references t.schema id then t ∷ rest else rest

  unfoldable pub referrers_of : String → LedgerReplay S → List (CurrentTable S)
  unfolding keep_referrers current_tables
  referrers_of id r = keep_referrers id (current_tables r)

  unfoldable pub ensure_referenced_tables_exist : Migration S → S → Replaying S (Unit {0})
  unfolding foreign_key_targets_of missing_of refuse_missing
  ensure_referenced_tables_exist m schema r =
      refuse_missing m (missing_of r (foreign_key_targets_of (table_id m) (schema ∷ []))) r

  unfoldable pub ensure_not_referenced : Migration S → Replaying S (Unit {0})
  unfolding referrers_of refuse_referenced table_ids_of
  ensure_not_referenced m r =
      let referrer_ids = table_ids_of (referrers_of (table_id m) r) in
      refuse_referenced (table_id m) referrer_ids (record_reads m referrer_ids r)

  unfoldable pub validate_schema : Migration S → S → Replaying S (Unit {0})
  validate_schema m schema = do
    ensure_referenced_tables_exist m schema
    lift (ensure_valid_schema toolkit schema)

  unfoldable pub validate_schemas : Migration S → List S → Replaying S (Unit {0})
  unfolding validate_schema
  validate_schemas m [] = pure tt
  validate_schemas m (schema ∷ schemas) = do validate_schema m schema; validate_schemas m schemas

  unfoldable pub validate_patches : Migration S → List (JsonPatch S) → Replaying S (Unit {0})
  unfolding validate_schemas
  validate_patches m patches = do
    lift (ensure_valid_patches toolkit patches)
    validate_schemas m (patch_values patches)

  unfoldable pub rewritten_after_rename :
      String → String → List (CurrentTable S) → Result (List (CurrentTable S))
  rewritten_after_rename id next [] = ok []
  rewritten_after_rename id next (t ∷ ts) =
      Result.◌>>=◌ (renamed_foreign_keys toolkit t.schema id next) λ schema.
        Result.◌>>=◌ (rewritten_after_rename id next ts)
          λ rest. ok (record t { schema = schema } ∷ rest)
