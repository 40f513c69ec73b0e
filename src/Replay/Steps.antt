-- ===== src/Replay/Steps.antt =====
-- The steps of ledger-replay.ts: what each kind of migration does to the schemas.
use revisium_engine.Base.{
  ℕ, String, Option, none, some, List, [], ◌∷◌, ◌++◌, Eq-String, nat_eq, if◌then◌else◌,
}
use revisium_engine.Base.Map
use revisium_engine.Base.Exec.{update, lift, gets, ◌>>=◌, ◌>>◌}
use revisium_engine.Ledger.{Migration, JsonPatch}
use revisium_engine.Slots.{SlotStep}
use revisium_engine.Rules.{
  Toolkit, ensure_valid_field_names, ensure_recordable_change, patched_schema, patch_values,
}
use revisium_engine.Rules.Messages.{depends_on_unreplayable}
use revisium_engine.Replay.State.{
  LedgerReplay, CurrentTable, Replaying, own_step, referrer_rewrite, failure_of, is_tainted,
  is_tainted?, taint, set_schema, record_reads,
}
use revisium_engine.Replay.Checks.{
  table_ids_of, foreign_key_targets_of, referrers_of, existing_schema, ensure_valid_table_id,
  ensure_free, ensure_not_referenced, validate_schema, validate_patches, rewritten_after_rename,
}

module _ {S : Type 0} where
  pub find_tainted_target : LedgerReplay S → List String → Option String
  find_tainted_target r [] = none
  find_tainted_target r (target ∷ targets) =
      let rest = find_tainted_target r targets in
      if is_tainted? (Map.get r.table_slots.current target) r then some target else rest

  unfoldable pub taint_dependent : ℕ → Migration S → Option String → LedgerReplay S → LedgerReplay S
  taint_dependent k m none r = r
  taint_dependent k m (some id) r = taint k (failure_of m (depends_on_unreplayable id)) r

  unfoldable pub other_referrers : ℕ → List (CurrentTable S) → List (CurrentTable S)
  other_referrers k [] = []
  other_referrers k (t ∷ ts) =
      let rest = other_referrers k ts in if nat_eq t.slot k then rest else t ∷ rest

  find_tainted_table : LedgerReplay S → List (CurrentTable S) → Option String
  find_tainted_table r [] = none
  find_tainted_table r (t ∷ ts) =
      let rest = find_tainted_table r ts in if is_tainted t.slot r then some t.table_id else rest

  unfoldable pub taint_tables :
      Migration S → String → List (CurrentTable S) → LedgerReplay S → LedgerReplay S
  taint_tables m id [] r = r
  taint_tables m id (t ∷ ts) r =
      taint_tables m id ts (taint t.slot (failure_of m (depends_on_unreplayable id)) r)

  unfoldable pub taint_across_rename :
      Migration S → String → ℕ → List (CurrentTable S) → LedgerReplay S → LedgerReplay S
  unfolding other_referrers find_tainted_table taint_tables taint_dependent
  taint_across_rename m next renamed referrers r =
      let others = other_referrers renamed referrers in
      let unreplayable_referrer = find_tainted_table r others in
      let tainted = if is_tainted renamed r then taint_tables m next others r else r in
      taint_dependent renamed m unreplayable_referrer tainted

  unfoldable pub set_schemas : Migration S → List (CurrentTable S) → LedgerReplay S → LedgerReplay S
  set_schemas m [] r = r
  set_schemas m (t ∷ ts) r = set_schemas m ts (set_schema t.slot m referrer_rewrite t.schema r)

  module _ (toolkit : Toolkit S) where
    unfoldable pub taint_if_dependent :
        String → ℕ → Migration S → List S → LedgerReplay S → LedgerReplay S
    unfolding find_tainted_target taint_dependent
    taint_if_dependent id k m schemas r =
        let targets = foreign_key_targets_of toolkit id schemas in
        let r' = record_reads m targets r in taint_dependent k m (find_tainted_target r' targets) r'

    unfoldable pub create_table : Migration S → String → S → SlotStep → Replaying S (Unit {0})
    unfolding taint_if_dependent
    create_table m id schema step = do
      validate_schema toolkit m schema
      ensure_valid_table_id id
      ensure_free id step.displaced
      lift (ensure_valid_field_names toolkit (schema ∷ []))
      update (set_schema step.slot m own_step schema)
      update (taint_if_dependent id step.slot m (schema ∷ []))

    unfoldable pub update_table :
        Migration S → String → List (JsonPatch S) → ℕ → Replaying S (Unit {0})
    unfolding taint_if_dependent
    update_table m id patches slot = do
      validate_patches toolkit m patches
      existing ← existing_schema slot id
      schema ← lift (patched_schema toolkit existing patches)
      validate_schema toolkit m schema
      lift (ensure_recordable_change toolkit schema patches)
      update (set_schema slot m own_step schema)
      update (taint_if_dependent id slot m (patch_values patches ++ schema ∷ []))

    unfoldable pub rename_table : Migration S → String → String → SlotStep → Replaying S (Unit {0})
    unfolding taint_across_rename set_schemas other_referrers
    rename_table m id next step = do
      existing_schema step.slot id
      ensure_valid_table_id next
      ensure_free next step.displaced
      referrers ← gets (referrers_of toolkit id)
      update (record_reads m (table_ids_of (other_referrers step.slot referrers)))
      rewritten ← lift (rewritten_after_rename toolkit id next referrers)
      update (taint_across_rename m next step.slot rewritten)
      update (set_schemas m rewritten)

    unfoldable pub remove_table : Migration S → String → ℕ → Replaying S (Unit {0})
    remove_table m id slot = do existing_schema slot id; ensure_not_referenced toolkit m

    unfoldable pub apply_step : Migration S → SlotStep → Replaying S (Unit {0})
    unfolding create_table update_table rename_table remove_table
    apply_step (Migration.init i id schema) step =
        create_table (Migration.init i id schema) id schema step
    apply_step (Migration.update i id patches) step =
        update_table (Migration.update i id patches) id patches step.slot
    apply_step (Migration.rename i id next) step =
        rename_table (Migration.rename i id next) id next step
    apply_step (Migration.remove i id) step = remove_table (Migration.remove i id) id step.slot
