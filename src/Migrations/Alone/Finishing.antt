-- ===== src/Migrations/Alone/Finishing.antt =====
-- Once all rows are copied, an undisturbed worker begins the swap and then swaps the tables.
use revisium_engine.Base.{
  ℕ, String, Bool, true, false, none, some, List, [], ◌∷◌, ◌≡◌, ◌≢◌, Eq-String, Eq-ℕ, ◌==◌, length,
  refl, sym, ◌∙◌, ap, arith, beq_refl, beq_ne, ◌&&◌, if◌then◌else◌, includes, not,
}
use revisium_engine.Base.Map
use revisium_engine.Migrations.{
  MigrationLease, TableMigration, Row, Database, MigrationStatus, MigrationPhase, done, is_value,
  is_copying, is_swapping, update_where, update_where-true, delete_where-true, >>=-done, failing,
  passing,
}
use revisium_engine.Migrations.Preserved.Swapping.{link_shadow_table-eq}
use revisium_engine.Migrations.Transitions.{begin_swap, lock_swap, complete_swap, swap_owned_by}
use revisium_engine.Migrations.Batches.{Toolkit}
use revisium_engine.Migrations.Swap.{
  SwapTerms, shadow_table_of, recheck, swap_locked, swap_within_transaction,
  ensure_revision_is_draft, ensure_draft_links_source, ensure_draft_schema_unchanged, ensure,
  count_of, ensure_shadow_complete, ensure_patches_give_target_schema, delete_swapped_record,
}
use revisium_engine.Migrations.Alone.{IsAgreeing, IsHeld, owns}

module _ {P J : Type 0} (kit : Toolkit P J) (terms : SwapTerms P) (lease : MigrationLease)
    (db : Database P J) (m : TableMigration P) (held : IsHeld lease db m) where
  abbrev pub swap_begun : ℕ → TableMigration P
  swap_begun now = record m {
    status = MigrationStatus.swapping;
    phase = MigrationPhase.swapping;
    last_progress_at = some now;
  }

  pub begin_swap-held :
      (now : ℕ)
      → m.status ≡ MigrationStatus.copying
      → m.copied_rows ≡ m.total_rows
      → begin_swap lease now db ≡ (record db { job = some (swap_begun now) }, true)
  unfolding begin_swap
  begin_swap-held now copying all =
      let complete : TableMigration P → Bool = λ t.
        t.id == lease.migration_id
        && is_copying t.status
        && is_value t.locked_by lease.token
        && t.copied_rows == t.total_rows in
      let swapping : TableMigration P → TableMigration P = λ t. record t {
        status = MigrationStatus.swapping;
        phase = MigrationPhase.swapping;
        last_progress_at = some now;
      } in
      let owned = owns kit terms lease db m held in
      let is_copied = ap is_copying copying in
      let passes : complete m ≡ true = ground arith in
      ap (λ j. update_where complete swapping j db) held.found
      ∙ update_where-true complete swapping m db passes

  links_source :
      (locked : Database P J) (shadow : String)
      → locked.linked ≡ m.source_table_version_id ∷ []
      → (m.source_table_version_id == shadow) ≡ false
      → (includes locked.linked m.source_table_version_id && not (includes locked.linked shadow))
        ≡ true
  links_source locked shadow linked apart =
      rw (linked, apart, beq_refl m.source_table_version_id) refl

  -- All checks of the swap pass.
  recheck-held :
      (locked : Database P J) (shadow : String) (copies : List (Row J))
      → IsAgreeing terms
      → m.shadow_table_version_id ≡ some shadow
      → shadow ≢ m.source_table_version_id
      → locked.is_draft ≡ true
      → locked.schema_hash ≡ some m.previous_schema_hash
      → locked.linked ≡ m.source_table_version_id ∷ []
      → Map.get locked.tables shadow ≡ some copies
      → length copies ≡ m.total_rows
      → recheck terms m locked ≡ done shadow
  unfolding recheck
  recheck-held locked shadow copies agreeing named other draft unchanged linked there complete =
      let apart = beq_ne m.source_table_version_id shadow (λ eq. other (sym eq)) in
      >>=-done (shadow_table_of m.shadow_table_version_id) _
        (ap shadow_table_of named
          ∙ ap
              (λ b.
                if b then failing (passing "Shadow table not set for migration") else done shadow)
              (held.nonblank shadow named))
        (>>=-done (ensure_revision_is_draft locked) _
          (ap (λ b. ensure b "REVISION_NOT_DRAFT") draft)
          (>>=-done (ensure_draft_links_source m shadow locked) _
            (ap (λ b. ensure b "SOURCE_TABLE_REPLACED") (links_source locked shadow linked apart))
            (>>=-done (ensure_draft_schema_unchanged m locked) _
              (ap (λ o. ensure (is_value o m.previous_schema_hash) "SCHEMA_CHANGED") unchanged
                ∙ ap (λ b. ensure b "SCHEMA_CHANGED") (beq_refl m.previous_schema_hash))
              (>>=-done (ensure_patches_give_target_schema terms m) _
                (ap (λ o. ensure (is_value o m.target_schema_hash) "SCHEMA_CHANGED")
                    (agreeing.target m)
                  ∙ ap (λ b. ensure b "SCHEMA_CHANGED") (beq_refl m.target_schema_hash))
                (>>=-done (ensure_shadow_complete m shadow locked) _
                  (ap (λ o. ensure (count_of o == m.total_rows) "ROW_COUNT_MISMATCH") there
                    ∙ ap (λ n. ensure (n == m.total_rows) "ROW_COUNT_MISMATCH") complete
                    ∙ ap (λ b. ensure b "ROW_COUNT_MISMATCH") (beq_refl m.total_rows))
                  (>>=-done (terms.ensure_ledger_free m) _ (agreeing.free m) refl))))))

  pub swap-held :
      (shadow : String) (copies : List (Row J)) (now : ℕ)
      → IsAgreeing terms
      → m.status ≡ MigrationStatus.swapping
      → m.shadow_table_version_id ≡ some shadow
      → shadow ≢ m.source_table_version_id
      → db.linked ≡ m.source_table_version_id ∷ []
      → Map.get db.tables shadow ≡ some copies
      → length copies ≡ m.total_rows
      → swap_within_transaction terms lease m now db
        ≡ done (record db { job = none; linked = shadow ∷ [] }, true)
  unfolding swap_within_transaction lock_swap complete_swap
  swap-held shadow copies now agreeing swapping named other linked there complete =
      let kept_alive : TableMigration P → TableMigration P =
        λ t. record t { heartbeat_at = some now } in
      let locked : Database P J = record db { job = some (kept_alive m) } in
      let owned = owns kit terms lease db m held in
      let is_swap = ap is_swapping swapping in
      let passes : swap_owned_by lease m ≡ true = ground arith in
      ap (λ j. swap_locked terms (update_where (swap_owned_by lease) kept_alive j db) lease m)
        held.found
      ∙ ap (λ p. swap_locked terms p lease m)
          (update_where-true (swap_owned_by lease) kept_alive m db passes)
      ∙ >>=-done (recheck terms m locked) _
          (recheck-held locked shadow copies agreeing named other held.draft held.unchanged linked
            there complete)
          (>>=-done (terms.record_schema_update m) _ (agreeing.recorded m) (
            >>=-done (terms.migrate_views m) _ (agreeing.migrated m) (
              ap (λ d. delete_swapped_record (complete_swap lease d))
                (link_shadow_table-eq m.source_table_version_id copies m shadow locked refl linked)
              ∙ ap delete_swapped_record (
                  delete_where-true (swap_owned_by lease) (kept_alive m)
                    (record locked { linked = shadow ∷ [] }) passes))))
