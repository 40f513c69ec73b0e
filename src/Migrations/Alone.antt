-- ===== src/Migrations/Alone.antt =====
-- A worker of src/features/migration/services that nobody disturbs brings its job to the end.
pub mod Copying
pub mod Finishing
pub mod Completed
use revisium_engine.Base.{
  ℕ, zero, suc, String, Bool, true, false, Option, none, some, List, [], ◌∷◌, ◌≡◌, Eq-String, ◌==◌,
  refl, sym, ◌∙◌, ap, arith, ◌<◌, ◌≤◌, ◌+◌, beq_refl, ◌&&◌, if◌then◌else◌,
}
use mathlib.Core.Path.{subst}
use revisium_engine.Migrations.{
  MigrationLease, TableMigration, Row, Database, Attempt, done, is_value,
}
use revisium_engine.Migrations.Leases.{find_owned, owned_in}
use revisium_engine.Migrations.Batches.{Toolkit}
use revisium_engine.Migrations.Swap.{SwapTerms}
use revisium_engine.Migrations.Steps.{
  StepResult, run_step, step_of_status, run_next_step, settle_step, next_step_of,
}

-- The patches, the hooks and the validation accept every row.
pub record IsAccepting {P J : Type 0} (kit : Toolkit P J) : Type 0 where
  pub patch :
      (patches : P) (rows : List (Row J))
      → (patched : String → Option J) × (kit.patched_rows patches rows ≡ done patched)
  pub hook :
      (rows : List (Row J)) → (content : Row J → J) × (kit.after_migrate_rows rows ≡ done content)
  pub valid : (rows : List (Row J)) → kit.validate_rows rows ≡ done tt

-- The patches give the target schema, and nothing outside refuses the swap.
pub record IsAgreeing {P : Type 0} (terms : SwapTerms P) : Type 0 where
  pub target : (m : TableMigration P) → terms.patched_schema_hash m ≡ some m.target_schema_hash
  pub free : (m : TableMigration P) → terms.ensure_ledger_free m ≡ done tt
  pub recorded : (m : TableMigration P) → terms.record_schema_update m ≡ done tt
  pub migrated : (m : TableMigration P) → terms.migrate_views m ≡ done tt

-- The worker holds the lease of the job, whose Draft is as it was when the job was created.
pub record IsHeld {P J : Type 0} (lease : MigrationLease) (db : Database P J) (m : TableMigration P)
    : Type 0 where
  pub found : db.job ≡ some m
  pub own_id : m.id ≡ lease.migration_id
  pub own : m.locked_by ≡ some lease.token
  pub draft : db.is_draft ≡ true
  pub unchanged : db.schema_hash ≡ some m.previous_schema_hash
  pub sized : 0 < m.batch_size
  pub nonblank :
      (shadow : String) → m.shadow_table_version_id ≡ some shadow → (shadow == "") ≡ false

module _ {P J : Type 0} (kit : Toolkit P J) (terms : SwapTerms P) (lease : MigrationLease)
    (db : Database P J) (m : TableMigration P) (held : IsHeld lease db m) where
  pub owns : (m.id == lease.migration_id && is_value m.locked_by lease.token) ≡ true
  owns = rw (held.own_id, held.own, beq_refl lease.migration_id, beq_refl lease.token) refl

  -- The next step is that of the status of the job.
  pub run_next_step-held :
      (fresh : String) (now : ℕ) (after : Database P J) (result : StepResult)
      → step_of_status kit terms m.status lease m fresh now db ≡ done (after, result)
      → run_next_step kit terms lease fresh now db ≡ (after, result)
  unfolding run_next_step find_owned run_step
  run_next_step-held fresh now after result h =
      ap (λ o. next_step_of kit terms o lease fresh now db)
        (ap (λ o. owned_in o lease) held.found ∙ ap (λ b. if b then some m else none) owns)
      ∙ ap (λ a. settle_step kit terms a lease now db) h
