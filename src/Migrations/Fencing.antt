-- ===== src/Migrations/Fencing.antt =====
-- A worker of src/features/migration/services that lost its lease is fenced off: every write of it is
-- guarded by the token that locks the job.
use revisium_engine.Base.{
  ℕ, String, Bool, true, false, Option, none, some, List, ◌≡◌, Eq-String, Eq-ℕ, ◌==◌, refl, sym,
  ◌∙◌, ap, inl, inr, arith, Bool-cases, ltb, if◌then◌else◌, eq_of_beq,
}
use mathlib.Core.Path.{subst}
use revisium_engine.Base.Map
use revisium_engine.Migrations.{
  MigrationLease, TableMigration, Row, Database, MigrationStatus, done, is_value, update_many,
  update_where-false, done_inj, >>=-eq-done, update_where,
}
use revisium_engine.Migrations.Preserved.{database_of-keeps, continues_with-eq-done}
use revisium_engine.Migrations.Transitions.{
  begin_copy, begin_swap, advance_checkpoint, retry, fail, commit_copy, lock_swap, or_value,
  MigrationCheckpoint,
}
use revisium_engine.Migrations.Leases.{renew, release}
use revisium_engine.Migrations.Batches.{
  Toolkit, write_batch, commit_batch, migrate_and_process_batch,
}
use revisium_engine.Migrations.Swap.{
  SwapTerms, swap_within_transaction, swap_locked, shadow_table_of,
}
use revisium_engine.Migrations.Steps.{
  StepResult, continues_with, copy_rows, copy_next_batch, step_of_status, run_step,
}
use revisium_engine.Migrations.Events.{World, Event, database_of, act, step}

-- the events that a worker makes with the token of its lease; a read changes nothing anyway
abbrev pub is_write_of : {P : Type 0} → Event P → String → Bool
is_write_of (Event.act_of token fresh now) of = token == of
is_write_of (Event.retry_of lease) of = lease.token == of
is_write_of (Event.fail_of lease message now) of = lease.token == of
is_write_of (Event.renew_of lease now) of = lease.token == of
is_write_of (Event.release_of lease) of = lease.token == of
is_write_of _ of = false

module _ {P J : Type 0} (db : Database P J) (m : TableMigration P) (found : db.job ≡ some m) where
  -- An update whose test fails for the record of the job writes nothing.
  update_many-refused :
      (test : TableMigration P → Bool) (change : TableMigration P → TableMigration P)
      → test m ≡ false
      → update_many test change db ≡ (db, false)
  update_many-refused test change h =
      ap (λ job. update_where test change job db) found ∙ update_where-false test change m db h

module _ {P J : Type 0} (db : Database P J) (m : TableMigration P) (found : db.job ≡ some m)
    (lease : MigrationLease) (lost : is_value m.locked_by lease.token ≡ false) where
  begin_copy-refused :
      (migration : TableMigration P) (fresh : String) (now : ℕ)
      → begin_copy lease migration fresh now db ≡ done (db, false)
  unfolding begin_copy
  begin_copy-refused migration fresh now =
      ap (λ p. commit_copy p migration (or_value migration.shadow_table_version_id fresh))
        (update_many-refused db m found _ _ (ground (arith, lost)))

  begin_swap-refused : (now : ℕ) → begin_swap lease now db ≡ (db, false)
  unfolding begin_swap
  begin_swap-refused now = update_many-refused db m found _ _ (ground (arith, lost))

  swap-refused :
      (terms : SwapTerms P) (migration : TableMigration P) (now : ℕ)
      → swap_within_transaction terms lease migration now db ≡ done (db, false)
  unfolding swap_within_transaction lock_swap
  swap-refused terms migration now =
      ap (λ p. swap_locked terms p lease migration)
        (update_many-refused db m found _ _ (ground (arith, lost)))

  write_batch-refused :
      (kit : Toolkit P J) (migration : TableMigration P) (shadow : String)
      (to : MigrationCheckpoint) (rows : List (Row J)) (now : ℕ)
      → write_batch kit lease migration shadow to rows now db ≡ done (db, false)
  unfolding write_batch advance_checkpoint
  write_batch-refused kit migration shadow to rows now =
      ap (λ p. commit_batch kit p migration shadow rows now)
        (update_many-refused db m found _ _ (ground (arith, lost)))

module _ {P J : Type 0} (kit : Toolkit P J) (terms : SwapTerms P) (db : Database P J)
    (m : TableMigration P) (found : db.job ≡ some m) (lease : MigrationLease)
    (lost : is_value m.locked_by lease.token ≡ false) where
  copy_rows-refused :
      (end : Option (Row J)) (rows : List (Row J)) (migration : TableMigration P) (shadow : String)
      (now : ℕ) (after : Database P J) (result : StepResult)
      → copy_rows kit terms end rows lease migration shadow now db ≡ done (after, result)
      → after ≡ db
  copy_rows-refused none rows migration shadow now after result h = cc
  copy_rows-refused (some last) rows migration shadow now after result h =
      let (migrated, as_migrated, validated) =
        >>=-eq-done (migrate_and_process_batch kit rows migration.patches) _ h in
      let (valid, as_valid, continued) = >>=-eq-done (kit.validate_rows migrated) _ validated in
      let (written, as_written) =
        continues_with-eq-done StepResult.continue _ after result continued in
      ap (λ p. p.0)
        (done_inj (
          sym as_written
          ∙ write_batch-refused db m found lease lost kit migration shadow _ migrated now))

  copy_next_batch-refused :
      (migration : TableMigration P) (now : ℕ)
      → database_of (copy_next_batch kit terms lease migration now db) db ≡ db
  unfolding copy_next_batch
  copy_next_batch-refused migration now =
      database_of-keeps (λ after. after ≡ db) (copy_next_batch kit terms lease migration now db) db
        refl
        λ after result h.
          let (shadow, as_shadow, copied) =
            >>=-eq-done (shadow_table_of migration.shadow_table_version_id) _ h in
          copy_rows-refused _ _ migration shadow now after result copied

  step_of_status-refused :
      (status : MigrationStatus) (migration : TableMigration P) (fresh : String) (now : ℕ)
      → database_of (step_of_status kit terms status lease migration fresh now db) db ≡ db
  step_of_status-refused MigrationStatus.pending migration fresh now =
      ap (λ a. database_of (continues_with StepResult.continue a) db)
        (begin_copy-refused db m found lease lost migration fresh now)
  step_of_status-refused MigrationStatus.copying migration fresh now =
      elim (Bool-cases (ltb migration.copied_rows migration.total_rows)) [
        | inl more ↦
            ap
              (λ b.
                database_of
                  (if b
                    then copy_next_batch kit terms lease migration now db
                    else continues_with StepResult.continue (done (begin_swap lease now db)))
                  db)
              more
            ∙ copy_next_batch-refused migration now
        | inr all ↦
            ap
              (λ b.
                database_of
                  (if b
                    then copy_next_batch kit terms lease migration now db
                    else continues_with StepResult.continue (done (begin_swap lease now db)))
                  db)
              all
            ∙ ap (λ p. database_of (continues_with StepResult.continue (done p)) db)
                (begin_swap-refused db m found lease lost now)
      ]
  step_of_status-refused MigrationStatus.swapping migration fresh now =
      ap (λ a. database_of (continues_with StepResult.completed a) db)
        (swap-refused db m found lease lost terms migration now)
  step_of_status-refused _ migration fresh now = refl

module _ {P J : Type 0} (kit : Toolkit P J) (terms : SwapTerms P) (w : World P J)
    (m : TableMigration P) (found : w.database.job ≡ some m) (token : String)
    (lost : is_value m.locked_by token ≡ false) where
  act-refused :
      (read : Option (TableMigration P)) (fresh : String) (now : ℕ)
      → act kit terms read token fresh now w.database ≡ w.database
  unfolding run_step
  act-refused none fresh now = refl
  act-refused (some migration) fresh now =
      step_of_status-refused kit terms w.database m found
        (record { migration_id = migration.id; token = token }) lost migration.status migration
        fresh now

  lost_at : (other : String) → (other == token) ≡ true → is_value m.locked_by other ≡ false
  lost_at other same =
      subst (λ t. is_value m.locked_by t ≡ false) (sym (eq_of_beq other token same)) lost

  -- A worker whose token no longer locks the job writes nothing: no step on whatever it read before,
  -- no retry, no failure, no renewal and no release of it changes the database.
  pub step-fenced :
      (event : Event P)
      → is_write_of event token ≡ true
      → (step kit terms event w).database ≡ w.database
  unfolding step retry fail renew release
  step-fenced (Event.act_of other fresh now) h =
      subst (λ t. act kit terms (Map.get w.observed t) t fresh now w.database ≡ w.database)
        (sym (eq_of_beq other token h)) (act-refused (Map.get w.observed token) fresh now)
  step-fenced (Event.retry_of lease) h =
      ap (λ p. p.0)
        (update_many-refused w.database m found _ _ (ground (arith, lost_at lease.token h)))
  step-fenced (Event.fail_of lease message now) h =
      ap (λ p. p.0)
        (update_many-refused w.database m found _ _ (ground (arith, lost_at lease.token h)))
  step-fenced (Event.renew_of lease now) h =
      ap (λ p. p.0)
        (update_many-refused w.database m found _ _ (ground (arith, lost_at lease.token h)))
  step-fenced (Event.release_of lease) h =
      ap (λ p. p.0)
        (update_many-refused w.database m found _ _ (ground (arith, lost_at lease.token h)))
  step-fenced (Event.claim_of status lease timeout now) h = cc
  step-fenced (Event.own_swap_of owner lease now) h = cc
  step-fenced (Event.fail_swap_of owner now) h = cc
  step-fenced (Event.read_of lease) h = cc
  step-fenced (Event.cancel_stalled_of timeout now) h = cc
  step-fenced Event.abort h = cc
