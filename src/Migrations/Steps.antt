-- ===== src/Migrations/Steps.antt =====
-- src/features/migration/services/migration.service.ts: the steps of a worker that holds the lease,
-- its run until the steps end, and its runs until the job is settled. A transaction that throws
-- leaves the database as it was. The heartbeat, the list of held leases and the log are left out.
use revisium_engine.Base.{
  ℕ, zero, suc, String, Bool, true, false, Option, none, some, List, [], length, ltb, ◌+◌,
  Eq-String, if◌then◌else◌,
}
use revisium_engine.Base.Map
use revisium_engine.Migrations.{
  MigrationLease, TableMigration, Row, Database, Attempt, done, failing, StepError, permanent,
  passing, ◌>>=◌, MigrationStatus,
}
use revisium_engine.Migrations.Transitions.{begin_copy, begin_swap, fail}
use revisium_engine.Migrations.Transitions.{retry as retry_job}
use revisium_engine.Migrations.Leases.{find_owned, release, claim}
use revisium_engine.Migrations.Batches.{
  Toolkit, load_batch_rows, last_row, migrate_and_process_batch, write_batch,
}
use revisium_engine.Migrations.Swap.{SwapTerms, shadow_table_of, swap_within_transaction}

pub data StepResult : Type 0 where
  continue completed failed stopped retry : StepResult

abbrev pub rows_of {ℓ} : {A : Type ℓ} → Option (List A) → List A
rows_of none = []
rows_of (some rows) = rows

module _ {P J : Type 0} where
  -- whether a guarded write was made decides how a step goes on
  abbrev pub continues_with :
      StepResult → Attempt (Database P J × Bool) → Attempt (Database P J × StepResult)
  continues_with result (failing e) = failing e
  continues_with result (done (db, true)) = done (db, result)
  continues_with result (done (db, false)) = done (db, stopped)

module _ {P J : Type 0} (kit : Toolkit P J) (terms : SwapTerms P) where
  -- the part of `copyNextBatch` after the rows are read
  abbrev pub copy_rows :
      Option (Row J)
      → List (Row J)
      → MigrationLease
      → TableMigration P
      → String
      → ℕ
      → Database P J
      → Attempt (Database P J × StepResult)
  copy_rows none rows lease migration shadow now db = failing (passing "Row count mismatch")
  copy_rows (some last) rows lease migration shadow now db =
      migrate_and_process_batch kit rows migration.patches >>= λ migrated.
      kit.validate_rows migrated >>= λ _. continues_with continue (
        write_batch kit lease migration shadow
          (record {
            copied_rows = migration.copied_rows + length rows;
            last_copied_row_id = some last.id;
          })
          migrated now db)

  unfoldable pub copy_next_batch :
      MigrationLease → TableMigration P → ℕ → Database P J → Attempt (Database P J × StepResult)
  copy_next_batch lease migration now db =
      shadow_table_of migration.shadow_table_version_id >>= λ shadow.
      let rows =
        load_batch_rows kit (rows_of (Map.get db.tables migration.source_table_version_id))
          migration.last_copied_row_id migration.batch_size in
      copy_rows (last_row rows) rows lease migration shadow now db

  abbrev pub step_of_status :
      MigrationStatus
      → MigrationLease
      → TableMigration P
      → String
      → ℕ
      → Database P J
      → Attempt (Database P J × StepResult)
  step_of_status MigrationStatus.pending lease migration fresh now db =
      continues_with continue (begin_copy lease migration fresh now db)
  step_of_status MigrationStatus.copying lease migration fresh now db =
      if ltb migration.copied_rows migration.total_rows
      then copy_next_batch lease migration now db
      else continues_with continue (done (begin_swap lease now db))
  step_of_status MigrationStatus.swapping lease migration fresh now db =
      continues_with completed (swap_within_transaction terms lease migration now db)
  step_of_status _ lease migration fresh now db = done (db, stopped)

  -- `runStep` for the record that was read
  unfoldable pub run_step :
      MigrationLease
      → TableMigration P
      → String
      → ℕ
      → Database P J
      → Attempt (Database P J × StepResult)
  run_step lease migration fresh now db =
      step_of_status migration.status lease migration fresh now db

  -- `failMigration`
  abbrev pub fail_migration : MigrationLease → String → ℕ → Database P J → Database P J × StepResult
  fail_migration lease message now db =
      let (after, written) = fail lease message now db in
      (after, (if written then StepResult.failed else stopped))

  abbrev retried : Database P J × Bool → MigrationLease → String → ℕ → Database P J × StepResult
  retried (db, true) lease message now = (db, StepResult.retry)
  retried (db, false) lease message now = fail_migration lease message now db

  unfoldable pub handle_step_failure :
      MigrationLease → StepError → ℕ → Database P J → Database P J × StepResult
  handle_step_failure lease (permanent message) now db = fail_migration lease message now db
  handle_step_failure lease (passing message) now db =
      retried (retry_job lease db) lease message now

  abbrev pub settle_step :
      Attempt (Database P J × StepResult)
      → MigrationLease
      → ℕ
      → Database P J
      → Database P J × StepResult
  settle_step (done result) lease now db = result
  settle_step (failing e) lease now db = handle_step_failure lease e now db

  abbrev pub next_step_of :
      Option (TableMigration P)
      → MigrationLease
      → String
      → ℕ
      → Database P J
      → Database P J × StepResult
  next_step_of none lease fresh now db = (db, stopped)
  next_step_of (some migration) lease fresh now db =
      settle_step (run_step lease migration fresh now db) lease now db

  unfoldable pub run_next_step :
      MigrationLease → String → ℕ → Database P J → Database P J × StepResult
  run_next_step lease fresh now db = next_step_of (find_owned lease db) lease fresh now db

module _ {P J : Type 0} (kit : Toolkit P J) (terms : SwapTerms P) (fresh : ℕ → String)
    (clock : ℕ → ℕ) where
  -- `runSteps`, on fuel; the step with `fuel` left sees the new id and the time of that number
  unfoldable pub run_steps : ℕ → MigrationLease → Database P J → Option (Database P J × StepResult)
  run_steps zero lease db = none
  run_steps (suc fuel) lease db =
      let (after, result) = run_next_step kit terms lease (fresh fuel) (clock fuel) db in
      elim result [ StepResult.continue ↦ run_steps fuel lease after | other ↦ some (after, other) ]

  abbrev pub released_after :
      MigrationLease → Option (Database P J × StepResult) → Option (Database P J × StepResult)
  released_after lease none = none
  released_after lease (some (db, result)) = some ((release lease db).0, result)

  -- `runClaimedMigration`
  unfoldable pub run_claimed_migration :
      ℕ → MigrationLease → Database P J → Option (Database P J × StepResult)
  run_claimed_migration fuel lease db = released_after lease (run_steps fuel lease db)

module _ {P J : Type 0} (kit : Toolkit P J) (terms : SwapTerms P) (fresh tokens : ℕ → String)
    (clock : ℕ → ℕ) (lock_timeout steps : ℕ) where
  -- `claim` of the job with a new token
  abbrev pub claim_next : String → ℕ → Database P J → Database P J × Option MigrationLease
  claim_next migration_id claims db =
      claim (record { migration_id = migration_id; token = tokens claims }) lock_timeout
        (clock claims) db

  -- `runUntilSettled`, on fuel for the claims; every claimed run has `steps` steps
  unfoldable pub run_until_settled :
      ℕ → Database P J × Option MigrationLease → Option (Database P J × StepResult)
  run_until_settled zero claimed = none
  run_until_settled (suc claims) (db, none) = some (db, stopped)
  run_until_settled (suc claims) (db, some lease) =
      elim (run_claimed_migration kit terms fresh clock steps lease db) [
        | none ↦ none
        | some r ↦ elim r.1 [
          | StepResult.retry ↦ run_until_settled claims (claim_next lease.migration_id claims r.0)
          | _ ↦ some r
        ]
      ]

  -- `processMigration`
  unfoldable pub process_migration : ℕ → String → Database P J → Option (Database P J × StepResult)
  process_migration claims migration_id db =
      run_until_settled claims (claim_next migration_id claims db)
