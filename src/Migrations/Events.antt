-- ===== src/Migrations/Events.antt =====
-- The workers of src/features/migration/services together: each reads the record of the job it
-- holds the lease of (`findOwned`) and acts on what it read later (`runStep`), while leases are
-- claimed, renewed, released and taken over, steps fail, and the job is aborted. An event is one
-- transaction, or one statement outside of a transaction; between any two, others may come.
use revisium_engine.Base.{ℕ, String, Bool, Option, none, some, List, [], ◌∷◌, Eq-String}
use revisium_engine.Base.Map
use revisium_engine.Base.Map.{Map}
use revisium_engine.Migrations.{
  MigrationLease, TableMigration, Database, Attempt, done, failing, passing, MigrationStatus,
}
use revisium_engine.Migrations.Transitions.{retry, fail, cancel}
use revisium_engine.Migrations.Leases.{
  find_owned, renew, release, claim_status, own_swap, fail_stalled_swap, cancel_stalled,
}
use revisium_engine.Migrations.Batches.{Toolkit}
use revisium_engine.Migrations.Swap.{SwapTerms}
use revisium_engine.Migrations.Steps.{StepResult, run_step}

-- the database, and the record that the worker of each token read last
pub record World (P J : Type 0) : Type 0 where
  pub database : Database P J
  pub observed : Map String (TableMigration P)

pub data Event (P : Type 0) : Type 0 where
  claim_of : MigrationStatus → MigrationLease → ℕ → ℕ → Event P
  own_swap_of : (TableMigration P → Bool) → MigrationLease → ℕ → Event P
  fail_swap_of : (TableMigration P → Bool) → ℕ → Event P
  read_of : MigrationLease → Event P
  act_of : String → String → ℕ → Event P
  retry_of : MigrationLease → Event P
  fail_of : MigrationLease → String → ℕ → Event P
  renew_of : MigrationLease → ℕ → Event P
  release_of : MigrationLease → Event P
  cancel_stalled_of : ℕ → ℕ → Event P
  abort : Event P

module _ {P J : Type 0} where
  -- `rejectUnabortable`, and then the cancellation
  abbrev pub abort_status :
      MigrationStatus → TableMigration P → Database P J → Attempt (Database P J)
  abort_status MigrationStatus.swapping m db =
      failing (passing "Cannot abort during swap phase, please wait for completion")
  abort_status MigrationStatus.completed m db = failing (passing "Migration already completed")
  abort_status MigrationStatus.cancelled m db = failing (passing "Migration already cancelled")
  abort_status _ m db = done ((cancel m db).0)

  abbrev pub abort_found : Option (TableMigration P) → Database P J → Attempt (Database P J)
  abort_found none db = done db
  abort_found (some m) db = abort_status m.status m db

  -- `abort` of abort-migration.handler.ts, one transaction
  unfoldable pub abort_migration : Database P J → Attempt (Database P J)
  abort_migration db = abort_found db.job db

  abbrev pub or_before : Attempt (Database P J) → Database P J → Database P J
  or_before (done db) before = db
  or_before (failing e) before = before

  abbrev pub observe : Option (TableMigration P) → String → World P J → World P J
  observe none token w = record w { observed = Map.delete w.observed token }
  observe (some m) token w = record w { observed = Map.set w.observed token m }

  abbrev pub database_of : Attempt (Database P J × StepResult) → Database P J → Database P J
  database_of (done (db, result)) before = db
  database_of (failing e) before = before

module _ {P J : Type 0} (kit : Toolkit P J) (terms : SwapTerms P) where
  abbrev pub act : Option (TableMigration P) → String → String → ℕ → Database P J → Database P J
  act none token fresh now db = db
  act (some m) token fresh now db =
      database_of
        (run_step kit terms (record { migration_id = m.id; token = token }) m fresh now db) db

  abbrev pub change : Event P → World P J → Database P J
  change (claim_of status lease timeout now) w =
      (claim_status status lease timeout now w.database).0
  change (own_swap_of owner lease now) w = (own_swap owner lease now w.database).0
  change (fail_swap_of owner now) w = (fail_stalled_swap owner now w.database).0
  change (read_of lease) w = w.database
  change (act_of token fresh now) w = act (Map.get w.observed token) token fresh now w.database
  change (retry_of lease) w = (retry lease w.database).0
  change (fail_of lease message now) w = (fail lease message now w.database).0
  change (renew_of lease now) w = (renew lease now w.database).0
  change (release_of lease) w = (release lease w.database).0
  change (cancel_stalled_of timeout now) w = (cancel_stalled timeout now w.database).0
  change abort w = or_before (abort_migration w.database) w.database

  unfoldable pub step : Event P → World P J → World P J
  step (read_of lease) w = observe (find_owned lease w.database) lease.token w
  step event w = record w { database = change event w }

  unfoldable pub run : List (Event P) → World P J → World P J
  unfolding step
  run [] w = w
  run (event ∷ events) w = run events (step event w)
