-- ===== src/Migrations/Transitions.antt =====
-- src/features/migration/services/migration-transitions.ts: the changes of the job's record that a
-- holder of its lease makes, and the cancellation of the job.
use revisium_engine.Base.{
  ℕ, String, Bool, true, false, Option, none, some, [], Eq-String, Eq-ℕ, ◌==◌, ◌+◌, ltb, ◌&&◌,
  is_some, includes, if◌then◌else◌,
}
use revisium_engine.Base.Map
use revisium_engine.Migrations.{
  MigrationLease, TableMigration, Database, Attempt, done, failing, passing, MigrationStatus,
  MigrationPhase, is_pending, is_copying, is_swapping, is_active_migration_status, is_cancellable,
  is_value, same_value, released, update_many, delete_many, failed,
}

pub record MigrationCheckpoint : Type 0 where
  pub copied_rows : ℕ
  pub last_copied_row_id : Option String

abbrev pub or_value {ℓ} : {A : Type ℓ} → Option A → A → A
or_value none a = a
or_value (some a) other = a

module _ {P : Type 0} where
  -- `activeOwnedBy`
  abbrev pub active_owned_by : MigrationLease → TableMigration P → Bool
  active_owned_by lease m =
      m.id == lease.migration_id
      && is_active_migration_status m.status
      && is_value m.locked_by lease.token

  -- `swapOwnedBy`
  abbrev pub swap_owned_by : MigrationLease → TableMigration P → Bool
  swap_owned_by lease m =
      m.id == lease.migration_id && is_swapping m.status && is_value m.locked_by lease.token

  -- the `data` with which `beginCopy` updates the record
  abbrev pub copying_into : TableMigration P → String → ℕ → TableMigration P → TableMigration P
  copying_into migration version_id now m = record m {
    status = MigrationStatus.copying;
    phase = MigrationPhase.copying;
    started_at = some (or_value migration.started_at now);
    last_progress_at = some now;
    shadow_table_version_id = some version_id;
  }

module _ {P J : Type 0} where
  -- `createShadowTable`: a version that exists already, or a source that does not, is an error.
  abbrev pub create_shadow_table : TableMigration P → String → Database P J → Attempt (Database P J)
  create_shadow_table migration version_id db =
      if is_some (Map.get db.tables migration.source_table_version_id)
      then if is_some (Map.get db.tables version_id)
        then failing (passing "Unique constraint failed on the fields: (`versionId`)")
        else done (record db { tables = Map.set db.tables version_id [] })
      else failing (passing "No Table found")

  abbrev pub create_unless :
      Option String → TableMigration P → String → Database P J → Attempt (Database P J)
  create_unless (some version) migration version_id db =
      if version == "" then create_shadow_table migration version_id db else done db
  create_unless none migration version_id db = create_shadow_table migration version_id db

  abbrev pub commit_copy :
      Database P J × Bool → TableMigration P → String → Attempt (Database P J × Bool)
  commit_copy (db, false) migration version_id = done (db, false)
  commit_copy (db, true) migration version_id =
      elim (create_unless migration.shadow_table_version_id migration version_id db) [
        | done created ↦ done (created, true)
        | failing e ↦ failing e
      ]

  -- `beginCopy` for the record that was read; the new version id is `fresh`.
  unfoldable pub begin_copy :
      MigrationLease → TableMigration P → String → ℕ → Database P J → Attempt (Database P J × Bool)
  begin_copy lease migration fresh now db =
      let version_id = or_value migration.shadow_table_version_id fresh in
      commit_copy
        (update_many
          (λ m.
            m.id == lease.migration_id && is_pending m.status && is_value m.locked_by lease.token)
          (copying_into migration version_id now) db)
        migration version_id

  unfoldable pub advance_checkpoint :
      MigrationLease
      → MigrationCheckpoint
      → MigrationCheckpoint
      → ℕ
      → Database P J
      → Database P J × Bool
  advance_checkpoint lease from to now db =
      update_many
        (λ m.
          m.id == lease.migration_id
          && is_copying m.status
          && is_value m.locked_by lease.token
          && m.copied_rows == from.copied_rows
          && same_value m.last_copied_row_id from.last_copied_row_id)
        (λ m. record m {
          copied_rows = to.copied_rows;
          last_copied_row_id = to.last_copied_row_id;
          current_batch = m.current_batch + 1;
          last_progress_at = some now;
        })
        db

  unfoldable pub begin_swap : MigrationLease → ℕ → Database P J → Database P J × Bool
  begin_swap lease now db =
      update_many
        (λ m.
          m.id == lease.migration_id
          && is_copying m.status
          && is_value m.locked_by lease.token
          && m.copied_rows == m.total_rows)
        (λ m. record m {
          status = MigrationStatus.swapping;
          phase = MigrationPhase.swapping;
          last_progress_at = some now;
        })
        db

  unfoldable pub lock_swap : MigrationLease → ℕ → Database P J → Database P J × Bool
  lock_swap lease now db =
      update_many (swap_owned_by lease) (λ m. record m { heartbeat_at = some now }) db

  unfoldable pub complete_swap : MigrationLease → Database P J → Database P J × Bool
  complete_swap lease db = delete_many (swap_owned_by lease) db

  -- `deleteUnlinkedTable`: a version that a revision links stays.
  abbrev pub delete_unlinked_table : Option String → Database P J → Database P J
  delete_unlinked_table none db = db
  delete_unlinked_table (some version_id) db =
      if includes db.linked version_id
      then db
      else record db { tables = Map.delete db.tables version_id }

  abbrev pub commit_cancel : Database P J × Bool → TableMigration P → Database P J × Bool
  commit_cancel (db, false) migration = (db, false)
  commit_cancel (db, true) migration =
      (delete_unlinked_table migration.shadow_table_version_id db, true)

  -- `cancel` for the record that was read
  unfoldable pub cancel : TableMigration P → Database P J → Database P J × Bool
  cancel migration db =
      commit_cancel (delete_many (λ m. m.id == migration.id && is_cancellable m.status) db)
        migration

  unfoldable pub retry : MigrationLease → Database P J → Database P J × Bool
  retry lease db =
      update_many (λ m. active_owned_by lease m && ltb m.retry_count m.max_retries)
        (λ m. released (record m { retry_count = m.retry_count + 1 })) db

  unfoldable pub fail : MigrationLease → String → ℕ → Database P J → Database P J × Bool
  fail lease error_message now db =
      update_many (active_owned_by lease)
        (λ m. released (record m {
          status = failed;
          error_message = some error_message;
          completed_at = some now;
        }))
        db
