-- ===== src/Migrations/Leases.antt =====
-- src/features/migration/services/migration-leases.ts, migration-ownership.ts and
-- migration-stall-recovery.ts: how a worker gets, keeps and loses the lease of the job.
use revisium_engine.Base.{
  ℕ, String, Bool, true, false, Option, none, some, Eq-String, Eq-ℕ, ◌==◌, ◌+◌, ltb, ◌&&◌, ◌||◌,
  not, if◌then◌else◌,
}
use revisium_engine.Migrations.{
  MigrationLease, TableMigration, Database, MigrationStatus, is_swapping, is_pending, is_copying,
  is_active_migration_status, is_value, released, owned_by, update_many, failed, cancelled,
}

-- what `findStalledSwaps` returns for a swap: its owner and when the owner locked it
pub record OwnershipEpoch : Type 0 where
  pub migration_id : String
  pub token : String
  pub locked_at : ℕ

-- `{ lt: now - timeout }` of a nullable time
abbrev pub is_older : Option ℕ → ℕ → ℕ → Bool
is_older none timeout now = false
is_older (some time) timeout now = ltb (time + timeout) now

abbrev is_null : Option ℕ → Bool
is_null none = true
is_null (some time) = false

abbrev is_unlocked : Option String → Bool
is_unlocked none = true
is_unlocked (some token) = false

abbrev is_time : Option ℕ → ℕ → Bool
is_time none time = false
is_time (some held) time = held == time

abbrev is_status : MigrationStatus → MigrationStatus → Bool
is_status MigrationStatus.pending s = is_pending s
is_status MigrationStatus.copying s = is_copying s
is_status MigrationStatus.swapping s = is_swapping s
is_status _ s = false

module _ {P : Type 0} where
  -- `withoutLiveLease`
  abbrev pub without_live_lease : ℕ → ℕ → TableMigration P → Bool
  without_live_lease timeout now m =
      is_unlocked m.locked_by || is_null m.heartbeat_at || is_older m.heartbeat_at timeout now

  -- `withoutProgressWithin`
  abbrev without_progress_within : ℕ → ℕ → TableMigration P → Bool
  without_progress_within timeout now m =
      is_older m.last_progress_at timeout now && is_older m.locked_at timeout now
      || is_older m.last_progress_at timeout now && is_null m.locked_at
      || is_null m.last_progress_at && is_older m.locked_at timeout now
      || is_null m.last_progress_at && is_null m.locked_at && ltb (m.created_at + timeout) now

  -- the owner that `claimSwap` replaces
  abbrev pub swap_without_live_lease : MigrationLease → ℕ → ℕ → TableMigration P → Bool
  swap_without_live_lease lease timeout now m =
      m.id == lease.migration_id && is_swapping m.status && without_live_lease timeout now m

  abbrev pub owned_in : Option (TableMigration P) → MigrationLease → Option (TableMigration P)
  owned_in none lease = none
  owned_in (some m) lease =
      if m.id == lease.migration_id && is_value m.locked_by lease.token then some m else none

  -- the owner that `takeOver` replaces
  abbrev pub stalled_swap_of : OwnershipEpoch → TableMigration P → Bool
  stalled_swap_of stalled m =
      m.id == stalled.migration_id
      && is_swapping m.status
      && is_value m.locked_by stalled.token
      && is_time m.locked_at stalled.locked_at

module _ {P J : Type 0} where
  -- `failStalledSwap`
  unfoldable pub fail_stalled_swap :
      (TableMigration P → Bool) → ℕ → Database P J → Database P J × Bool
  fail_stalled_swap owner now db =
      update_many (λ m. owner m && not (ltb m.retry_count m.max_retries))
        (λ m. released (record m {
          status = failed;
          error_message =
              some "SWAP_STALLED: the swap did not complete within maxRetries claims and takeovers";
          completed_at = some now;
        }))
        db

  -- the first statement of `replaceSwapOwner`
  unfoldable pub own_swap :
      (TableMigration P → Bool) → MigrationLease → ℕ → Database P J → Database P J × Bool
  own_swap owner lease now db =
      update_many (λ m. owner m && ltb m.retry_count m.max_retries)
        (λ m. owned_by lease now (record m { retry_count = m.retry_count + 1 })) db

  abbrev or_fail_stalled :
      Database P J × Bool
      → (TableMigration P → Bool)
      → MigrationLease
      → ℕ
      → Database P J × Option MigrationLease
  or_fail_stalled (db, true) owner lease now = (db, some lease)
  or_fail_stalled (db, false) owner lease now = ((fail_stalled_swap owner now db).0, none)

  unfoldable pub replace_swap_owner :
      (TableMigration P → Bool)
      → MigrationLease
      → ℕ
      → Database P J
      → Database P J × Option MigrationLease
  replace_swap_owner owner lease now db =
      or_fail_stalled (own_swap owner lease now db) owner lease now

  -- the statement with which `claim` takes a job of the status that it read
  unfoldable pub claim_status :
      MigrationStatus → MigrationLease → ℕ → ℕ → Database P J → Database P J × Bool
  claim_status status lease timeout now db =
      update_many
        (λ m.
          m.id == lease.migration_id
          && is_status status m.status
          && without_live_lease timeout now m)
        (owned_by lease now) db

  abbrev leased : Database P J × Bool → MigrationLease → Database P J × Option MigrationLease
  leased (db, true) lease = (db, some lease)
  leased (db, false) lease = (db, none)

  abbrev claim_read :
      Option (TableMigration P)
      → MigrationLease
      → ℕ
      → ℕ
      → Database P J
      → Database P J × Option MigrationLease
  claim_read none lease timeout now db = (db, none)
  claim_read (some m) lease timeout now db =
      if m.id == lease.migration_id && is_active_migration_status m.status
      then if is_swapping m.status
        then replace_swap_owner (swap_without_live_lease lease timeout now) lease now db
        else leased (claim_status m.status lease timeout now db) lease
      else (db, none)

  -- `claim`, with nothing between its read and its write
  unfoldable pub claim :
      MigrationLease → ℕ → ℕ → Database P J → Database P J × Option MigrationLease
  claim lease timeout now db = claim_read db.job lease timeout now db

  unfoldable pub find_owned : MigrationLease → Database P J → Option (TableMigration P)
  find_owned lease db = owned_in db.job lease

  unfoldable pub renew : MigrationLease → ℕ → Database P J → Database P J × Bool
  renew lease now db =
      update_many (λ m. m.id == lease.migration_id && is_value m.locked_by lease.token)
        (λ m. record m { heartbeat_at = some now }) db

  unfoldable pub release : MigrationLease → Database P J → Database P J × Bool
  release lease db =
      update_many (λ m. m.id == lease.migration_id && is_value m.locked_by lease.token) released db

  unfoldable pub take_over :
      OwnershipEpoch → MigrationLease → ℕ → Database P J → Database P J × Option MigrationLease
  take_over stalled lease now db = replace_swap_owner (stalled_swap_of stalled) lease now db

  -- `cancelStalled` for the job
  unfoldable pub cancel_stalled : ℕ → ℕ → Database P J → Database P J × Bool
  cancel_stalled timeout now db =
      update_many
        (λ m. (is_pending m.status || is_copying m.status) && without_progress_within timeout now m)
        (λ m. released (record m {
          status = cancelled;
          error_message = some "STALLED: no progress within stallTimeoutMs";
          completed_at = some now;
        }))
        db
