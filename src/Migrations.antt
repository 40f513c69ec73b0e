-- ===== src/Migrations.antt =====
-- src/features/migration/types/migration.types.ts, services/migration-ownership.ts and the model
-- TableMigration of prisma/schema.prisma: the job that rewrites the rows of a large table into a
-- shadow table while workers claim, lose and take over its lease. The database is the part of one
-- job: its record, the rows that are linked to each table version, and the versions of the table
-- that the Draft links. Times are milliseconds.
pub mod Transitions
pub mod Leases
pub mod Batches
pub mod Swap
pub mod Steps
pub mod Events
mod Copies
mod Loading
pub mod Fencing
pub mod Consistent
mod Preserved
pub mod Reached
pub mod Alone
mod Tests
use revisium_engine.Base.{
  ℕ, String, Bool, true, false, Option, none, some, List, Eq-String, ◌==◌, ◌≡◌, refl, ap, ◌∙◌, ◌⊎◌,
  inl, inr,
}
use revisium_engine.Base.Map.{Map}

pub data MigrationStatus : Type 0 where
  pending copying swapping completed failed cancelled : MigrationStatus

pub data MigrationPhase : Type 0 where
  init copying validating swapping cleanup done : MigrationPhase

pub record MigrationLease : Type 0 where
  pub migration_id : String
  pub token : String

-- the record of a job; the payload of its patches is `P`
pub record TableMigration (P : Type 0) : Type 0 where
  pub id : String
  pub revision_id : String
  pub table_id : String
  pub source_table_version_id : String
  pub shadow_table_version_id : Option String
  pub status : MigrationStatus
  pub phase : MigrationPhase
  pub patches : P
  pub previous_schema_hash : String
  pub target_schema_hash : String
  pub total_rows : ℕ
  pub copied_rows : ℕ
  pub last_copied_row_id : Option String
  pub batch_size : ℕ
  pub current_batch : ℕ
  pub created_at : ℕ
  pub started_at : Option ℕ
  pub completed_at : Option ℕ
  pub last_progress_at : Option ℕ
  pub locked_by : Option String
  pub locked_at : Option ℕ
  pub heartbeat_at : Option ℕ
  pub error_message : Option String
  pub retry_count : ℕ
  pub max_retries : ℕ

-- a row, whose `data` (here `content`) and `meta` are of type `J`
pub record Row (J : Type 0) : Type 0 where
  pub version_id : String
  pub created_id : String
  pub id : String
  pub readonly : Bool
  pub content : J
  pub meta : J
  pub hash : String
  pub schema_hash : String
  pub created_at : ℕ
  pub updated_at : ℕ
  pub published_at : ℕ

pub record Database (P J : Type 0) : Type 0 where
  pub job : Option (TableMigration P)
  pub tables : Map String (List (Row J))
  pub linked : List String
  pub is_draft : Bool
  pub schema_hash : Option String

-- What a step throws: a `PermanentMigrationFailure`, or another error.
pub data StepError : Type 0 where
  permanent passing : String → StepError

pub data Attempt {ℓ} (A : Type ℓ) : Type ℓ where
  done : A → Attempt A
  failing : StepError → Attempt A

infixl 5 ◌>>=◌
abbrev pub ◌>>=◌ {ℓ κ} : {A : Type ℓ} {B : Type κ} → Attempt A → (A → Attempt B) → Attempt B
done a >>= next = next a
failing e >>= next = failing e

pub Attempt-cases {ℓ} :
    {A : Type ℓ} (r : Attempt A) → ((a : A) × (r ≡ done a)) ⊎ ((e : StepError) × (r ≡ failing e))
Attempt-cases (done a) = inl (a, refl)
Attempt-cases (failing e) = inr (e, refl)

pub done_inj {ℓ} : {A : Type ℓ} {a b : A} → ◌≡◌ {A = Attempt A} (done a) (done b) → a ≡ b
done_inj h = cc

pub >>=-done {ℓ κ} :
    {A : Type ℓ} {B : Type κ} (first : Attempt A) (next : A → Attempt B) {a : A} {r : Attempt B}
    → first ≡ done a
    → next a ≡ r
    → (first >>= next) ≡ r
>>=-done (done a) next returned then = ap next (done_inj returned) ∙ then
>>=-done (failing e) next returned then = cc

-- The inversion of a sequence that returned.
pub >>=-eq-done {ℓ κ} :
    {A : Type ℓ} {B : Type κ} (first : Attempt A) (next : A → Attempt B) {b : B}
    → (first >>= next) ≡ done b
    → (a : A) × (first ≡ done a) × (next a ≡ done b)
>>=-eq-done (done a) next returned = (a, refl, returned)
>>=-eq-done (failing e) next returned = cc

abbrev pub is_pending : MigrationStatus → Bool
is_pending pending = true
is_pending _ = false

abbrev pub is_copying : MigrationStatus → Bool
is_copying MigrationStatus.copying = true
is_copying _ = false

abbrev pub is_swapping : MigrationStatus → Bool
is_swapping MigrationStatus.swapping = true
is_swapping _ = false

-- `isActiveMigrationStatus`, and a status in `ACTIVE_MIGRATION_STATUSES`
abbrev pub is_active_migration_status : MigrationStatus → Bool
is_active_migration_status pending = true
is_active_migration_status MigrationStatus.copying = true
is_active_migration_status MigrationStatus.swapping = true
is_active_migration_status _ = false

-- a status in `CANCELLABLE_STATUSES`
abbrev pub is_cancellable : MigrationStatus → Bool
is_cancellable pending = true
is_cancellable MigrationStatus.copying = true
is_cancellable failed = true
is_cancellable _ = false

-- A nullable column that equals a value.
abbrev pub is_value : Option String → String → Bool
is_value none value = false
is_value (some held) value = held == value

abbrev pub same_value : Option String → Option String → Bool
same_value none none = true
same_value none (some value) = false
same_value held (some value) = is_value held value
same_value (some held) none = false

module _ {P : Type 0} where
  -- `RELEASED`
  abbrev pub released : TableMigration P → TableMigration P
  released m = record m { locked_by = none; locked_at = none }

  -- `ownedBy`
  abbrev pub owned_by : MigrationLease → ℕ → TableMigration P → TableMigration P
  owned_by lease now m = record m {
    locked_by = some lease.token;
    locked_at = some now;
    heartbeat_at = some now;
  }

module _ {P J : Type 0} where
  abbrev pub update_where :
      (TableMigration P → Bool)
      → (TableMigration P → TableMigration P)
      → Option (TableMigration P)
      → Database P J
      → Database P J × Bool
  update_where test change none db = (db, false)
  update_where test change (some m) db = elim (test m) [
    | true ↦ (record db { job = some (change m) }, true)
    | false ↦ (db, false)
  ]

  pub update_where-true :
      (test : TableMigration P → Bool) (change : TableMigration P → TableMigration P)
      (m : TableMigration P) (db : Database P J)
      → test m ≡ true
      → update_where test change (some m) db ≡ (record db { job = some (change m) }, true)
  update_where-true test change m db h = rw (h, update_where) refl

  pub update_where-false :
      (test : TableMigration P → Bool) (change : TableMigration P → TableMigration P)
      (m : TableMigration P) (db : Database P J)
      → test m ≡ false
      → update_where test change (some m) db ≡ (db, false)
  update_where-false test change m db h = rw (h, update_where) refl

  -- `updateMany`, and whether it changed the record
  abbrev pub update_many :
      (TableMigration P → Bool)
      → (TableMigration P → TableMigration P)
      → Database P J
      → Database P J × Bool
  update_many test change db = update_where test change db.job db

  abbrev pub delete_where :
      (TableMigration P → Bool) → Option (TableMigration P) → Database P J → Database P J × Bool
  delete_where test none db = (db, false)
  delete_where test (some m) db = elim (test m) [
    | true ↦ (record db { job = none }, true)
    | false ↦ (db, false)
  ]

  pub delete_where-true :
      (test : TableMigration P → Bool) (m : TableMigration P) (db : Database P J)
      → test m ≡ true
      → delete_where test (some m) db ≡ (record db { job = none }, true)
  delete_where-true test m db h = rw (h, delete_where) refl

  -- `deleteMany`, and whether it deleted the record
  abbrev pub delete_many : (TableMigration P → Bool) → Database P J → Database P J × Bool
  delete_many test db = delete_where test db.job db
