-- ===== src/Migrations/Batches.antt =====
-- src/features/migration/services/migration-batch.service.ts: a batch of the rows of the source is
-- read, migrated, validated and written into the shadow table together with the new checkpoint.
-- The toolkit that patches rows, the plugins and the validation are parameters.
use revisium_engine.Base.{
  ℕ, zero, suc, String, Bool, true, false, Option, none, some, List, [], ◌∷◌, ◌++◌, Eq-String, ◌==◌,
  ◌||◌, map, filter,
}
use revisium_engine.Base.Map
use revisium_engine.Migrations.{
  MigrationLease, TableMigration, Row, Database, Attempt, done, failing, passing, ◌>>=◌,
}
use revisium_engine.Migrations.Transitions.{MigrationCheckpoint, advance_checkpoint, or_value}

abbrev pub take {ℓ} : {A : Type ℓ} → ℕ → List A → List A
take zero xs = []
take (suc n) [] = []
take (suc n) (x ∷ xs) = x ∷ take n xs

-- What the code relies on outside the module: the order of row ids in the database, the patched
-- rows of the toolkit, the data of a row after the plugins' hooks, the validation of migrated rows,
-- the hash of data and the ids of new row versions.
pub record Toolkit (P J : Type 0) : Type 0 where
  pub is_greater : String → String → Bool
  pub patched_rows : P → List (Row J) → Attempt (String → Option J)
  pub after_migrate_rows : List (Row J) → Attempt (Row J → J)
  pub validate_rows : List (Row J) → Attempt (Unit {0})
  pub object_hash : J → String
  pub new_version_id : Row J → String

-- `{ gt: lastCopiedRowId }`, which an absent or a blank id leaves out
abbrev pub is_after : (String → String → Bool) → Option String → String → Bool
is_after is_greater none id = true
is_after is_greater (some last) id = last == "" || is_greater id last

module _ {J : Type 0} where
  unfoldable pub last_row : List (Row J) → Option (Row J)
  last_row [] = none
  last_row (row ∷ []) = some row
  last_row (row ∷ next ∷ rows) = last_row (next ∷ rows)

module _ {P J : Type 0} (kit : Toolkit P J) where
  -- `loadBatchRows`; the rows of a version are listed by id
  unfoldable pub load_batch_rows : List (Row J) → Option String → ℕ → List (Row J)
  load_batch_rows rows last_copied_row_id batch_size =
      take batch_size (filter (λ row. is_after kit.is_greater last_copied_row_id row.id) rows)

  abbrev pub with_content : (Row J → J) → List (Row J) → List (Row J)
  with_content content rows = map {A = Row J} (λ row. record row { content = content row }) rows

  -- `migrateAndProcessBatch`
  unfoldable pub migrate_and_process_batch : List (Row J) → P → Attempt (List (Row J))
  migrate_and_process_batch rows patches = kit.patched_rows patches rows >>= λ patched.
      let processed = with_content (λ row. or_value (patched row.id) row.content) rows in
      kit.after_migrate_rows processed >>= λ content. done (with_content content processed)

  -- the row that `insertBatchIntoShadow` creates
  abbrev pub shadow_row : String → ℕ → Row J → Row J
  shadow_row target_schema_hash now row = record {
    version_id = kit.new_version_id row;
    created_id = row.created_id;
    id = row.id;
    readonly = false;
    content = row.content;
    meta = row.meta;
    hash = kit.object_hash row.content;
    schema_hash = target_schema_hash;
    created_at = row.created_at;
    updated_at = now;
    published_at = row.published_at;
  }

  abbrev pub shadow_rows : String → ℕ → List (Row J) → List (Row J)
  shadow_rows target_schema_hash now rows = map (shadow_row target_schema_hash now) rows

  abbrev pub insert_into :
      Option (List (Row J)) → String → List (Row J) → Database P J → Attempt (Database P J)
  insert_into none version_id rows db = failing (passing "No Table to connect")
  insert_into (some old) version_id rows db =
      done (record db { tables = Map.set db.tables version_id (old ++ rows) })

  -- `insertBatchIntoShadow`: the version must exist to be connected
  abbrev pub insert_batch_into_shadow :
      TableMigration P → String → List (Row J) → ℕ → Database P J → Attempt (Database P J)
  insert_batch_into_shadow migration version_id rows now db =
      insert_into (Map.get db.tables version_id) version_id
        (shadow_rows migration.target_schema_hash now rows) db

  abbrev pub commit_batch :
      Database P J × Bool
      → TableMigration P
      → String
      → List (Row J)
      → ℕ
      → Attempt (Database P J × Bool)
  commit_batch (db, false) migration version_id rows now = done (db, false)
  commit_batch (db, true) migration version_id rows now =
      insert_batch_into_shadow migration version_id rows now db >>= λ written. done (written, true)

  -- `writeBatchWithinTransaction`
  unfoldable pub write_batch :
      MigrationLease
      → TableMigration P
      → String
      → MigrationCheckpoint
      → List (Row J)
      → ℕ
      → Database P J
      → Attempt (Database P J × Bool)
  write_batch lease migration version_id to rows now db =
      commit_batch
        (advance_checkpoint lease
          (record {
            copied_rows = migration.copied_rows;
            last_copied_row_id = migration.last_copied_row_id;
          })
          to now db)
        migration version_id rows now
