-- ===== src/Migrations/Swap.antt =====
-- src/features/migration/services/migration-swap.service.ts and swap-recheck.service.ts: in one
-- transaction the Draft links the shadow table in place of its source, after the conditions of the
-- swap are checked again. What the schema toolkit, the ledger and the commands of other parts say
-- of a job are parameters.
use revisium_engine.Base.{
  ℕ, String, Bool, true, false, Option, none, some, List, [], ◌∷◌, ◌++◌, Eq-String, Eq-ℕ, ◌==◌,
  ◌&&◌, not, length, includes, filter, if◌then◌else◌,
}
use revisium_engine.Base.Map
use revisium_engine.Migrations.{
  MigrationLease, TableMigration, Database, Attempt, done, failing, permanent, passing, ◌>>=◌,
  is_value,
}
use revisium_engine.Migrations.Transitions.{lock_swap, complete_swap}

-- the hash of the schema that the patches give, the checks of an imported ledger id, and the
-- commands that record the new schema and migrate the views
pub record SwapTerms (P : Type 0) : Type 0 where
  pub patched_schema_hash : TableMigration P → Option String
  pub ensure_ledger_free : TableMigration P → Attempt (Unit {0})
  pub record_schema_update : TableMigration P → Attempt (Unit {0})
  pub migrate_views : TableMigration P → Attempt (Unit {0})

-- a check that throws a permanent failure unless its condition holds
abbrev pub ensure : Bool → String → Attempt (Unit {0})
ensure true message = done tt
ensure false message = failing (permanent message)

abbrev pub count_of {ℓ} : {A : Type ℓ} → Option (List A) → ℕ
count_of none = 0
count_of (some rows) = length rows

-- `shadowTableOf`, and `requireShadowTable` of migration.service.ts
abbrev pub shadow_table_of : Option String → Attempt String
shadow_table_of none = failing (passing "Shadow table not set for migration")
shadow_table_of (some version_id) =
    if version_id == ""
    then failing (passing "Shadow table not set for migration")
    else done version_id

module _ {P J : Type 0} where
  abbrev pub ensure_revision_is_draft : Database P J → Attempt (Unit {0})
  ensure_revision_is_draft db = ensure db.is_draft "REVISION_NOT_DRAFT"

  abbrev pub ensure_draft_links_source :
      TableMigration P → String → Database P J → Attempt (Unit {0})
  ensure_draft_links_source migration shadow db =
      ensure
        (includes db.linked migration.source_table_version_id && not (includes db.linked shadow))
        "SOURCE_TABLE_REPLACED"

  abbrev pub ensure_draft_schema_unchanged : TableMigration P → Database P J → Attempt (Unit {0})
  ensure_draft_schema_unchanged migration db =
      ensure (is_value db.schema_hash migration.previous_schema_hash) "SCHEMA_CHANGED"

  abbrev pub ensure_shadow_complete : TableMigration P → String → Database P J → Attempt (Unit {0})
  ensure_shadow_complete migration shadow db =
      ensure (count_of (Map.get db.tables shadow) == migration.total_rows) "ROW_COUNT_MISMATCH"

  -- `linkShadowTable`
  unfoldable pub link_shadow_table : TableMigration P → String → Database P J → Database P J
  link_shadow_table migration shadow db =
      let others =
        filter (λ version. not (version == migration.source_table_version_id)) db.linked in
      record db { linked = if includes others shadow then others else others ++ shadow ∷ [] }

  abbrev pub delete_swapped_record : Database P J × Bool → Attempt (Database P J × Bool)
  delete_swapped_record (db, false) =
      failing (passing "Migration lost its record inside its own swap")
  delete_swapped_record (db, true) = done (db, true)

module _ {P : Type 0} (terms : SwapTerms P) where
  abbrev pub ensure_patches_give_target_schema : TableMigration P → Attempt (Unit {0})
  ensure_patches_give_target_schema migration =
      ensure (is_value (terms.patched_schema_hash migration) migration.target_schema_hash)
        "SCHEMA_CHANGED"

module _ {P J : Type 0} (terms : SwapTerms P) where
  -- `recheck`, which gives the version of the shadow table
  unfoldable pub recheck : TableMigration P → Database P J → Attempt String
  recheck migration db = shadow_table_of migration.shadow_table_version_id >>= λ shadow.
      ensure_revision_is_draft db >>= λ _. ensure_draft_links_source migration shadow db >>= λ _.
      ensure_draft_schema_unchanged migration db >>= λ _.
      ensure_patches_give_target_schema terms migration >>= λ _.
      ensure_shadow_complete migration shadow db >>= λ _.
      terms.ensure_ledger_free migration >>= λ _. done shadow

  abbrev pub swap_locked :
      Database P J × Bool → MigrationLease → TableMigration P → Attempt (Database P J × Bool)
  swap_locked (db, false) lease migration = done (db, false)
  swap_locked (db, true) lease migration = recheck migration db >>= λ shadow.
      terms.record_schema_update migration >>= λ _. terms.migrate_views migration >>= λ _.
      delete_swapped_record (complete_swap lease (link_shadow_table migration shadow db))

  -- `swapWithinTransaction`
  unfoldable pub swap_within_transaction :
      MigrationLease → TableMigration P → ℕ → Database P J → Attempt (Database P J × Bool)
  swap_within_transaction lease migration now db =
      swap_locked (lock_swap lease now db) lease migration
