-- ===== src/Ledger.antt =====
-- The migrations of a ledger and the patches that they carry: the types that
-- src/features/share/ledger-replay imports from @revisium/schema-toolkit, with the fields that this
-- code reads. A schema is a value of an arbitrary type: only the toolkit looks into it.
use revisium_engine.Base.{String, List}

pub data JsonPatch (S : Type 0) : Type 0 where
  add : String → S → JsonPatch S
  replace : String → S → JsonPatch S
  move : String → String → JsonPatch S
  remove : String → JsonPatch S

-- The first text is the migration's id, the second its table id.
pub data Migration (S : Type 0) : Type 0 where
  init : String → String → S → Migration S
  update : String → String → List (JsonPatch S) → Migration S
  rename : String → String → String → Migration S
  remove : String → String → Migration S

pub data ChangeType : Type 0 where
  init update rename remove : ChangeType

module _ {S : Type 0} where
  abbrev pub migration_id : Migration S → String
  migration_id (Migration.init i t s) = i
  migration_id (Migration.update i t ps) = i
  migration_id (Migration.rename i t n) = i
  migration_id (Migration.remove i t) = i

  abbrev pub table_id : Migration S → String
  table_id (Migration.init i t s) = t
  table_id (Migration.update i t ps) = t
  table_id (Migration.rename i t n) = t
  table_id (Migration.remove i t) = t

  abbrev pub change_type : Migration S → ChangeType
  change_type (Migration.init i t s) = ChangeType.init
  change_type (Migration.update i t ps) = ChangeType.update
  change_type (Migration.rename i t n) = ChangeType.rename
  change_type (Migration.remove i t) = ChangeType.remove
