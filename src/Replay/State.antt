-- ===== src/Replay/State.antt =====
-- The types and the state of ledger-replay.ts, and the methods that read or write one part of it.
-- A `Map` with slots for keys is a map from their indices.
use revisium_engine.Base.{
  ℕ, String, Bool, false, Option, none, some, List, [], ◌∷◌, ◌++◌, Eq-ℕ, Eq-String, is_some,
}
use revisium_engine.Base.Map
use revisium_engine.Base.Map.{Map}
use revisium_engine.Base.Exec.{Exec}
use revisium_engine.Ledger.{Migration, ChangeType, migration_id, table_id, change_type}
use revisium_engine.Slots.{TableSlots}

pub record ReplayFailure : Type 0 where
  pub migration : String
  pub step : ChangeType
  pub error : String

pub record UnattributedFailure : Type 0 where
  pub table : String
  pub failure : ReplayFailure

pub record TableRead : Type 0 where
  pub migration : String
  pub table : String
  pub read_table_id : String

pub data Cause : Type 0 where
  own_step referrer_rewrite : Cause

pub record SchemaTrailStep (S : Type 0) : Type 0 where
  pub migration : String
  pub cause : Cause
  pub schema : S

pub record SlotSchema (S : Type 0) : Type 0 where
  pub schema : Option S
  pub failure : Option ReplayFailure

pub record CurrentTable (S : Type 0) : Type 0 where
  pub table_id : String
  pub slot : ℕ
  pub schema : S

pub record LedgerReplay (S : Type 0) : Type 0 where
  pub table_slots : TableSlots S
  pub slot_schemas : Map ℕ (SlotSchema S)
  pub unattributed : List UnattributedFailure
  pub reads : List TableRead
  pub trails : Option (Map ℕ (List (SchemaTrailStep S)))

abbrev pub Replaying : Type 0 → Type 0 → Type 0
Replaying S A = Exec (LedgerReplay S) A

unfoldable pub failure_of : {S : Type 0} → Migration S → String → ReplayFailure
failure_of m e = record { migration = migration_id m; step = change_type m; error = e }

abbrev pub or_empty : {A : Type 0} → Option (List A) → List A
or_empty none = []
or_empty (some l) = l

abbrev pub first_failure : Option ReplayFailure → ReplayFailure → Option ReplayFailure
first_failure none f = some f
first_failure (some g) f = some g

module _ {S : Type 0} where
  abbrev no_schema : SlotSchema S
  no_schema = record { schema = none; failure = none }

  abbrev or_no_schema : Option (SlotSchema S) → SlotSchema S
  or_no_schema none = no_schema
  or_no_schema (some entry) = entry

  -- `slotSchemaOf`: the entry of a slot, which a write creates
  unfoldable pub slot_schema_of : ℕ → LedgerReplay S → SlotSchema S
  slot_schema_of k r = or_no_schema (Map.get r.slot_schemas k)

  unfoldable pub schema_of : ℕ → LedgerReplay S → Option S
  unfolding slot_schema_of
  schema_of k r = (slot_schema_of k r).schema

  unfoldable pub failure_at : ℕ → LedgerReplay S → Option ReplayFailure
  unfolding slot_schema_of
  failure_at k r = (slot_schema_of k r).failure

  unfoldable pub is_tainted : ℕ → LedgerReplay S → Bool
  unfolding failure_at
  is_tainted k r = is_some (failure_at k r)

  unfoldable pub is_tainted? : Option ℕ → LedgerReplay S → Bool
  unfolding is_tainted
  is_tainted? none r = false
  is_tainted? (some k) r = is_tainted k r

  push_trail :
      ℕ
      → SchemaTrailStep S
      → Option (Map ℕ (List (SchemaTrailStep S)))
      → Option (Map ℕ (List (SchemaTrailStep S)))
  push_trail k step none = none
  push_trail k step (some trails) =
      some (Map.set trails k (or_empty (Map.get trails k) ++ step ∷ []))

  unfoldable pub set_schema : ℕ → Migration S → Cause → S → LedgerReplay S → LedgerReplay S
  unfolding slot_schema_of push_trail
  set_schema k m cause schema r = record r {
    slot_schemas = Map.set r.slot_schemas k (record (slot_schema_of k r) { schema = some schema });
    trails =
        push_trail k (record { migration = migration_id m; cause = cause; schema = schema })
          r.trails;
  }

  unfoldable pub taint : ℕ → ReplayFailure → LedgerReplay S → LedgerReplay S
  unfolding slot_schema_of
  taint k f r =
      let entry = slot_schema_of k r in
      record r {
        slot_schemas =
            Map.set r.slot_schemas k (record entry { failure = first_failure entry.failure f });
      }

  reads_of : Migration S → List String → List TableRead
  reads_of m [] = []
  reads_of m (id ∷ ids) =
      record { migration = migration_id m; table = table_id m; read_table_id = id } ∷ reads_of m ids

  unfoldable pub record_reads : Migration S → List String → LedgerReplay S → LedgerReplay S
  unfolding reads_of
  record_reads m ids r = record r { reads = r.reads ++ reads_of m ids }

  unfoldable pub current_from : LedgerReplay S → List (String × ℕ) → List (CurrentTable S)
  current_from r [] = []
  current_from r ((id, k) ∷ entries) =
      let rest = current_from r entries in
      elim (schema_of k r) [
        | none ↦ rest
        | some schema ↦ record { table_id = id; slot = k; schema = schema } ∷ rest
      ]

  -- the current tables that have a schema, in the order of the map
  unfoldable pub current_tables : LedgerReplay S → List (CurrentTable S)
  unfolding current_from
  current_tables r = current_from r r.table_slots.current
