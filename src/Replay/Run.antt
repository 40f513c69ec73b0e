-- ===== src/Replay/Run.antt =====
-- A whole replay in ledger-replay.ts, and the ledger that it returns.
use revisium_engine.Base.{
  ℕ, suc, String, Bool, true, false, Option, none, some, List, [], ◌∷◌, ◌++◌, Eq-String, Eq-ℕ,
}
use revisium_engine.Base.Map
use revisium_engine.Base.Map.{Map}
use revisium_engine.Base.Result.{Result, ok, throw}
use revisium_engine.Ledger.{Migration, table_id}
use revisium_engine.Slots.{TableSlot, SlotStep, table_slots, follow, ledgered_table_id_of}
use revisium_engine.Rules.{Toolkit}
use revisium_engine.Replay.State.{
  LedgerReplay, ReplayFailure, UnattributedFailure, TableRead, SchemaTrailStep, SlotSchema,
  failure_of, taint, schema_of, failure_at, or_empty,
}
use revisium_engine.Replay.Steps.{apply_step}

pub record ReplayedSlot (S : Type 0) : Type 0 where
  pub slot : TableSlot S
  pub open slot use *
  pub schema : Option S
  pub failure : Option ReplayFailure
  pub trail : Option (List (SchemaTrailStep S))

pub record ReplayedLedger (S : Type 0) : Type 0 where
  pub slots : List (ReplayedSlot S)
  pub current_slots : Map String (ReplayedSlot S)
  pub schemas : Map String S
  pub unreplayable : Map String ReplayFailure
  pub unattributed : List UnattributedFailure
  pub reads : List TableRead

module _ {S : Type 0} where
  unfoldable pub record_failure :
      Migration S → SlotStep → ReplayFailure → LedgerReplay S → LedgerReplay S
  record_failure m step failure r =
      let tainted = taint step.slot failure r in
      elim step.attributable [
        | true ↦ tainted
        | false ↦ record tainted {
          unattributed =
              tainted.unattributed ++ record { table = table_id m; failure = failure } ∷ [];
        }
      ]

  -- the `catch` of `apply`
  unfoldable pub settle :
      Migration S → SlotStep → Result (Unit {0}) × LedgerReplay S → LedgerReplay S
  unfolding record_failure
  settle m step (ok u, r) = r
  settle m step (throw message, r) = record_failure m step (failure_of m message) r

  unfoldable pub start_schemas :
      Map String S → List (String × ℕ) → Map ℕ (SlotSchema S) → Map ℕ (SlotSchema S)
  start_schemas schemas [] m = m
  start_schemas schemas ((id, k) ∷ entries) m =
      start_schemas schemas entries
        (Map.set m k (record { schema = Map.get schemas id; failure = none }))

  unfoldable pub keys : Map String S → List String
  keys [] = []
  keys ((id, schema) ∷ entries) = id ∷ keys entries

  -- the constructor
  unfoldable pub ledger_replay : Map String S → Bool → LedgerReplay S
  unfolding start_schemas keys
  ledger_replay schemas record_trail =
      let slots = table_slots (keys schemas) in
      record {
        table_slots = slots;
        slot_schemas = start_schemas schemas slots.current [];
        unattributed = [];
        reads = [];
        trails = elim record_trail [ true ↦ some [] | false ↦ none ];
      }

  trail_of : LedgerReplay S → ℕ → Option (List (SchemaTrailStep S))
  trail_of r k = elim r.trails [ none ↦ none | some trails ↦ some (or_empty (Map.get trails k)) ]

  unfoldable pub replayed_slot : LedgerReplay S → ℕ → TableSlot S → ReplayedSlot S
  unfolding trail_of
  replayed_slot r k slot = elim (failure_at k r) [
    | some failure ↦ record {
      slot = slot;
      schema = none;
      failure = some failure;
      trail = trail_of r k;
    }
    | none ↦ record { slot = slot; schema = schema_of k r; failure = none; trail = trail_of r k }
  ]

  unfoldable pub replayed_slots : LedgerReplay S → ℕ → List (TableSlot S) → List (ReplayedSlot S)
  unfolding replayed_slot
  replayed_slots r k [] = []
  replayed_slots r k (slot ∷ slots) = replayed_slot r k slot ∷ replayed_slots r (suc k) slots

  -- the two loops over the slots start from an empty map
  unfoldable pub set_current :
      Map String (ReplayedSlot S) → ReplayedSlot S → Map String (ReplayedSlot S)
  set_current m slot = elim slot.current_table_id [ none ↦ m | some id ↦ Map.set m id slot ]

  unfoldable pub current_slots_of :
      Map String (ReplayedSlot S) → List (ReplayedSlot S) → Map String (ReplayedSlot S)
  unfolding set_current
  current_slots_of m [] = m
  current_slots_of m (slot ∷ slots) = current_slots_of (set_current m slot) slots

  unfoldable pub set_schema_of : Map String S → Option String → ReplayedSlot S → Map String S
  set_schema_of m none slot = m
  set_schema_of m (some id) slot = elim slot.failure [
    | some _ ↦ m
    | none ↦ elim slot.schema [ none ↦ m | some schema ↦ Map.set m id schema ]
  ]

  unfoldable pub schemas_of : Map String S → List (ReplayedSlot S) → Map String S
  unfolding set_schema_of
  schemas_of m [] = m
  schemas_of m (slot ∷ slots) =
      schemas_of (set_schema_of m (ledgered_table_id_of slot.slot) slot) slots

  unfoldable pub set_failure_of :
      Map String ReplayFailure → Option String → ReplayedSlot S → Map String ReplayFailure
  set_failure_of m none slot = m
  set_failure_of m (some id) slot = elim slot.failure [
    | none ↦ m
    | some failure ↦ Map.set m id failure
  ]

  unfoldable pub unreplayable_of :
      Map String ReplayFailure → List (ReplayedSlot S) → Map String ReplayFailure
  unfolding set_failure_of
  unreplayable_of m [] = m
  unreplayable_of m (slot ∷ slots) =
      unreplayable_of (set_failure_of m (ledgered_table_id_of slot.slot) slot) slots

  unfoldable pub result : LedgerReplay S → ReplayedLedger S
  unfolding replayed_slots current_slots_of schemas_of unreplayable_of
  result r =
      let slots = replayed_slots r 0 r.table_slots.slots in
      record {
        slots = slots;
        current_slots = current_slots_of [] slots;
        schemas = schemas_of [] slots;
        unreplayable = unreplayable_of [] slots;
        unattributed = r.unattributed;
        reads = r.reads;
      }

module _ {S : Type 0} (toolkit : Toolkit S) where
  unfoldable pub apply : Migration S → LedgerReplay S → LedgerReplay S
  unfolding settle
  apply m r =
      let (step, slots) = follow m r.table_slots in
      settle m step (apply_step toolkit m step (record r { table_slots = slots }))

  unfoldable pub apply_all : List (Migration S) → LedgerReplay S → LedgerReplay S
  unfolding apply
  apply_all [] r = r
  apply_all (m ∷ ms) r = apply_all ms (apply m r)

  replay_ledger : List (Migration S) → Map String S → Bool → ReplayedLedger S
  unfolding apply_all ledger_replay result
  replay_ledger ledger schemas record_trail =
      result (apply_all ledger (ledger_replay schemas record_trail))
