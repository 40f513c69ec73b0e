-- ===== src/SlotCheck.antt =====
-- src/features/share/ledger-replay/slot-check.ts: whether a replayed slot reproduces a schema.
-- `deepEqual` of the toolkit is a parameter.
pub mod Verdicts
pub mod Replayed
use revisium_engine.Base.{
  String, Bool, true, false, Option, none, some, List, [], ◌∷◌, Eq-String, if◌then◌else◌,
}
use revisium_engine.Base.Map
use revisium_engine.Base.Result.{Result, ok, throw}
use revisium_engine.Ledger.{Migration, migration_id}
use revisium_engine.Slots.{TableSlot}
use revisium_engine.Replay.State.{ReplayFailure}
use revisium_engine.Replay.Run.{ReplayedSlot, ReplayedLedger}

pub data UnledgeredReason : Type 0 where
  no_lineage : UnledgeredReason
  broken_lineage : String → UnledgeredReason

pub data SlotCheck (S : Type 0) : Type 0 where
  unledgered : UnledgeredReason → SlotCheck S
  unreplayable : ReplayedSlot S → ReplayFailure → SlotCheck S
  mismatch reproduces : ReplayedSlot S → SlotCheck S

unfoldable pub lineage_id_of : {S : Type 0} → TableSlot S → Result String
lineage_id_of slot = elim slot.migrations [
  | [] ↦ throw "A ledger slot was opened by no migration"
  | opening ∷ _ ↦ ok (migration_id opening)
]

module _ {S : Type 0} (deep_equal : S → S → Bool) where
  schemas_equal : S → S → Bool
  schemas_equal left right = deep_equal left right

  replays_to : Option S → Option S → Bool
  unfolding schemas_equal
  replays_to none schema = false
  replays_to (some replayed) none = false
  replays_to (some replayed) (some schema) = schemas_equal replayed schema

  judge : ReplayedSlot S → Option S → Option ReplayFailure → SlotCheck S
  unfolding replays_to
  judge slot schema (some failure) = unreplayable slot failure
  judge slot schema none = if replays_to slot.schema schema then reproduces slot else mismatch slot

  pub check_slot : Option (ReplayedSlot S) → Option S → SlotCheck S
  unfolding judge
  check_slot none schema = unledgered no_lineage
  check_slot (some slot) schema = elim slot.broken_by [
    | some breaking ↦ unledgered (broken_lineage (migration_id breaking))
    | none ↦ judge slot schema slot.failure
  ]

  pub check_table_slot : ReplayedLedger S → String → Option S → SlotCheck S
  unfolding check_slot
  check_table_slot replay id schema = check_slot (Map.get replay.current_slots id) schema
