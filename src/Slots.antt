-- ===== src/Slots.antt =====
-- src/features/share/ledger-replay/table-slots.ts: which table each migration of a ledger is about.
-- A slot is an object that several places share, so it stands for its index in `slots`, and a write
-- to it is `modify` at that index. Methods return the new state beside their result.
pub mod Held
pub mod Follow
pub mod Steps
pub mod History
pub mod Broken
pub mod Trace
mod Tests
use revisium_engine.Base.{
  ℕ, String, Bool, true, false, Option, none, some, List, [], ◌∷◌, ◌++◌, length, get_elem?, modify,
  Eq-String, ◌==◌, ◌||◌,
}
use revisium_engine.Base.Map
use revisium_engine.Base.Map.{Map}
use revisium_engine.Ledger.{Migration, init, update, rename, remove, table_id}

pub record TableSlot (S : Type 0) : Type 0 where
  pub starting_table_id : Option String
  pub table_ids : List String
  pub migrations : List (Migration S)
  pub current_table_id : Option String
  pub broken_by : Option (Migration S)

pub record TableSlots (S : Type 0) : Type 0 where
  pub slots : List (TableSlot S)
  pub current : Map String ℕ

pub record SlotStep : Type 0 where
  pub slot : ℕ
  pub displaced : Option ℕ
  pub attributable : Bool

pub is_id : String → Option String → Bool
is_id id none = false
is_id id (some j) = j == id

module _ {S : Type 0} where
  abbrev empty : TableSlots S
  empty = record { slots = []; current = [] }

  -- `newSlot` of the fields that its three callers give
  pub new_slot :
      Option String → List (Migration S) → Option (Migration S) → TableSlots S → ℕ × TableSlots S
  new_slot starting migrations broken s = (
    length s.slots,
    record s {
      slots =
          s.slots
          ++ record {
            starting_table_id = starting;
            table_ids = [];
            migrations = migrations;
            current_table_id = none;
            broken_by = broken;
          }
            ∷ [];
    },
  )

  put_at : String → TableSlot S → TableSlot S
  put_at id t = record t { current_table_id = some id; table_ids = t.table_ids ++ id ∷ [] }

  pub place : ℕ → String → TableSlots S → TableSlots S
  unfolding put_at
  place k id s = record { slots = modify s.slots k (put_at id); current = Map.set s.current id k }

  -- `slot.currentTableId` of the slot at an index
  unfoldable pub held : TableSlots S → ℕ → Option String
  held s k = elim (get_elem? s.slots k) [ none ↦ none | some t ↦ t.current_table_id ]

  drop_current : TableSlot S → TableSlot S
  drop_current t = record t { current_table_id = none }

  pub vacate : ℕ → TableSlots S → TableSlots S
  unfolding held drop_current
  vacate k s = elim (held s k) [
    | none ↦ s
    | some id ↦ record { slots = modify s.slots k drop_current; current = Map.delete s.current id }
  ]

  break_slot : Migration S → TableSlot S → TableSlot S
  break_slot m t = elim t.broken_by [ none ↦ record t { broken_by = some m } | some _ ↦ t ]

  pub break_lineage : ℕ → Migration S → TableSlots S → TableSlots S
  unfolding break_slot
  break_lineage k m s = record s { slots = modify s.slots k (break_slot m) }

  break_both : Option ℕ → ℕ → Migration S → TableSlots S → TableSlots S
  unfolding vacate break_lineage
  break_both none k m s = s
  break_both (some d) k m s = break_lineage k m (break_lineage d m (vacate d s))

  pub occupy : ℕ → String → Migration S → TableSlots S → Option ℕ × TableSlots S
  unfolding break_both place
  occupy k id m s =
      let displaced = Map.get s.current id in
      (displaced, place k id (break_both displaced k m (vacate k s)))

  open_broken_slot : Migration S → TableSlots S → ℕ × TableSlots S
  unfolding new_slot place
  open_broken_slot m s =
      let (k, s') = new_slot none (m ∷ []) (some m) s in (k, place k (table_id m) s')

  push_migration : Migration S → TableSlot S → TableSlot S
  push_migration m t = record t { migrations = t.migrations ++ m ∷ [] }

  -- `appendToSlot`: the slot, and whether the migration is attributable to it
  pub append_to_slot : Migration S → TableSlots S → (ℕ × Bool) × TableSlots S
  unfolding push_migration open_broken_slot
  append_to_slot m s = elim (Map.get s.current (table_id m)) [
    | some k ↦ ((k, true), record s { slots = modify s.slots k (push_migration m) })
    | none ↦ let (k, s') = open_broken_slot m s in ((k, false), s')
  ]

  open_slot : Migration S → String → TableSlots S → SlotStep × TableSlots S
  unfolding new_slot occupy
  open_slot m id s =
      let (k, s₁) = new_slot none (m ∷ []) none s in
      let (displaced, s₂) = occupy k id m s₁ in
      (record { slot = k; displaced = displaced; attributable = true }, s₂)

  move_slot : Migration S → String → TableSlots S → SlotStep × TableSlots S
  unfolding append_to_slot occupy
  move_slot m next s =
      let ((k, attributable), s₁) = append_to_slot m s in
      let (displaced, s₂) = occupy k next m s₁ in
      (record { slot = k; displaced = displaced; attributable = attributable }, s₂)

  close_slot : Migration S → TableSlots S → SlotStep × TableSlots S
  unfolding append_to_slot vacate
  close_slot m s =
      let ((k, attributable), s₁) = append_to_slot m s in
      (record { slot = k; displaced = none; attributable = attributable }, vacate k s₁)

  update_slot : Migration S → TableSlots S → SlotStep × TableSlots S
  unfolding append_to_slot
  update_slot m s =
      let ((k, attributable), s₁) = append_to_slot m s in
      (record { slot = k; displaced = none; attributable = attributable }, s₁)

  unfoldable pub follow : Migration S → TableSlots S → SlotStep × TableSlots S
  unfolding open_slot move_slot close_slot update_slot
  follow (init i id s) = open_slot (init i id s) id
  follow (update i id ps) = update_slot (update i id ps)
  follow (rename i id next) = move_slot (rename i id next) next
  follow (remove i id) = close_slot (remove i id)

  start_at : String → TableSlots S → TableSlots S
  unfolding new_slot place
  start_at id s = let (k, s') = new_slot (some id) [] none s in place k id s'

  start_from : List String → TableSlots S → TableSlots S
  unfolding start_at
  start_from [] s = s
  start_from (id ∷ ids) s = start_from ids (start_at id s)

  -- the constructor
  unfoldable pub table_slots : List String → TableSlots S
  unfolding start_from
  table_slots ids = start_from ids empty

  pub follow_all : List (Migration S) → TableSlots S → TableSlots S
  unfolding follow
  follow_all [] s = s
  follow_all (m ∷ ms) s = follow_all ms (follow m s).1

  unfoldable pub trace_table_slots : List (Migration S) → List String → List (TableSlot S)
  unfolding follow_all table_slots
  trace_table_slots ledger ids = (follow_all ledger (table_slots ids)).slots

  unfoldable pub ledgered_table_id_of : TableSlot S → Option String
  ledgered_table_id_of t = elim t.broken_by [ some _ ↦ none | none ↦ t.current_table_id ]

  pub is_ledgered : List (TableSlot S) → String → Bool
  unfolding ledgered_table_id_of is_id
  is_ledgered [] id = false
  is_ledgered (t ∷ ts) id = is_id id (ledgered_table_id_of t) || is_ledgered ts id
