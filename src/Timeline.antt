-- ===== src/Timeline.antt =====
-- src/features/partial-changes/closure/table-id-timeline.ts: when a ledger changed which lineage has
-- a table id. The class is a record of its two maps. `-1`, the index before the first change, is the
-- bound 0 of the search with no change below it.
pub mod Search
pub mod Sorted
mod Tests
use revisium_engine.Base.{
  ℕ, zero, suc, ◌+◌, ◌/◌, String, Bool, true, false, Option, none, some, List, [], ◌∷◌, ◌++◌,
  length, get_elem?, Eq-String, ltb, if◌then◌else◌, ◌==◌,
}
use revisium_engine.Base.Map
use revisium_engine.Base.Map.{Map}
use revisium_engine.Base.Result.{Result, ok, throw, ◌>>=◌}
use revisium_engine.Rules.Messages.{join}
use revisium_engine.Ledger.{Migration, init, update, rename, remove, migration_id}
use revisium_engine.Slots.{TableSlots, TableSlot, table_slots, follow}
use revisium_engine.SlotCheck.{lineage_id_of}

pub record LedgerTableIdChange (S : Type 0) : Type 0 where
  pub migration : Migration S
  pub lineage : Option String
  pub position : ℕ

pub record TableIdTimeline (S : Type 0) : Type 0 where
  pub positions : Map String ℕ
  pub changes : Map String (List (LedgerTableIdChange S))

abbrev same_lineage : Option String → Option String → Bool
same_lineage none none = true
same_lineage none (some b) = false
same_lineage (some a) none = false
same_lineage (some a) (some b) = a == b

abbrev some_lineage : Result String → Result (Option String)
some_lineage (ok id) = ok (some id)
some_lineage (throw e) = throw e

module _ {S : Type 0} where
  table_ids_named_by : Migration S → List String
  table_ids_named_by (init i id schema) = id ∷ []
  table_ids_named_by (update i id patches) = id ∷ []
  table_ids_named_by (rename i id next) = id ∷ next ∷ []
  table_ids_named_by (remove i id) = id ∷ []

  -- An index of `current` is always in the list of slots, where the code has the object itself.
  lineage_holding : TableSlots S → String → Result (Option String)
  lineage_holding s id = elim (Map.get s.current id) [
    | none ↦ ok none
    | some k ↦ elim (get_elem? s.slots k) [
      | none ↦ ok none
      | some slot ↦ some_lineage (lineage_id_of slot)
    ]
  ]

  abbrev or_no_changes : Option (List (LedgerTableIdChange S)) → List (LedgerTableIdChange S)
  or_no_changes none = []
  or_no_changes (some changes) = changes

  -- `changes.at(-1)?.lineage`, where no change and no lineage are both `undefined`
  last_lineage : List (LedgerTableIdChange S) → Option String
  last_lineage [] = none
  last_lineage (change ∷ []) = change.lineage
  last_lineage (change ∷ next ∷ changes) = last_lineage (next ∷ changes)

  record_change : String → LedgerTableIdChange S → TableIdTimeline S → TableIdTimeline S
  unfolding last_lineage
  record_change id change t =
      let changes = or_no_changes (Map.get t.changes id) in
      if same_lineage (last_lineage changes) change.lineage
      then t
      else record t { changes = Map.set t.changes id (changes ++ change ∷ []) }

  record_changes :
      Migration S → ℕ → TableSlots S → List String → TableIdTimeline S → Result (TableIdTimeline S)
  unfolding lineage_holding record_change
  record_changes m position s [] t = ok t
  record_changes m position s (id ∷ ids) t = do
    lineage ← lineage_holding s id
    record_changes m position s ids
        (record_change id (record { migration = m; lineage = lineage; position = position }) t)

  timeline_from :
      List (Migration S) → ℕ → TableSlots S → TableIdTimeline S → Result (TableIdTimeline S)
  unfolding record_changes table_ids_named_by
  timeline_from [] position s t = ok t
  timeline_from (m ∷ ms) position s t = do
    let followed = (follow m s).1
    let placed = record t { positions = Map.set t.positions (migration_id m) position }
    recorded ← record_changes m position followed (table_ids_named_by m) placed
    timeline_from ms (suc position) followed recorded

  -- the constructor
  pub table_id_timeline : List (Migration S) → Result (TableIdTimeline S)
  unfolding timeline_from
  table_id_timeline ledger =
      timeline_from ledger 0 (table_slots []) (record { positions = []; changes = [] })

  pub position_of : TableIdTimeline S → Migration S → Result ℕ
  position_of t step = elim (Map.get t.positions (migration_id step)) [
    | none ↦ throw (join "" ("The ledger has no migration " ∷ migration_id step ∷ []))
    | some position ↦ ok position
  ]

  is_before : Option (LedgerTableIdChange S) → ℕ → Bool
  is_before none position = false
  is_before (some change) position = ltb change.position position

  -- the loop of `lastIndexBefore`
  pub search : ℕ → List (LedgerTableIdChange S) → ℕ → ℕ → ℕ → Option ℕ
  unfolding is_before
  search zero changes position low high = none
  search (suc n) changes position low high =
      let middle = (low + high) / 2 in
      let right = search n changes position (suc middle) high in
      let left = search n changes position low middle in
      if ltb low high
      then (if is_before (get_elem? changes middle) position then right else left)
      else some low

  -- the change at the index before a bound
  abbrev change_below : List (LedgerTableIdChange S) → Option ℕ → Option (LedgerTableIdChange S)
  change_below changes none = none
  change_below changes (some zero) = none
  change_below changes (some (suc i)) = get_elem? changes i

  pub bound_before : List (LedgerTableIdChange S) → ℕ → Option ℕ
  unfolding search
  bound_before changes position = search (suc (length changes)) changes position 0 (length changes)

  pub last_change_before :
      TableIdTimeline S → Migration S → String → Result (Option (LedgerTableIdChange S))
  unfolding position_of bound_before
  last_change_before t step id = do
    position ← position_of t step
    let changes = or_no_changes (Map.get t.changes id)
    ok (change_below changes (bound_before changes position))
