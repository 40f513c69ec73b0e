-- ===== src/Attribution.antt =====
-- src/features/share/ledger/pending-attribution.ts and
-- src/features/partial-changes/snapshot/ledger-attribution.ts: which table each pending migration of
-- a Draft is of. A slot carries its index, which stands for the object; a migration of an entry is
-- found by its id.
pub mod Owners
pub mod Groups
mod Tests
use revisium_engine.Base.{
  ℕ, zero, suc, String, Bool, true, false, Option, none, some, List, [], ◌∷◌, ◌++◌, length,
  Eq-String, Eq-ℕ, ltb, if◌then◌else◌, ◌==◌, ◌||◌, ◌&&◌, not, includes, add_all, is_some,
}
use revisium_engine.Base.Map
use revisium_engine.Base.Map.{Map}
use revisium_engine.Ledger.{Migration, migration_id}
use revisium_engine.Slots.{TableSlot, trace_table_slots}
use revisium_engine.Choice.{RevisionSide, head, draft}

pub data PendingSlotOwner : Type 0 where
  head_table draft_table : String → PendingSlotOwner
  transient no_owner : PendingSlotOwner

pub record AttributedSlot (S : Type 0) : Type 0 where
  pub index : ℕ
  pub slot : TableSlot S
  pub owner : PendingSlotOwner

pub data SlotOwner : Type 0 where
  table : String → SlotOwner
  transient no_owner : SlotOwner

-- an entry of a ledger: the version of its row, and the migration
record LedgerEntry (S : Type 0) : Type 0 where
  pub version_id : String
  pub migration : Migration S

-- the identity of a table and its public id on each side where it is
record TablePair : Type 0 where
  pub identity : String
  pub head_id : Option String
  pub draft_id : Option String

record TableHistory (S : Type 0) : Type 0 where
  pub table_ids : List String
  pub entries : List (LedgerEntry S)

-- the three groups of slots that `attribute` fills
pub record SlotGroups (S : Type 0) : Type 0 where
  pub table_slots : Map String (List (AttributedSlot S))
  pub transient_slots : List (AttributedSlot S)
  pub unattributable_slots : List (AttributedSlot S)

-- the part that `attribute` returns
record LedgerAttribution (S : Type 0) : Type 0 where
  pub tables : Map String (TableHistory S)
  pub transient_groups : List (TableHistory S)
  pub unattributable : List (LedgerEntry S)

abbrev id_on : RevisionSide → TablePair → Option String
id_on head pair = pair.head_id
id_on draft pair = pair.draft_id

abbrev set_identity : Map String String → Option String → String → Map String String
set_identity m none identity = m
set_identity m (some id) identity = Map.set m id identity

identities_from : RevisionSide → Map String String → List TablePair → Map String String
identities_from side m [] = m
identities_from side m (pair ∷ pairs) =
    identities_from side (set_identity m (id_on side pair) pair.identity) pairs

-- `identitiesByTableId`
identities_by_table_id : RevisionSide → List TablePair → Map String String
unfolding identities_from
identities_by_table_id side pairs = identities_from side [] pairs

abbrev pub keys_of : Map String String → List String
keys_of [] = []
keys_of ((key, value) ∷ m) = key ∷ keys_of m

abbrev table_owner : Option String → SlotOwner
table_owner none = SlotOwner.no_owner
table_owner (some identity) = table identity

-- the owner of a slot that no migration broke
abbrev whole_owner : Option String → Option String → (String → Bool) → PendingSlotOwner
whole_owner (some id) current in_draft = head_table id
whole_owner none none in_draft = transient
whole_owner none (some id) in_draft = if in_draft id then draft_table id else no_owner

pub identity_owner_of : Map String String → Map String String → PendingSlotOwner → SlotOwner
identity_owner_of heads drafts (head_table id) = table_owner (Map.get heads id)
identity_owner_of heads drafts (draft_table id) = table_owner (Map.get drafts id)
identity_owner_of heads drafts PendingSlotOwner.transient = SlotOwner.transient
identity_owner_of heads drafts PendingSlotOwner.no_owner = SlotOwner.no_owner

module _ {S : Type 0} where
  pub owner_of : TableSlot S → (String → Bool) → PendingSlotOwner
  owner_of slot in_draft = elim slot.broken_by [
    | some m ↦ no_owner
    | none ↦ whole_owner slot.starting_table_id slot.current_table_id in_draft
  ]

  pub attributed_from : ℕ → List (TableSlot S) → (String → Bool) → List (AttributedSlot S)
  unfolding owner_of
  attributed_from k [] in_draft = []
  attributed_from k (slot ∷ slots) in_draft =
      record { index = k; slot = slot; owner = owner_of slot in_draft }
      ∷ attributed_from (suc k) slots in_draft

  pub attribute_pending_ledger :
      List (Migration S) → List String → (String → Bool) → List (AttributedSlot S)
  unfolding attributed_from
  attribute_pending_ledger pending head_ids in_draft =
      attributed_from 0 (trace_table_slots pending head_ids) in_draft

  migrations_of : List (LedgerEntry S) → List (Migration S)
  migrations_of [] = []
  migrations_of (entry ∷ entries) = entry.migration ∷ migrations_of entries

  abbrev some_migrations : List (Migration S) → Bool
  some_migrations [] = false
  some_migrations (m ∷ ms) = true

  pub with_migrations : List (AttributedSlot S) → List (AttributedSlot S)
  with_migrations [] = []
  with_migrations (a ∷ l) =
      let rest = with_migrations l in if some_migrations a.slot.migrations then a ∷ rest else rest

  abbrev or_no_slots : Option (List (AttributedSlot S)) → List (AttributedSlot S)
  or_no_slots none = []
  or_no_slots (some l) = l

  append_to :
      Map String (List (AttributedSlot S))
      → String
      → AttributedSlot S
      → Map String (List (AttributedSlot S))
  append_to m identity a = Map.set m identity (or_no_slots (Map.get m identity) ++ a ∷ [])

  abbrev put_slot : SlotOwner → AttributedSlot S → SlotGroups S → SlotGroups S
  put_slot (table identity) a g = record g { table_slots = append_to g.table_slots identity a }
  put_slot SlotOwner.transient a g = record g { transient_slots = g.transient_slots ++ a ∷ [] }
  put_slot SlotOwner.no_owner a g = record g {
    unattributable_slots = g.unattributable_slots ++ a ∷ [];
  }

module _ {S : Type 0} (heads drafts : Map String String) where
  -- the loop of `attribute`
  pub group_slots : List (AttributedSlot S) → SlotGroups S → SlotGroups S
  unfolding identity_owner_of
  group_slots [] g = g
  group_slots (a ∷ l) g = group_slots l (put_slot (identity_owner_of heads drafts a.owner) a g)

module _ {S : Type 0} (pending : List (LedgerEntry S)) where
  ids_of_migrations : List (AttributedSlot S) → List String
  ids_of_migrations [] = []
  ids_of_migrations (a ∷ l) = ids_in a.slot.migrations ++ ids_of_migrations l
    where
      ids_in : List (Migration S) → List String
      ids_in [] = []
      ids_in (m ∷ ms) = migration_id m ∷ ids_in ms

  keep_entries : List String → List (LedgerEntry S) → List (LedgerEntry S)
  keep_entries ids [] = []
  keep_entries ids (entry ∷ entries) =
      let rest = keep_entries ids entries in
      if includes ids (migration_id entry.migration) then entry ∷ rest else rest

  entries_of : List (AttributedSlot S) → List (LedgerEntry S)
  unfolding keep_entries ids_of_migrations
  entries_of slots = keep_entries (ids_of_migrations slots) pending

  table_ids_in : List (AttributedSlot S) → List String
  table_ids_in [] = []
  table_ids_in (a ∷ l) = a.slot.table_ids ++ table_ids_in l

  history_of : List (AttributedSlot S) → TableHistory S
  unfolding entries_of table_ids_in
  history_of slots = record {
    table_ids = add_all [] (table_ids_in slots);
    entries = entries_of slots;
  }

  histories_by_table : Map String (List (AttributedSlot S)) → Map String (TableHistory S)
  unfolding history_of
  histories_by_table [] = []
  histories_by_table ((identity, slots) ∷ m) = (identity, history_of slots) ∷ histories_by_table m

  any_in : List String → List String → Bool
  any_in [] ids = false
  any_in (id ∷ rest) ids = includes ids id || any_in rest ids

  shares_table_id : List (AttributedSlot S) → AttributedSlot S → Bool
  unfolding any_in
  shares_table_id [] a = false
  shares_table_id (b ∷ group) a =
      any_in b.slot.table_ids a.slot.table_ids || shares_table_id group a

  -- the groups that a slot shares an id with, as one, and the others
  split_groups :
      List (List (AttributedSlot S))
      → AttributedSlot S
      → List (AttributedSlot S) × List (List (AttributedSlot S))
  unfolding shares_table_id
  split_groups [] a = ([], [])
  split_groups (group ∷ groups) a =
      let (sharing, separate) = split_groups groups a in
      if shares_table_id group a then (group ++ sharing, separate) else (sharing, group ∷ separate)

  grouped :
      List (AttributedSlot S) → List (List (AttributedSlot S)) → List (List (AttributedSlot S))
  unfolding split_groups
  grouped [] groups = groups
  grouped (a ∷ l) groups =
      let (sharing, separate) = split_groups groups a in
      grouped l (separate ++ (sharing ++ a ∷ []) ∷ [])

  has_index : List (AttributedSlot S) → ℕ → Bool
  has_index [] k = false
  has_index (a ∷ l) k = a.index == k || has_index l k

  slots_in : List (AttributedSlot S) → List (AttributedSlot S) → List (AttributedSlot S)
  unfolding has_index
  slots_in group [] = []
  slots_in group (a ∷ l) =
      let rest = slots_in group l in if has_index group a.index then a ∷ rest else rest

  group_by_table_ids : List (AttributedSlot S) → List (TableHistory S)
  unfolding grouped slots_in history_of
  group_by_table_ids slots = histories (grouped slots [])
    where
      histories : List (List (AttributedSlot S)) → List (TableHistory S)
      histories [] = []
      histories (group ∷ groups) = history_of (slots_in group slots) ∷ histories groups

-- `PendingAttribution.attribute`
attribute : {S : Type 0} → List TablePair → List (LedgerEntry S) → LedgerAttribution S
unfolding identities_by_table_id attribute_pending_ledger with_migrations migrations_of group_slots
    histories_by_table group_by_table_ids entries_of
attribute pairs pending =
    let heads = identities_by_table_id head pairs in
    let drafts = identities_by_table_id draft pairs in
    let slots = with_migrations (
      attribute_pending_ledger (migrations_of pending) (keys_of heads)
        (λ id. is_some (Map.get drafts id))) in
    let groups =
      group_slots heads drafts slots
        (record { table_slots = []; transient_slots = []; unattributable_slots = [] }) in
    record {
      tables = histories_by_table pending groups.table_slots;
      transient_groups = group_by_table_ids pending groups.transient_slots;
      unattributable = entries_of pending groups.unattributable_slots;
    }
