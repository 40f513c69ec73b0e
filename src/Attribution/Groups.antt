-- ===== src/Attribution/Groups.antt =====
-- The groups that ledger-attribution.ts makes of the slots of a pending ledger, told by the slots.
use revisium_engine.Base.{
  String, Bool, false, Option, none, some, List, [], ◌∷◌, Eq-String, ◌==◌, ◌&&◌, not, is_some,
  if◌then◌else◌, ◌≡◌, All,
}
use revisium_engine.Base.Map
use revisium_engine.Base.Map.{Map}
use revisium_engine.Slots.{TableSlot}
use revisium_engine.Attribution.{AttributedSlot, SlotOwner, SlotGroups, identity_owner_of, owner_of}

module _ {S : Type 0} where
  abbrev pub slots_where : (TableSlot S → Bool) → List (AttributedSlot S) → List (AttributedSlot S)
  slots_where p [] = []
  slots_where p (a ∷ l) = let rest = slots_where p l in if p a.slot then a ∷ rest else rest

  -- A slot of a table that the pending ledger opened and removed again.
  abbrev pub is_gone : TableSlot S → Bool
  is_gone slot =
      not (is_some slot.broken_by)
      && (not (is_some slot.starting_table_id) && not (is_some slot.current_table_id))

abbrev pub no_groups : {S : Type 0} → SlotGroups S
no_groups = record { table_slots = []; transient_slots = []; unattributable_slots = [] }

-- whether the Draft has a table at the id
abbrev pub in_drafts : Map String String → String → Bool
in_drafts drafts id = is_some (Map.get drafts id)

module _ {S : Type 0} (heads drafts : Map String String) where
  -- The table that an unbroken slot is of: the one that Head has at the id from which the slot
  -- started, or, if the pending ledger opened the slot, the one that the Draft has at its id.
  abbrev pub table_of : TableSlot S → Option String
  table_of slot = elim slot.broken_by [
    | some m ↦ none
    | none ↦ elim slot.starting_table_id [
      | some id ↦ Map.get heads id
      | none ↦ elim slot.current_table_id [ none ↦ none | some id ↦ Map.get drafts id ]
    ]
  ]

  abbrev pub is_of : String → TableSlot S → Bool
  is_of identity slot = elim (table_of slot) [ none ↦ false | some other ↦ other == identity ]

  abbrev pub is_of_none : TableSlot S → Bool
  is_of_none slot = not (is_gone slot) && not (is_some (table_of slot))

  abbrev owner_at : TableSlot S → SlotOwner
  owner_at slot = identity_owner_of heads drafts (owner_of slot (in_drafts drafts))

  abbrev AreAttributed : List (AttributedSlot S) → Type 0
  AreAttributed l = All (λ a. a.owner ≡ owner_of a.slot (in_drafts drafts)) l
