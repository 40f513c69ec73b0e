-- ===== src/Attribution/Tests.antt =====
-- The owners of the slots of a small pending ledger.
use revisium_engine.Base.{
  ℕ, String, List, length, none, some, [], ◌∷◌, ◌≡◌, refl, get_elem?, Eq-String, ◌==◌,
}
use revisium_engine.Base.Map
use revisium_engine.Base.Map.{Map}
use revisium_engine.Ledger.{Migration, init, rename, remove}
use revisium_engine.Slots.{TableSlot, trace_table_slots, table_slots}
use revisium_engine.Attribution.{
  owner_of, draft_table, AttributedSlot, SlotGroups, group_slots, with_migrations,
  attribute_pending_ledger,
}
use revisium_engine.Attribution.Owners.{draft_owner_unique}
use revisium_engine.Attribution.Groups.{in_drafts, no_groups}

abbrev opening : Migration ℕ
opening = init "m1" "tags" 1

abbrev tags : TableSlot ℕ
tags = record {
  starting_table_id = none;
  table_ids = "tags" ∷ [];
  migrations = opening ∷ [];
  current_table_id = some "tags";
  broken_by = none;
}

traced : get_elem? (trace_table_slots (opening ∷ []) ("users" ∷ [])) 1 ≡ some tags
unfolding trace_table_slots table_slots Map.get Map.set
traced = refl

owned_tags : owner_of tags (λ id. id == "tags") ≡ draft_table "tags"
unfolding owner_of
owned_tags = refl

draft_owner_unique_example : ◌≡◌ {A = ℕ} 1 1
draft_owner_unique_example =
    draft_owner_unique (λ id. id == "tags") (opening ∷ []) ("users" ∷ []) 1 1 tags tags "tags"
      (refl, tt) traced traced owned_tags owned_tags

-- A table that was renamed, one that was opened, and one that was opened and removed.
abbrev pending : List (Migration ℕ)
pending =
    opening ∷ rename "m2" "users" "people" ∷ init "m3" "temporary" 2 ∷ remove "m4" "temporary" ∷ []

abbrev heads : Map String String
heads = ("users", "t0") ∷ []

abbrev drafts : Map String String
drafts = ("people", "t0") ∷ ("tags", "t1") ∷ []

abbrev slots : List (AttributedSlot ℕ)
slots = with_migrations (attribute_pending_ledger pending ("users" ∷ []) (in_drafts drafts))

abbrev groups : SlotGroups ℕ
groups = group_slots heads drafts slots no_groups

one_transient : length groups.transient_slots ≡ 1
unfolding group_slots with_migrations attribute_pending_ledger trace_table_slots table_slots Map.get
    Map.set Map.delete
one_transient = refl
