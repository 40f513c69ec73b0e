-- ===== src/Attribution/Owners.antt =====
-- Each slot goes to the group of its owner, and a table of the Draft owns one slot at most.
use revisium_engine.Base.{
  ℕ, String, Bool, true, false, some, List, [], ◌∷◌, ◌++◌, get_elem?, Eq-String, ◌==◌,
  if◌then◌else◌, ◌≡◌, refl, sym, ◌∙◌, ap, arith, Bool-cases, Option-cases, inl, inr, some_inj,
  IsDistinct,
}
use mathlib.Core.List.{append-nil, append_assoc}
use text.Mathlib.TextEquality.{eq_iff}
use revisium_engine.Base.Map
use revisium_engine.Base.Map.{Map, get-set}
use revisium_engine.Ledger.{Migration}
use revisium_engine.Slots.{TableSlot, table_slots, trace_table_slots, held}
use revisium_engine.Slots.Trace.{table_slots-Coherent, follow_all-Coherent}
use revisium_engine.Attribution.{
  AttributedSlot, SlotOwner, table, SlotGroups, draft_table, or_no_slots, append_to, put_slot,
  group_slots, identity_owner_of, owner_of,
}

-- Whether an owner is the table of an identity, none (of a slot that is gone), or missing.
abbrev pub is_table : String → SlotOwner → Bool
is_table identity (table other) = other == identity
is_table identity SlotOwner.transient = false
is_table identity SlotOwner.no_owner = false

abbrev pub is_transient : SlotOwner → Bool
is_transient (table other) = false
is_transient SlotOwner.transient = true
is_transient SlotOwner.no_owner = false

abbrev pub is_missing : SlotOwner → Bool
is_missing (table other) = false
is_missing SlotOwner.transient = false
is_missing SlotOwner.no_owner = true

module _ {S : Type 0} (heads drafts : Map String String) where
  -- The slots whose owner passes a test, in order.
  abbrev pub owned : (SlotOwner → Bool) → List (AttributedSlot S) → List (AttributedSlot S)
  owned p [] = []
  owned p (a ∷ l) =
      let rest = owned p l in if p (identity_owner_of heads drafts a.owner) then a ∷ rest else rest

  -- What the loop adds to each group of slots.
  abbrev pub Grouped : List (AttributedSlot S) → SlotGroups S → SlotGroups S → Type 0
  Grouped l g g' =
      ((identity : String)
        → or_no_slots (Map.get g'.table_slots identity)
          ≡ or_no_slots (Map.get g.table_slots identity) ++ owned (is_table identity) l)
      × (g'.transient_slots ≡ g.transient_slots ++ owned is_transient l)
      × (g'.unattributable_slots ≡ g.unattributable_slots ++ owned is_missing l)

  put-tables :
      (o : SlotOwner) (a : AttributedSlot S) (g : SlotGroups S) (identity : String)
      → or_no_slots (Map.get (put_slot o a g).table_slots identity) ≡ (
          if is_table identity o
          then or_no_slots (Map.get g.table_slots identity) ++ a ∷ []
          else or_no_slots (Map.get g.table_slots identity))
  unfolding append_to
  put-tables (table other) a g identity = elim (Bool-cases (other == identity)) [
    | inl same ↦ ground (
      arith,
      get-set g.table_slots other identity (or_no_slots (Map.get g.table_slots other) ++ a ∷ []),
      ap (λ i. or_no_slots (Map.get g.table_slots i) ++ a ∷ []) ((eq_iff other identity).0 same),
    )
    | inr different ↦ ground (
      arith,
      get-set g.table_slots other identity (or_no_slots (Map.get g.table_slots other) ++ a ∷ []),
    )
  ]
  put-tables SlotOwner.transient a g identity = refl
  put-tables SlotOwner.no_owner a g identity = refl

  put-transient :
      (o : SlotOwner) (a : AttributedSlot S) (g : SlotGroups S)
      → (put_slot o a g).transient_slots
        ≡ (if is_transient o then g.transient_slots ++ a ∷ [] else g.transient_slots)
  put-transient (table other) a g = refl
  put-transient SlotOwner.transient a g = refl
  put-transient SlotOwner.no_owner a g = refl

  put-missing :
      (o : SlotOwner) (a : AttributedSlot S) (g : SlotGroups S)
      → (put_slot o a g).unattributable_slots
        ≡ (if is_missing o then g.unattributable_slots ++ a ∷ [] else g.unattributable_slots)
  put-missing (table other) a g = refl
  put-missing SlotOwner.transient a g = refl
  put-missing SlotOwner.no_owner a g = refl

  pub group_slots-Grouped :
      (l : List (AttributedSlot S)) (g : SlotGroups S) → Grouped l g (group_slots heads drafts l g)
  unfolding group_slots
  group_slots-Grouped [] g =
      (λ identity. sym (append-nil _), sym (append-nil _), sym (append-nil _))
  group_slots-Grouped (a ∷ l) g =
      let o = identity_owner_of heads drafts a.owner in
      let (tables, transients, missing) = group_slots-Grouped l (put_slot o a g) in
      (
        λ identity. ground (
          arith,
          tables identity,
          put-tables o a g identity,
          append_assoc (or_no_slots (Map.get g.table_slots identity)) (a ∷ [])
              (owned (is_table identity) l),
        ),
        ground (
          arith,
          transients,
          put-transient o a g,
          append_assoc g.transient_slots (a ∷ []) (owned is_transient l),
        ),
        ground (
          arith,
          missing,
          put-missing o a g,
          append_assoc g.unattributable_slots (a ∷ []) (owned is_missing l),
        ),
      )

module _ {S : Type 0} (in_draft : String → Bool) where
  -- A slot that a table of the Draft owns has the table's id.
  owner-draft_table :
      (slot : TableSlot S) (id : String)
      → owner_of slot in_draft ≡ draft_table id
      → slot.current_table_id ≡ some id
  unfolding owner_of
  owner-draft_table slot id h = elim (Option-cases slot.broken_by) [
    | inr (m, b) ↦ ground arith
    | inl whole ↦ elim (Option-cases slot.starting_table_id) [
      | inr (start, s) ↦ ground arith
      | inl opened ↦ elim (Option-cases slot.current_table_id) [
        | inl closed ↦ ground arith
        | inr (current, c) ↦ elim (Bool-cases (in_draft current)) [
          | inl there ↦ ground arith
          | inr missing ↦ ground arith
        ]
      ]
    ]
  ]

  -- Two slots of a pending ledger that one table of the Draft owns are one slot, when the table ids
  -- of Head are distinct.
  pub draft_owner_unique :
      (pending : List (Migration S)) (head_ids : List String) (i j : ℕ) (a b : TableSlot S)
      (id : String)
      → IsDistinct head_ids
      → get_elem? (trace_table_slots pending head_ids) i ≡ some a
      → get_elem? (trace_table_slots pending head_ids) j ≡ some b
      → owner_of a in_draft ≡ draft_table id
      → owner_of b in_draft ≡ draft_table id
      → i ≡ j
  unfolding trace_table_slots held
  draft_owner_unique pending head_ids i j a b id d g h p q =
      let c =
        follow_all-Coherent pending (table_slots head_ids) (table_slots-Coherent S head_ids d) in
      let at_i = (c id i).1 (ground (arith, owner-draft_table a id p)) in
      let at_j = (c id j).1 (ground (arith, owner-draft_table b id q)) in some_inj (sym at_i ∙ at_j)
