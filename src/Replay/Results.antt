-- ===== src/Replay/Results.antt =====
-- The maps of a replayed ledger, in terms of the slots: each is read at an id exactly as the slot
-- that holds the id says.
use revisium_engine.Base.{
  ℕ, zero, suc, ◌+◌, String, Option, none, some, List, [], ◌∷◌, Eq-String, ◌≡◌, ◌↔◌, refl, ◌∙◌, sym,
  ap, arith, Option-cases, inl, inr, get_elem?, some_inj,
}
use revisium_engine.Base.Map
use revisium_engine.Base.Map.{Map, get-nil}
use revisium_engine.Base.Loops.{OnlyValue, set_entries, set_entries-found, set_entries-origin}
use revisium_engine.Slots.{TableSlot, held}
use revisium_engine.Slots.Held.{Coherent}
use revisium_engine.Replay.State.{LedgerReplay, ReplayFailure, failure_at}
use revisium_engine.Replay.Run.{ReplayedSlot, replayed_slot, replayed_slots, result}
use revisium_engine.Replay.Entries.{
  current_entry, schema_entry, failure_entry, current_slots_of-loop, schemas_of-loop,
  unreplayable_of-loop, named_current, current_named, named_schema, schema_named, named_failure,
  failure_named,
}

sym_zero : (n : ℕ) → n ≡ n + 0
sym_zero n = omega arith

next_suc : (n i : ℕ) → n + suc i ≡ suc n + i
next_suc n i = omega arith

module _ {S : Type 0} where
  get_elem?-replayed_slots :
      (r : LedgerReplay S) (n : ℕ) (slots : List (TableSlot S)) (i : ℕ) (t : TableSlot S)
      → get_elem? slots i ≡ some t
      → get_elem? (replayed_slots r n slots) i ≡ some (replayed_slot r (n + i) t)
  unfolding replayed_slots
  get_elem?-replayed_slots r n [] i t e = cc
  get_elem?-replayed_slots r n (slot ∷ slots) zero t e =
      ap (λ k. some (replayed_slot r k slot)) (sym_zero n)
      ∙ ap (λ x. some (replayed_slot r (n + 0) x)) (some_inj {a = slot} {b = t} e)
  get_elem?-replayed_slots r n (slot ∷ slots) (suc i) t e =
      get_elem?-replayed_slots r (suc n) slots i t e
      ∙ ap (λ k. some (replayed_slot r k t)) (sym (next_suc n i))

  replayed_slots-none :
      (r : LedgerReplay S) (n : ℕ) (slots : List (TableSlot S)) (i : ℕ)
      → get_elem? slots i ≡ none
      → get_elem? (replayed_slots r n slots) i ≡ none
  unfolding replayed_slots
  replayed_slots-none r n [] i e = refl
  replayed_slots-none r n (slot ∷ slots) zero e = cc
  replayed_slots-none r n (slot ∷ slots) (suc i) e = replayed_slots-none r (suc n) slots i e

  slot-replayed_slot :
      (r : LedgerReplay S) (k : ℕ) (slot : TableSlot S) → (replayed_slot r k slot).slot ≡ slot
  unfolding replayed_slot
  slot-replayed_slot r k slot = elim (Option-cases (failure_at k r)) [
    | inl nothing ↦ ground arith
    | inr (f, e) ↦ ground arith
  ]

  abbrev all_slots : LedgerReplay S → List (ReplayedSlot S)
  all_slots r = replayed_slots r 0 r.table_slots.slots

  held_of_replayed :
      (r : LedgerReplay S) (i : ℕ) (a : ReplayedSlot S)
      → get_elem? (all_slots r) i ≡ some a
      → held r.table_slots i ≡ a.current_table_id
  unfolding held
  held_of_replayed r i a e = elim (Option-cases (get_elem? r.table_slots.slots i)) [
    | inl nothing ↦ ground (arith, replayed_slots-none r 0 r.table_slots.slots i nothing)
    | inr (t, g) ↦
        ground
          (arith, get_elem?-replayed_slots r 0 r.table_slots.slots i t g, slot-replayed_slot r i t)
  ]

  module _ {V : Type 0} (entry : ReplayedSlot S → Option (String × V))
      (names : (a : ReplayedSlot S) (id : String) (w : V)
        → entry a ≡ some (id, w)
        → a.current_table_id ≡ some id) where
    loop_only :
        (r : LedgerReplay S) (id : String) (i : ℕ) (a : ReplayedSlot S) (v : V)
        → Coherent r.table_slots
        → get_elem? (all_slots r) i ≡ some a
        → entry a ≡ some (id, v)
        → OnlyValue entry (all_slots r) id v
    loop_only r id i a v c g e j b w g' e' =
        let h = (c id i).1 (held_of_replayed r i a g ∙ names a id v e) in
        let h' = (c id j).1 (held_of_replayed r j b g' ∙ names b id w e') in
        let same = some_inj {a = i} {b = j} (sym h ∙ h') in ground arith

    loop_iff :
        (r : LedgerReplay S) (id : String) (v : V)
        → Coherent r.table_slots
        → (Map.get (set_entries entry [] (all_slots r)) id ≡ some v) ↔ (
            (k : ℕ) × (a : ReplayedSlot S) × (Map.get r.table_slots.current id ≡ some k)
            × (get_elem? (all_slots r) k ≡ some a)
            × (entry a ≡ some (id, v)))
    loop_iff r id v c = (
      λ h. elim (set_entries-origin entry [] (all_slots r) id v h) [
        | inl was ↦ ground (arith, get-nil {V = V} id)
        | inr (i, a, g, e) ↦ (i, a, (c id i).1 (held_of_replayed r i a g ∙ names a id v e), g, e)
      ],
      λ (k, a, g, e, x).
          set_entries-found entry [] (all_slots r) id v k a (loop_only r id k a v c e x) e x,
    )

  -- When the slots and the map `current` agree, the result has a slot under an id in its
  -- `current_slots` exactly when it is the replayed slot at the index that the map has for the id.
  pub result-current_slots :
      (r : LedgerReplay S) (id : String) (slot : ReplayedSlot S)
      → Coherent r.table_slots
      → (Map.get (result r).current_slots id ≡ some slot) ↔ (
          (k : ℕ) × (Map.get r.table_slots.current id ≡ some k)
          × (get_elem? (result r).slots k ≡ some slot))
  unfolding result
  result-current_slots r id slot c = (
    λ h.
        let (k, a, g, e, x) =
          (loop_iff current_entry (λ a j w e. (named_current a j w e).0) r id slot c).0
            (sym (ap (λ m. Map.get m id) (current_slots_of-loop [] (all_slots r))) ∙ h) in
        let (n, same) = named_current a id slot x in (k, g, e ∙ ap some (sym same)),
    λ (k, g, e).
        let held_id = sym (held_of_replayed r k slot e) ∙ (c id k).0 g in
        ap (λ m. Map.get m id) (current_slots_of-loop [] (all_slots r))
        ∙ (loop_iff current_entry (λ a j w e. (named_current a j w e).0) r id slot c).1
            (k, slot, g, e, current_named slot id held_id),
  )

  -- When the slots and the map `current` agree, the result has a schema under an id exactly when
  -- the replayed slot that the map has for the id is unbroken, has no failure and has this schema.
  pub result-schemas :
      (r : LedgerReplay S) (id : String) (schema : S)
      → Coherent r.table_slots
      → (Map.get (result r).schemas id ≡ some schema) ↔ (
          (k : ℕ) × (slot : ReplayedSlot S) × (Map.get r.table_slots.current id ≡ some k)
          × (get_elem? (result r).slots k ≡ some slot)
          × (slot.broken_by ≡ none)
          × (slot.failure ≡ none)
          × (slot.schema ≡ some schema))
  unfolding result
  result-schemas r id schema c = (
    λ h.
        let (k, a, g, e, x) =
          (loop_iff schema_entry (λ a j w e. (named_schema a j w e).0) r id schema c).0
            (sym (ap (λ m. Map.get m id) (schemas_of-loop [] (all_slots r))) ∙ h) in
        let (n, b, f, y) = named_schema a id schema x in (k, a, g, e, b, f, y),
    λ (k, a, g, e, b, f, x).
        let held_id = sym (held_of_replayed r k a e) ∙ (c id k).0 g in
        ap (λ m. Map.get m id) (schemas_of-loop [] (all_slots r))
        ∙ (loop_iff schema_entry (λ a j w e. (named_schema a j w e).0) r id schema c).1
            (k, a, g, e, schema_named a id schema held_id b f x),
  )

  -- When the slots and the map `current` agree, the result names a failure under an id exactly when
  -- the replayed slot that the map has for the id is unbroken and has this failure.
  pub result-unreplayable :
      (r : LedgerReplay S) (id : String) (failure : ReplayFailure)
      → Coherent r.table_slots
      → (Map.get (result r).unreplayable id ≡ some failure) ↔ (
          (k : ℕ) × (slot : ReplayedSlot S) × (Map.get r.table_slots.current id ≡ some k)
          × (get_elem? (result r).slots k ≡ some slot)
          × (slot.broken_by ≡ none)
          × (slot.failure ≡ some failure))
  unfolding result
  result-unreplayable r id failure c = (
    λ h.
        let (k, a, g, e, x) =
          (loop_iff failure_entry (λ a j w e. (named_failure a j w e).0) r id failure c).0
            (sym (ap (λ m. Map.get m id) (unreplayable_of-loop [] (all_slots r))) ∙ h) in
        let (n, b, f) = named_failure a id failure x in (k, a, g, e, b, f),
    λ (k, a, g, e, b, f).
        let held_id = sym (held_of_replayed r k a e) ∙ (c id k).0 g in
        ap (λ m. Map.get m id) (unreplayable_of-loop [] (all_slots r))
        ∙ (loop_iff failure_entry (λ a j w e. (named_failure a j w e).0) r id failure c).1
            (k, a, g, e, failure_named a id failure held_id b f),
  )
