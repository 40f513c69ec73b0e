-- ===== src/Replay/Entries.antt =====
-- What the loops over the replayed slots set in the maps of a replayed ledger.
use revisium_engine.Base.{
  String, Option, none, some, List, [], ◌∷◌, Eq-String, ◌≡◌, refl, ◌∙◌, ap, arith, Option-cases,
  inl, inr,
}
use revisium_engine.Base.Map.{Map}
use revisium_engine.Base.Loops.{set_entry, set_entries}
use revisium_engine.Slots.{ledgered_table_id_of}
use revisium_engine.Replay.State.{ReplayFailure}
use revisium_engine.Replay.Run.{
  ReplayedSlot, set_current, set_schema_of, set_failure_of, current_slots_of, schemas_of,
  unreplayable_of,
}

abbrev failure_entry_at : Option String → Option ReplayFailure → Option (String × ReplayFailure)
failure_entry_at none failure = none
failure_entry_at (some id) none = none
failure_entry_at (some id) (some failure) = some (id, failure)

module _ {S : Type 0} where
  abbrev schema_entry_at : Option String → Option ReplayFailure → Option S → Option (String × S)
  schema_entry_at none failure schema = none
  schema_entry_at (some id) (some failure) schema = none
  schema_entry_at (some id) none none = none
  schema_entry_at (some id) none (some schema) = some (id, schema)

  -- What each of the three loops sets for a slot.
  abbrev pub current_entry : ReplayedSlot S → Option (String × ReplayedSlot S)
  current_entry slot = elim slot.current_table_id [ none ↦ none | some id ↦ some (id, slot) ]

  abbrev pub schema_entry : ReplayedSlot S → Option (String × S)
  schema_entry slot = schema_entry_at (ledgered_table_id_of slot.slot) slot.failure slot.schema

  abbrev pub failure_entry : ReplayedSlot S → Option (String × ReplayFailure)
  failure_entry slot = failure_entry_at (ledgered_table_id_of slot.slot) slot.failure

  current_step :
      (m : Map String (ReplayedSlot S)) (slot : ReplayedSlot S)
      → set_current m slot ≡ set_entry current_entry m (current_entry slot)
  unfolding set_current
  current_step m slot = elim (Option-cases slot.current_table_id) [
    | inl nothing ↦ ground arith
    | inr (id, e) ↦ ground arith
  ]

  schema_step :
      (m : Map String S) (at : Option String) (slot : ReplayedSlot S)
      → set_schema_of m at slot
        ≡ set_entry schema_entry m (schema_entry_at at slot.failure slot.schema)
  unfolding set_schema_of
  schema_step m none slot = refl
  schema_step m (some id) slot = elim (Option-cases slot.failure) [
    | inl nothing ↦ elim (Option-cases slot.schema) [
      | inl unknown ↦ ground arith
      | inr (schema, e) ↦ ground arith
    ]
    | inr (failure, e) ↦ ground arith
  ]

  failure_step :
      (m : Map String ReplayFailure) (at : Option String) (slot : ReplayedSlot S)
      → set_failure_of m at slot ≡ set_entry failure_entry m (failure_entry_at at slot.failure)
  unfolding set_failure_of
  failure_step m none slot = refl
  failure_step m (some id) slot = elim (Option-cases slot.failure) [
    | inl nothing ↦ ground arith
    | inr (failure, e) ↦ ground arith
  ]

  pub current_slots_of-loop :
      (m : Map String (ReplayedSlot S)) (l : List (ReplayedSlot S))
      → current_slots_of m l ≡ set_entries current_entry m l
  unfolding current_slots_of set_entries
  current_slots_of-loop m [] = refl
  current_slots_of-loop m (slot ∷ l) =
      ap (λ n. current_slots_of n l) (current_step m slot)
      ∙ current_slots_of-loop (set_entry current_entry m (current_entry slot)) l

  pub schemas_of-loop :
      (m : Map String S) (l : List (ReplayedSlot S)) → schemas_of m l ≡ set_entries schema_entry m l
  unfolding schemas_of set_entries
  schemas_of-loop m [] = refl
  schemas_of-loop m (slot ∷ l) =
      ap (λ n. schemas_of n l) (schema_step m (ledgered_table_id_of slot.slot) slot)
      ∙ schemas_of-loop (set_entry schema_entry m (schema_entry slot)) l

  pub unreplayable_of-loop :
      (m : Map String ReplayFailure) (l : List (ReplayedSlot S))
      → unreplayable_of m l ≡ set_entries failure_entry m l
  unfolding unreplayable_of set_entries
  unreplayable_of-loop m [] = refl
  unreplayable_of-loop m (slot ∷ l) =
      ap (λ n. unreplayable_of n l) (failure_step m (ledgered_table_id_of slot.slot) slot)
      ∙ unreplayable_of-loop (set_entry failure_entry m (failure_entry slot)) l

  pub named_current :
      (a : ReplayedSlot S) (id : String) (w : ReplayedSlot S)
      → current_entry a ≡ some (id, w)
      → (a.current_table_id ≡ some id) × (w ≡ a)
  named_current a id w e = elim (Option-cases a.current_table_id) [
    | inl nothing ↦ ground arith
    | inr (j, g) ↦ ground arith
  ]

  pub current_named :
      (a : ReplayedSlot S) (id : String)
      → a.current_table_id ≡ some id
      → current_entry a ≡ some (id, a)
  current_named a id g = ground arith

  pub named_schema :
      (a : ReplayedSlot S) (id : String) (schema : S)
      → schema_entry a ≡ some (id, schema)
      → (a.current_table_id ≡ some id)
        × (a.broken_by ≡ none)
        × (a.failure ≡ none)
        × (a.schema ≡ some schema)
  unfolding ledgered_table_id_of
  named_schema a id schema e = elim (Option-cases a.broken_by) [
    | inr (m, b) ↦ ground arith
    | inl whole ↦ elim (Option-cases a.current_table_id) [
      | inl nothing ↦ ground arith
      | inr (j, g) ↦ elim (Option-cases a.failure) [
        | inr (f, h) ↦ ground arith
        | inl clean ↦ elim (Option-cases a.schema) [
          | inl unknown ↦ ground arith
          | inr (t, h) ↦ ground arith
        ]
      ]
    ]
  ]

  pub schema_named :
      (a : ReplayedSlot S) (id : String) (schema : S)
      → a.current_table_id ≡ some id
      → a.broken_by ≡ none
      → a.failure ≡ none
      → a.schema ≡ some schema
      → schema_entry a ≡ some (id, schema)
  unfolding ledgered_table_id_of
  schema_named a id schema g b f e = ground arith

  pub named_failure :
      (a : ReplayedSlot S) (id : String) (failure : ReplayFailure)
      → failure_entry a ≡ some (id, failure)
      → (a.current_table_id ≡ some id) × (a.broken_by ≡ none) × (a.failure ≡ some failure)
  unfolding ledgered_table_id_of
  named_failure a id failure e = elim (Option-cases a.broken_by) [
    | inr (m, b) ↦ ground arith
    | inl whole ↦ elim (Option-cases a.current_table_id) [
      | inl nothing ↦ ground arith
      | inr (j, g) ↦ elim (Option-cases a.failure) [
        | inl clean ↦ ground arith
        | inr (f, h) ↦ ground arith
      ]
    ]
  ]

  pub failure_named :
      (a : ReplayedSlot S) (id : String) (failure : ReplayFailure)
      → a.current_table_id ≡ some id
      → a.broken_by ≡ none
      → a.failure ≡ some failure
      → failure_entry a ≡ some (id, failure)
  unfolding ledgered_table_id_of
  failure_named a id failure g b f = ground arith
