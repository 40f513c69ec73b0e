-- ===== src/Replay/Start.antt =====
-- A replay starts with the foreign keys of the schemas that it is given.
use revisium_engine.Base.{
  ℕ, ◌<◌, String, Bool, true, none, some, List, [], ◌∷◌, Eq-String, Eq-ℕ, ◌≡◌, ◌∙◌, sym, ap, arith,
  Option-cases, inl, inr, nat_eq, nat_eq_iff, includes, length, is_some, IsDistinct, Bool-cases,
}
use revisium_engine.Base.Map
use revisium_engine.Base.Map.{Map, AllValues, get-set, get-nil}
use revisium_engine.Ledger.{Migration}
use revisium_engine.Slots.{table_slots}
use revisium_engine.Slots.Trace.{table_slots-Coherent, table_slots-keeps, table_slots-InRange}
use revisium_engine.Rules.{Toolkit, foreign_keys_of}
use revisium_engine.Rules.Renaming.{RenamesForeignKeys}
use revisium_engine.Replay.State.{SlotSchema, schema_of}
use revisium_engine.Replay.Run.{start_schemas, keys, ledger_replay, apply_all}
use revisium_engine.Replay.Integrity.{Integrity}
use revisium_engine.Replay.Consistency.{IsClean, apply_all-Integrity}

module _ {S : Type 0} (schemas : Map String S) where
  -- An entry that the constructor makes.
  record IsStart (n k : ℕ) (entry : SlotSchema S) : Type 0 where
    pub room : k < n
    pub clean : entry.failure ≡ none
    pub given : (s : S) → entry.schema ≡ some s → (id : String) × (Map.get schemas id ≡ some s)

  start_schemas-IsStart :
      (n : ℕ) (entries : List (String × ℕ)) (m : Map ℕ (SlotSchema S))
      → AllValues (λ k. k < n) entries
      → ((k : ℕ) (entry : SlotSchema S) → Map.get m k ≡ some entry → IsStart n k entry)
      → (k : ℕ) (entry : SlotSchema S) → Map.get (start_schemas schemas entries m) k ≡ some entry
      → IsStart n k entry
  unfolding start_schemas
  start_schemas-IsStart n [] m a h k entry g = h k entry g
  start_schemas-IsStart n ((id, j) ∷ entries) m a h k entry g =
      let first : SlotSchema S = record { schema = Map.get schemas id; failure = none } in
      start_schemas-IsStart n entries (Map.set m j first) a.1
        (λ i e got. elim (Bool-cases (nat_eq j i)) [
          | inl here ↦
              let same : e ≡ first = ground (arith, get-set m j i first) in
              record {
                room = omega (arith, (nat_eq_iff j i).0 here, a.0);
                clean = ap (λ (x : SlotSchema S). x.failure) same;
                given = λ s is. (id, sym (ap (λ (x : SlotSchema S). x.schema) same) ∙ is);
              }
          | inr elsewhere ↦ h i e (ground (arith, get-set m j i first))
        ])
        k entry g

  started_entries :
      (trail : Bool) (k : ℕ) (entry : SlotSchema S)
      → Map.get (ledger_replay schemas trail).slot_schemas k ≡ some entry
      → IsStart (length (ledger_replay schemas trail).table_slots.slots) k entry
  unfolding ledger_replay
  started_entries trail k entry g =
      let slots = table_slots {S = S} (keys schemas) in
      start_schemas-IsStart (length slots.slots) slots.current []
        (table_slots-InRange S (keys schemas)) (λ k' e got. cc (get-nil {V = SlotSchema S} k')) k
        entry g

  started_schema :
      (trail : Bool) (k : ℕ) (s : S)
      → schema_of k (ledger_replay schemas trail) ≡ some s
      → (k < length (ledger_replay schemas trail).table_slots.slots)
        × ((id : String) × (Map.get schemas id ≡ some s))
  unfolding schema_of
  started_schema trail k s h =
      elim (Option-cases (Map.get (ledger_replay schemas trail).slot_schemas k)) [
        | inl nothing ↦ absurd (ground arith)
        | inr (entry, e) ↦
            let made = started_entries trail k entry e in (made.room, made.given s (ground arith))
      ]

module _ {S : Type 0} (toolkit : Toolkit S) where
  -- The foreign keys of the given schemas are among their tables.
  abbrev pub AreClosed : Map String S → Type 0
  AreClosed schemas =
      (id : String) (s : S) (t : String)
      → Map.get schemas id ≡ some s
      → includes (foreign_keys_of toolkit s) t ≡ true
      → includes (keys schemas) t ≡ true

  ledger_replay-Integrity :
      (schemas : Map String S) (trail : Bool)
      → IsDistinct (keys schemas)
      → AreClosed schemas
      → Integrity toolkit (ledger_replay schemas trail)
  ledger_replay-Integrity schemas trail d h = record {
    coherent = unfold ledger_replay in table_slots-Coherent S (keys schemas) d;
    sized = λ k s e. (started_schema schemas trail k s e).0;
    closed = λ id k s t g e i.
        let (_, found) = started_schema schemas trail k s e in
        let (x, given) = found in
        unfold ledger_replay in table_slots-keeps S (keys schemas) t (h x s t given i);
  }

  -- A replay over distinct table ids, from schemas whose foreign keys are among these ids, with a
  -- toolkit that renames foreign keys, and without a failure at any slot, leaves a coherent state: the
  -- slots and the map of current ids agree, the slots with schemas are slots of the list, and the
  -- schemas of current tables reference current tables.
  pub replay-Integrity :
      (laws : RenamesForeignKeys toolkit) (ledger : List (Migration S)) (schemas : Map String S)
      (trail : Bool)
      → IsDistinct (keys schemas)
      → AreClosed schemas
      → IsClean (apply_all toolkit ledger (ledger_replay schemas trail))
      → Integrity toolkit (apply_all toolkit ledger (ledger_replay schemas trail))
  replay-Integrity laws ledger schemas trail d h clean =
      apply_all-Integrity toolkit laws ledger (ledger_replay schemas trail)
        (ledger_replay-Integrity schemas trail d h) clean

  -- A replay over distinct table ids, from schemas whose foreign keys are among these ids, with a
  -- toolkit that renames foreign keys, and without a failure at any slot: whatever table the schema
  -- of a current table references is current as well.
  pub replay_consistent :
      (laws : RenamesForeignKeys toolkit) (ledger : List (Migration S)) (schemas : Map String S)
      (trail : Bool)
      → IsDistinct (keys schemas)
      → AreClosed schemas
      → IsClean (apply_all toolkit ledger (ledger_replay schemas trail))
      → (id : String) (k : ℕ) (s : S) (t : String)
      → Map.get (apply_all toolkit ledger (ledger_replay schemas trail)).table_slots.current id
        ≡ some k
      → schema_of k (apply_all toolkit ledger (ledger_replay schemas trail)) ≡ some s
      → includes (foreign_keys_of toolkit s) t ≡ true
      → is_some
          (Map.get (apply_all toolkit ledger (ledger_replay schemas trail)).table_slots.current t)
        ≡ true
  replay_consistent laws ledger schemas trail d h clean =
      (replay-Integrity laws ledger schemas trail d h clean).closed
