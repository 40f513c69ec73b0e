-- ===== src/Slots/Held.antt =====
-- What each slot holds, and that the map `current` agrees with it.
use revisium_engine.Base.{
  ℕ, suc, ◌<◌, String, Option, none, some, List, [], length, get_elem?, Eq-String, Eq-ℕ, ◌==◌, ◌≡◌,
  refl, ◌↔◌, arith, if◌then◌else◌, nat_eq, get_elem?-modify, get_elem?-concat, get_elem?-length,
  Option-cases, inl, inr, length-modify, length-append, lt-length_of_get_elem?, get_elem?-lt, ◌∙◌,
}
use revisium_engine.Base.Map
use revisium_engine.Base.Map.{Map, get-set, get-delete}
use text.Mathlib.TextEquality.{eq_iff}
use revisium_engine.Ledger.{Migration}
use revisium_engine.Slots.{
  TableSlots, new_slot, place, held, vacate, break_lineage, put_at, drop_current, break_slot, is_id,
}

module _ {S : Type 0} where
  -- An id is current exactly at the slot that holds it.
  abbrev pub Coherent : TableSlots S → Type 0
  Coherent s = (id : String) (k : ℕ) → (Map.get s.current id ≡ some k) ↔ (held s k ≡ some id)

  held-new_slot :
      (a : Option String) (ms : List (Migration S)) (b : Option (Migration S)) (s : TableSlots S)
      (i : ℕ)
      → held (new_slot a ms b s).1 i ≡ held s i
  unfolding held new_slot
  held-new_slot a ms b s i = ground (
    arith,
    get_elem?-concat s.slots
        (record {
          starting_table_id = a;
          table_ids = [];
          migrations = ms;
          current_table_id = none;
          broken_by = b;
        })
        i,
    get_elem?-length s.slots,
  )

  held-place :
      (k : ℕ) (id : String) (s : TableSlots S) (i : ℕ)
      → k < length s.slots
      → held (place k id s) i ≡ (if nat_eq k i then some id else held s i)
  unfolding held place
  held-place k id s i h =
      ground (arith, get_elem?-modify s.slots k i (put_at id), get_elem?-lt s.slots k h)

  pub held-vacate :
      (k : ℕ) (s : TableSlots S) (i : ℕ)
      → held (vacate k s) i ≡ (if nat_eq k i then none else held s i)
  unfolding held vacate
  held-vacate k s i = ground (arith, get_elem?-modify s.slots k i drop_current)

  pub held-break_lineage :
      (k : ℕ) (m : Migration S) (s : TableSlots S) (i : ℕ) → held (break_lineage k m s) i ≡ held s i
  unfolding held break_lineage
  held-break_lineage k m s i = ground (arith, get_elem?-modify s.slots k i (break_slot m))

  pub get-place :
      (k : ℕ) (id : String) (s : TableSlots S) (j : String)
      → Map.get (place k id s).current j ≡ (if id == j then some k else Map.get s.current j)
  unfolding place
  get-place k id s j = get-set s.current id j k

  pub get-vacate :
      (k : ℕ) (s : TableSlots S) (j : String)
      → Map.get (vacate k s).current j ≡ (if is_id j (held s k) then none else Map.get s.current j)
  unfolding vacate is_id
  get-vacate k s j = elim (Option-cases (held s k)) [
    | inl nothing ↦ rw (nothing, vacate)
    | inr (id, e) ↦ rw (e, vacate) (get-delete s.current id j)
  ]

  pub get-new_slot :
      (a : Option String) (ms : List (Migration S)) (b : Option (Migration S)) (s : TableSlots S)
      (j : String)
      → Map.get (new_slot a ms b s).1.current j ≡ Map.get s.current j
  unfolding new_slot
  get-new_slot a ms b s j = refl

  pub get-break_lineage :
      (k : ℕ) (m : Migration S) (s : TableSlots S) (j : String)
      → Map.get (break_lineage k m s).current j ≡ Map.get s.current j
  unfolding break_lineage
  get-break_lineage k m s j = refl

  pub length-place :
      (k : ℕ) (id : String) (s : TableSlots S) → length (place k id s).slots ≡ length s.slots
  unfolding place
  length-place k id s = length-modify s.slots k (put_at id)

  pub length-vacate : (k : ℕ) (s : TableSlots S) → length (vacate k s).slots ≡ length s.slots
  unfolding vacate
  length-vacate k s = ground (arith, length-modify s.slots k drop_current)

  pub length-break_lineage :
      (k : ℕ) (m : Migration S) (s : TableSlots S)
      → length (break_lineage k m s).slots ≡ length s.slots
  unfolding break_lineage
  length-break_lineage k m s = length-modify s.slots k (break_slot m)

  pub length-new_slot :
      (a : Option String) (ms : List (Migration S)) (b : Option (Migration S)) (s : TableSlots S)
      → length (new_slot a ms b s).1.slots ≡ suc (length s.slots)
  unfolding new_slot
  length-new_slot a ms b s = omega (arith, length-append {0} s.slots)

  pub lt-length_of_held :
      (s : TableSlots S) (k : ℕ) (id : String) → held s k ≡ some id → k < length s.slots
  unfolding held
  lt-length_of_held s k id h = elim (Option-cases (get_elem? s.slots k)) [
    | inl nothing ↦ ground arith
    | inr (t, e) ↦ lt-length_of_get_elem? s.slots k e
  ]

  held-length : (s : TableSlots S) → held s (length s.slots) ≡ none
  unfolding held
  held-length s = rw (get_elem?-length s.slots, held)

  pub new_slot-Coherent :
      (a : Option String) (ms : List (Migration S)) (b : Option (Migration S)) (s : TableSlots S)
      → Coherent s
      → Coherent (new_slot a ms b s).1
  new_slot-Coherent a ms b s c id i =
      rw (held-new_slot a ms b s i, get-new_slot a ms b s id) (c id i)

  pub break_lineage-Coherent :
      (k : ℕ) (m : Migration S) (s : TableSlots S) → Coherent s → Coherent (break_lineage k m s)
  break_lineage-Coherent k m s c id i =
      rw (held-break_lineage k m s i, get-break_lineage k m s id) (c id i)

  pub vacate-Coherent : (k : ℕ) (s : TableSlots S) → Coherent s → Coherent (vacate k s)
  unfolding is_id
  vacate-Coherent k s c id i = elim (Option-cases (held s k)) [
    | inl nothing ↦ ground (arith, held-vacate k s i, get-vacate k s id, c id i)
    | inr (old, e) ↦
        ground
          (arith, held-vacate k s i, get-vacate k s id, c id i, c old k, c old i, eq_iff old id)
  ]

  pub place-Coherent :
      (k : ℕ) (id : String) (s : TableSlots S)
      → k < length s.slots
      → held s k ≡ none
      → Map.get s.current id ≡ none
      → Coherent s
      → Coherent (place k id s)
  place-Coherent k id s h free unheld c j i =
      ground (arith, held-place k id s i h, get-place k id s j, c j i, c j k, c id i, eq_iff id j)

  -- A new slot that is placed at a free id.
  module _ (a : Option String) (ms : List (Migration S)) (b : Option (Migration S)) (id : String)
      (s : TableSlots S) where
    abbrev pub opened : TableSlots S
    opened = place (new_slot a ms b s).0 id (new_slot a ms b s).1

    pub index-new_slot : (new_slot a ms b s).0 ≡ length s.slots
    unfolding new_slot
    index-new_slot = refl

    pub lt-length-new_slot : (new_slot a ms b s).0 < length (new_slot a ms b s).1.slots
    lt-length-new_slot = omega (arith, index-new_slot, length-new_slot a ms b s)

    pub held-new_slot_self : held (new_slot a ms b s).1 (new_slot a ms b s).0 ≡ none
    held-new_slot_self =
        held-new_slot a ms b s (new_slot a ms b s).0 ∙ rw index-new_slot (held-length s)

    pub opened-Coherent : Map.get s.current id ≡ none → Coherent s → Coherent opened
    opened-Coherent free c =
        place-Coherent (new_slot a ms b s).0 id (new_slot a ms b s).1 lt-length-new_slot
          held-new_slot_self (get-new_slot a ms b s id ∙ free) (new_slot-Coherent a ms b s c)

    pub get-opened :
        (j : String)
        → Map.get opened.current j
          ≡ (if id == j then some (length s.slots) else Map.get s.current j)
    get-opened j = ground (
      arith,
      get-place (new_slot a ms b s).0 id (new_slot a ms b s).1 j,
      get-new_slot a ms b s j,
      index-new_slot,
    )

    pub held-opened : held opened (new_slot a ms b s).0 ≡ some id
    held-opened = ground (
      arith,
      held-place (new_slot a ms b s).0 id (new_slot a ms b s).1 (new_slot a ms b s).0,
      lt-length-new_slot,
    )

    pub length-opened : length opened.slots ≡ suc (length s.slots)
    length-opened =
        length-place (new_slot a ms b s).0 id (new_slot a ms b s).1 ∙ length-new_slot a ms b s
