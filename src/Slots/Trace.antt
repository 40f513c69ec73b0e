-- ===== src/Slots/Trace.antt =====
-- Whole ledgers: the constructor and every sequence of steps leave coherent slots, and a table is
-- ledgered exactly if its current slot is unbroken.
use revisium_engine.Base.{
  ℕ, zero, suc, ◌<◌, ◌≤◌, String, true, false, Option, none, some, List, [], ◌∷◌, length, get_elem?,
  Eq-String, Eq-ℕ, ◌||◌, is_some, ◌≡◌, refl, ◌↔◌, arith, Option-cases, Bool-cases, inl, inr,
  includes, IsDistinct, All,
}
use revisium_engine.Base.Map
use revisium_engine.Base.Map.{Map, get-nil, AllValues, AllValues-set}
use text.Mathlib.TextEquality.{eq_iff}
use revisium_engine.Ledger.{Migration}
use revisium_engine.Slots.{
  TableSlot, TableSlots, empty, place, new_slot, start_at, start_from, table_slots, follow,
  follow_all, held, is_id, ledgered_table_id_of, is_ledgered,
}
use revisium_engine.Slots.Held.{Coherent, opened-Coherent, get-opened, length-opened}
use revisium_engine.Slots.Steps.{follow-Coherent}
use revisium_engine.Slots.Broken.{broken}

is_id_iff : (id : String) (o : Option String) → (is_id id o ≡ true) ↔ (o ≡ some id)
unfolding is_id
is_id_iff id none = ground arith
is_id_iff id (some j) = ground (arith, eq_iff j id)

module _ {S : Type 0} where
  abbrev AllFree : TableSlots S → List String → Type 0
  AllFree s ids = All (λ id. Map.get s.current id ≡ none) ids

  AllFree-start_at :
      (id : String) (ids : List String) (s : TableSlots S)
      → includes ids id ≡ false
      → AllFree s ids
      → AllFree (start_at id s) ids
  unfolding start_at
  AllFree-start_at id [] s d h = tt
  AllFree-start_at id (j ∷ ids) s d h = (
    ground (arith, get-opened (some id) [] none id s j, eq_iff id j, eq_iff j id),
    AllFree-start_at id ids s (ground arith) h.1,
  )

  start_from-Coherent :
      (ids : List String) (s : TableSlots S)
      → IsDistinct ids
      → AllFree s ids
      → Coherent s
      → Coherent (start_from ids s)
  unfolding start_from
  start_from-Coherent [] s d f c = c
  start_from-Coherent (id ∷ ids) s d f c =
      start_from-Coherent ids (start_at id s) d.1 (AllFree-start_at id ids s d.0 f.1)
        (unfold start_at in opened-Coherent (some id) [] none id s f.0 c)

  -- Following a ledger keeps the slots and the map of current ids in agreement: an id is current at a
  -- slot exactly when the slot holds it, so that no two slots hold one id.
  pub follow_all-Coherent :
      (ms : List (Migration S)) (s : TableSlots S) → Coherent s → Coherent (follow_all ms s)
  unfolding follow_all
  follow_all-Coherent [] s c = c
  follow_all-Coherent (m ∷ ms) s c = follow_all-Coherent ms (follow m s).1 (follow-Coherent m s c)

module _ (S : Type 0) where
  empty-Coherent : Coherent (empty {S = S})
  unfolding held
  empty-Coherent id k = ground (arith, get-nil {V = ℕ} id)

  AllFree-empty : (ids : List String) → AllFree (empty {S = S}) ids
  AllFree-empty [] = tt
  AllFree-empty (id ∷ ids) = (get-nil {V = ℕ} id, AllFree-empty ids)

  -- The slots that are started from distinct ids agree with the map of current ids.
  pub table_slots-Coherent :
      (ids : List String) → IsDistinct ids → Coherent (table_slots {S = S} ids)
  unfolding table_slots
  table_slots-Coherent ids d = start_from-Coherent ids empty d (AllFree-empty ids) empty-Coherent

module _ {S : Type 0} where
  -- The slot at some index has the ledgered id.
  abbrev LedgeredAt : List (TableSlot S) → String → Type 0
  LedgeredAt ts id =
      (k : ℕ) × (t : TableSlot S) × (get_elem? ts k ≡ some t) × (ledgered_table_id_of t ≡ some id)

  is_ledgered_sound :
      (ts : List (TableSlot S)) (id : String) → is_ledgered ts id ≡ true → LedgeredAt ts id
  unfolding is_ledgered
  is_ledgered_sound [] id h = cc
  is_ledgered_sound (t ∷ ts) id h = elim (Bool-cases (is_id id (ledgered_table_id_of t))) [
    | inl here ↦ (0, t, refl, (is_id_iff id (ledgered_table_id_of t)).0 here)
    | inr there ↦ let (k, t', e, p) = is_ledgered_sound ts id (ground arith) in (suc k, t', e, p)
  ]

  is_ledgered_full :
      (ts : List (TableSlot S)) (id : String) (k : ℕ) (t : TableSlot S)
      → get_elem? ts k ≡ some t
      → ledgered_table_id_of t ≡ some id
      → is_ledgered ts id ≡ true
  unfolding is_ledgered
  is_ledgered_full [] id k t e h = cc
  is_ledgered_full (t' ∷ ts) id zero t e h = ground (arith, is_id_iff id (ledgered_table_id_of t'))
  is_ledgered_full (t' ∷ ts) id (suc k) t e h = ground (arith, is_ledgered_full ts id k t e h)

  -- The slot at an index that holds an id.
  slot_of_held :
      (s : TableSlots S) (k : ℕ) (id : String)
      → held s k ≡ some id
      → (t : TableSlot S) × (get_elem? s.slots k ≡ some t) × (t.current_table_id ≡ some id)
  unfolding held
  slot_of_held s k id h = elim (Option-cases (get_elem? s.slots k)) [
    | inl nothing ↦ absurd (ground arith)
    | inr (t, e) ↦ (t, e, rw (e, held) at h)
  ]

  -- When the slots and the map of current ids agree, an id is ledgered exactly when it is current at a
  -- slot that no migration has broken.
  pub is_ledgered_iff :
      (s : TableSlots S) (id : String)
      → Coherent s
      → (is_ledgered s.slots id ≡ true)
        ↔ ((k : ℕ) × (Map.get s.current id ≡ some k) × (broken s k ≡ none))
  unfolding held broken ledgered_table_id_of
  is_ledgered_iff s id c = (
    λ h.
        let (k, t, e, p) = is_ledgered_sound s.slots id h in
        (k, (c id k).1 (ground arith), ground arith),
    λ (k, g, b).
        let (t, e, p) = slot_of_held s k id ((c id k).0 g) in
        is_ledgered_full s.slots id k t e (ground arith),
  )

InRange-more :
    (m : Map String ℕ) (n n' : ℕ) → n ≤ n' → AllValues (λ k. k < n) m → AllValues (λ k. k < n') m
InRange-more [] n n' le h = tt
InRange-more ((id, k) ∷ m) n n' le h = (omega arith, InRange-more m n n' le h.1)

module _ {S : Type 0} where
  start_from-keeps :
      (ids : List String) (s : TableSlots S) (t : String)
      → (includes ids t || is_some (Map.get s.current t)) ≡ true
      → is_some (Map.get (start_from ids s).current t) ≡ true
  unfolding start_from start_at
  start_from-keeps [] s t h = h
  start_from-keeps (id ∷ ids) s t h =
      start_from-keeps ids (start_at id s) t (ground (arith, get-opened (some id) [] none id s t))

  -- Every slot that `current` names is in range.
  abbrev InRange : TableSlots S → Type 0
  InRange s = AllValues (λ k. k < length s.slots) s.current

  InRange-start_at : (id : String) (s : TableSlots S) → InRange s → InRange (start_at id s)
  unfolding start_at place new_slot
  InRange-start_at id s h =
      let room = length-opened (some id) [] none id s in
      AllValues-set (λ k. k < length (start_at id s).slots) s.current id (length s.slots)
        (InRange-more s.current (length s.slots) (length (start_at id s).slots) (omega arith) h)
        (omega arith)

  start_from-InRange :
      (ids : List String) (s : TableSlots S) → InRange s → InRange (start_from ids s)
  unfolding start_from
  start_from-InRange [] s h = h
  start_from-InRange (id ∷ ids) s h =
      start_from-InRange ids (start_at id s) (InRange-start_at id s h)

module _ (S : Type 0) where
  pub table_slots-keeps :
      (ids : List String) (t : String)
      → includes ids t ≡ true
      → is_some (Map.get (table_slots {S = S} ids).current t) ≡ true
  unfolding table_slots
  table_slots-keeps ids t h = start_from-keeps ids empty t (ground arith)

  pub table_slots-InRange : (ids : List String) → InRange (table_slots {S = S} ids)
  unfolding table_slots
  table_slots-InRange ids = start_from-InRange ids empty tt
