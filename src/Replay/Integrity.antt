-- ===== src/Replay/Integrity.antt =====
-- Foreign keys stay within the current tables, as long as the steps return.
use revisium_engine.Base.{
  ℕ, ◌<◌, String, true, false, none, some, Eq-String, Eq-ℕ, ◌==◌, ◌≡◌, ◌≢◌, ◌∙◌, sym, ap, arith,
  Bool-cases, inl, inr, nat_eq, nat_eq_iff, if◌then◌else◌, includes, length, is_some,
}
use mathlib.Core.Path.{subst}
use text.Mathlib.TextEquality.{eq_iff}
use revisium_engine.Base.Map
use revisium_engine.Ledger.{Migration}
use revisium_engine.Slots.{SlotStep, TableSlots}
use revisium_engine.Slots.Held.{Coherent}
use revisium_engine.Slots.Steps.{
  follow-Coherent, follow_refines, slot-follow, slot-lt-length, length-le-follow, holders_after,
  slot_after, or_new,
}
use revisium_engine.Rules.{Toolkit, foreign_keys_of}
use revisium_engine.Rules.Renaming.{RenamesForeignKeys, renamed_foreign_keys-ok}
use revisium_engine.Replay.State.{LedgerReplay, schema_of}
use revisium_engine.Replay.Checks.{references}
use revisium_engine.Replay.Failures.{
  step_of, step_of-follow, started, schema_of-started, slots-started,
}
use revisium_engine.Replay.Success.{Wrote}
use revisium_engine.Replay.Renames.{Renamed}
use revisium_engine.Replay.Removals.{Removed}

module _ {S : Type 0} (toolkit : Toolkit S) where
  abbrev IsCurrent : LedgerReplay S → String → Type 0
  IsCurrent r t = is_some (Map.get r.table_slots.current t) ≡ true

  -- Every foreign key of every current table names a current table.
  pub record Integrity (r : LedgerReplay S) : Type 0 where
    pub coherent : Coherent r.table_slots
    pub sized : (k : ℕ) (s : S) → schema_of k r ≡ some s → k < length r.table_slots.slots
    pub closed :
        (id : String) (k : ℕ) (s : S) (t : String)
        → Map.get r.table_slots.current id ≡ some k
        → schema_of k r ≡ some s
        → includes (foreign_keys_of toolkit s) t ≡ true
        → IsCurrent r t

  -- A schema that does not reference an id has no foreign key to it.
  not_the_id :
      (s : S) (id t : String)
      → references toolkit s id ≡ false
      → includes (foreign_keys_of toolkit s) t ≡ true
      → t ≢ id
  unfolding references
  not_the_id s id t h i e = ground (arith, ap (λ x. includes (foreign_keys_of toolkit s) x) e)

  module _ (m : Migration S) (r : LedgerReplay S) (h : Integrity r) where
    pub moved :
        (j : String)
        → Map.get (started toolkit m r).table_slots.current j
          ≡ holders_after m (length r.table_slots.slots) (Map.get r.table_slots.current) j
    moved j =
        ap (λ (s : TableSlots S). Map.get s.current j) (slots-started toolkit m r)
        ∙ follow_refines m r.table_slots j h.coherent

    sized_after :
        (k : ℕ) (s : S)
        → schema_of k r ≡ some s
        → k < length (started toolkit m r).table_slots.slots
    sized_after k s e = omega (
      arith,
      h.sized k s e,
      length-le-follow m r.table_slots,
      ap (λ (s : TableSlots S). length s.slots) (slots-started toolkit m r),
    )

    slot_lt : (step_of toolkit m r).slot < length (started toolkit m r).table_slots.slots
    slot_lt = omega (
      arith,
      slot-lt-length m r.table_slots h.coherent,
      ap (λ (s : SlotStep). s.slot) (step_of-follow toolkit m r),
      ap (λ (s : TableSlots S). length s.slots) (slots-started toolkit m r),
    )

    Coherent-after : Coherent (started toolkit m r).table_slots
    Coherent-after =
        subst Coherent (sym (slots-started toolkit m r))
          (follow-Coherent m r.table_slots h.coherent)

    pub slot_is :
        (step_of toolkit m r).slot
        ≡ slot_after m (length r.table_slots.slots) (Map.get r.table_slots.current)
    slot_is =
        ap (λ (s : SlotStep). s.slot) (step_of-follow toolkit m r)
        ∙ slot-follow m r.table_slots h.coherent

    -- A step that gives a schema to the slot that now holds the id, and moves no other id.
    pub written_keeps :
        (id : String) (r' : LedgerReplay S)
        → ((j : String)
            → Map.get (started toolkit m r).table_slots.current j ≡ (
                if id == j
                then some (step_of toolkit m r).slot
                else Map.get r.table_slots.current j))
        → Wrote toolkit id (step_of toolkit m r).slot (started toolkit m r) r'
        → Integrity r'
    written_keeps id r' moves w =
        let slot = (step_of toolkit m r).slot in
        let now = λ (j : String). ap (λ (s : TableSlots S). Map.get s.current j) w.put.slots in
        let was = λ (k : ℕ). schema_of-started toolkit m r k in
        record {
          coherent = subst Coherent (sym w.put.slots) Coherent-after;
          sized = λ k s e.
              let room = ap (λ (s : TableSlots S). length s.slots) w.put.slots in
              elim (Bool-cases (nat_eq slot k)) [
                | inl here ↦ omega (arith, slot_lt, (nat_eq_iff slot k).0 here)
                | inr elsewhere ↦
                    omega (arith, sized_after k s (ground (arith, w.put.schemas k, was k)))
              ];
          closed = λ x k s t g e i. ground (
            arith,
            w.put.schemas k,
            was k,
            now x,
            now t,
            moves x,
            moves t,
            h.closed x k s t,
            w.targets t,
            eq_iff id x,
            eq_iff id t,
          );
        }

    -- A foreign key that is not the renamed id stays current.
    old_key_stays :
        (id next : String)
        → ((j : String)
            → Map.get (started toolkit m r).table_slots.current j ≡ (
                if next == j
                then some (step_of toolkit m r).slot
                else if id == j
                then none
                else Map.get r.table_slots.current j))
        → Map.get r.table_slots.current id ≡ some (step_of toolkit m r).slot
        → (x : String) (k : ℕ) (s : S) (t : String)
        → Map.get (started toolkit m r).table_slots.current x ≡ some k
        → schema_of k r ≡ some s
        → includes (foreign_keys_of toolkit s) t ≡ true
        → t ≢ id
        → IsCurrent (started toolkit m r) t
    old_key_stays id next moves held x k s t g e i n = ground (
      arith,
      moves x,
      moves t,
      h.closed x k s t,
      h.closed id k s t,
      eq_iff id x,
      eq_iff id t,
      eq_iff next x,
      eq_iff next t,
    )

    -- A rename: the ids and the foreign keys move together.
    pub Renamed-keeps :
        (id next : String) (r' : LedgerReplay S)
        → RenamesForeignKeys toolkit
        → ((j : String)
            → Map.get (started toolkit m r).table_slots.current j ≡ (
                if next == j
                then some (step_of toolkit m r).slot
                else if id == j
                then none
                else Map.get r.table_slots.current j))
        → (step_of toolkit m r).slot
          ≡ or_new (Map.get r.table_slots.current id) (length r.table_slots.slots)
        → Renamed toolkit id next (step_of toolkit m r).slot (started toolkit m r) r'
        → Integrity r'
    Renamed-keeps id next r' laws moves slot_of_id w =
        let slot = (step_of toolkit m r).slot in
        let rewrote = w.rewrote in
        let now = λ (j : String). ap (λ (s : TableSlots S). Map.get s.current j) rewrote.slots in
        let was = λ (k : ℕ). schema_of-started toolkit m r k in
        let (s₀, existed) = w.existed in
        let held_id : Map.get r.table_slots.current id ≡ some slot =
          ground (arith, h.sized slot s₀, was slot, slot_of_id) in
        let old_key = old_key_stays id next moves held_id in
        record {
          coherent = subst Coherent (sym rewrote.slots) Coherent-after;
          sized = λ k s e.
              let room = ap (λ (s : TableSlots S). length s.slots) rewrote.slots in
              let (old, held) = rewrote.known k s e in
              omega (arith, sized_after k old (sym (was k) ∙ held));
          closed = λ x k s t g e i. rw now (elim (rewrote.schemas x k s (sym (now x) ∙ g) e) [
            | inl (old, held, renamed) ↦
                elim (renamed_foreign_keys-ok toolkit old s id next laws renamed t i) [
                  | inl is_next ↦ ground (arith, moves t, eq_iff next t)
                  | inr (in_old, kept) ↦
                      old_key x k old t (sym (now x) ∙ g) (sym (was k) ∙ held) in_old kept
                ]
            | inr (kept, unreferring) ↦
                old_key x k s t (sym (now x) ∙ g) (sym (was k) ∙ kept) i
                  (not_the_id s id t unreferring i)
          ]);
        }

    -- A removal: the id goes, and nothing references it.
    pub Removed-keeps :
        (id : String) (r' : LedgerReplay S)
        → ((j : String)
            → Map.get (started toolkit m r).table_slots.current j
              ≡ (if id == j then none else Map.get r.table_slots.current j))
        → Removed toolkit id (started toolkit m r) r'
        → Integrity r'
    Removed-keeps id r' moves w =
        let now = λ (j : String). ap (λ (s : TableSlots S). Map.get s.current j) w.slots in
        let was = λ (k : ℕ). schema_of-started toolkit m r k in
        record {
          coherent = subst Coherent (sym w.slots) Coherent-after;
          sized = λ k s e.
              let room = ap (λ (s : TableSlots S). length s.slots) w.slots in
              omega (arith, sized_after k s (sym (was k) ∙ sym (w.schemas k) ∙ e));
          closed = λ x k s t g e i.
              let gone = moves x in
              let kept = moves t in
              ground (
                arith,
                now x,
                now t,
                was k,
                w.schemas k,
                h.closed x k s t,
                not_the_id s id t (w.unreferenced x k s (sym (now x) ∙ g) (sym (w.schemas k) ∙ e))
                    i,
                eq_iff id x,
                eq_iff id t,
              );
        }
