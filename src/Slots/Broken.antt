-- ===== src/Slots/Broken.antt =====
-- Which slots have a broken lineage, and by which migration.
use revisium_engine.Base.{
  ℕ, ◌<◌, String, Bool, false, Option, none, some, List, [], ◌∷◌, length, get_elem?, modify,
  Eq-String, Eq-ℕ, ◌||◌, ◌&&◌, not, ◌≡◌, arith, if◌then◌else◌, nat_eq, get_elem?-modify,
  get_elem?-concat, get_elem?-length, Option-cases, inl, inr, get_elem?-lt, ◌∙◌,
}
use revisium_engine.Base.Map
use revisium_engine.Base.Map.{Map, get-set, get-delete}
use revisium_engine.Ledger.{Migration, init, update, rename, remove, table_id}
use revisium_engine.Slots.{
  TableSlots, new_slot, place, vacate, break_lineage, break_both, occupy, append_to_slot, put_at,
  drop_current, break_slot, push_migration, follow,
}
use revisium_engine.Slots.Held.{
  Coherent, length-vacate, length-break_lineage, lt-length_of_held, index-new_slot,
  lt-length-new_slot, new_slot-Coherent,
}
use revisium_engine.Slots.Steps.{append_to_slot-Appended, appended_lt}

-- The slots that a displacement breaks: the one that arrives and the one that was there.
abbrev pub is_hit : Option ℕ → ℕ → ℕ → Bool
is_hit none k i = false
is_hit (some d) k i = nat_eq d i || nat_eq k i

module _ {S : Type 0} where
  unfoldable pub broken : TableSlots S → ℕ → Option (Migration S)
  broken s i = elim (get_elem? s.slots i) [ none ↦ none | some t ↦ t.broken_by ]

  -- The first migration that broke a lineage stays the one named.
  abbrev pub first : Option (Migration S) → Migration S → Option (Migration S)
  first none m = some m
  first (some b) m = some b

  abbrev SameBroken : TableSlots S → TableSlots S → Type 0
  SameBroken s t = (i : ℕ) → broken t i ≡ broken s i

  broken-new_slot :
      (a : Option String) (ms : List (Migration S)) (b : Option (Migration S)) (s : TableSlots S)
      (i : ℕ)
      → broken (new_slot a ms b s).1 i ≡ (if nat_eq (length s.slots) i then b else broken s i)
  unfolding broken new_slot
  broken-new_slot a ms b s i = ground (
    arith,
    get_elem?-concat s.slots
        (record {
          starting_table_id = a;
          table_ids = [];
          migrations = ms;
          current_table_id = none;
          broken_by = b;
        })
        i,
  )

  broken-length : (s : TableSlots S) → broken s (length s.slots) ≡ none
  unfolding broken
  broken-length s = rw (get_elem?-length s.slots, broken)

  broken-place : (k : ℕ) (id : String) (s : TableSlots S) → SameBroken s (place k id s)
  unfolding broken place
  broken-place k id s i = ground (arith, get_elem?-modify s.slots k i (put_at id))

  broken-vacate : (k : ℕ) (s : TableSlots S) → SameBroken s (vacate k s)
  unfolding broken vacate
  broken-vacate k s i = ground (arith, get_elem?-modify s.slots k i drop_current)

  broken-push :
      (m : Migration S) (k : ℕ) (s : TableSlots S)
      → SameBroken s (record s { slots = modify s.slots k (push_migration m) })
  unfolding broken push_migration
  broken-push m k s i = ground (arith, get_elem?-modify s.slots k i (push_migration m))

  broken-break_lineage :
      (k : ℕ) (m : Migration S) (s : TableSlots S) (i : ℕ)
      → k < length s.slots
      → broken (break_lineage k m s) i ≡ (if nat_eq k i then first (broken s i) m else broken s i)
  unfolding broken break_lineage
  broken-break_lineage k m s i h =
      ground (arith, get_elem?-modify s.slots k i (break_slot m), get_elem?-lt s.slots k h)

  broken-occupy :
      (k : ℕ) (id : String) (m : Migration S) (s : TableSlots S) (i : ℕ)
      → k < length s.slots
      → Coherent s
      → broken (occupy k id m s).1 i
        ≡ (if is_hit (Map.get s.current id) k i then first (broken s i) m else broken s i)
  unfolding occupy break_both
  broken-occupy k id m s i h c = elim (Option-cases (Map.get s.current id)) [
    | inl free ↦ rw (free, break_both) (broken-place k id (vacate k s) i ∙ broken-vacate k s i)
    | inr (d, e) ↦
        let s₁ = vacate k s in
        let s₂ = vacate d s₁ in
        let s₃ = break_lineage d m s₂ in
        let s₄ = break_lineage k m s₃ in
        let inside = lt-length_of_held s d id ((c id d).0 e) in
        rw (e, break_both)
          (ground (
            arith,
            broken-place k id s₄ i,
            broken-break_lineage k m s₃ i
                (omega (arith, length-break_lineage d m s₂, length-vacate d s₁, length-vacate k s)),
            broken-break_lineage d m s₂ i (omega (arith, length-vacate d s₁, length-vacate k s)),
            broken-vacate d s₁ i,
            broken-vacate k s i,
          ))
  ]

  -- `append_to_slot` breaks only the slot that it opens for a missing id.
  broken-append_to_slot :
      (m : Migration S) (s : TableSlots S) (i : ℕ)
      → Coherent s
      → broken (append_to_slot m s).1 i ≡ (
          if nat_eq (append_to_slot m s).0.0 i && not (append_to_slot m s).0.1
          then first (broken s i) m
          else broken s i)
  unfolding append_to_slot
  broken-append_to_slot m s i c = elim (Option-cases (Map.get s.current (table_id m))) [
    | inl free ↦
        let b = new_slot none (m ∷ []) (some m) s in
        rw (free, append_to_slot)
          (ground (
            arith,
            broken-place b.0 (table_id m) b.1 i,
            broken-new_slot none (m ∷ []) (some m) s i,
            index-new_slot none (m ∷ []) (some m) (table_id m) s,
            broken-length s,
          ))
    | inr (k, e) ↦ rw (e, append_to_slot) (ground (arith, broken-push m k s i))
  ]

  -- When the slots and the map of current ids agree, a step breaks exactly its own slot, where it is
  -- not attributable, and the two slots of a displacement; a lineage that was broken stays broken by
  -- the migration that broke it.
  pub broken-follow :
      (m : Migration S) (s : TableSlots S) (i : ℕ)
      → Coherent s
      → broken (follow m s).1 i ≡ (
          if (nat_eq (follow m s).0.slot i && not (follow m s).0.attributable)
            || is_hit (follow m s).0.displaced (follow m s).0.slot i
          then first (broken s i) m
          else broken s i)
  unfolding follow occupy
  broken-follow (init i' id x) s i c =
      let m : Migration S = init i' id x in
      let b = new_slot none (m ∷ []) none s in
      ground (
        arith,
        broken-occupy b.0 id m b.1 i (lt-length-new_slot none (m ∷ []) none id s)
            (new_slot-Coherent none (m ∷ []) none s c),
        broken-new_slot none (m ∷ []) none s i,
        broken-length s,
      )
  broken-follow (update i' id ps) s i c =
      let m : Migration S = update i' id ps in ground (arith, broken-append_to_slot m s i c)
  broken-follow (rename i' id next) s i c =
      let m : Migration S = rename i' id next in
      let a = append_to_slot m s in
      ground (
        arith,
        broken-occupy a.0.0 next m a.1 i (appended_lt m s c)
            (append_to_slot-Appended m s c).coherent,
        broken-append_to_slot m s i c,
      )
  broken-follow (remove i' id) s i c =
      let m : Migration S = remove i' id in
      let a = append_to_slot m s in
      ground (arith, broken-vacate a.0.0 a.1 i, broken-append_to_slot m s i c)
