-- ===== src/Slots/History.antt =====
-- Where the migrations of a ledger are recorded, and which slots are broken.
use revisium_engine.Base.{
  ℕ, ◌<◌, String, Option, none, some, List, [], ◌∷◌, ◌++◌, length, get_elem?, modify, Eq-String,
  Eq-ℕ, ◌≡◌, refl, sym, arith, if◌then◌else◌, nat_eq, get_elem?-modify, get_elem?-concat,
  get_elem?-length, Option-cases, inl, inr, get_elem?-lt, ◌∙◌,
}
use mathlib.Core.List.{append-nil, append_assoc}
use revisium_engine.Base.Map
use revisium_engine.Base.Map.{Map, get-set, get-delete}
use revisium_engine.Ledger.{Migration, init, update, rename, remove, table_id}
use revisium_engine.Slots.{
  TableSlots, new_slot, place, vacate, break_lineage, break_both, occupy, append_to_slot, put_at,
  drop_current, break_slot, push_migration, follow, follow_all,
}
use revisium_engine.Slots.Held.{Coherent, lt-length_of_held, index-new_slot}
use revisium_engine.Slots.Steps.{follow-Coherent}

module _ {S : Type 0} where
  -- The migrations recorded at an index, and what broke its lineage.
  pub logged : TableSlots S → ℕ → List (Migration S)
  logged s i = elim (get_elem? s.slots i) [ none ↦ [] | some t ↦ t.migrations ]

  -- An operation that records nothing.
  abbrev SameLog : TableSlots S → TableSlots S → Type 0
  SameLog s t = (i : ℕ) → logged t i ≡ logged s i

  log-new_slot :
      (a : Option String) (ms : List (Migration S)) (b : Option (Migration S)) (s : TableSlots S)
      (i : ℕ)
      → logged (new_slot a ms b s).1 i ≡ (if nat_eq (length s.slots) i then ms else logged s i)
  unfolding logged new_slot
  log-new_slot a ms b s i = ground (
    arith,
    get_elem?-concat s.slots
        (record {
          starting_table_id = a;
          table_ids = [];
          migrations = ms;
          current_table_id = none;
          broken_by = b;
        })
        i,
  )

  log-length : (s : TableSlots S) → logged s (length s.slots) ≡ []
  unfolding logged
  log-length s = rw (get_elem?-length s.slots, logged)

  log-place : (k : ℕ) (id : String) (s : TableSlots S) → SameLog s (place k id s)
  unfolding logged place
  log-place k id s i = ground (arith, get_elem?-modify s.slots k i (put_at id))

  log-vacate : (k : ℕ) (s : TableSlots S) → SameLog s (vacate k s)
  unfolding logged vacate
  log-vacate k s i = ground (arith, get_elem?-modify s.slots k i drop_current)

  log-break_lineage : (k : ℕ) (m : Migration S) (s : TableSlots S) → SameLog s (break_lineage k m s)
  unfolding logged break_lineage
  log-break_lineage k m s i = ground (arith, get_elem?-modify s.slots k i (break_slot m))

  log-break_both :
      (d : Option ℕ) (k : ℕ) (m : Migration S) (s : TableSlots S) → SameLog s (break_both d k m s)
  unfolding break_both
  log-break_both none k m s i = refl
  log-break_both (some x) k m s i =
      log-break_lineage k m (break_lineage x m (vacate x s)) i
      ∙ log-break_lineage x m (vacate x s) i
      ∙ log-vacate x s i

  log-occupy :
      (k : ℕ) (id : String) (m : Migration S) (s : TableSlots S) → SameLog s (occupy k id m s).1
  unfolding occupy
  log-occupy k id m s i =
      let d = Map.get s.current id in
      log-place k id (break_both d k m (vacate k s)) i
      ∙ log-break_both d k m (vacate k s) i
      ∙ log-vacate k s i

  log-push :
      (m : Migration S) (k : ℕ) (s : TableSlots S) (i : ℕ)
      → k < length s.slots
      → logged (record s { slots = modify s.slots k (push_migration m) }) i
        ≡ (if nat_eq k i then logged s i ++ m ∷ [] else logged s i)
  unfolding logged push_migration
  log-push m k s i h =
      ground (arith, get_elem?-modify s.slots k i (push_migration m), get_elem?-lt s.slots k h)

  log-append_to_slot :
      (m : Migration S) (s : TableSlots S) (i : ℕ)
      → Coherent s
      → logged (append_to_slot m s).1 i
        ≡ (if nat_eq (append_to_slot m s).0.0 i then logged s i ++ m ∷ [] else logged s i)
  unfolding append_to_slot
  log-append_to_slot m s i c = elim (Option-cases (Map.get s.current (table_id m))) [
    | inl free ↦
        rw (free, append_to_slot)
          (ground (
            arith,
            log-place (new_slot none (m ∷ []) (some m) s).0 (table_id m)
                (new_slot none (m ∷ []) (some m) s).1 i,
            log-new_slot none (m ∷ []) (some m) s i,
            index-new_slot none (m ∷ []) (some m) (table_id m) s,
            log-length s,
          ))
    | inr (k, e) ↦
        rw (e, append_to_slot)
          (log-push m k s i (lt-length_of_held s k (table_id m) ((c (table_id m) k).0 e)))
  ]

  -- A step records its migration at its own slot, behind what is there, and nowhere else.
  logged-follow :
      (m : Migration S) (s : TableSlots S) (i : ℕ)
      → Coherent s
      → logged (follow m s).1 i
        ≡ (if nat_eq (follow m s).0.slot i then logged s i ++ m ∷ [] else logged s i)
  unfolding follow
  logged-follow (init i' id x) s i c =
      let m : Migration S = init i' id x in
      let b = new_slot none (m ∷ []) none s in
      ground (
        arith,
        log-occupy b.0 id m b.1 i,
        log-new_slot none (m ∷ []) none s i,
        index-new_slot none (m ∷ []) none id s,
        log-length s,
      )
  logged-follow (update i' id ps) s i c = log-append_to_slot (update i' id ps) s i c
  logged-follow (rename i' id next) s i c =
      let m : Migration S = rename i' id next in
      log-occupy (append_to_slot m s).0.0 next m (append_to_slot m s).1 i
      ∙ log-append_to_slot m s i c
  logged-follow (remove i' id) s i c =
      let m : Migration S = remove i' id in
      log-vacate (append_to_slot m s).0.0 (append_to_slot m s).1 i ∙ log-append_to_slot m s i c

  -- The part of a ledger that `follow` assigns to a slot.
  pub assigned : List (Migration S) → TableSlots S → ℕ → List (Migration S)
  assigned [] s i = []
  assigned (m ∷ ms) s i =
      let rest = assigned ms (follow m s).1 i in
      if nat_eq (follow m s).0.slot i then m ∷ rest else rest

  -- From slots that agree with the map of current ids, a slot's list of migrations ends up as it was
  -- followed by the part of the ledger whose steps are of this slot, in the ledger's order.
  pub follow_all-partition :
      (ms : List (Migration S)) (s : TableSlots S) (i : ℕ)
      → Coherent s
      → logged (follow_all ms s) i ≡ logged s i ++ assigned ms s i
  unfolding follow_all assigned
  follow_all-partition [] s i c = sym (append-nil _)
  follow_all-partition (m ∷ ms) s i c = ground (
    arith,
    follow_all-partition ms (follow m s).1 i (follow-Coherent m s c),
    logged-follow m s i c,
    append_assoc (logged s i) (m ∷ []) (assigned ms (follow m s).1 i),
  )
