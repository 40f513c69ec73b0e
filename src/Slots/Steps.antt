-- ===== src/Slots/Steps.antt =====
-- Every step of `follow` keeps `current` coherent and moves ids as a table of holders says.
use revisium_engine.Base.{
  ℕ, suc, ◌<◌, ◌≤◌, String, Option, none, some, List, [], ◌∷◌, length, modify, Eq-String, Eq-ℕ,
  ◌==◌, ◌≡◌, refl, arith, if◌then◌else◌, get_elem?-modify, Option-cases, inl, inr, length-modify,
  ◌∙◌,
}
use mathlib.Core.Path.{ap₂, fun_ext}
use revisium_engine.Base.Map
use revisium_engine.Base.Map.{Map, get-set, get-delete}
use text.Mathlib.TextEquality.{eq_iff}
use revisium_engine.Ledger.{Migration, init, update, rename, remove, table_id}
use revisium_engine.Slots.{
  TableSlots, new_slot, held, append_to_slot, push_migration, is_id, follow, follow_all,
}
use revisium_engine.Slots.Held.{
  Coherent, get-vacate, get-new_slot, length-vacate, length-new_slot, lt-length_of_held,
  new_slot-Coherent, vacate-Coherent, index-new_slot, lt-length-new_slot, held-new_slot_self,
  opened-Coherent, get-opened, held-opened, length-opened,
}
use revisium_engine.Slots.Follow.{get-occupy, length-occupy, occupy-Coherent}

abbrev pub or_new : Option ℕ → ℕ → ℕ
or_new none n = n
or_new (some k) n = k

module _ {S : Type 0} where
  -- The specification: a table of holders, and the index of the next slot.
  abbrev pub holders_after : Migration S → ℕ → (String → Option ℕ) → String → Option ℕ
  holders_after (init i id s) n holder j = if id == j then some n else holder j
  holders_after (update i id ps) n holder j =
      if id == j then some (or_new (holder id) n) else holder j
  holders_after (rename i id next) n holder j =
      if next == j then some (or_new (holder id) n) else if id == j then none else holder j
  holders_after (remove i id) n holder j = if id == j then none else holder j

  -- The index of the next slot: a step opens one for an `init`, and for an id that none holds.
  abbrev next_after : Migration S → ℕ → (String → Option ℕ) → ℕ
  next_after (init i id s) n holder = suc n
  next_after (update i id ps) n holder = elim (holder id) [ none ↦ suc n | some _ ↦ n ]
  next_after (rename i id next) n holder = elim (holder id) [ none ↦ suc n | some _ ↦ n ]
  next_after (remove i id) n holder = elim (holder id) [ none ↦ suc n | some _ ↦ n ]

  -- The slot of a step.
  abbrev pub slot_after : Migration S → ℕ → (String → Option ℕ) → ℕ
  slot_after (init i id s) n holder = n
  slot_after (update i id ps) n holder = or_new (holder id) n
  slot_after (rename i id next) n holder = or_new (holder id) n
  slot_after (remove i id) n holder = or_new (holder id) n

  -- All that a ledger does to the ids, with neither slots nor a map.
  pub holders_all : List (Migration S) → ℕ × (String → Option ℕ) → ℕ × (String → Option ℕ)
  holders_all [] h = h
  holders_all (m ∷ ms) h = holders_all ms (next_after m h.0 h.1, holders_after m h.0 h.1)

  pub holders : TableSlots S → ℕ × (String → Option ℕ)
  holders s = (length s.slots, Map.get s.current)

  held-push :
      (m : Migration S) (k : ℕ) (s : TableSlots S) (i : ℕ)
      → held (record s { slots = modify s.slots k (push_migration m) }) i ≡ held s i
  unfolding held push_migration
  held-push m k s i = ground (arith, get_elem?-modify s.slots k i (push_migration m))

  -- What `append_to_slot` leaves: its slot holds the id, and only a missing id is opened.
  pub record Appended (m : Migration S) (s : TableSlots S) : Type 0 where
    pub index : (append_to_slot m s).0.0 ≡ or_new (Map.get s.current (table_id m)) (length s.slots)
    pub holds : held (append_to_slot m s).1 (append_to_slot m s).0.0 ≡ some (table_id m)
    pub coherent : Coherent (append_to_slot m s).1
    pub gets :
        (j : String)
        → Map.get (append_to_slot m s).1.current j ≡ (
            if table_id m == j
            then some (or_new (Map.get s.current (table_id m)) (length s.slots))
            else Map.get s.current j)

  pub append_to_slot-Appended : (m : Migration S) (s : TableSlots S) → Coherent s → Appended m s
  unfolding append_to_slot
  append_to_slot-Appended m s c = elim (Option-cases (Map.get s.current (table_id m))) [
    | inl free ↦ record {
      index = rw (free, append_to_slot) (index-new_slot none (m ∷ []) (some m) (table_id m) s);
      holds = rw (free, append_to_slot) (held-opened none (m ∷ []) (some m) (table_id m) s);
      coherent =
          rw (free, append_to_slot) (opened-Coherent none (m ∷ []) (some m) (table_id m) s free c);
      gets = λ j. rw (free, append_to_slot) (get-opened none (m ∷ []) (some m) (table_id m) s j);
    }
    | inr (k, e) ↦ record {
      index = rw (e, append_to_slot);
      holds = rw (e, append_to_slot) (held-push m k s k ∙ (c (table_id m) k).0 e);
      coherent = rw (e, append_to_slot) (λ id i. rw (held-push m k s i) (c id i));
      gets = λ j. rw (e, append_to_slot) (ground (arith, eq_iff (table_id m) j));
    }
  ]

  -- `append_to_slot` leaves the slot in range.
  pub appended_lt :
      (m : Migration S) (s : TableSlots S)
      → Coherent s
      → (append_to_slot m s).0.0 < length (append_to_slot m s).1.slots
  appended_lt m s c =
      lt-length_of_held (append_to_slot m s).1 (append_to_slot m s).0.0 (table_id m)
        (append_to_slot-Appended m s c).holds

  pub follow-Coherent : (m : Migration S) (s : TableSlots S) → Coherent s → Coherent (follow m s).1
  unfolding follow
  follow-Coherent (init i id x) s c =
      let m : Migration S = init i id x in
      occupy-Coherent (new_slot none (m ∷ []) none s).0 id m (new_slot none (m ∷ []) none s).1
        (lt-length-new_slot none (m ∷ []) none id s) (new_slot-Coherent none (m ∷ []) none s c)
  follow-Coherent (update i id ps) s c = (append_to_slot-Appended (update i id ps) s c).coherent
  follow-Coherent (rename i id next) s c =
      let m : Migration S = rename i id next in
      let a = append_to_slot-Appended m s c in
      occupy-Coherent (append_to_slot m s).0.0 next m (append_to_slot m s).1 (appended_lt m s c)
        a.coherent
  follow-Coherent (remove i id) s c =
      let m : Migration S = remove i id in
      vacate-Coherent (append_to_slot m s).0.0 (append_to_slot m s).1
        (append_to_slot-Appended m s c).coherent

  pub follow_refines :
      (m : Migration S) (s : TableSlots S) (j : String)
      → Coherent s
      → Map.get (follow m s).1.current j ≡ holders_after m (length s.slots) (Map.get s.current) j
  unfolding follow is_id
  follow_refines (init i id x) s j c =
      let m : Migration S = init i id x in
      let b = new_slot none (m ∷ []) none s in
      ground (
        arith,
        get-occupy b.0 id m b.1 j (new_slot-Coherent none (m ∷ []) none s c),
        held-new_slot_self none (m ∷ []) none id s,
        index-new_slot none (m ∷ []) none id s,
        get-new_slot none (m ∷ []) none s j,
      )
  follow_refines (update i id ps) s j c = (append_to_slot-Appended (update i id ps) s c).gets j
  follow_refines (rename i id next) s j c =
      let m : Migration S = rename i id next in
      let a = append_to_slot-Appended m s c in
      ground (
        arith,
        get-occupy (append_to_slot m s).0.0 next m (append_to_slot m s).1 j a.coherent,
        a.holds,
        a.index,
        a.gets j,
      )
  follow_refines (remove i id) s j c =
      let m : Migration S = remove i id in
      let a = append_to_slot-Appended m s c in
      ground
        (arith, get-vacate (append_to_slot m s).0.0 (append_to_slot m s).1 j, a.holds, a.gets j)

  length-append_to_slot :
      (m : Migration S) (s : TableSlots S)
      → length (append_to_slot m s).1.slots ≡ elim (Map.get s.current (table_id m)) [
        | none ↦ suc (length s.slots)
        | some _ ↦ length s.slots
      ]
  unfolding append_to_slot
  length-append_to_slot m s = elim (Option-cases (Map.get s.current (table_id m))) [
    | inl free ↦ rw (free, append_to_slot) (length-opened none (m ∷ []) (some m) (table_id m) s)
    | inr (k, e) ↦ rw (e, append_to_slot) (length-modify s.slots k (push_migration m))
  ]

  length-follow :
      (m : Migration S) (s : TableSlots S)
      → length (follow m s).1.slots ≡ next_after m (length s.slots) (Map.get s.current)
  unfolding follow
  length-follow (init i id x) s =
      let m : Migration S = init i id x in
      let b = new_slot none (m ∷ []) none s in
      length-occupy b.0 id m b.1 ∙ length-new_slot none (m ∷ []) none s
  length-follow (update i id ps) s = length-append_to_slot (update i id ps) s
  length-follow (rename i id next) s =
      let m : Migration S = rename i id next in
      length-occupy (append_to_slot m s).0.0 next m (append_to_slot m s).1
      ∙ length-append_to_slot m s
  length-follow (remove i id) s =
      let m : Migration S = remove i id in
      length-vacate (append_to_slot m s).0.0 (append_to_slot m s).1 ∙ length-append_to_slot m s

  -- From slots that agree with the map of current ids, following a ledger changes which slot holds each
  -- id, and how many slots there are, as the table of holders says: an `init` gives its id to a new
  -- slot, an `update` of a missing id opens one, a `rename` moves the slot of the old id to the new
  -- one, a `remove` frees the id.
  pub holders-follow_all :
      (ms : List (Migration S)) (s : TableSlots S)
      → Coherent s
      → holders (follow_all ms s) ≡ holders_all ms (holders s)
  unfolding holders holders_all follow_all
  holders-follow_all [] s c = refl
  holders-follow_all (m ∷ ms) s c =
      holders-follow_all ms (follow m s).1 (follow-Coherent m s c)
      ∙ ap₂ (λ n h. holders_all ms (n, h)) (length-follow m s)
          (fun_ext (λ j. follow_refines m s j c))

  pub slot-follow :
      (m : Migration S) (s : TableSlots S)
      → Coherent s
      → (follow m s).0.slot ≡ slot_after m (length s.slots) (Map.get s.current)
  unfolding follow
  slot-follow (init i id x) s c = index-new_slot none (init i id x ∷ []) none id s
  slot-follow (update i id ps) s c = (append_to_slot-Appended (update i id ps) s c).index
  slot-follow (rename i id next) s c = (append_to_slot-Appended (rename i id next) s c).index
  slot-follow (remove i id) s c = (append_to_slot-Appended (remove i id) s c).index

  pub slot-lt-length :
      (m : Migration S) (s : TableSlots S)
      → Coherent s
      → (follow m s).0.slot < length (follow m s).1.slots
  unfolding follow
  slot-lt-length (init i id x) s c =
      let m : Migration S = init i id x in
      let b = new_slot none (m ∷ []) none s in
      omega (arith, lt-length-new_slot none (m ∷ []) none id s, length-occupy b.0 id m b.1)
  slot-lt-length (update i id ps) s c = appended_lt (update i id ps) s c
  slot-lt-length (rename i id next) s c =
      let m : Migration S = rename i id next in
      let a = append_to_slot m s in omega (arith, appended_lt m s c, length-occupy a.0.0 next m a.1)
  slot-lt-length (remove i id) s c =
      let m : Migration S = remove i id in
      let a = append_to_slot m s in omega (arith, appended_lt m s c, length-vacate a.0.0 a.1)

  pub length-le-follow :
      (m : Migration S) (s : TableSlots S) → length s.slots ≤ length (follow m s).1.slots
  length-le-follow (init i id x) s = ground (arith, length-follow (init i id x) s)
  length-le-follow (update i id ps) s = ground (arith, length-follow (update i id ps) s)
  length-le-follow (rename i id next) s = ground (arith, length-follow (rename i id next) s)
  length-le-follow (remove i id) s = ground (arith, length-follow (remove i id) s)
