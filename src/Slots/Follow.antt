-- ===== src/Slots/Follow.antt =====
-- The effect of each step on who holds an id, and that `current` stays coherent.
use revisium_engine.Base.{
  ℕ, ◌<◌, String, Option, none, some, length, Eq-String, Eq-ℕ, ◌==◌, ◌≡◌, refl, arith,
  if◌then◌else◌, Option-cases, inl, inr, beq_refl, ◌∙◌,
}
use revisium_engine.Base.Map
use revisium_engine.Base.Map.{Map, get-set, get-delete}
use text.Mathlib.TextEquality.{eq_iff}
use revisium_engine.Ledger.{Migration}
use revisium_engine.Slots.{TableSlots, held, vacate, break_lineage, break_both, occupy, is_id}
use revisium_engine.Slots.Held.{
  Coherent, held-vacate, held-break_lineage, get-place, get-vacate, get-break_lineage, length-place,
  length-vacate, length-break_lineage, break_lineage-Coherent, vacate-Coherent, place-Coherent,
}

module _ {S : Type 0} where
  held-break_both :
      (d : Option ℕ) (k : ℕ) (m : Migration S) (s : TableSlots S)
      → held s k ≡ none
      → held (break_both d k m s) k ≡ none
  unfolding break_both
  held-break_both none k m s h = h
  held-break_both (some x) k m s h = ground (
    arith,
    held-break_lineage k m (break_lineage x m (vacate x s)) k,
    held-break_lineage x m (vacate x s) k,
    held-vacate x s k,
  )

  length-break_both :
      (d : Option ℕ) (k : ℕ) (m : Migration S) (s : TableSlots S)
      → length (break_both d k m s).slots ≡ length s.slots
  unfolding break_both
  length-break_both none k m s = refl
  length-break_both (some x) k m s =
      length-break_lineage k m (break_lineage x m (vacate x s))
      ∙ length-break_lineage x m (vacate x s)
      ∙ length-vacate x s

  break_both-Coherent :
      (d : Option ℕ) (k : ℕ) (m : Migration S) (s : TableSlots S)
      → Coherent s
      → Coherent (break_both d k m s)
  unfolding break_both
  break_both-Coherent none k m s c = c
  break_both-Coherent (some x) k m s c =
      break_lineage-Coherent k m (break_lineage x m (vacate x s))
        (break_lineage-Coherent x m (vacate x s) (vacate-Coherent x s c))

  get-break_both :
      (x k : ℕ) (m : Migration S) (s : TableSlots S) (j : String)
      → Map.get (break_both (some x) k m s).current j
        ≡ (if is_id j (held s x) then none else Map.get s.current j)
  unfolding break_both
  get-break_both x k m s j =
      get-break_lineage k m (break_lineage x m (vacate x s)) j
      ∙ get-break_lineage x m (vacate x s) j
      ∙ get-vacate x s j

  -- After both slots left their ids, the id that is to be occupied is free, and no other id is
  -- touched.
  get-freed :
      (k : ℕ) (id : String) (m : Migration S) (s : TableSlots S) (j : String)
      → Coherent s
      → Map.get (break_both (Map.get s.current id) k m (vacate k s)).current j
        ≡ (if id == j then none else if is_id j (held s k) then none else Map.get s.current j)
  unfolding break_both is_id
  get-freed k id m s j c = elim (Option-cases (Map.get s.current id)) [
    | inl free ↦ rw (free, break_both) (ground (arith, get-vacate k s j, eq_iff id j))
    | inr (x, e) ↦ rw e (
        ground (
          arith,
          get-break_both x k m (vacate k s) j,
          get-vacate k s j,
          held-vacate k s x,
          c id x,
          eq_iff id j,
        ))
  ]

  pub get-occupy :
      (k : ℕ) (id : String) (m : Migration S) (s : TableSlots S) (j : String)
      → Coherent s
      → Map.get (occupy k id m s).1.current j
        ≡ (if id == j then some k else if is_id j (held s k) then none else Map.get s.current j)
  unfolding occupy
  get-occupy k id m s j c = ground (
    arith,
    get-place k id (break_both (Map.get s.current id) k m (vacate k s)) j,
    get-freed k id m s j c,
  )

  pub length-occupy :
      (k : ℕ) (id : String) (m : Migration S) (s : TableSlots S)
      → length (occupy k id m s).1.slots ≡ length s.slots
  unfolding occupy
  length-occupy k id m s =
      length-place k id (break_both (Map.get s.current id) k m (vacate k s))
      ∙ length-break_both (Map.get s.current id) k m (vacate k s)
      ∙ length-vacate k s

  pub occupy-Coherent :
      (k : ℕ) (id : String) (m : Migration S) (s : TableSlots S)
      → k < length s.slots
      → Coherent s
      → Coherent (occupy k id m s).1
  unfolding occupy
  occupy-Coherent k id m s h c =
      let d = Map.get s.current id in
      place-Coherent k id (break_both d k m (vacate k s))
        (omega (arith, length-break_both d k m (vacate k s), length-vacate k s))
        (held-break_both d k m (vacate k s) (ground (arith, held-vacate k s k)))
        (ground (arith, get-freed k id m s id c, beq_refl id))
        (break_both-Coherent d k m (vacate k s) (vacate-Coherent k s c))
