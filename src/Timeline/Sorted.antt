-- ===== src/Timeline/Sorted.antt =====
-- A timeline keeps the changes of each id in the order of the ledger, so that the search finds the
-- latest one.
use revisium_engine.Base.{
  ℕ, zero, suc, ◌<◌, ◌≤◌, String, Option, none, some, List, [], ◌∷◌, ◌++◌, length, get_elem?,
  get_elem?-concat, get_elem?-lt, ltb, ◌≡◌, refl, sym, ◌∙◌, ap, arith, Bool-cases, inl, inr, ◌⊎◌,
  ◌↔◌, some_inj, nat_eq, lt-length_of_get_elem?, Eq-String, ◌==◌,
}
use mathlib.Core.Path.{subst}
use revisium_engine.Base.Map
use revisium_engine.Base.Map.{Map, get-set, get-nil}
use revisium_engine.Base.Result.{ok, >>=-eq-ok, ok_inj}
use revisium_engine.Ledger.{Migration, migration_id}
use revisium_engine.Slots.{TableSlots, table_slots, follow}
use revisium_engine.Timeline.{
  LedgerTableIdChange, TableIdTimeline, same_lineage, last_lineage, or_no_changes, record_change,
  record_changes, timeline_from, table_ids_named_by, table_id_timeline, lineage_holding,
  position_of, change_below, last_change_before,
}
use revisium_engine.Timeline.Search.{IsSorted, bound_before_correct}

module _ {S : Type 0} where
  -- Changes in order, all of them before a position.
  abbrev Ordered : ℕ → List (LedgerTableIdChange S) → Type 0
  Ordered n l =
      IsSorted l × ((i : ℕ) (c : LedgerTableIdChange S) → get_elem? l i ≡ some c → c.position < n)

  abbrev AllOrdered : ℕ → TableIdTimeline S → Type 0
  AllOrdered n t = (id : String) → Ordered n (or_no_changes (Map.get t.changes id))

  concat-cases :
      (l : List (LedgerTableIdChange S)) (change : LedgerTableIdChange S) (i : ℕ)
      (c : LedgerTableIdChange S)
      → get_elem? (l ++ change ∷ []) i ≡ some c
      → ((i < length l) × (get_elem? l i ≡ some c)) ⊎ ((i ≡ length l) × (c ≡ change))
  concat-cases l change i c g = elim (Bool-cases (nat_eq (length l) i)) [
    | inl last ↦ inr (ground arith, some_inj (sym (ground (arith, get_elem?-concat l change i))))
    | inr other ↦
        let kept : get_elem? l i ≡ some c = ground (arith, get_elem?-concat l change i) in
        inl (lt-length_of_get_elem? l i kept, kept)
  ]

  Ordered-concat :
      (n : ℕ) (l : List (LedgerTableIdChange S)) (change : LedgerTableIdChange S)
      → change.position ≡ n
      → Ordered (suc n) l
      → Ordered (suc n) (l ++ change ∷ [])
  Ordered-concat n l change e (sorted, bound) = (
    λ i j c d g h o. elim (concat-cases l change j d h) [
      | inl (room, h') ↦ elim (concat-cases l change i c g) [
        | inl (room', g') ↦ sorted i j c d g' h' o
        | inr (end, x) ↦ absurd (omega arith)
      ]
      | inr (end, x) ↦ elim (concat-cases l change i c g) [
        | inl (room', g') ↦ ground (arith, bound i c g', ap (λ y. y.position) x)
        | inr (end', x') ↦ absurd (omega arith)
      ]
    ],
    λ i c g. elim (concat-cases l change i c g) [
      | inl (room, g') ↦ bound i c g'
      | inr (end, x) ↦ ground (arith, ap (λ y. y.position) x)
    ],
  )

  AllOrdered-record_change :
      (n : ℕ) (id : String) (change : LedgerTableIdChange S) (t : TableIdTimeline S)
      → change.position ≡ n
      → AllOrdered (suc n) t
      → AllOrdered (suc n) (record_change id change t)
  unfolding record_change
  AllOrdered-record_change n id change t e h j =
      let changes = or_no_changes (Map.get t.changes id) in
      elim (Bool-cases (same_lineage (last_lineage changes) change.lineage)) [
        | inl same ↦ rw same (h j)
        | inr new ↦ elim (Bool-cases (id == j)) [
          | inl here ↦
              rw (new, get-set t.changes id j (changes ++ change ∷ []), here)
                (Ordered-concat n changes change e (h id))
          | inr other ↦ rw (new, get-set t.changes id j (changes ++ change ∷ []), other) (h j)
        ]
      ]

  AllOrdered-record_changes :
      (m : Migration S) (n : ℕ) (s : TableSlots S) (ids : List String) (t t' : TableIdTimeline S)
      → AllOrdered (suc n) t
      → record_changes m n s ids t ≡ ok t'
      → AllOrdered (suc n) t'
  unfolding record_changes
  AllOrdered-record_changes m n s [] t t' h e = subst (λ x. AllOrdered (suc n) x) (ok_inj e) h
  AllOrdered-record_changes m n s (id ∷ ids) t t' h e =
      let (lineage, found, rest) = >>=-eq-ok (lineage_holding s id) _ e in
      AllOrdered-record_changes m n s ids _ t'
        (AllOrdered-record_change n id (record { migration = m; lineage = lineage; position = n }) t
          refl h)
        rest

  weaker : (n : ℕ) (t : TableIdTimeline S) → AllOrdered n t → AllOrdered (suc n) t
  weaker n t h id = ((h id).0, λ i c g. omega (arith, (h id).1 i c g))

  timeline_from-IsSorted :
      (ms : List (Migration S)) (n : ℕ) (s : TableSlots S) (t t' : TableIdTimeline S)
      → AllOrdered n t
      → timeline_from ms n s t ≡ ok t'
      → (id : String) → IsSorted (or_no_changes (Map.get t'.changes id))
  unfolding timeline_from
  timeline_from-IsSorted [] n s t t' h e id =
      subst (λ x. IsSorted (or_no_changes (Map.get x.changes id))) (ok_inj e) (h id).0
  timeline_from-IsSorted (m ∷ ms) n s t t' h e id =
      let placed = record t { positions = Map.set t.positions (migration_id m) n } in
      let (recorded, done, rest) =
        >>=-eq-ok (record_changes m n (follow m s).1 (table_ids_named_by m) placed) _ e in
      timeline_from-IsSorted ms (suc n) (follow m s).1 recorded t'
        (AllOrdered-record_changes m n (follow m s).1 (table_ids_named_by m) placed recorded
          (weaker n t h) done)
        rest id

  table_id_timeline-IsSorted :
      (ledger : List (Migration S)) (t : TableIdTimeline S) (id : String)
      → table_id_timeline ledger ≡ ok t
      → IsSorted (or_no_changes (Map.get t.changes id))
  unfolding table_id_timeline
  table_id_timeline-IsSorted ledger t id e =
      timeline_from-IsSorted ledger 0 (table_slots []) (record { positions = []; changes = [] }) t
        (λ j.
          subst (λ x. Ordered 0 (or_no_changes x))
            (sym (get-nil {V = List (LedgerTableIdChange S)} j)) (λ i k c d g h o. cc, λ i c g. cc))
        e id

  -- The latest of the changes whose positions are before a position.
  abbrev pub IsLatest : List (LedgerTableIdChange S) → ℕ → Option (LedgerTableIdChange S) → Type 0
  IsLatest changes p none =
      (i : ℕ) (c : LedgerTableIdChange S) → get_elem? changes i ≡ some c → p ≤ c.position
  IsLatest changes p (some c) =
      (i : ℕ) × (get_elem? changes i ≡ some c)
      × (c.position < p)
      × ((j : ℕ) (d : LedgerTableIdChange S)
          → get_elem? changes j ≡ some d
          → d.position < p
          → d.position ≤ c.position)

  later_or_same :
      (changes : List (LedgerTableIdChange S)) (b j : ℕ) (c d : LedgerTableIdChange S)
      → IsSorted changes
      → get_elem? changes b ≡ some c
      → get_elem? changes j ≡ some d
      → j < suc b
      → d.position ≤ c.position
  later_or_same changes b j c d s g h o = elim (Bool-cases (ltb j b)) [
    | inl before ↦ s j b d c h g (ground arith)
    | inr there ↦
        let same : j ≡ b = ground arith in
        let one = some_inj (sym h ∙ ap (get_elem? changes) same ∙ g) in
        ground (arith, ap (λ x. x.position) one)
  ]

  change_below-IsLatest :
      (changes : List (LedgerTableIdChange S)) (p b : ℕ)
      → IsSorted changes
      → b ≤ length changes
      → ((i : ℕ) (c : LedgerTableIdChange S)
          → get_elem? changes i ≡ some c
          → (i < b) ↔ (c.position < p))
      → IsLatest changes p (change_below changes (some b))
  change_below-IsLatest changes p zero s room split =
      λ i c g. ground (arith, split i c g, Bool-cases (ltb c.position p))
  change_below-IsLatest changes p (suc b) s room split =
      let (c, g) = get_elem?-lt changes b (omega arith) in
      subst (IsLatest changes p) (sym g) (
        b,
        g,
        (split b c g).0 (omega arith),
        λ j d h o. later_or_same changes b j c d s g h (omega (arith, (split j d h).1 o)),
      )

  -- In a timeline that the constructor makes of a ledger, the search for a step that the ledger has
  -- and for a table id returns the latest of the id's changes before the step, or nothing when the
  -- id has no change before it.
  pub last_change_before-IsLatest :
      (ledger : List (Migration S)) (t : TableIdTimeline S) (step : Migration S) (id : String)
      (p : ℕ)
      → table_id_timeline ledger ≡ ok t
      → position_of t step ≡ ok p
      → (o : Option (LedgerTableIdChange S)) × (last_change_before t step id ≡ ok o)
        × IsLatest (or_no_changes (Map.get t.changes id)) p o
  unfolding last_change_before
  last_change_before-IsLatest ledger t step id p made at =
      let changes = or_no_changes (Map.get t.changes id) in
      let sorted = table_id_timeline-IsSorted ledger t id made in
      let (b, e, room, split) = bound_before_correct changes p sorted in
      (
        change_below changes (some b),
        rw (at, e) refl,
        change_below-IsLatest changes p b sorted room split,
      )
