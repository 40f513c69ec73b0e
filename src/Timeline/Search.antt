-- ===== src/Timeline/Search.antt =====
-- The binary search for the last change before a position.
use revisium_engine.Base.{
  ℕ, zero, suc, ◌+◌, ◌/◌, ◌<◌, ◌≤◌, some, List, length, get_elem?, ltb, ◌≡◌, sym, ◌∙◌, ap, arith,
  Bool-cases, inl, inr, ◌↔◌, get_elem?-lt, some_inj, lt-length_of_get_elem?,
}
use revisium_engine.Timeline.{LedgerTableIdChange, search, is_before, bound_before}

-- The changes stand in the order of their positions.
abbrev pub IsSorted : {S : Type 0} → List (LedgerTableIdChange S) → Type 0
IsSorted {S} changes =
    (i j : ℕ) (c d : LedgerTableIdChange S)
    → get_elem? changes i ≡ some c
    → get_elem? changes j ≡ some d
    → i < j
    → c.position ≤ d.position

module _ {S : Type 0} (changes : List (LedgerTableIdChange S)) (position : ℕ) where
  -- The changes below a bound are before the position.
  abbrev AllBefore : ℕ → Type 0
  AllBefore low =
      (i : ℕ) (c : LedgerTableIdChange S)
      → get_elem? changes i ≡ some c
      → i < low
      → c.position < position

  abbrev NoneFrom : ℕ → Type 0
  NoneFrom high =
      (i : ℕ) (c : LedgerTableIdChange S)
      → get_elem? changes i ≡ some c
      → high ≤ i
      → position ≤ c.position

  middle-bounds : (low high : ℕ) → low < high → (low ≤ (low + high) / 2) × ((low + high) / 2 < high)
  middle-bounds low high h = (omega arith, omega arith)

  -- What the change in the middle says of the others.
  before-middle :
      (m : ℕ) (cm : LedgerTableIdChange S)
      → IsSorted changes
      → get_elem? changes m ≡ some cm
      → cm.position < position
      → AllBefore (suc m)
  before-middle m cm s gm h i c g o = elim (Bool-cases (ltb i m)) [
    | inl below ↦ ground (arith, s i m c cm g gm (ground arith))
    | inr there ↦
        let same : i ≡ m = ground arith in
        let one = some_inj (sym g ∙ ap (get_elem? changes) same ∙ gm) in
        ground (arith, ap (λ x. x.position) one)
  ]

  from-middle :
      (m : ℕ) (cm : LedgerTableIdChange S)
      → IsSorted changes
      → get_elem? changes m ≡ some cm
      → position ≤ cm.position
      → NoneFrom m
  from-middle m cm s gm h i c g o = elim (Bool-cases (ltb m i)) [
    | inl above ↦ ground (arith, s m i cm c gm g (ground arith))
    | inr there ↦
        let same : i ≡ m = ground arith in
        let one = some_inj (sym g ∙ ap (get_elem? changes) same ∙ gm) in
        ground (arith, ap (λ x. x.position) one)
  ]

  search_correct :
      (n low high : ℕ)
      → IsSorted changes
      → high ≤ length changes
      → low ≤ high
      → high < low + n
      → AllBefore low
      → NoneFrom high
      → (b : ℕ) × (search n changes position low high ≡ some b)
        × (b ≤ length changes)
        × AllBefore b
        × NoneFrom b
  unfolding search is_before
  search_correct zero low high s l o f before after = absurd (omega arith)
  search_correct (suc n) low high s l o f before after = elim (Bool-cases (ltb low high)) [
    | inr met ↦
        let same : low ≡ high = ground arith in
        (low, ground arith, omega arith, before, λ i c g h. after i c g (ground arith))
    | inl apart ↦
        let m = (low + high) / 2 in
        let (above, below) = middle-bounds low high (ground arith) in
        let (cm, gm) = get_elem?-lt changes m (omega arith) in
        elim (Bool-cases (ltb cm.position position)) [
          | inl yet ↦
              let (b, e, room, earlier, later) =
                search_correct n (suc m) high s l (omega arith) (omega arith)
                  (before-middle m cm s gm (ground arith)) after in
              (b, ground arith, room, earlier, later)
          | inr past ↦
              let (b, e, room, earlier, later) =
                search_correct n low m s (omega arith) (omega arith) (omega arith) before
                  (from-middle m cm s gm (ground arith)) in
              (b, ground arith, room, earlier, later)
        ]
  ]

  -- Changes in the order of their positions: the search finds a bound, and the changes below it are
  -- exactly those before the position.
  pub bound_before_correct :
      IsSorted changes
      → (b : ℕ) × (bound_before changes position ≡ some b)
        × (b ≤ length changes)
        × ((i : ℕ) (c : LedgerTableIdChange S)
            → get_elem? changes i ≡ some c
            → (i < b) ↔ (c.position < position))
  unfolding bound_before
  bound_before_correct s =
      let (b, e, room, before, after) =
        search_correct (suc (length changes)) 0 (length changes) s (omega arith) (omega arith)
          (omega arith) (λ i c g h. absurd (omega arith))
          (λ i c g h. absurd (omega (arith, lt-length_of_get_elem? changes i g))) in
      (
        b,
        e,
        room,
        λ i c g. (λ h. before i c g h, λ h. ground (arith, after i c g, Bool-cases (ltb i b))),
      )
