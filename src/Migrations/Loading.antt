-- ===== src/Migrations/Loading.antt =====
-- `loadBatchRows` of src/features/migration/services/migration-batch.service.ts reads on where the
-- rows copied so far end: the rows of the source are listed by strictly ascending ids.
use revisium_engine.Base.{
  ℕ, zero, suc, String, Bool, true, false, Option, none, some, List, [], ◌∷◌, ◌++◌, ◌≡◌, refl, ap,
  ◌∙◌, Eq-String, ◌==◌, All, filter, arith, some_inj,
}
use mathlib.Core.Path.{subst}
use revisium_engine.Migrations.{Row}
use revisium_engine.Migrations.Batches.{Toolkit, take, is_after, last_row, load_batch_rows}

-- The database compares ids by a strict order.
pub record IdOrder (is_greater : String → String → Bool) : Type 0 where
  pub irreflexive : (id : String) → is_greater id id ≡ false
  pub asymmetric : (id other : String) → is_greater id other ≡ true → is_greater other id ≡ false

module _ {ℓ} {A : Type ℓ} where
  abbrev pub drop : ℕ → List A → List A
  drop zero xs = xs
  drop (suc n) [] = []
  drop (suc n) (x ∷ xs) = drop n xs

  pub take-append-drop : (n : ℕ) (xs : List A) → take n xs ++ drop n xs ≡ xs
  take-append-drop zero xs = refl
  take-append-drop (suc n) [] = refl
  take-append-drop (suc n) (x ∷ xs) = ap (λ rest. x ∷ rest) (take-append-drop n xs)

module _ {J : Type 0} where
  abbrev pub id_of : Option (Row J) → Option String
  id_of none = none
  id_of (some row) = some row.id

  -- the checkpoint of some copied rows
  abbrev pub last_id : List (Row J) → Option String
  last_id rows = id_of (last_row rows)

  pub last_row-some :
      (row : Row J) (rows : List (Row J)) → (last : Row J) × (last_row (row ∷ rows) ≡ some last)
  unfolding last_row
  last_row-some row [] = (row, refl)
  last_row-some row (next ∷ rows) = last_row-some next rows

  All-last_row {κ} :
      (Q : Row J → Type κ) (rows more : List (Row J)) (last : Row J)
      → All Q (rows ++ more)
      → last_row rows ≡ some last
      → Q last
  unfolding last_row
  All-last_row Q [] more last h at_end = cc
  All-last_row Q (row ∷ []) more last h at_end = subst Q (some_inj at_end) h.0
  All-last_row Q (row ∷ next ∷ rows) more last h at_end =
      All-last_row Q (next ∷ rows) more last h.1 at_end

  pub last_row-append :
      (rows more : List (Row J)) (last : Row J)
      → last_row more ≡ some last
      → last_row (rows ++ more) ≡ some last
  unfolding last_row
  last_row-append [] more last h = h
  last_row-append (row ∷ []) [] last h = cc
  last_row-append (row ∷ []) (next ∷ more) last h = h
  last_row-append (row ∷ next ∷ rows) more last h = last_row-append (next ∷ rows) more last h

module _ {P J : Type 0} (kit : Toolkit P J) where
  -- ids that ascend, none of them blank
  abbrev pub IsListedById : List (Row J) → Type 0
  IsListedById [] = Unit
  IsListedById (row ∷ rows) =
      ((row.id == "") ≡ false)
      × All (λ next. kit.is_greater next.id row.id ≡ true) rows
      × IsListedById rows

  abbrev pub rows_after : Option String → List (Row J) → List (Row J)
  rows_after last rows = filter (λ row. is_after kit.is_greater last row.id) rows

  rows_after-greater :
      (id : String) (rows : List (Row J))
      → All (λ row. kit.is_greater row.id id ≡ true) rows
      → rows_after (some id) rows ≡ rows
  rows_after-greater id [] h = refl
  rows_after-greater id (row ∷ rows) h = ground (arith, h.0, rows_after-greater id rows h.1)

  rows_after-none : (rows : List (Row J)) → rows_after none rows ≡ rows
  rows_after-none [] = refl
  rows_after-none (row ∷ rows) = ap (λ rest. row ∷ rest) (rows_after-none rows)

  last_row-nonblank :
      (rows more : List (Row J)) (last : Row J)
      → IsListedById (rows ++ more)
      → last_row rows ≡ some last
      → (last.id == "") ≡ false
  unfolding last_row
  last_row-nonblank [] more last h at_end = cc
  last_row-nonblank (row ∷ []) more last h at_end =
      subst (λ r. (r.id == "") ≡ false) (some_inj at_end) h.0
  last_row-nonblank (row ∷ next ∷ rows) more last h at_end =
      last_row-nonblank (next ∷ rows) more last h.2 at_end

module _ {P J : Type 0} (kit : Toolkit P J) (order : IdOrder kit.is_greater) where
  rows_after-last :
      (rows more : List (Row J)) (last : Row J)
      → IsListedById kit (rows ++ more)
      → (last.id == "") ≡ false
      → last_row rows ≡ some last
      → rows_after kit (some last.id) (rows ++ more) ≡ more
  unfolding last_row
  rows_after-last [] more last h nonblank at_end = cc
  rows_after-last (row ∷ []) more last h nonblank at_end =
      let same = some_inj at_end in
      let tail =
        rows_after-greater kit last.id more
          (subst (λ r. All (λ next. kit.is_greater next.id r.id ≡ true) more) same h.1) in
      ground (arith, order.irreflexive last.id, ap (λ r. r.id) same)
  rows_after-last (row ∷ next ∷ rows) more last h nonblank at_end =
      let above =
        All-last_row (λ r. kit.is_greater r.id row.id ≡ true) (next ∷ rows) more last h.1 at_end in
      let below = order.asymmetric last.id row.id above in
      let tail = rows_after-last (next ∷ rows) more last h.2 nonblank at_end in ground arith

  -- After some rows of the source are copied, a batch has the next ones.
  pub load_batch_rows-next :
      (rows more : List (Row J)) (n : ℕ)
      → IsListedById kit (rows ++ more)
      → load_batch_rows kit (rows ++ more) (last_id rows) n ≡ take n more
  unfolding load_batch_rows last_row
  load_batch_rows-next [] more n h = ap (take n) (rows_after-none kit more)
  load_batch_rows-next (row ∷ rows) more n h =
      let (last, at_end) = last_row-some row rows in
      ap (λ end. take n (rows_after kit (id_of end) (row ∷ rows ++ more))) at_end
      ∙ ap (take n) (
          rows_after-last (row ∷ rows) more last h
            (last_row-nonblank kit (row ∷ rows) more last h at_end) at_end)
