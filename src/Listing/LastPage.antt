-- ===== src/Listing/LastPage.antt =====
-- The loops of unit-listing.ts up to the last page.
use revisium_engine.Base.{
  ℕ, zero, suc, true, false, Option, none, some, List, ◌≤◌, ◌<◌, ltb, ◌≡◌, sym, ◌∙◌, arith, length,
  some_inj, on_test, on_option, inl, inr,
}
use mathlib.Core.Path.{subst}
use mathlib.Core.List.{Memᴰ}
use revisium_engine.Listing.{Text, ListedPosition, RowBound}
use revisium_engine.Listing.Pages.{
  ListingPage, last_of, is_full, is_after, last_of_cursor, add, count_rows, add_rows_read,
  ListingTable, Reader, distinct_row_ids_of, rows_to_read, rows_from_cursor_in, list_rows_from,
  list_changed_rows, list_tables,
}
use revisium_engine.Listing.Preserved.{
  Gives, list_rows_from-Gives, list_changed_rows-Gives, list_tables-Gives,
}
use revisium_engine.Listing.Complete.{
  Extends, HasAll, ReadsOn, units_from, Extends-refl, Extends-trans, Extends-room, HasAll-Extends,
  add-Extends, count_rows-Extends, add_rows_read-Extends, add_rows_read-HasAll,
  rows_to_read-positive,
}

pub not_full :
    (page later : ListingPage)
    → some page ≡ some later
    → is_full page ≡ true
    → is_full later ≡ false
    → ⊥
not_full page later same full room = cc

Extends-same : (page later : ListingPage) → some page ≡ some later → Extends page later
Extends-same page later same = subst (Extends page) (some_inj same) (Extends-refl page)

ends_nowhere {ℓ} : {A : Type ℓ} (o : Option A) (a : A) → o ≡ none → o ≡ some a → ⊥
ends_nowhere o a missing found = cc

missed : (limit n : ℕ) → ltb n limit ≡ true → limit ≤ n → ⊥
missed limit n less enough = ground arith

Extends-add :
    (start page : ListingPage) (units : List ListedPosition)
    → Extends start page
    → Extends start (add units page)
Extends-add start page units extends =
    Extends-trans start page (add units page) extends (add-Extends units page)

Extends-count_rows :
    (start page : ListingPage) (table_id : Text) (ids : List Text)
    → Extends start page
    → Extends start (count_rows table_id (last_of ids) ids page)
Extends-count_rows start page table_id ids extends =
    Extends-trans start page (count_rows table_id (last_of ids) ids page) extends
      (count_rows-Extends table_id (last_of ids) ids page)

module _ {T R : Type 0} (reader : Reader T R) where
  list_rows_from-Extends :
      (fuel : ℕ) (table_id : Text) (table : T) (from : Option RowBound) (page later : ListingPage)
      → list_rows_from reader fuel table_id table from page ≡ some later
      → Extends page later
  list_rows_from-Extends fuel table_id table from page later listed =
      subst (Gives (Extends page)) listed (
        list_rows_from-Gives reader (Extends page) (λ units q. Extends-add page q units)
          (λ id ids q. Extends-count_rows page q id ids) fuel table_id table from page
          (Extends-refl page))

  pub list_changed_rows-Extends :
      (fuel : ℕ) (table_id : Text) (rows : Option T) (page later : ListingPage)
      → list_changed_rows reader fuel table_id rows page ≡ some later
      → Extends page later
  list_changed_rows-Extends fuel table_id rows page later listed =
      subst (Gives (Extends page)) listed (
        list_changed_rows-Gives reader (Extends page) (λ units q. Extends-add page q units)
          (λ id ids q. Extends-count_rows page q id ids) fuel table_id rows page
          (Extends-refl page))

  pub list_tables-Extends :
      (fuel : ℕ) (tables : List (ListingTable T)) (page later : ListingPage)
      → list_tables reader fuel tables page ≡ some later
      → Extends page later
  list_tables-Extends fuel tables page later listed = subst (Gives (Extends page)) listed (
      list_tables-Gives reader (Extends page) (λ units q. Extends-add page q units)
        (λ id ids q. Extends-count_rows page q id ids) fuel tables page (Extends-refl page))

module _ {T R : Type 0} (reader : Reader T R) (changed_from : T → Option RowBound → List R)
    (reads_on : ReadsOn reader changed_from) (later : ListingPage)
    (room : is_full later ≡ false) where
  -- the rows of a table, up to a page that is not full
  list_rows_from-HasAll :
      (fuel : ℕ) (table_id : Text) (table : T) (from : Option RowBound) (page : ListingPage)
      → list_rows_from reader fuel table_id table from page ≡ some later
      → HasAll page.cursor (units_from reader changed_from table_id table from) later
  unfolding list_rows_from
  list_rows_from-HasAll zero table_id table from page =
      on_test
        (λ r.
          r ≡ some later
          → HasAll page.cursor (units_from reader changed_from table_id table from) later)
        (is_full page) (λ full listed. absurd (not_full page later listed full room))
        (λ not_yet listed. cc)
  list_rows_from-HasAll (suc fuel) table_id table from page =
      let limit = rows_to_read page in
      let pairs = reader.read_changed_rows_from table from limit in
      let units = reader.row_units_of table_id table pairs in
      let ids = distinct_row_ids_of reader pairs in
      let read = add_rows_read table_id ids units page in
      let next : Text → Option ListingPage = λ last.
        list_rows_from reader fuel table_id table
          (some (record { row_id = last; inclusive = false })) read in
      let All : Option ListingPage → Type 0 = λ r.
        r ≡ some later
        → HasAll page.cursor (units_from reader changed_from table_id table from) later in
      let of_read : Extends read later → HasAll page.cursor units later = λ extends.
        HasAll-Extends page.cursor units read later extends (
          add_rows_read-HasAll table_id ids units page (
            subst (λ n. length read.listed < n)
              (sym (add_rows_read-Extends table_id ids units page).0)
              (Extends-room read later extends room))) in
      let same = (add_rows_read-Extends table_id ids units page).1 in
      on_test All (is_full page) (λ full listed. absurd (not_full page later listed full room))
        (λ not_yet.
          on_test All (ltb (length pairs) limit)
            (λ short listed u changed after.
              elim (reads_on table_id table from limit u (rows_to_read-positive page not_yet)
                changed) [
                  | inl here ↦ of_read (Extends-same read later listed) u here after
                  | inr (last, ends, long, beyond) ↦ absurd (missed limit (length pairs) short long)
                ])
            (λ long.
              on_option All (last_of ids) (some read) next
                (λ no_last listed u changed after.
                  elim (reads_on table_id table from limit u (rows_to_read-positive page not_yet)
                    changed) [
                      | inl here ↦ of_read (Extends-same read later listed) u here after
                      | inr (last, ends, enough, beyond) ↦
                          absurd (ends_nowhere (last_of ids) last no_last ends)
                    ])
                (λ last found listed u changed after.
                  elim (reads_on table_id table from limit u (rows_to_read-positive page not_yet)
                    changed) [
                      | inl here ↦
                          of_read
                            (list_rows_from-Extends reader fuel table_id table
                              (some (record { row_id = last; inclusive = false })) read later
                              listed)
                            u here after
                      | inr (other, ends, enough, beyond) ↦
                          list_rows_from-HasAll fuel table_id table
                            (some (record { row_id = last; inclusive = false })) read listed u
                            (subst
                              (λ l. Memᴰ u (
                                units_from reader changed_from table_id table
                                  (some (record { row_id = l; inclusive = false }))))
                              (some_inj (sym ends ∙ found)) beyond)
                            (subst (λ c. is_after (last_of_cursor c) u ≡ true) same after)
                    ])))

  pub list_changed_rows-HasAll :
      (fuel : ℕ) (table_id : Text) (table : T) (page : ListingPage)
      → list_changed_rows reader fuel table_id (some table) page ≡ some later
      → HasAll page.cursor
          (units_from reader changed_from table_id table (rows_from_cursor_in page table_id))
          later
  list_changed_rows-HasAll fuel table_id table page listed =
      list_rows_from-HasAll fuel table_id table (rows_from_cursor_in page table_id) page listed
