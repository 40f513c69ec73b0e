-- ===== src/Listing/Preserved.antt =====
-- What the loops of unit-listing.ts keep of a page.
use revisium_engine.Base.{
  ℕ, zero, suc, false, Option, none, some, List, [], ◌∷◌, ltb, length, if◌then◌else◌,
}
use revisium_engine.Listing.{Text, ListedPosition, RowBound, ListingCursor}
use revisium_engine.Listing.Pages.{
  ListingPage, new_page, last_of, is_full, add, count_rows, add_rows_read, ListingTable,
  tables_from_cursor, Reader, distinct_row_ids_of, rows_to_read, rows_from_cursor_in,
  list_rows_from, list_changed_rows, list_table, list_tables, list_page,
}
use mathlib.Core.Path.{subst}
use revisium_engine.Base.{on_test, on_option}

-- a page that the listing gives has the property
abbrev pub Gives {ℓ} : (ListingPage → Type ℓ) → Option ListingPage → Type ℓ
Gives P none = Unit
Gives P (some page) = P page

module _ {ℓ} {T R : Type 0} (reader : Reader T R) (P : ListingPage → Type ℓ)
    (kept_by_add : (units : List ListedPosition) (page : ListingPage) → P page → P (add units page))
    (kept_by_count : (table_id : Text) (ids : List Text) (page : ListingPage)
      → P page
      → P (count_rows table_id (last_of ids) ids page)) where
  kept_by_read :
      (table_id : Text) (ids : List Text) (units : List ListedPosition) (page : ListingPage)
      → P page
      → P (add_rows_read table_id ids units page)
  unfolding add_rows_read
  kept_by_read table_id ids units page holds =
      kept_by_add units (count_rows table_id (last_of ids) ids page)
        (kept_by_count table_id ids page holds)

  pub list_rows_from-Gives :
      (fuel : ℕ) (table_id : Text) (table : T) (from : Option RowBound) (page : ListingPage)
      → P page
      → Gives P (list_rows_from reader fuel table_id table from page)
  unfolding list_rows_from
  list_rows_from-Gives zero table_id table from page holds =
      on_test (Gives P) (is_full page) (λ full. holds) (λ room. tt)
  list_rows_from-Gives (suc fuel) table_id table from page holds =
      let limit = rows_to_read page in
      let pairs = reader.read_changed_rows_from table from limit in
      let ids = distinct_row_ids_of reader pairs in
      let read = add_rows_read table_id ids (reader.row_units_of table_id table pairs) page in
      let next : Text → Option ListingPage = λ last.
        list_rows_from reader fuel table_id table
          (some (record { row_id = last; inclusive = false })) read in
      let after : P read =
        kept_by_read table_id ids (reader.row_units_of table_id table pairs) page holds in
      on_test (Gives P) (is_full page) (λ full. holds)
        (λ room.
          on_test (Gives P) (ltb (length pairs) limit) (λ all. after)
            (λ more.
              on_option (Gives P) (last_of ids) (some read) next (λ no_last. after)
                (λ last found.
                  list_rows_from-Gives fuel table_id table
                    (some (record { row_id = last; inclusive = false })) read after)))

  pub list_changed_rows-Gives :
      (fuel : ℕ) (table_id : Text) (rows : Option T) (page : ListingPage)
      → P page
      → Gives P (list_changed_rows reader fuel table_id rows page)
  list_changed_rows-Gives fuel table_id none page holds = holds
  list_changed_rows-Gives fuel table_id (some table) page holds =
      list_rows_from-Gives fuel table_id table (rows_from_cursor_in page table_id) page holds

  pub list_tables-Gives :
      (fuel : ℕ) (tables : List (ListingTable T)) (page : ListingPage)
      → P page
      → Gives P (list_tables reader fuel tables page)
  unfolding list_tables list_table
  list_tables-Gives fuel [] page holds = holds
  list_tables-Gives fuel (table ∷ tables) page holds =
      on_option (Gives P) (list_table reader fuel table page) none
        (λ listed. if is_full listed then some listed else list_tables reader fuel tables listed)
        (λ missing. tt)
        (λ listed found.
          let after : P listed = subst (Gives P) found (
            list_changed_rows-Gives fuel table.table_id table.changed_rows (add table.units page)
              (kept_by_add table.units page holds)) in
          on_test (Gives P) (is_full listed) (λ full. after)
            (λ room. list_tables-Gives fuel tables listed after))

  -- A property that adding units and counting rows keep, and that an empty page has, is one of every
  -- page that the listing gives.
  pub list_page-Gives :
      (fuel page_size : ℕ) (cursor : Option ListingCursor) (tables : List (ListingTable T))
      → P (new_page page_size cursor)
      → Gives P (list_page reader fuel page_size cursor tables)
  unfolding list_page
  list_page-Gives fuel page_size cursor tables holds =
      list_tables-Gives fuel (tables_from_cursor (new_page page_size cursor) tables)
        (new_page page_size cursor) holds
