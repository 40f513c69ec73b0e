-- ===== src/Listing/Bounds.antt =====
-- How much a page of listing-page.ts and unit-listing.ts holds, and how often its rows are read.
use revisium_engine.Base.{
  ℕ, zero, suc, true, false, Option, none, some, List, [], ◌∷◌, ◌+◌, ◌-◌, ◌≤◌, ◌≡◌, refl, ap, sym,
  arith, ltb, length, filter, length-append, length-add_all, if◌then◌else◌, Eq-List, Eq-ℕ,
}
use mathlib.Core.Path.{subst}
use revisium_engine.Base.{on_test, on_option}
use revisium_engine.Listing.{Text, ListedPosition, RowBound, ListingCursor}
use revisium_engine.Listing.Pages.{
  ListingPage, new_page, first_of, last_of, is_full, rows_to_read, is_after_cursor, push_units, add,
  count_rows, add_rows_read, rows_from_cursor_in, ListingTable, tables_from_cursor, Reader,
  distinct_row_ids_of, list_rows_from, list_changed_rows, list_table, list_tables, list_page,
  row_ids,
}

-- at most so many units and so many row ids
abbrev pub IsWithin : ℕ → ListingPage → Type 0
IsWithin n page = (page.page_size ≡ n) × (length page.listed ≤ n) × (page.row_ids_read ≤ n)

-- the listing gives such a page
abbrev pub IsListed : ℕ → Option ListingPage → Type 0
IsListed n result = (page : ListingPage) × (result ≡ some page) × IsWithin n page

pub length-first_of {ℓ} : {A : Type ℓ} (n : ℕ) (xs : List A) → length (first_of n xs) ≤ n
length-first_of zero xs = omega arith
length-first_of (suc n) [] = omega arith
length-first_of (suc n) (x ∷ xs) = omega (arith, length-first_of n xs)

last_of-some {ℓ} : {A : Type ℓ} (xs : List A) (a : A) → last_of xs ≡ some a → 1 ≤ length xs
last_of-some [] a last = cc
last_of-some (x ∷ xs) a last = omega arith

push_units-IsWithin :
    (n : ℕ) (last : Option ListedPosition) (taken unlisted : List ListedPosition)
    (page : ListingPage)
    → IsWithin n page
    → length page.listed + length taken ≤ n
    → IsWithin n (push_units last taken unlisted page)
push_units-IsWithin n none taken unlisted page within room = within
push_units-IsWithin n (some last) taken unlisted page (size, units, ids) room =
    (size, omega (arith, length-append page.listed taken, room), ids)

push_units-row_ids_read :
    (last : Option ListedPosition) (taken unlisted : List ListedPosition) (page : ListingPage)
    → (push_units last taken unlisted page).row_ids_read ≡ page.row_ids_read
push_units-row_ids_read none taken unlisted page = refl
push_units-row_ids_read (some last) taken unlisted page = refl

add-IsWithin :
    (n : ℕ) (units : List ListedPosition) (page : ListingPage)
    → IsWithin n page
    → IsWithin n (add units page)
unfolding add
add-IsWithin n units page (size, listed, ids) =
    let room = page.page_size - length page.listed in
    let unlisted = filter (is_after_cursor page) units in
    push_units-IsWithin n (last_of (first_of room unlisted)) (first_of room unlisted) unlisted page
      (size, listed, ids) (omega (arith, length-first_of room unlisted))

add-row_ids_read :
    (units : List ListedPosition) (page : ListingPage)
    → (add units page).row_ids_read ≡ page.row_ids_read
unfolding add
add-row_ids_read units page =
    let room = page.page_size - length page.listed in
    let unlisted = filter (is_after_cursor page) units in
    push_units-row_ids_read (last_of (first_of room unlisted)) (first_of room unlisted) unlisted
      page

count_rows-IsWithin :
    (n : ℕ) (table_id : Text) (last : Option Text) (ids : List Text) (page : ListingPage)
    → IsWithin n page
    → page.row_ids_read + length ids ≤ n
    → IsWithin n (count_rows table_id last ids page)
count_rows-IsWithin n table_id none ids page within room = within
count_rows-IsWithin n table_id (some last) ids page (size, listed, read) room = (size, listed, room)

count_rows-some :
    (table_id : Text) (result : Option Text) (last : Text) (ids : List Text) (page : ListingPage)
    → result ≡ some last
    → (count_rows table_id result ids page).row_ids_read ≡ page.row_ids_read + length ids
count_rows-some table_id none last ids page found = cc
count_rows-some table_id (some other) last ids page found = refl

add_rows_read-IsWithin :
    (n : ℕ) (table_id : Text) (ids : List Text) (units : List ListedPosition) (page : ListingPage)
    → IsWithin n page
    → page.row_ids_read + length ids ≤ n
    → IsWithin n (add_rows_read table_id ids units page)
unfolding add_rows_read
add_rows_read-IsWithin n table_id ids units page within room =
    add-IsWithin n units (count_rows table_id (last_of ids) ids page)
      (count_rows-IsWithin n table_id (last_of ids) ids page within room)

-- A read of some row ids is a step towards a full page.
add_rows_read-row_ids_read :
    (table_id : Text) (ids : List Text) (units : List ListedPosition) (page : ListingPage)
    (last : Text)
    → last_of ids ≡ some last
    → suc page.row_ids_read ≤ (add_rows_read table_id ids units page).row_ids_read
unfolding add_rows_read
add_rows_read-row_ids_read table_id ids units page last found = omega (
  arith,
  add-row_ids_read units (count_rows table_id (last_of ids) ids page),
  count_rows-some table_id (last_of ids) last ids page found,
  last_of-some ids last found,
)

-- A page that is not full asks for no more rows than it has room for.
rows_to_read-room :
    (n : ℕ) (page : ListingPage) → IsWithin n page → page.row_ids_read + rows_to_read page ≤ n
rows_to_read-room n page (size, listed, ids) = ground arith

read_all-is_full :
    (n : ℕ) (page : ListingPage) → IsWithin n page → n ≤ page.row_ids_read → is_full page ≡ true
read_all-is_full n page (size, listed, ids) all = ground arith

module _ {T R : Type 0} (reader : Reader T R) where
  length-row_ids : (pairs : List R) → length (row_ids reader pairs) ≡ length pairs
  unfolding row_ids
  length-row_ids [] = refl
  length-row_ids (pair ∷ pairs) = ap suc (length-row_ids pairs)

  pub length-distinct_row_ids_of :
      (pairs : List R) → length (distinct_row_ids_of reader pairs) ≤ length pairs
  unfolding distinct_row_ids_of
  length-distinct_row_ids_of pairs =
      omega (arith, length-add_all [] (row_ids reader pairs), length-row_ids pairs)

module _ {T R : Type 0} (reader : Reader T R)
    (limited : (table : T) (from : Option RowBound) (limit : ℕ)
      → length (distinct_row_ids_of reader (reader.read_changed_rows_from table from limit))
        ≤ limit) where
  list_rows_from-IsListed :
      (n fuel : ℕ) (table_id : Text) (table : T) (from : Option RowBound) (page : ListingPage)
      → IsWithin n page
      → n ≤ fuel + page.row_ids_read
      → IsListed n (list_rows_from reader fuel table_id table from page)
  unfolding list_rows_from
  list_rows_from-IsListed n zero table_id table from page within enough = (
    page,
    ap (λ full. if full then some page else none)
        (read_all-is_full n page within (omega (arith, enough))),
    within,
  )
  list_rows_from-IsListed n (suc fuel) table_id table from page within enough =
      let limit = rows_to_read page in
      let pairs = reader.read_changed_rows_from table from limit in
      let ids = distinct_row_ids_of reader pairs in
      let read = add_rows_read table_id ids (reader.row_units_of table_id table pairs) page in
      let next : Text → Option ListingPage = λ last.
        list_rows_from reader fuel table_id table
          (some (record { row_id = last; inclusive = false })) read in
      let read_within : IsWithin n read =
        add_rows_read-IsWithin n table_id ids (reader.row_units_of table_id table pairs) page within
          (omega (arith, rows_to_read-room n page within, limited table from limit)) in
      on_test (IsListed n) (is_full page) (λ full. (page, refl, within))
        (λ room.
          on_test (IsListed n) (ltb (length pairs) limit) (λ all. (read, refl, read_within))
            (λ more.
              on_option (IsListed n) (last_of ids) (some read) next
                (λ no_last. (read, refl, read_within))
                (λ last found.
                  list_rows_from-IsListed n fuel table_id table
                    (some (record { row_id = last; inclusive = false })) read read_within
                    (omega (
                      arith,
                      enough,
                      add_rows_read-row_ids_read table_id ids
                          (reader.row_units_of table_id table pairs) page last found,
                    )))))

  list_changed_rows-IsListed :
      (n : ℕ) (table_id : Text) (rows : Option T) (page : ListingPage)
      → IsWithin n page
      → IsListed n (list_changed_rows reader n table_id rows page)
  list_changed_rows-IsListed n table_id none page within = (page, refl, within)
  list_changed_rows-IsListed n table_id (some table) page within =
      list_rows_from-IsListed n n table_id table (rows_from_cursor_in page table_id) page within
        (omega arith)

  list_table-IsListed :
      (n : ℕ) (table : ListingTable T) (page : ListingPage)
      → IsWithin n page
      → IsListed n (list_table reader n table page)
  unfolding list_table
  list_table-IsListed n table page within =
      list_changed_rows-IsListed n table.table_id table.changed_rows (add table.units page)
        (add-IsWithin n table.units page within)

  list_tables-IsListed :
      (n : ℕ) (tables : List (ListingTable T)) (page : ListingPage)
      → IsWithin n page
      → IsListed n (list_tables reader n tables page)
  unfolding list_tables
  list_tables-IsListed n [] page within = (page, refl, within)
  list_tables-IsListed n (table ∷ tables) page within =
      let (listed, lists, inside) = list_table-IsListed n table page within in
      subst
        (λ result. IsListed n (elim result [
          | none ↦ none
          | some l ↦ if is_full l then some l else list_tables reader n tables l
        ]))
        (sym lists)
        (on_test (IsListed n) (is_full listed) (λ full. (listed, refl, inside))
          (λ room. list_tables-IsListed n tables listed inside))

  -- Where a read of changed rows returns pairs of at most as many row ids as asked, the listing
  -- of a page, whose loop over the rows of a table is given as much fuel as the page size, ends with a
  -- page of at most as many units as the page size, for which at most as many row ids were read.
  pub list_page-bounded :
      (page_size : ℕ) (cursor : Option ListingCursor) (tables : List (ListingTable T))
      → IsListed page_size (list_page reader page_size page_size cursor tables)
  unfolding list_page
  list_page-bounded page_size cursor tables =
      list_tables-IsListed page_size (tables_from_cursor (new_page page_size cursor) tables)
        (new_page page_size cursor) (refl, omega arith, omega arith)
