-- ===== src/Listing/Whole.antt =====
-- The page of listing-page.ts after which no cursor is given.
use revisium_engine.Base.{
  ℕ, false, Option, none, some, List, [], ◌∷◌, ◌≤◌, ◌<◌, ◌≡◌, refl, ap, sym, arith, length, filter,
  ◌-◌, if◌then◌else◌, on_test, on_option, All,
}
use mathlib.Core.Path.{subst}
use revisium_engine.Listing.{Text, ListedPosition, RowBound, ListingCursor}
use revisium_engine.Listing.Pages.{
  RowRead, ListingPage, new_page, last_of, is_full, add, count_rows, push_units, ListingTable,
  tables_from_cursor, Reader, cursor_rows, list_changed_rows, list_table, list_tables, list_page,
  has_all_units, has_read_all_rows, next_cursor, cursor_after_rows, cursor_after_units, first_of,
  is_after_cursor,
}
use revisium_engine.Listing.Preserved.{Gives, list_page-Gives}
use revisium_engine.Listing.Complete.{
  Extends, HasAll, ReadsOn, units_from, Extends-trans, Extends-room, HasAll-Extends, add-Extends,
  add-HasAll, last_of-none,
}
use revisium_engine.Listing.LastPage.{
  not_full, list_changed_rows-Extends, list_tables-Extends, list_changed_rows-HasAll,
}

-- the units of the changed rows from where the cursor left off
abbrev pub row_units_from :
    {T R : Type 0}
    → Reader T R
    → (T → Option RowBound → List R)
    → Option ListingCursor
    → Text
    → Option T
    → List ListedPosition
row_units_from reader changed_from cursor table_id none = []
row_units_from reader changed_from cursor table_id (some table) =
    units_from reader changed_from table_id table (cursor_rows cursor table_id)

-- The page has all units of the table, and of its changed rows, that come after the cursor.
abbrev pub HasTable :
    {T R : Type 0}
    → Reader T R
    → (T → Option RowBound → List R)
    → Option ListingCursor
    → ListingPage
    → ListingTable T
    → Type 0
HasTable reader changed_from cursor page table =
    HasAll cursor table.units page
    × HasAll cursor (row_units_from reader changed_from cursor table.table_id table.changed_rows)
        page

-- Where rows were read, the page remembers the last one.
abbrev IsMarked : ListingPage → Type 0
IsMarked page = page.last_row_read ≡ none → page.row_ids_read ≡ 0

push_units-IsMarked :
    (last : Option ListedPosition) (taken unlisted : List ListedPosition) (page : ListingPage)
    → IsMarked page
    → IsMarked (push_units last taken unlisted page)
push_units-IsMarked none taken unlisted page marked = marked
push_units-IsMarked (some last) taken unlisted page marked = marked

add-IsMarked :
    (units : List ListedPosition) (page : ListingPage) → IsMarked page → IsMarked (add units page)
unfolding add
add-IsMarked units page marked =
    let unlisted = filter (is_after_cursor page) units in
    let taken = first_of (page.page_size - length page.listed) unlisted in
    push_units-IsMarked (last_of taken) taken unlisted page marked

count_rows-IsMarked :
    (table_id : Text) (last : Option Text) (ids : List Text) (page : ListingPage)
    → IsMarked page
    → IsMarked (count_rows table_id last ids page)
count_rows-IsMarked table_id none ids page marked = marked
count_rows-IsMarked table_id (some last) ids page marked = λ unread. cc

cursor_after_rows-none :
    (page : ListingPage) (read : Option RowRead)
    → 1 ≤ page.page_size
    → (read ≡ none → page.row_ids_read ≡ 0)
    → cursor_after_rows page read ≡ none
    → has_read_all_rows page ≡ false
cursor_after_rows-none page none sized marked ends = ground (arith, sized, marked refl)
cursor_after_rows-none page (some read) sized marked ends =
    on_test (λ c. c ≡ none → has_read_all_rows page ≡ false) (has_read_all_rows page)
      (λ all chosen. cc) (λ not_all chosen. not_all) ends

cursor_after_units-none :
    (page : ListingPage) (last : Option ListedPosition)
    → 1 ≤ page.page_size
    → IsMarked page
    → last_of page.listed ≡ last
    → cursor_after_units page last ≡ none
    → is_full page ≡ false
cursor_after_units-none page none sized marked empty ends =
    let unread = cursor_after_rows-none page page.last_row_read sized marked ends in
    ground (arith, unread, ap length (last_of-none page.listed empty), sized)
cursor_after_units-none page (some last) sized marked listed ends =
    on_test (λ c. c ≡ none → is_full page ≡ false) (has_all_units page) (λ all chosen. cc)
      (λ not_all chosen.
        let unread = cursor_after_rows-none page page.last_row_read sized marked chosen in
        ground arith)
      ends

next_cursor-none :
    (page : ListingPage)
    → 1 ≤ page.page_size
    → IsMarked page
    → next_cursor page ≡ none
    → is_full page ≡ false
unfolding next_cursor
next_cursor-none page sized marked ends =
    cursor_after_units-none page (last_of page.listed) sized marked refl ends

module _ {T R : Type 0} (reader : Reader T R) (changed_from : T → Option RowBound → List R)
    (reads_on : ReadsOn reader changed_from) where
  changed-HasAll :
      (fuel : ℕ) (table_id : Text) (rows : Option T) (page later : ListingPage)
      → list_changed_rows reader fuel table_id rows page ≡ some later
      → is_full later ≡ false
      → HasAll page.cursor (row_units_from reader changed_from page.cursor table_id rows) later
  changed-HasAll fuel table_id none page later listed room = λ u here after. elim here [ ]
  changed-HasAll fuel table_id (some table) page later listed room =
      list_changed_rows-HasAll reader changed_from reads_on later room fuel table_id table page
        listed

  list_table-HasTable :
      (fuel : ℕ) (table : ListingTable T) (page later : ListingPage)
      → list_table reader fuel table page ≡ some later
      → is_full later ≡ false
      → Extends page later × HasTable reader changed_from page.cursor later table
  unfolding list_table
  list_table-HasTable fuel table page later listed room =
      let added = add table.units page in
      let first : Extends page added = add-Extends table.units page in
      let then_rows : Extends added later =
        list_changed_rows-Extends reader fuel table.table_id table.changed_rows added later
          listed in
      (
        Extends-trans page added later first then_rows,
        (
          HasAll-Extends page.cursor table.units added later then_rows (
              add-HasAll table.units page (
                subst (λ n. length added.listed < n) (sym first.0)
                  (Extends-room added later then_rows room))),
          subst
              (λ c.
                HasAll c (row_units_from reader changed_from c table.table_id table.changed_rows)
                  later)
              (sym first.1)
              (changed-HasAll fuel table.table_id table.changed_rows added later listed room),
        ),
      )

  list_tables-HasTable :
      (fuel : ℕ) (tables : List (ListingTable T)) (page later : ListingPage)
      → list_tables reader fuel tables page ≡ some later
      → is_full later ≡ false
      → All (HasTable reader changed_from page.cursor later) tables
  unfolding list_tables
  list_tables-HasTable fuel [] page later listed room = tt
  list_tables-HasTable fuel (table ∷ tables) page later listed room =
      let Whole : Option ListingPage → Type 0 = λ r.
        r ≡ some later → All (HasTable reader changed_from page.cursor later) (table ∷ tables) in
      on_option Whole (list_table reader fuel table page) none
        (λ q. if is_full q then some q else list_tables reader fuel tables q)
        (λ missing none_listed. cc)
        (λ q found.
          on_test Whole (is_full q) (λ full same. absurd (not_full q later same full room))
            (λ q_room goes_on.
              let (extends, (own, rows)) = list_table-HasTable fuel table page q found q_room in
              let beyond = list_tables-Extends reader fuel tables q later goes_on in
              (
                (
                  HasAll-Extends page.cursor table.units q later beyond own,
                  HasAll-Extends page.cursor
                      (row_units_from reader changed_from page.cursor table.table_id
                        table.changed_rows)
                      q later beyond rows,
                ),
                subst (λ c. All (HasTable reader changed_from c later) tables) (sym extends.1)
                    (list_tables-HasTable fuel tables q later goes_on room),
              )))
        listed

  -- A page after which no cursor is given leaves nothing out: it has every unit of the tables from the
  -- cursor on, and of their changed rows from where the cursor left off, that comes after the last
  -- unit that was listed before. The page size is at least one, and a read of changed rows that does
  -- not return all rows from its bound on is as long as asked and goes on after its last row.
  pub last_page-HasTable :
      (fuel page_size : ℕ) (cursor : Option ListingCursor) (tables : List (ListingTable T))
      (page : ListingPage)
      → 1 ≤ page_size
      → list_page reader fuel page_size cursor tables ≡ some page
      → next_cursor page ≡ none
      → All
          (HasTable reader changed_from cursor page)
          (tables_from_cursor (new_page page_size cursor) tables)
  unfolding list_page
  last_page-HasTable fuel page_size cursor tables page sized listed ends =
      let start = new_page page_size cursor in
      let marked : IsMarked page = subst (Gives IsMarked) listed (
        list_page-Gives reader IsMarked add-IsMarked
          (λ id ids q. count_rows-IsMarked id (last_of ids) ids q) fuel page_size cursor tables
          (λ unread. refl)) in
      let extends =
        list_tables-Extends reader fuel (tables_from_cursor start tables) start page listed in
      list_tables-HasTable fuel (tables_from_cursor start tables) start page listed
        (next_cursor-none page (omega (arith, sized, extends.0)) marked ends)
