-- ===== src/Listing/Pages.antt =====
-- `ListingPage` of listing-page.ts, and the loops of unit-listing.ts that fill it.
use revisium_engine.Base.{
  ℕ, zero, suc, Bool, true, false, Option, none, some, List, [], ◌∷◌, ◌++◌, ◌+◌, ◌-◌, ltb, ◌||◌,
  not, length, filter, Eq-ℕ, Eq-List, ◌==◌, if◌then◌else◌, add_all,
}
use revisium_engine.CodePoints.{compare_code_points}
use revisium_engine.Listing.{
  Text, ListedPosition, RowBound, ListingCursor, compare_units, is_positive, is_not_negative,
}

pub record RowRead : Type 0 where
  pub table_id : Text
  pub row_id : Text

pub record ListingPage : Type 0 where
  pub page_size : ℕ
  pub cursor : Option ListingCursor
  pub listed : List ListedPosition
  pub last_row_continues : Bool
  pub row_ids_read : ℕ
  pub last_row_read : Option RowRead

-- the constructor
abbrev pub new_page : ℕ → Option ListingCursor → ListingPage
new_page page_size cursor = record {
  page_size = page_size;
  cursor = cursor;
  listed = [];
  last_row_continues = false;
  row_ids_read = 0;
  last_row_read = none;
}

abbrev pub first_of {ℓ} : {A : Type ℓ} → ℕ → List A → List A
first_of zero xs = []
first_of (suc n) [] = []
first_of (suc n) (x ∷ xs) = x ∷ first_of n xs

abbrev pub next_after {ℓ} : {A : Type ℓ} → ℕ → List A → Option A
next_after n [] = none
next_after zero (x ∷ xs) = some x
next_after (suc n) (x ∷ xs) = next_after n xs

-- `at(-1)`
abbrev pub last_of {ℓ} : {A : Type ℓ} → List A → Option A
last_of [] = none
last_of (x ∷ []) = some x
last_of (x ∷ y ∷ xs) = last_of (y ∷ xs)

abbrev pub smaller : ℕ → ℕ → ℕ
smaller a b = if ltb a b then a else b

abbrev pub has_all_units : ListingPage → Bool
has_all_units page = not (ltb (length page.listed) page.page_size)

abbrev pub has_read_all_rows : ListingPage → Bool
has_read_all_rows page = not (ltb page.row_ids_read page.page_size)

abbrev pub is_full : ListingPage → Bool
is_full page = has_all_units page || has_read_all_rows page

abbrev pub rows_to_read : ListingPage → ℕ
rows_to_read page =
    smaller (page.page_size - length page.listed) (page.page_size - page.row_ids_read)

abbrev pub last_of_cursor : Option ListingCursor → Option ListedPosition
last_of_cursor none = none
last_of_cursor (some cursor) = cursor.last

abbrev pub is_after : Option ListedPosition → ListedPosition → Bool
is_after none unit = true
is_after (some last) unit = is_positive (compare_units unit last)

-- `isAfterCursor`
abbrev pub is_after_cursor : ListingPage → ListedPosition → Bool
is_after_cursor page unit = is_after (last_of_cursor page.cursor) unit

abbrev same_id : Option Text → Option Text → Bool
same_id none none = true
same_id (some left) (some right) = left == right
same_id _ _ = false

-- `continuesRow`
abbrev pub continues_row : ListedPosition → Option ListedPosition → Bool
continues_row last none = false
continues_row last (some next) = same_id next.unit.row_id last.unit.row_id

abbrev pub push_units :
    Option ListedPosition → List ListedPosition → List ListedPosition → ListingPage → ListingPage
push_units none taken unlisted page = page
push_units (some last) taken unlisted page = record page {
  listed = page.listed ++ taken;
  last_row_continues = continues_row last (next_after (length taken) unlisted);
}

-- `add`
unfoldable pub add : List ListedPosition → ListingPage → ListingPage
add units page =
    let unlisted = filter (is_after_cursor page) units in
    let taken = first_of (page.page_size - length page.listed) unlisted in
    push_units (last_of taken) taken unlisted page

abbrev pub count_rows : Text → Option Text → List Text → ListingPage → ListingPage
count_rows table_id none row_ids page = page
count_rows table_id (some last) row_ids page = record page {
  row_ids_read = page.row_ids_read + length row_ids;
  last_row_read = some (record { table_id = table_id; row_id = last });
}

-- `addRowsRead`
unfoldable pub add_rows_read : Text → List Text → List ListedPosition → ListingPage → ListingPage
add_rows_read table_id row_ids units page =
    add units (count_rows table_id (last_of row_ids) row_ids page)

abbrev pub cursor_rows : Option ListingCursor → Text → Option RowBound
cursor_rows none table_id = none
cursor_rows (some cursor) table_id = if cursor.table_id == table_id then cursor.rows else none

-- `rowsFromCursorIn`
abbrev pub rows_from_cursor_in : ListingPage → Text → Option RowBound
rows_from_cursor_in page table_id = cursor_rows page.cursor table_id

-- a table of the listing, whose changed rows are read if it has some
pub record ListingTable (T : Type 0) : Type 0 where
  pub table_id : Text
  pub units : List ListedPosition
  pub changed_rows : Option T

abbrev from_cursor_table : {T : Type 0} → Option ListingCursor → ListingTable T → Bool
from_cursor_table none table = true
from_cursor_table (some cursor) table =
    is_not_negative (compare_code_points table.table_id cursor.table_id)

-- `tablesFromCursor`
abbrev pub tables_from_cursor :
    {T : Type 0} → ListingPage → List (ListingTable T) → List (ListingTable T)
tables_from_cursor page tables = filter (from_cursor_table page.cursor) tables

-- What the listing calls: the pairs of changed rows from a bound on, as many as asked and those with
-- the row id of the last one, the id of a pair, and the units of some pairs in the order of the
-- listing.
pub record Reader (T R : Type 0) : Type 0 where
  pub read_changed_rows_from : T → Option RowBound → ℕ → List R
  pub unit_row_id_of : R → Text
  pub row_units_of : Text → T → List R → List ListedPosition

module _ {T R : Type 0} (reader : Reader T R) where
  unfoldable pub row_ids : List R → List Text
  row_ids [] = []
  row_ids (pair ∷ pairs) = reader.unit_row_id_of pair ∷ row_ids pairs

  -- `distinctRowIdsOf`
  unfoldable pub distinct_row_ids_of : List R → List Text
  unfolding row_ids
  distinct_row_ids_of pairs = add_all [] (row_ids pairs)

  -- The loop of `listChangedRows`, on fuel for the reads.
  unfoldable pub list_rows_from : ℕ → Text → T → Option RowBound → ListingPage → Option ListingPage
  list_rows_from zero table_id table from page = if is_full page then some page else none
  list_rows_from (suc fuel) table_id table from page =
      let limit = rows_to_read page in
      let pairs = reader.read_changed_rows_from table from limit in
      let ids = distinct_row_ids_of pairs in
      let read = add_rows_read table_id ids (reader.row_units_of table_id table pairs) page in
      if is_full page
      then some page
      else if ltb (length pairs) limit
      then some read
      else elim (last_of ids) [
        | none ↦ some read
        | some last ↦
            list_rows_from fuel table_id table (some (record { row_id = last; inclusive = false }))
              read
      ]

  abbrev pub list_changed_rows : ℕ → Text → Option T → ListingPage → Option ListingPage
  list_changed_rows fuel table_id none page = some page
  list_changed_rows fuel table_id (some table) page =
      list_rows_from fuel table_id table (rows_from_cursor_in page table_id) page

  -- `listTable`
  unfoldable pub list_table : ℕ → ListingTable T → ListingPage → Option ListingPage
  list_table fuel table page =
      list_changed_rows fuel table.table_id table.changed_rows (add table.units page)

  -- the loop of `listPage`
  unfoldable pub list_tables : ℕ → List (ListingTable T) → ListingPage → Option ListingPage
  list_tables fuel [] page = some page
  list_tables fuel (table ∷ tables) page = elim (list_table fuel table page) [
    | none ↦ none
    | some listed ↦ if is_full listed then some listed else list_tables fuel tables listed
  ]

  -- `listPage`, from the tables in the order of the listing
  unfoldable pub list_page :
      ℕ → ℕ → Option ListingCursor → List (ListingTable T) → Option ListingPage
  list_page fuel page_size cursor tables =
      let page = new_page page_size cursor in list_tables fuel (tables_from_cursor page tables) page

abbrev pub position_of_last : Option ListedPosition → Option ListingCursor → Option ListedPosition
position_of_last none cursor = last_of_cursor cursor
position_of_last (some last) cursor = some last

-- `rowsAfter`
abbrev rows_after : ListedPosition → Bool → Option RowBound
rows_after last continues = elim last.unit.row_id [
  | none ↦ none
  | some row_id ↦ some (record { row_id = row_id; inclusive = continues })
]

abbrev pub cursor_after_rows : ListingPage → Option RowRead → Option ListingCursor
cursor_after_rows page none = none
cursor_after_rows page (some read) =
    if has_read_all_rows page
    then some (record {
      table_id = read.table_id;
      rows = some (record { row_id = read.row_id; inclusive = false });
      last = position_of_last (last_of page.listed) page.cursor;
    })
    else none

abbrev pub cursor_after_units : ListingPage → Option ListedPosition → Option ListingCursor
cursor_after_units page none = cursor_after_rows page page.last_row_read
cursor_after_units page (some last) =
    if has_all_units page
    then some (record {
      table_id = last.unit.table_id;
      rows = rows_after last page.last_row_continues;
      last = some last;
    })
    else cursor_after_rows page page.last_row_read

-- `nextCursor`
unfoldable pub next_cursor : ListingPage → Option ListingCursor
next_cursor page = cursor_after_units page (last_of page.listed)
