-- ===== src/Listing/Tests.antt =====
-- Pages of a small Draft of unit-listing.ts: one table with three changed rows, of which the second
-- has two units.
use revisium_engine.Base.{
  ℕ, Bool, true, Option, none, some, List, [], ◌∷◌, ◌++◌, ltb, ◌≡◌, refl, arith, length, filter,
  if◌then◌else◌, list_eq, All, inl,
}
use revisium_engine.CodePoints.{compare_code_points, compare_from, difference}
use revisium_engine.Listing.{
  Text, ListedPosition, RowBound, ListingCursor, compare_units, is_positive, is_not_negative,
}
use revisium_engine.Listing.Pages.{
  ListingPage, first_of, add, add_rows_read, row_ids, distinct_row_ids_of, ListingTable, Reader,
  list_page, list_rows_from, list_table, list_tables, next_cursor, new_page, last_of,
  tables_from_cursor,
}
use revisium_engine.Listing.Resumed.{next_page-IsLater}
use revisium_engine.Listing.Whole.{HasTable, last_page-HasTable}
use revisium_engine.Listing.Bounds.{
  IsListed, length-first_of, length-distinct_row_ids_of, list_page-bounded,
}

abbrev posts : Text
posts = 112 ∷ []

abbrev unit_of : Text → ℕ → ListedPosition
unit_of row_id n = record {
  key = row_id ++ n ∷ [];
  unit = record {
    kind = n ∷ [];
    table_id = posts;
    previous_table_id = none;
    row_id = some row_id;
    previous_row_id = none;
    path = none;
  };
}

abbrev units_of : List Text → List ListedPosition
units_of [] = []
units_of (row_id ∷ row_ids) =
    if ltb (length row_id) 2
    then unit_of row_id 1 ∷ units_of row_ids
    else unit_of row_id 1 ∷ unit_of row_id 2 ∷ units_of row_ids

abbrev is_from : Option RowBound → Text → Bool
is_from none row_id = true
is_from (some bound) row_id =
    if bound.inclusive
    then is_not_negative (compare_code_points row_id bound.row_id)
    else is_positive (compare_code_points row_id bound.row_id)

-- the changed rows of a table are their ids, in order and each once
abbrev reader : Reader (List Text) Text
reader = record {
  read_changed_rows_from = λ rows from limit. first_of limit (filter (is_from from) rows);
  unit_row_id_of = λ row_id. row_id;
  row_units_of = λ table_id table row_ids. units_of row_ids;
}

abbrev tables : List (ListingTable (List Text))
tables =
    record {
      table_id = posts;
      units = [];
      changed_rows = some ((97 ∷ []) ∷ (98 ∷ 98 ∷ []) ∷ (99 ∷ []) ∷ []);
    }
    ∷ []

-- The first page ends within the units of the second row, so that the next one starts at that row.
abbrev second_cursor : ListingCursor
second_cursor = record {
  table_id = posts;
  rows = some (record { row_id = 98 ∷ 98 ∷ []; inclusive = true });
  last = some (unit_of (98 ∷ 98 ∷ []) 1);
}

abbrev cursor_of : Option ListingPage → Option ListingCursor
cursor_of none = none
cursor_of (some page) = next_cursor page

abbrev listed_of : Option ListingPage → List ListedPosition
listed_of none = []
listed_of (some page) = page.listed

first_page : cursor_of (list_page reader 2 2 none tables) ≡ some second_cursor
unfolding next_cursor list_page list_tables list_table list_rows_from add add_rows_read row_ids
    distinct_row_ids_of compare_units compare_code_points compare_from difference list_eq
first_page = refl

second_page :
    listed_of (list_page reader 2 2 (some second_cursor) tables)
    ≡ unit_of (98 ∷ 98 ∷ []) 2 ∷ unit_of (99 ∷ []) 1 ∷ []
unfolding list_page list_tables list_table list_rows_from add add_rows_read row_ids
    distinct_row_ids_of compare_units compare_code_points compare_from difference list_eq
second_page = refl

list_page-bounded_example : IsListed 2 (list_page reader 2 2 (some second_cursor) tables)
list_page-bounded_example =
    list_page-bounded reader
      (λ rows from limit.
        let pairs = first_of limit (filter (is_from from) rows) in
        omega (
          arith,
          length-distinct_row_ids_of reader pairs,
          length-first_of limit (filter (is_from from) rows),
        ))
      2 (some second_cursor) tables

abbrev page_of : Option ListingPage → ListingPage
page_of none = new_page 0 none
page_of (some page) = page

abbrev first : ListingPage
first = page_of (list_page reader 2 2 none tables)

abbrev second : ListingPage
second = page_of (list_page reader 2 2 (some second_cursor) tables)

first-next_cursor : next_cursor first ≡ some second_cursor
unfolding next_cursor list_page list_tables list_table list_rows_from add add_rows_read row_ids
    distinct_row_ids_of compare_units compare_code_points compare_from difference list_eq
first-next_cursor = refl

first-last_of : last_of first.listed ≡ some (unit_of (98 ∷ 98 ∷ []) 1)
unfolding list_page list_tables list_table list_rows_from add add_rows_read row_ids
    distinct_row_ids_of compare_units compare_code_points compare_from difference list_eq
first-last_of = refl

second-list_page : list_page reader 2 2 (some second_cursor) tables ≡ some second
unfolding list_page list_tables list_table list_rows_from add add_rows_read row_ids
    distinct_row_ids_of compare_units compare_code_points compare_from difference list_eq
second-list_page = refl

next_page-IsLater_example :
    All (λ u. is_positive (compare_units u (unit_of (98 ∷ 98 ∷ []) 1)) ≡ true) second.listed
next_page-IsLater_example =
    next_page-IsLater reader first second second_cursor (unit_of (98 ∷ 98 ∷ []) 1) 2 2 tables
      first-next_cursor first-last_of second-list_page

-- two tables with one changed row each, one of which has a unit of its own
abbrev changed_from : Text → Option RowBound → List Text
changed_from row_id from = filter (is_from from) (row_id ∷ [])

abbrev single_reader : Reader Text Text
single_reader = record {
  read_changed_rows_from = λ row_id from limit. changed_from row_id from;
  unit_row_id_of = λ row_id. row_id;
  row_units_of = λ table_id table row_ids. units_of row_ids;
}

abbrev table_unit : ListedPosition
table_unit = record {
  key = 112 ∷ [];
  unit = record {
    kind = 0 ∷ [];
    table_id = posts;
    previous_table_id = none;
    row_id = none;
    previous_row_id = none;
    path = none;
  };
}

abbrev single_tables : List (ListingTable Text)
single_tables =
    record { table_id = posts; units = table_unit ∷ []; changed_rows = some (98 ∷ 98 ∷ []) }
    ∷ record { table_id = 113 ∷ []; units = []; changed_rows = some (97 ∷ []) }
    ∷ []

abbrev whole : ListingPage
whole = page_of (list_page single_reader 5 5 none single_tables)

whole-list_page : list_page single_reader 5 5 none single_tables ≡ some whole
unfolding list_page list_tables list_table list_rows_from add add_rows_read row_ids
    distinct_row_ids_of compare_units compare_code_points compare_from difference list_eq
whole-list_page = refl

whole-length : length whole.listed ≡ 4
unfolding list_page list_tables list_table list_rows_from add add_rows_read row_ids
    distinct_row_ids_of compare_units compare_code_points compare_from difference list_eq
whole-length = refl

whole-next_cursor : next_cursor whole ≡ none
unfolding next_cursor list_page list_tables list_table list_rows_from add add_rows_read row_ids
    distinct_row_ids_of compare_units compare_code_points compare_from difference list_eq
whole-next_cursor = refl

last_page-HasTable_example :
    All
      (HasTable single_reader changed_from none whole)
      (tables_from_cursor (new_page 5 none) single_tables)
last_page-HasTable_example =
    last_page-HasTable single_reader changed_from
      (λ table_id table from limit u positive changed. inl changed) 5 5 none single_tables whole
      (omega arith) whole-list_page whole-next_cursor
