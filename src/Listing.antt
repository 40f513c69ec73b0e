-- ===== src/Listing.antt =====
-- src/features/partial-changes/listing: a page of the units of a Draft. listing-page.ts is the state
-- of the page, unit-listing.ts fills it table by table and row by row, unit-order.ts of the catalogue
-- is the order of units. Reading changed rows and building their units are parameters. A text is the
-- list of its UTF-16 units.
pub mod Pages
pub mod Bounds
pub mod Preserved
pub mod Resumed
pub mod Complete
pub mod LastPage
pub mod Whole
mod Tests
use revisium_engine.Base.{
  ℕ, zero, suc, Bool, true, false, Option, none, some, List, [], ◌∷◌, ◌++◌, ◌+◌, ◌-◌, ltb, ◌&&◌,
  ◌||◌, not, length, filter, get_elem?, Eq-ℕ, Eq-List, ◌==◌, if◌then◌else◌,
}
use revisium_engine.CodePoints.{ℤ, pos, negsuc, compare_code_points}

abbrev pub Text : Type 0
Text = List ℕ

-- the parts of a unit that the listing reads
pub record ListedUnit : Type 0 where
  pub kind : Text
  pub table_id : Text
  pub previous_table_id : Option Text
  pub row_id : Option Text
  pub previous_row_id : Option Text
  pub path : Option Text

-- a unit of the catalogue with its key, which is also a position of the listing
pub record ListedPosition : Type 0 where
  pub key : Text
  pub unit : ListedUnit

pub record RowBound : Type 0 where
  pub row_id : Text
  pub inclusive : Bool

pub record ListingCursor : Type 0 where
  pub table_id : Text
  pub rows : Option RowBound
  pub last : Option ListedPosition

-- a number, or the next one when it is zero
abbrev or_next : ℤ → ℤ → ℤ
or_next (pos zero) next = next
or_next (pos (suc n)) next = pos (suc n)
or_next (negsuc n) next = negsuc n

-- `compareAbsentFirst`
abbrev compare_absent_first : Option Text → Option Text → ℤ
compare_absent_first none none = pos 0
compare_absent_first none (some right) = negsuc 0
compare_absent_first (some left) none = pos 1
compare_absent_first (some left) (some right) =
    if left == right then pos 0 else compare_code_points left right

-- `compareUnits`
unfoldable pub compare_units : ListedPosition → ListedPosition → ℤ
compare_units left right = or_next (compare_code_points left.unit.table_id right.unit.table_id) (
    or_next (compare_absent_first left.unit.row_id right.unit.row_id) (
      or_next (compare_code_points left.unit.kind right.unit.kind) (
        or_next (compare_absent_first left.unit.path right.unit.path) (
          or_next (compare_absent_first left.unit.previous_table_id right.unit.previous_table_id) (
            or_next (compare_absent_first left.unit.previous_row_id right.unit.previous_row_id)
              (compare_code_points left.key right.key))))))

abbrev pub is_positive : ℤ → Bool
is_positive (pos (suc n)) = true
is_positive _ = false

-- `compare(left, right) >= 0`
abbrev pub is_not_negative : ℤ → Bool
is_not_negative (pos n) = true
is_not_negative (negsuc n) = false
