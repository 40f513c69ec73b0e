-- ===== src/Listing/Resumed.antt =====
-- The pages of listing-page.ts and unit-listing.ts that start at the cursor of an earlier page.
use revisium_engine.Base.{
  ℕ, zero, suc, Bool, true, Option, none, some, List, [], ◌∷◌, ◌++◌, ◌-◌, ◌≡◌, refl, ap, sym,
  length, filter, All, ◌∙◌, some_inj,
}
use mathlib.Core.Path.{subst}
use revisium_engine.Listing.{Text, ListedPosition, ListingCursor, compare_units, is_positive}
use revisium_engine.Listing.Pages.{
  ListingPage, first_of, last_of, is_after, last_of_cursor, is_after_cursor, push_units, add,
  count_rows, ListingTable, Reader, list_page, position_of_last, has_all_units, has_read_all_rows,
  cursor_after_rows, cursor_after_units, next_cursor, RowRead,
}
use revisium_engine.Base.{on_test}
use revisium_engine.Listing.Preserved.{Gives, list_page-Gives}

-- a page of that cursor, all of whose units come after it
abbrev pub IsResumed : Option ListingCursor → ListingPage → Type 0
IsResumed cursor page =
    (page.cursor ≡ cursor) × All (λ u. is_after (last_of_cursor cursor) u ≡ true) page.listed

All-append {ℓ κ} :
    {A : Type ℓ} (P : A → Type κ) (xs ys : List A) → All P xs → All P ys → All P (xs ++ ys)
All-append P [] ys h k = k
All-append P (x ∷ xs) ys (first, rest) k = (first, All-append P xs ys rest k)

All-first_of {ℓ κ} :
    {A : Type ℓ} (P : A → Type κ) (n : ℕ) (xs : List A) → All P xs → All P (first_of n xs)
All-first_of P zero xs h = tt
All-first_of P (suc n) [] h = tt
All-first_of P (suc n) (x ∷ xs) (first, rest) = (first, All-first_of P n xs rest)

All-filter {ℓ} : {A : Type ℓ} (p : A → Bool) (xs : List A) → All (λ x. p x ≡ true) (filter p xs)
All-filter p [] = tt
All-filter p (x ∷ xs) =
    on_test (All (λ a. p a ≡ true)) (p x) (λ yes_case. (yes_case, All-filter p xs))
      (λ no_case. All-filter p xs)

push_units-IsResumed :
    (cursor : Option ListingCursor) (last : Option ListedPosition)
    (taken unlisted : List ListedPosition) (page : ListingPage)
    → IsResumed cursor page
    → All (λ u. is_after (last_of_cursor cursor) u ≡ true) taken
    → IsResumed cursor (push_units last taken unlisted page)
push_units-IsResumed cursor none taken unlisted page resumed later = resumed
push_units-IsResumed cursor (some last) taken unlisted page (same, listed) later = (
  same,
  All-append (λ u. is_after (last_of_cursor cursor) u ≡ true) page.listed taken listed later,
)

add-IsResumed :
    (cursor : Option ListingCursor) (units : List ListedPosition) (page : ListingPage)
    → IsResumed cursor page
    → IsResumed cursor (add units page)
unfolding add
add-IsResumed cursor units page (same, listed) =
    let room = page.page_size - length page.listed in
    let unlisted = filter (is_after_cursor page) units in
    let After : Option ListingCursor → ListedPosition → Type 0 =
      λ c u. is_after (last_of_cursor c) u ≡ true in
    push_units-IsResumed cursor (last_of (first_of room unlisted)) (first_of room unlisted) unlisted
      page (same, listed)
      (All-first_of (After cursor) room unlisted
        (subst (λ c. All (After c) unlisted) same (All-filter (is_after_cursor page) units)))

count_rows-IsResumed :
    (cursor : Option ListingCursor) (table_id : Text) (last : Option Text) (ids : List Text)
    (page : ListingPage)
    → IsResumed cursor page
    → IsResumed cursor (count_rows table_id last ids page)
count_rows-IsResumed cursor table_id none ids page resumed = resumed
count_rows-IsResumed cursor table_id (some last) ids page (same, listed) = (same, listed)

module _ {T R : Type 0} (reader : Reader T R) (cursor : Option ListingCursor) where
  list_page-IsResumed :
      (fuel page_size : ℕ) (tables : List (ListingTable T)) (page : ListingPage)
      → list_page reader fuel page_size cursor tables ≡ some page
      → IsResumed cursor page
  list_page-IsResumed fuel page_size tables page listed = subst (Gives (IsResumed cursor)) listed (
      list_page-Gives reader (IsResumed cursor) (add-IsResumed cursor)
        (λ table_id ids later. count_rows-IsResumed cursor table_id (last_of ids) ids later) fuel
        page_size cursor tables (refl, tt))

cursor_after_rows-last :
    (page : ListingPage) (read : Option RowRead) (next : ListingCursor)
    → cursor_after_rows page read ≡ some next
    → next.last ≡ position_of_last (last_of page.listed) page.cursor
cursor_after_rows-last page none next found = cc
cursor_after_rows-last page (some read) next found =
    on_test (λ c. c ≡ some next → next.last ≡ position_of_last (last_of page.listed) page.cursor)
      (has_read_all_rows page) (λ all chosen. ap (λ c. c.last) (sym (some_inj chosen)))
      (λ not_all chosen. cc) found

cursor_after_units-last :
    (page : ListingPage) (last : Option ListedPosition) (next : ListingCursor)
    → last_of page.listed ≡ last
    → cursor_after_units page last ≡ some next
    → next.last ≡ position_of_last last page.cursor
cursor_after_units-last page none next ends found =
    cursor_after_rows-last page page.last_row_read next found
    ∙ ap (λ l. position_of_last l page.cursor) ends
cursor_after_units-last page (some last) next ends found =
    on_test (λ c. c ≡ some next → next.last ≡ some last) (has_all_units page)
      (λ all chosen. ap (λ c. c.last) (sym (some_inj chosen)))
      (λ room chosen.
        cursor_after_rows-last page page.last_row_read next chosen
        ∙ ap (λ l. position_of_last l page.cursor) ends)
      found

-- The next cursor keeps the last unit that was listed, on this page or an earlier one.
next_cursor-last :
    (page : ListingPage) (next : ListingCursor)
    → next_cursor page ≡ some next
    → next.last ≡ position_of_last (last_of page.listed) page.cursor
unfolding next_cursor
next_cursor-last page next found =
    cursor_after_units-last page (last_of page.listed) next refl found

module _ {T R : Type 0} (reader : Reader T R) where
  -- A page that is listed from the next cursor of an earlier page has no unit that does not come after
  -- the last unit of the earlier page, whatever the Draft has become since.
  pub next_page-IsLater :
      (page later : ListingPage) (next : ListingCursor) (last : ListedPosition) (fuel page_size : ℕ)
      (tables : List (ListingTable T))
      → next_cursor page ≡ some next
      → last_of page.listed ≡ some last
      → list_page reader fuel page_size (some next) tables ≡ some later
      → All (λ u. is_positive (compare_units u last) ≡ true) later.listed
  next_page-IsLater page later next last fuel page_size tables continued ends listed =
      subst (λ l. All (λ u. is_after l u ≡ true) later.listed)
        (next_cursor-last page next continued ∙ ap (λ l. position_of_last l page.cursor) ends)
        (list_page-IsResumed reader (some next) fuel page_size tables later listed).1
