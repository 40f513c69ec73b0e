-- ===== src/Listing/Complete.antt =====
-- What the last page of listing-page.ts and unit-listing.ts leaves out: nothing.
use revisium_engine.Base.{
  ℕ, zero, suc, Bool, true, false, Option, none, some, List, [], ◌∷◌, ◌++◌, ◌-◌, ◌≤◌, ◌<◌, ◌≡◌,
  refl, ap, sym, ◌∙◌, arith, length, length-append, filter, on_test, ◌⊎◌,
}
use mathlib.Core.Path.{subst}
use mathlib.Core.List.{Memᴰ}
use mathlib.Core.List.Memᴰ.{append_left, append_right}
use revisium_engine.Listing.{Text, ListedPosition, RowBound, ListingCursor}
use revisium_engine.Listing.Pages.{
  ListingPage, first_of, last_of, is_full, is_after, last_of_cursor, is_after_cursor, push_units,
  add, count_rows, add_rows_read, Reader, distinct_row_ids_of, rows_to_read,
}

-- The second page is the first one with more units.
abbrev pub Extends : ListingPage → ListingPage → Type 0
Extends page later =
    (page.page_size ≡ later.page_size)
    × (page.cursor ≡ later.cursor)
    × (rest : List ListedPosition) × (later.listed ≡ page.listed ++ rest)

-- The page has every one of these units that comes after the cursor.
abbrev pub HasAll : Option ListingCursor → List ListedPosition → ListingPage → Type 0
HasAll cursor units page =
    (u : ListedPosition)
    → Memᴰ u units
    → is_after (last_of_cursor cursor) u ≡ true
    → Memᴰ u page.listed

append_nil {ℓ} : {A : Type ℓ} (xs : List A) → xs ≡ xs ++ []
append_nil [] = refl
append_nil (x ∷ xs) = ap (λ l. x ∷ l) (append_nil xs)

append_assoc {ℓ} : {A : Type ℓ} (xs ys zs : List A) → (xs ++ ys) ++ zs ≡ xs ++ (ys ++ zs)
append_assoc [] ys zs = refl
append_assoc (x ∷ xs) ys zs = ap (λ l. x ∷ l) (append_assoc xs ys zs)

pub last_of-none {ℓ} : {A : Type ℓ} (xs : List A) → last_of xs ≡ none → xs ≡ []
last_of-none [] h = refl
last_of-none (x ∷ []) h = cc
last_of-none (x ∷ y ∷ xs) h = let rest = last_of-none (y ∷ xs) h in cc

first_of-all {ℓ} :
    {A : Type ℓ} (n : ℕ) (xs : List A) → length (first_of n xs) < n → first_of n xs ≡ xs
first_of-all zero xs h = absurd (omega (arith, h))
first_of-all (suc n) [] h = refl
first_of-all (suc n) (x ∷ xs) h = ap (λ l. x ∷ l) (first_of-all n xs (omega (arith, h)))

mem-filter {ℓ} :
    {A : Type ℓ} (p : A → Bool) (xs : List A) (a : A)
    → Memᴰ a xs
    → p a ≡ true
    → Memᴰ a (filter p xs)
mem-filter p [] a listed holds = elim listed [ ]
mem-filter p (x ∷ xs) a (Memᴰ.head same) holds =
    on_test (Memᴰ a) (p x) (λ yes_case. Memᴰ.head same) (λ no_case. cc)
mem-filter p (x ∷ xs) a (Memᴰ.tail rest) holds =
    on_test (Memᴰ a) (p x) (λ yes_case. Memᴰ.tail (mem-filter p xs a rest holds))
      (λ no_case. mem-filter p xs a rest holds)

push_units-listed :
    (last : Option ListedPosition) (taken unlisted : List ListedPosition) (page : ListingPage)
    → (last ≡ none → taken ≡ [])
    → (push_units last taken unlisted page).listed ≡ page.listed ++ taken
push_units-listed none taken unlisted page empty =
    append_nil page.listed ∙ ap (λ l. page.listed ++ l) (sym (empty refl))
push_units-listed (some last) taken unlisted page empty = refl

push_units-Extends :
    (last : Option ListedPosition) (taken unlisted : List ListedPosition) (page : ListingPage)
    → Extends page (push_units last taken unlisted page)
push_units-Extends none taken unlisted page = (refl, refl, [], append_nil page.listed)
push_units-Extends (some last) taken unlisted page = (refl, refl, taken, refl)

add-listed :
    (units : List ListedPosition) (page : ListingPage)
    → (add units page).listed
      ≡ page.listed
        ++ first_of (page.page_size - length page.listed) (filter (is_after_cursor page) units)
unfolding add
add-listed units page =
    let taken =
      first_of (page.page_size - length page.listed) (filter (is_after_cursor page) units) in
    push_units-listed (last_of taken) taken (filter (is_after_cursor page) units) page
      (last_of-none taken)

pub add-Extends : (units : List ListedPosition) (page : ListingPage) → Extends page (add units page)
unfolding add
add-Extends units page =
    let unlisted = filter (is_after_cursor page) units in
    let taken = first_of (page.page_size - length page.listed) unlisted in
    push_units-Extends (last_of taken) taken unlisted page

pub Extends-refl : (page : ListingPage) → Extends page page
Extends-refl page = (refl, refl, [], append_nil page.listed)

pub Extends-trans : (a b c : ListingPage) → Extends a b → Extends b c → Extends a c
Extends-trans a b c (size, cursor, rest, more) (size', cursor', rest', more') = (
  size ∙ size',
  cursor ∙ cursor',
  rest ++ rest',
  more' ∙ ap (λ l. l ++ rest') more ∙ append_assoc a.listed rest rest',
)

pub count_rows-Extends :
    (table_id : Text) (last : Option Text) (ids : List Text) (page : ListingPage)
    → Extends page (count_rows table_id last ids page)
count_rows-Extends table_id none ids page = Extends-refl page
count_rows-Extends table_id (some last) ids page = (refl, refl, [], append_nil page.listed)

pub HasAll-Extends :
    (cursor : Option ListingCursor) (units : List ListedPosition) (page later : ListingPage)
    → Extends page later
    → HasAll cursor units page
    → HasAll cursor units later
HasAll-Extends cursor units page later (size, same, rest, more) all u listed after =
    subst (Memᴰ u) (sym more) (append_left rest (all u listed after))

-- Adding units leaves none out when the page has room left.
pub add-HasAll :
    (units : List ListedPosition) (page : ListingPage)
    → length (add units page).listed < page.page_size
    → HasAll page.cursor units (add units page)
add-HasAll units page room u listed after =
    let unlisted = filter (is_after_cursor page) units in
    let taken = first_of (page.page_size - length page.listed) unlisted in
    let whole : taken ≡ unlisted =
      first_of-all (page.page_size - length page.listed) unlisted
        (omega (arith, room, ap length (add-listed units page), length-append page.listed taken)) in
    subst (Memᴰ u) (sym (add-listed units page)) (
      append_right page.listed
        (subst (Memᴰ u) (sym whole) (mem-filter (is_after_cursor page) units u listed after)))

-- The loop over the rows of a table is told by what it reads.
module _ {T R : Type 0} (reader : Reader T R) (changed_from : T → Option RowBound → List R) where
  abbrev pub units_from : Text → T → Option RowBound → List ListedPosition
  units_from table_id table from = reader.row_units_of table_id table (changed_from table from)

  -- Each unit of the changed rows from a bound on is one of the rows that a read returns, or else the
  -- read is as long as asked and the unit is one of the rows after the last row that it returns.
  abbrev pub ReadsOn : Type 0
  ReadsOn =
      (table_id : Text) (table : T) (from : Option RowBound) (limit : ℕ) (u : ListedPosition)
      → 1 ≤ limit
      → Memᴰ u (units_from table_id table from)
      → (Memᴰ u
          (reader.row_units_of table_id table (reader.read_changed_rows_from table from limit)))
        ⊎ ((last : Text) × (last_of
                (distinct_row_ids_of reader (reader.read_changed_rows_from table from limit))
              ≡ some last)
            × (limit ≤ length (reader.read_changed_rows_from table from limit))
            × Memᴰ u
                (units_from table_id table (some (record { row_id = last; inclusive = false }))))

pub rows_to_read-positive : (page : ListingPage) → is_full page ≡ false → 1 ≤ rows_to_read page
rows_to_read-positive page room = ground arith

is_full-listed : (page : ListingPage) → is_full page ≡ false → length page.listed < page.page_size
is_full-listed page room = ground arith

-- what the earlier page has room for if the later one has
pub Extends-room :
    (page later : ListingPage)
    → Extends page later
    → is_full later ≡ false
    → length page.listed < page.page_size
Extends-room page later (size, cursor, rest, more) room =
    omega (arith, is_full-listed later room, size, ap length more, length-append page.listed rest)

pub add_rows_read-Extends :
    (table_id : Text) (ids : List Text) (units : List ListedPosition) (page : ListingPage)
    → Extends page (add_rows_read table_id ids units page)
unfolding add_rows_read
add_rows_read-Extends table_id ids units page =
    let counted = count_rows table_id (last_of ids) ids page in
    Extends-trans page counted (add units counted)
      (count_rows-Extends table_id (last_of ids) ids page) (add-Extends units counted)

pub add_rows_read-HasAll :
    (table_id : Text) (ids : List Text) (units : List ListedPosition) (page : ListingPage)
    → length (add_rows_read table_id ids units page).listed < page.page_size
    → HasAll page.cursor units (add_rows_read table_id ids units page)
unfolding add_rows_read
add_rows_read-HasAll table_id ids units page room =
    let counted = count_rows table_id (last_of ids) ids page in
    let (size, same, rest, more) = count_rows-Extends table_id (last_of ids) ids page in
    subst (λ c. HasAll c units (add units counted)) (sym same)
      (add-HasAll units counted (subst (λ n. length (add units counted).listed < n) size room))
