-- ===== src/Pointers.antt =====
-- src/features/partial-changes/structure/json-pointer.ts: pointers to places in a document, as the
-- list of their segments, and their text. A text is the list of its UTF-16 units; 47 is the slash,
-- 126 the tilde, 48 and 49 the digits 0 and 1. The message of an error leaves out the text it quotes.
pub mod RoundTrip
pub mod Escapes
pub mod Values
pub mod Assigned
mod Tests
use revisium_engine.Base.{
  ℕ, zero, suc, Bool, true, false, List, [], ◌∷◌, ◌++◌, Eq-ℕ, ◌==◌, ◌&&◌, ◌||◌, not, map, nat_eq,
  if◌then◌else◌,
}
use revisium_engine.Base.Result.{Result, ok, throw}

abbrev pub Text : Type 0
Text = List ℕ

abbrev pub slash : ℕ
slash = 47

abbrev pub tilde : ℕ
tilde = 126

-- the segments of a pointer
pub record JsonPointer : Type 0 where
  pub segments : List Text

abbrev pub root : JsonPointer
root = record { segments = [] }

abbrev is_escape_digit : ℕ → Bool
is_escape_digit c = c == 48 || c == 49

-- `(?![01])`: no escape digit comes next
abbrev pub escapes_nothing : Text → Bool
escapes_nothing [] = true
escapes_nothing (c ∷ text) = not (is_escape_digit c)

-- the test of `INVALID_ESCAPE`
unfoldable pub has_invalid_escape : Text → Bool
has_invalid_escape [] = false
has_invalid_escape (c ∷ text) =
    let later = has_invalid_escape text in c == tilde && escapes_nothing text || later

abbrev pub starts_with_slash : Text → Bool
starts_with_slash [] = false
starts_with_slash (c ∷ text) = c == slash

abbrev pub is_blank : Text → Bool
is_blank [] = true
is_blank (c ∷ text) = false

-- `isValid`
abbrev pub is_valid : Text → Bool
is_valid text = is_blank text || starts_with_slash text && not (has_invalid_escape text)

abbrev pub prepend : ℕ → List Text → List Text
prepend c [] = (c ∷ []) ∷ []
prepend c (segment ∷ segments) = (c ∷ segment) ∷ segments

-- `split(SEPARATOR)`
unfoldable pub split_segments : Text → List Text
split_segments [] = [] ∷ []
split_segments (c ∷ text) =
    let rest = split_segments text in if c == slash then [] ∷ rest else prepend c rest

-- `replaceAll` of a pair of units by one
unfoldable pub replace_pair : ℕ → ℕ → ℕ → Text → Text
replace_pair a b by [] = []
replace_pair a b by (c ∷ []) = c ∷ []
replace_pair a b by (c ∷ d ∷ text) =
    let after = replace_pair a b by text in
    let next = replace_pair a b by (d ∷ text) in if c == a && d == b then by ∷ after else c ∷ next

-- `replaceAll` of a unit by a pair
unfoldable pub replace_unit : ℕ → ℕ → ℕ → Text → Text
replace_unit a b d [] = []
replace_unit a b d (c ∷ text) =
    let rest = replace_unit a b d text in if c == a then b ∷ d ∷ rest else c ∷ rest

unfoldable pub escape_segment : Text → Text
escape_segment segment = replace_unit slash tilde 49 (replace_unit tilde tilde 48 segment)

unfoldable pub unescape_segment : Text → Text
unescape_segment segment = replace_pair tilde 48 tilde (replace_pair tilde 49 slash segment)

abbrev pub segments_of : Text → List Text
segments_of [] = []
segments_of (c ∷ text) = map unescape_segment (split_segments text)

-- `parse`
unfoldable pub parse : Text → Result JsonPointer
parse text =
    if is_valid text
    then ok (record { segments = segments_of text })
    else throw "Invalid JSON Pointer"

unfoldable pub print_segments : List Text → Text
print_segments [] = []
print_segments (segment ∷ segments) = slash ∷ escape_segment segment ++ print_segments segments

-- `toString`
abbrev pub to_string : JsonPointer → Text
to_string pointer = print_segments pointer.segments

-- `child`
abbrev pub child : JsonPointer → Text → JsonPointer
child pointer segment = record { segments = pointer.segments ++ segment ∷ [] }

abbrev rest_after : List Text → List Text → List Text
rest_after [] segments = segments
rest_after (first ∷ from) [] = []
rest_after (first ∷ from) (segment ∷ segments) = rest_after from segments

-- `relocated`
abbrev pub relocated : JsonPointer → JsonPointer → JsonPointer → JsonPointer
relocated pointer from to = record {
  segments = to.segments ++ rest_after from.segments pointer.segments;
}
