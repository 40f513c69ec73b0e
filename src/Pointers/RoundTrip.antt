-- ===== src/Pointers/RoundTrip.antt =====
-- What json-pointer.ts prints it parses, and what it parses it prints.
use revisium_engine.Base.{
  ℕ, true, false, List, [], ◌∷◌, ◌++◌, ◌≡◌, refl, sym, ◌∙◌, ap, Eq-ℕ, ◌==◌, ◌&&◌, not, arith,
  Bool-cases, inl, inr, if◌then◌else◌, includes, map, eq_of_beq, List-cases, All,
}
use mathlib.Core.List.{append-nil}
use revisium_engine.Base.Result.{ok, throw, ok_inj}
use revisium_engine.Pointers.{
  Text, JsonPointer, slash, tilde, has_invalid_escape, escapes_nothing, is_valid, split_segments,
  prepend, escape_segment, unescape_segment, segments_of, parse, print_segments, to_string,
}
use revisium_engine.Pointers.Escapes.{
  unescape_segment-escape_segment, includes-escape_segment, has_invalid_escape-escape_segment,
  escape_segment-unescape_segment,
}

-- A text without a slash is one segment, and ends where a slash follows.
split_segments-whole : (text : Text) → includes text slash ≡ false → split_segments text ≡ text ∷ []
unfolding split_segments
split_segments-whole [] h = refl
split_segments-whole (c ∷ text) h = ground (arith, split_segments-whole text (ground arith))

split_segments-append :
    (text rest : Text)
    → includes text slash ≡ false
    → split_segments (text ++ slash ∷ rest) ≡ text ∷ split_segments rest
unfolding split_segments
split_segments-append [] rest h = refl
split_segments-append (c ∷ text) rest h =
    ground (arith, split_segments-append text rest (ground arith))

-- The text after the first slash, split and read back.
split_segments-print_segments :
    (segment : Text) (segments : List Text)
    → map unescape_segment (split_segments (escape_segment segment ++ print_segments segments))
      ≡ segment ∷ segments
unfolding print_segments
split_segments-print_segments segment [] =
    ap (map unescape_segment) (
      ap split_segments (append-nil (escape_segment segment))
      ∙ split_segments-whole (escape_segment segment) (includes-escape_segment segment))
    ∙ ap (λ s. s ∷ []) (unescape_segment-escape_segment segment)
split_segments-print_segments segment (next ∷ segments) =
    ap (map unescape_segment) (
      split_segments-append (escape_segment segment)
        (escape_segment next ++ print_segments segments) (includes-escape_segment segment))
    ∙ ap
        (λ s.
          s
          ∷ map unescape_segment (split_segments (escape_segment next ++ print_segments segments)))
        (unescape_segment-escape_segment segment)
    ∙ ap (λ l. segment ∷ l) (split_segments-print_segments next segments)

print_segments-valid : (segments : List Text) → has_invalid_escape (print_segments segments) ≡ false
unfolding print_segments has_invalid_escape
print_segments-valid [] = refl
print_segments-valid (segment ∷ segments) =
    has_invalid_escape-escape_segment segment (print_segments segments)
    ∙ print_segments-valid segments

parsed :
    (text : Text) → is_valid text ≡ true → parse text ≡ ok (record { segments = segments_of text })
unfolding parse
parsed text h = rw h refl

parse-print_segments :
    (segments : List Text) → parse (print_segments segments) ≡ ok (record { segments = segments })
unfolding parse print_segments has_invalid_escape
parse-print_segments [] = refl
parse-print_segments (segment ∷ segments) =
    parsed (slash ∷ escape_segment segment ++ print_segments segments)
      (ap not (print_segments-valid (segment ∷ segments)))
    ∙ ap (λ l. ok (record { segments = l })) (split_segments-print_segments segment segments)

-- Every pointer is what its text parses to.
pub parse-to_string : (pointer : JsonPointer) → parse (to_string pointer) ≡ ok pointer
parse-to_string pointer = parse-print_segments pointer.segments

-- the segments of a text with the slashes put back
slashed : List Text → Text
slashed [] = []
slashed (segment ∷ segments) = slash ∷ segment ++ slashed segments

abbrev first_of : List Text → Text
first_of [] = []
first_of (segment ∷ segments) = segment

abbrev tail_of : Text → Text
tail_of [] = []
tail_of (c ∷ text) = text

-- A segment that some pointer prints.
abbrev IsEscaped : Text → Type 0
IsEscaped segment = (includes segment slash ≡ false) × (has_invalid_escape segment ≡ false)

slashed-prepend :
    (c : ℕ) (segments : List Text) (text : Text)
    → slashed segments ≡ slash ∷ text
    → slashed (prepend c segments) ≡ slash ∷ c ∷ text
unfolding slashed
slashed-prepend c [] text h = cc
slashed-prepend c (segment ∷ segments) text h = ap (λ t. slash ∷ c ∷ tail_of t) h

slashed-split_segments : (text : Text) → slashed (split_segments text) ≡ slash ∷ text
unfolding slashed split_segments
slashed-split_segments [] = refl
slashed-split_segments (c ∷ text) = elim (Bool-cases (c == slash)) [
  | inl same ↦
      ap (λ b. slashed (if b then [] ∷ split_segments text else prepend c (split_segments text)))
        same
      ∙ ap (λ t. slash ∷ t) (slashed-split_segments text)
      ∙ ap (λ d. slash ∷ d ∷ text) (sym (eq_of_beq c slash same))
  | inr other ↦
      ap (λ b. slashed (if b then [] ∷ split_segments text else prepend c (split_segments text)))
        other
      ∙ slashed-prepend c (split_segments text) text (slashed-split_segments text)
]

escapes_nothing-first_of :
    (text : Text) → escapes_nothing (first_of (split_segments text)) ≡ escapes_nothing text
unfolding split_segments
escapes_nothing-first_of [] = refl
escapes_nothing-first_of (c ∷ text) = elim (List-cases (split_segments text)) [
  | inl none ↦ ground (arith, none)
  | inr (segment, segments, some) ↦ ground (arith, some)
]

prepend-IsEscaped :
    (c : ℕ) (segments : List Text)
    → (c == slash) ≡ false
    → (c == tilde && escapes_nothing (first_of segments)) ≡ false
    → All IsEscaped segments
    → All IsEscaped (prepend c segments)
unfolding has_invalid_escape
prepend-IsEscaped c [] other escapes h = ((ground arith, ground arith), tt)
prepend-IsEscaped c (segment ∷ segments) other escapes h =
    ((ground (arith, h.0.0), ground (arith, h.0.1)), h.1)

split_segments-IsEscaped :
    (text : Text) → has_invalid_escape text ≡ false → All IsEscaped (split_segments text)
unfolding has_invalid_escape split_segments
split_segments-IsEscaped [] h = ((refl, refl), tt)
split_segments-IsEscaped (c ∷ text) h =
    let rest = split_segments-IsEscaped text (ground arith) in
    elim (Bool-cases (c == slash)) [
      | inl same ↦ rw same ((refl, refl), rest)
      | inr other ↦ rw other (
          prepend-IsEscaped c (split_segments text) other
            (ground (arith, escapes_nothing-first_of text)) rest)
    ]

print_segments-unescaped :
    (segments : List Text)
    → All IsEscaped segments
    → print_segments (map unescape_segment segments) ≡ slashed segments
unfolding print_segments slashed
print_segments-unescaped [] h = refl
print_segments-unescaped (segment ∷ segments) h =
    ap (λ s. slash ∷ s ++ print_segments (map unescape_segment segments))
      (escape_segment-unescape_segment segment h.0.0 h.0.1)
    ∙ ap (λ t. slash ∷ segment ++ t) (print_segments-unescaped segments h.1)

valid_printed : (text : Text) → is_valid text ≡ true → print_segments (segments_of text) ≡ text
unfolding print_segments has_invalid_escape
valid_printed [] h = refl
valid_printed (c ∷ text) h =
    print_segments-unescaped (split_segments text) (split_segments-IsEscaped text (ground arith))
    ∙ slashed-split_segments text
    ∙ ap (λ d. d ∷ text) (sym (eq_of_beq c slash (ground arith)))

-- A text that parses is the text of the pointer that it parses to.
pub to_string-parse :
    (text : Text) (pointer : JsonPointer) → parse text ≡ ok pointer → to_string pointer ≡ text
unfolding parse
to_string-parse text pointer h = elim (Bool-cases (is_valid text)) [
  | inl valid ↦
      ap (λ p. print_segments p.segments) (sym (ok_inj (sym (parsed text valid) ∙ h)))
      ∙ valid_printed text valid
  | inr invalid ↦ let thrown : parse text ≡ throw "Invalid JSON Pointer" = rw invalid refl in cc
]
