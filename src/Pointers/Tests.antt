-- ===== src/Pointers/Tests.antt =====
-- Concrete pointers of json-pointer.ts.
use revisium_engine.Base.{[], ◌∷◌, ◌≡◌, refl}
use revisium_engine.Base.Result.{ok, throw}
use revisium_engine.Pointers.{
  Text, JsonPointer, parse, to_string, has_invalid_escape, split_segments, unescape_segment,
  replace_pair,
}
use revisium_engine.Pointers.RoundTrip.{parse-to_string, to_string-parse}

-- the field "~/", and in it the field "a"
abbrev two_fields : JsonPointer
two_fields = record { segments = (126 ∷ 47 ∷ []) ∷ (97 ∷ []) ∷ [] }

-- "/~0~1/a"
abbrev two_fields_text : Text
two_fields_text = 47 ∷ 126 ∷ 48 ∷ 126 ∷ 49 ∷ 47 ∷ 97 ∷ []

parse-two_fields : parse two_fields_text ≡ ok two_fields
unfolding parse has_invalid_escape split_segments unescape_segment replace_pair
parse-two_fields = refl

parse_lone_tilde : parse (47 ∷ 126 ∷ 50 ∷ []) ≡ throw "Invalid JSON Pointer"
unfolding parse has_invalid_escape
parse_lone_tilde = refl

parse-to_string_example : parse (to_string two_fields) ≡ ok two_fields
parse-to_string_example = parse-to_string two_fields

to_string-parse_example : to_string two_fields ≡ two_fields_text
to_string-parse_example = to_string-parse two_fields_text two_fields parse-two_fields
