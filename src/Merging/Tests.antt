-- ===== src/Merging/Tests.antt =====
-- A concrete merge of row-merger.ts.
use revisium_engine.Base.{
  ℕ, String, true, [], ◌∷◌, ◌≡◌, refl, sym, ◌∙◌, Eq-List, Eq-ℕ, list_eq, none,
}
use mathlib.Core.Path.{subst}
use revisium_engine.Base.Result.{ok, ok_inj}
use revisium_engine.Pointers.{
  JsonPointer, parse, has_invalid_escape, split_segments, unescape_segment, replace_pair,
}
use revisium_engine.Pointers.Values.{
  scalar, object, field, empty, value_in, value_at, write_at, init_of, assign_in,
}
use revisium_engine.Merging.{
  Row, RowMerge, NewVersion, OtherSideColumn, take_paths, version_taking_other_side_parts,
}
use revisium_engine.Merging.Taken.{AreApart, IsApartFrom, version-taken, version-kept}

abbrev row_with : String → String → String → Row
row_with id a b = record {
  version_id = "v";
  created_id = "c";
  created_at = 1;
  id = id;
  content = object (field (97 ∷ []) (scalar a) (field (98 ∷ []) (scalar b) empty));
  schema_hash = "s";
  published_at = 1;
  meta = scalar "m";
}

-- takes the id and the field "a" of the other side
abbrev one_path : RowMerge
one_path = record {
  structure_side = row_with "x" "1" "2";
  other_side = row_with "y" "3" "4";
  from_other_side = record {
    id = true;
    paths = (47 ∷ 97 ∷ []) ∷ [];
    columns = OtherSideColumn.meta ∷ [];
  };
}

abbrev merged : NewVersion
merged = record { row = row_with "y" "3" "2"; other_side_schema_hash = none }

merged_row : version_taking_other_side_parts one_path ≡ ok merged
unfolding version_taking_other_side_parts take_paths parse has_invalid_escape split_segments
    unescape_segment replace_pair assign_in value_at write_at init_of list_eq
merged_row = refl

abbrev pointer_to : ℕ → JsonPointer
pointer_to c = record { segments = (c ∷ []) ∷ [] }

parse_a : parse (47 ∷ 97 ∷ []) ≡ ok (pointer_to 97)
unfolding parse has_invalid_escape split_segments unescape_segment replace_pair
parse_a = refl

b_apart : IsApartFrom (pointer_to 98) ((47 ∷ 97 ∷ []) ∷ [])
unfolding list_eq
b_apart = (
  (λ other parses.
      subst (λ p. AreApart p (pointer_to 98)) (ok_inj (sym parse_a ∙ parses)) (refl, refl)),
  tt,
)

version-taken_example :
    value_in (pointer_to 97) merged.row.content
    ≡ value_in (pointer_to 97) one_path.other_side.content
unfolding list_eq
version-taken_example =
    version-taken one_path merged (47 ∷ 97 ∷ []) (pointer_to 97) merged_row ((λ p parses. tt), tt)
      refl parse_a

version-kept_example :
    value_in (pointer_to 98) merged.row.content
    ≡ value_in (pointer_to 98) one_path.structure_side.content
version-kept_example = version-kept one_path merged (pointer_to 98) merged_row b_apart
