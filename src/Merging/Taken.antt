-- ===== src/Merging/Taken.antt =====
-- Where each place of a merged row of row-merger.ts comes from.
use revisium_engine.Base.{
  true, false, List, [], ◌∷◌, ◌≡◌, sym, ◌∙◌, ap, All, includes, Eq-List, Eq-ℕ, ◌==◌, Bool-cases,
  inl, inr, arith, eq_of_beq,
}
use mathlib.Core.Path.{subst}
use revisium_engine.Base.Result.{ok, ok_inj, >>=-eq-ok}
use revisium_engine.Pointers.{Text, JsonPointer, parse}
use revisium_engine.Pointers.Values.{Json, value_in, assign_in, is_at_or_above}
use revisium_engine.Pointers.Assigned.{value_in-assign_in, value_in-assign_apart}
use revisium_engine.Merging.{RowMerge, NewVersion, take_paths, version_taking_other_side_parts}

-- Neither pointer is at or above the other.
abbrev pub AreApart : JsonPointer → JsonPointer → Type 0
AreApart pointer other =
    (is_at_or_above pointer other ≡ false) × (is_at_or_above other pointer ≡ false)

-- Every path, as far as it parses, is apart from the pointer.
abbrev pub IsApartFrom : JsonPointer → List Text → Type 0
IsApartFrom pointer paths =
    All (λ path. (other : JsonPointer) → parse path ≡ ok other → AreApart other pointer) paths

-- The paths of a merge are apart from each other.
abbrev pub AreAllApart : List Text → Type 0
AreAllApart [] = Unit
AreAllApart (path ∷ paths) =
    ((pointer : JsonPointer) → parse path ≡ ok pointer → IsApartFrom pointer paths)
    × AreAllApart paths

take_paths-apart :
    (paths : List Text) (other doc after : Json) (pointer : JsonPointer)
    → take_paths paths other doc ≡ ok after
    → IsApartFrom pointer paths
    → value_in pointer after ≡ value_in pointer doc
unfolding take_paths
take_paths-apart [] other doc after pointer h apart = ap (value_in pointer) (sym (ok_inj h))
take_paths-apart (path ∷ paths) other doc after pointer h apart =
    let (taken, as_taken, h1) = >>=-eq-ok (parse path) _ h in
    let (assigned, as_assigned, h2) = >>=-eq-ok (assign_in taken doc (value_in taken other)) _ h1 in
    let separate = apart.0 taken as_taken in
    take_paths-apart paths other assigned after pointer h2 apart.1
    ∙ value_in-assign_apart taken pointer doc (value_in taken other) assigned as_assigned separate.0
        separate.1

take_paths-taken :
    (paths : List Text) (other doc after : Json) (path : Text) (pointer : JsonPointer)
    → take_paths paths other doc ≡ ok after
    → AreAllApart paths
    → includes paths path ≡ true
    → parse path ≡ ok pointer
    → value_in pointer after ≡ value_in pointer other
unfolding take_paths
take_paths-taken [] other doc after path pointer h apart listed parses = cc
take_paths-taken (first ∷ paths) other doc after path pointer h apart listed parses =
    let (taken, as_taken, h1) = >>=-eq-ok (parse first) _ h in
    let (assigned, as_assigned, h2) = >>=-eq-ok (assign_in taken doc (value_in taken other)) _ h1 in
    elim (Bool-cases (first == path)) [
      | inl same ↦
          let here = ok_inj (sym as_taken ∙ ap parse (eq_of_beq first path same) ∙ parses) in
          subst (λ p. value_in p after ≡ value_in p other) here
            (take_paths-apart paths other assigned after taken h2 (apart.0 taken as_taken)
              ∙ value_in-assign_in taken doc (value_in taken other) assigned as_assigned)
      | inr another ↦
          take_paths-taken paths other assigned after path pointer h2 apart.1 (ground arith) parses
    ]

merged_data :
    (merge : RowMerge) (version : NewVersion)
    → version_taking_other_side_parts merge ≡ ok version
    → take_paths merge.from_other_side.paths merge.other_side.content merge.structure_side.content
      ≡ ok version.row.content
unfolding version_taking_other_side_parts
merged_data merge version h =
    let (content, as_content, returned) =
      >>=-eq-ok
        (take_paths merge.from_other_side.paths merge.other_side.content
          merge.structure_side.content)
        _ h in
    as_content ∙ ap (λ v. ok v.row.content) (ok_inj returned)

-- A merged row has at each path that it takes the value of the other side, when the merge does not
-- throw and the paths that it takes are apart from each other.
pub version-taken :
    (merge : RowMerge) (version : NewVersion) (path : Text) (pointer : JsonPointer)
    → version_taking_other_side_parts merge ≡ ok version
    → AreAllApart merge.from_other_side.paths
    → includes merge.from_other_side.paths path ≡ true
    → parse path ≡ ok pointer
    → value_in pointer version.row.content ≡ value_in pointer merge.other_side.content
version-taken merge version path pointer h apart listed parses =
    take_paths-taken merge.from_other_side.paths merge.other_side.content
      merge.structure_side.content version.row.content path pointer (merged_data merge version h)
      apart listed parses

-- A merged row has the value of the structure side at each pointer that is apart from all paths that
-- the row takes, when the merge does not throw.
pub version-kept :
    (merge : RowMerge) (version : NewVersion) (pointer : JsonPointer)
    → version_taking_other_side_parts merge ≡ ok version
    → IsApartFrom pointer merge.from_other_side.paths
    → value_in pointer version.row.content ≡ value_in pointer merge.structure_side.content
version-kept merge version pointer h separate =
    take_paths-apart merge.from_other_side.paths merge.other_side.content
      merge.structure_side.content version.row.content pointer (merged_data merge version h)
      separate
