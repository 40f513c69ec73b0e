-- ===== src/Outcome/Parts.antt =====
-- Which side each part of a row comes from.
use revisium_engine.Base.{
  String, Bool, true, false, Option, none, some, List, [], ◌∷◌, Eq-String, Eq-ℕ, ◌==◌, ◌&&◌, not,
  if◌then◌else◌, includes, filter, filter-nil, includes-filter, includes-append, includes-add_all,
  length, is_some, ◌++◌, nat_eq, nat_eq_iff, ◌≡◌, refl, ◌∙◌, ap, arith, Bool-cases, Option-cases,
  inl, inr, IsDistinct, ◌⊎◌,
}
use text.Mathlib.TextEquality.{eq_iff}
use revisium_engine.Base.Map
use revisium_engine.Base.Map.{Map}
use revisium_engine.Outcome.{
  at_side, CatalogueRow, RowOutcome, OutcomeTable, structure_side_at, takes_other_side,
  takes_owner_other_side, paths_from, parts_from_other_side, owners_of, outcome_of_differences,
  outcome_in_place, row_outcome_of, values, row_columns, other_side_existence_of,
}
use revisium_engine.Choice.{
  RevisionSide, head, draft, opposite_of, same_side, same_truth, AppliedUnits, is_taken_from_draft,
  side_taken_by,
}
use revisium_engine.Outcome.Owners.{nil_of_length, filter-full, includes-values}

-- The side that the target takes a path of a row from, when the row is in the target.
abbrev pub side_of_path : RowOutcome → RevisionSide → String → Option RevisionSide
side_of_path RowOutcome.absent side path = none
side_of_path RowOutcome.structure_side side path = some side
side_of_path RowOutcome.other_side side path = some (opposite_of side)
side_of_path RowOutcome.move side path = some (opposite_of side)
side_of_path (RowOutcome.merge parts) side path =
    some (if includes parts.paths path then opposite_of side else side)

-- The side that the target takes a whole column of a row from, when the row is in the target.
abbrev pub side_of_column : RowOutcome → RevisionSide → String → Option RevisionSide
side_of_column RowOutcome.absent side column = none
side_of_column RowOutcome.structure_side side column = some side
side_of_column RowOutcome.other_side side column = some (opposite_of side)
side_of_column RowOutcome.move side column = some (opposite_of side)
side_of_column (RowOutcome.merge parts) side column = some (
    if (if column == "id" then parts.id else includes parts.columns column)
    then opposite_of side
    else side)

abbrev pub is_present : RowOutcome → Bool
is_present RowOutcome.absent = false
is_present RowOutcome.structure_side = true
is_present RowOutcome.other_side = true
is_present RowOutcome.move = true
is_present (RowOutcome.merge parts) = true

side_cases :
    (from_draft : Bool) (side : RevisionSide)
    → (if from_draft then draft else head)
      ≡ (if not (same_truth from_draft (same_side side draft)) then opposite_of side else side)
side_cases true head = refl
side_cases true draft = refl
side_cases false head = refl
side_cases false draft = refl

abbrev keys_of : Map String String → List String
keys_of [] = []
keys_of ((key, value) ∷ m) = key ∷ keys_of m

module _ (choice : AppliedUnits) (table : OutcomeTable) where
  abbrev own_side : RevisionSide
  own_side = structure_side_at choice table

  abbrev takes : String → Bool
  takes = takes_other_side choice table

  -- A unit takes the other side exactly when its side is not the structure's.
  side_of_owner :
      (owner : String)
      → side_taken_by choice owner ≡ (if takes owner then opposite_of own_side else own_side)
  side_of_owner owner = side_cases (is_taken_from_draft choice owner) own_side

  absent_path :
      (leaves : Map String String) (path : String)
      → includes (keys_of leaves) path ≡ false
      → includes (paths_from choice table leaves) path ≡ false
  absent_path [] path h = refl
  absent_path ((p, o) ∷ leaves) path h = ground (arith, absent_path leaves path)

  includes-paths_from :
      (leaves : Map String String) (path owner : String)
      → IsDistinct (keys_of leaves)
      → Map.get leaves path ≡ some owner
      → includes (paths_from choice table leaves) path ≡ takes owner
  unfolding Map.get
  includes-paths_from [] path owner d h = ground arith
  includes-paths_from ((p, o) ∷ leaves) path owner d h = elim (Bool-cases (p == path)) [
    | inl same ↦ ground (arith, absent_path leaves path, eq_iff p path, eq_iff o owner)
    | inr other ↦ ground (arith, includes-paths_from leaves path owner d.1 (rw other at h))
  ]

  module _ {R : Type 0} (row : CatalogueRow R) where
    -- What is said of a row that differs on both sides, by the three outcomes of it.
    differences-cases :
        ((outcome_of_differences choice table row ≡ RowOutcome.structure_side)
          × ((owner : String)
              → includes (owners_of choice table row) owner ≡ true
              → takes owner ≡ false))
        ⊎ ((outcome_of_differences choice table row ≡ RowOutcome.other_side)
            × ((owner : String)
                → includes (owners_of choice table row) owner ≡ true
                → takes owner ≡ true))
        ⊎ (outcome_of_differences choice table row
            ≡ RowOutcome.merge (parts_from_other_side choice table row))
    unfolding outcome_of_differences
    differences-cases =
        let owners = owners_of choice table row in
        let taking = filter takes owners in
        elim (Bool-cases (nat_eq (length taking) 0)) [
          | inl nothing ↦ inl (
            ground arith,
            λ owner i. filter-nil takes owners owner (nil_of_length taking nothing) i,
          )
          | inr some_taken ↦
              elim (Bool-cases
                (nat_eq (length taking) (length owners) && not table.structure_differs)) [
                  | inr part ↦ inr (inr (ground arith))
                  | inl whole ↦ inr (
                      inl (
                        ground arith,
                        λ owner i.
                            filter-full takes owners owner
                              (ground (arith, nat_eq_iff (length taking) (length owners))) i,
                      ))
                ]
        ]

    outcome-differences :
        (v w : R)
        → takes_owner_other_side choice table row.existence ≡ false
        → at_side row.pair own_side ≡ some v
        → at_side row.pair (opposite_of own_side) ≡ some w
        → row_outcome_of choice table row ≡ outcome_of_differences choice table row
    unfolding row_outcome_of outcome_in_place
    outcome-differences v w x h h' = ground arith

    includes-owners :
        (leaves : Bool) (key owner : String)
        → Map.get (if leaves then row.leaves else row.columns) key ≡ some owner
        → includes (owners_of choice table row) owner ≡ true
    includes-owners true key owner h = ground (
      arith,
      includes-values row.leaves key owner h,
      includes-add_all [] (values row.columns ++ values row.leaves) owner,
      includes-append (values row.columns) (values row.leaves) owner,
    )
    includes-owners false key owner h = ground (
      arith,
      includes-values row.columns key owner h,
      includes-add_all [] (values row.columns ++ values row.leaves) owner,
      includes-append (values row.columns) (values row.leaves) owner,
    )

    differences-path :
        (path owner : String)
        → IsDistinct (keys_of row.leaves)
        → Map.get row.leaves path ≡ some owner
        → side_of_path (outcome_of_differences choice table row) own_side path
          ≡ some (side_taken_by choice owner)
    unfolding parts_from_other_side
    differences-path path owner d g = elim differences-cases [
      | inl (e, none_taken) ↦
          ground
            (arith, e, none_taken owner (includes-owners true path owner g), side_of_owner owner)
      | inr (inl (e, all_taken)) ↦
          ground
            (arith, e, all_taken owner (includes-owners true path owner g), side_of_owner owner)
      | inr (inr e) ↦
          ground (arith, e, includes-paths_from row.leaves path owner d g, side_of_owner owner)
    ]

    differences-column :
        (column owner : String)
        → includes ("id" ∷ row_columns) column ≡ true
        → Map.get row.columns column ≡ some owner
        → side_of_column (outcome_of_differences choice table row) own_side column
          ≡ some (side_taken_by choice owner)
    unfolding parts_from_other_side
    differences-column column owner i g = elim differences-cases [
      | inl (e, none_taken) ↦
          ground
            (arith, e, none_taken owner (includes-owners false column owner g), side_of_owner owner)
      | inr (inl (e, all_taken)) ↦
          ground
            (arith, e, all_taken owner (includes-owners false column owner g), side_of_owner owner)
      | inr (inr e) ↦ elim (Bool-cases (column == "id")) [
        | inl is_id ↦ ground (
          arith,
          e,
          side_of_owner owner,
          ap (λ c. Map.get row.columns c) ((eq_iff column "id").0 is_id),
        )
        | inr not_id ↦ ground (
          arith,
          e,
          side_of_owner owner,
          eq_iff "id" column,
          eq_iff column "id",
          includes-filter (λ c. takes_owner_other_side choice table (Map.get row.columns c))
              row_columns column,
        )
      ]
    ]

    -- A row that is on both sides, whose existence is not taken from the other side, and which has
    -- each path once: the target takes each path of it from the side that the unit which owns the
    -- path takes.
    pub row_outcome-path :
        (v w : R) (path owner : String)
        → IsDistinct (keys_of row.leaves)
        → takes_owner_other_side choice table row.existence ≡ false
        → at_side row.pair own_side ≡ some v
        → at_side row.pair (opposite_of own_side) ≡ some w
        → Map.get row.leaves path ≡ some owner
        → side_of_path (row_outcome_of choice table row) own_side path
          ≡ some (side_taken_by choice owner)
    row_outcome-path v w path owner d x h h' g =
        ap (λ o. side_of_path o own_side path) (outcome-differences v w x h h')
        ∙ differences-path path owner d g

    -- A row that is on both sides, and whose existence is not taken from the other side: the target
    -- takes its id, and each of the three columns that units own, from the side that the unit which
    -- owns the column takes.
    pub row_outcome-column :
        (v w : R) (column owner : String)
        → includes ("id" ∷ row_columns) column ≡ true
        → takes_owner_other_side choice table row.existence ≡ false
        → at_side row.pair own_side ≡ some v
        → at_side row.pair (opposite_of own_side) ≡ some w
        → Map.get row.columns column ≡ some owner
        → side_of_column (row_outcome_of choice table row) own_side column
          ≡ some (side_taken_by choice owner)
    row_outcome-column v w column owner i x h h' g =
        ap (λ o. side_of_column o own_side column) (outcome-differences v w x h h')
        ∙ differences-column column owner i g

    differences-present : is_present (outcome_of_differences choice table row) ≡ true
    differences-present = elim differences-cases [
      | inl (e, none_taken) ↦ ap is_present e
      | inr (inl (e, all_taken)) ↦ ap is_present e
      | inr (inr e) ↦ ap is_present e
    ]

    -- A row whose existence a unit owns is in the target exactly when it is on the side that the
    -- unit takes.
    pub row_outcome-existence :
        (owner : String)
        → row.existence ≡ some owner
        → is_present (row_outcome_of choice table row)
          ≡ is_some (at_side row.pair (side_taken_by choice owner))
    unfolding row_outcome_of outcome_in_place other_side_existence_of
    row_outcome-existence owner e = elim (Bool-cases (takes owner)) [
      | inl taken ↦ elim (Option-cases (at_side row.pair (opposite_of own_side))) [
        | inl nothing ↦ ground (arith, ap (λ s. is_some (at_side row.pair s)) (side_of_owner owner))
        | inr (w, h) ↦ elim (Bool-cases table.structure_differs) [
          | inl moved ↦ ground (arith, ap (λ s. is_some (at_side row.pair s)) (side_of_owner owner))
          | inr same ↦ ground (arith, ap (λ s. is_some (at_side row.pair s)) (side_of_owner owner))
        ]
      ]
      | inr kept ↦ elim (Option-cases (at_side row.pair own_side)) [
        | inl nothing ↦ ground (arith, ap (λ s. is_some (at_side row.pair s)) (side_of_owner owner))
        | inr (v, h) ↦ ground (
          arith,
          differences-present,
          ap (λ s. is_some (at_side row.pair s)) (side_of_owner owner),
          Option-cases (at_side row.pair (opposite_of own_side)),
        )
      ]
    ]
