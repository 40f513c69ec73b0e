-- ===== src/Outcome.antt =====
-- src/features/partial-changes/assembly/outcome-rules.ts: what a partial commit or revert makes of
-- each row and table. A key of a unit is a string, a `Set` the list of its elements.
pub mod Owners
pub mod Parts
pub mod Opposite
pub mod Tables
mod Tests
use revisium_engine.Base.{
  ℕ, String, Bool, true, false, Option, none, some, List, [], ◌∷◌, Eq-String, Eq-ℕ, ◌==◌, ◌&&◌,
  ◌||◌, not, if◌then◌else◌, includes, filter, add_all, length, is_some, ◌++◌, map, nat_eq,
}
use revisium_engine.Base.Map
use revisium_engine.Base.Map.{Map}
use revisium_engine.Choice.{
  AppliedUnits, ChangeOperation, RevisionSide, VersionAccess, base_side, base_side_of, commit,
  draft, edits_draft_in_place, head, is_applied, is_mutable, is_revert, is_taken_from_draft,
  opposite_of, revert, same_side, same_truth, side_taken_by, structure_side_of,
  takes_every_table_of, unitless_side,
}

-- A row or a table on the two sides, without the identity, which these rules do not read.
pub record Sides (V : Type 0) : Type 0 where
  pub head_version : Option V
  pub draft_version : Option V

abbrev at_side : {V : Type 0} → Sides V → RevisionSide → Option V
at_side pair head = pair.head_version
at_side pair draft = pair.draft_version

pub record CatalogueRow (R : Type 0) : Type 0 where
  pub pair : Sides R
  pub existence : Option String
  pub columns : Map String String
  pub leaves : Map String String

pub record OtherSideParts : Type 0 where
  pub id : Bool
  pub paths : List String
  pub columns : List String

pub data RowOutcome : Type 0 where
  absent structure_side other_side move : RowOutcome
  merge : OtherSideParts → RowOutcome

pub data RowOutcomeKind : Type 0 where
  absent structure_side other_side move merge : RowOutcomeKind

abbrev kind_of : RowOutcome → RowOutcomeKind
kind_of RowOutcome.absent = RowOutcomeKind.absent
kind_of RowOutcome.structure_side = RowOutcomeKind.structure_side
kind_of RowOutcome.other_side = RowOutcomeKind.other_side
kind_of RowOutcome.move = RowOutcomeKind.move
kind_of (RowOutcome.merge parts) = RowOutcomeKind.merge

abbrev is_other_or_absent : RowOutcomeKind → Bool
is_other_or_absent RowOutcomeKind.absent = true
is_other_or_absent RowOutcomeKind.structure_side = false
is_other_or_absent RowOutcomeKind.other_side = true
is_other_or_absent RowOutcomeKind.move = false
is_other_or_absent RowOutcomeKind.merge = false

pub record RowWithOutcome (R : Type 0) : Type 0 where
  pub pair : Sides R
  pub kind : RowOutcomeKind

pub data TableOutcome : Type 0 where
  unchanged base other mixed present absent : TableOutcome

pub record TableUnits : Type 0 where
  pub structure : Option String
  pub rows : List String

pub record OutcomeTable : Type 0 where
  pub units : TableUnits
  pub structure_differs : Bool

abbrev row_columns : List String
row_columns = "publishedAt" ∷ "meta" ∷ "schemaHash" ∷ []

-- `values` of a `Map`
abbrev values : Map String String → List String
values [] = []
values ((key, value) ∷ m) = value ∷ values m

abbrev pub every {ℓ} : {A : Type ℓ} → (A → Bool) → List A → Bool
every p [] = true
every p (x ∷ xs) = p x && every p xs

module _ (choice : AppliedUnits) (table : OutcomeTable) where
  abbrev structure_side_at : RevisionSide
  structure_side_at = structure_side_of choice table.units.structure

  abbrev other_side_at : RevisionSide
  other_side_at = opposite_of structure_side_at

  abbrev takes_other_side : String → Bool
  takes_other_side key =
      not (same_truth (is_taken_from_draft choice key) (same_side structure_side_at draft))

  abbrev takes_owner_other_side : Option String → Bool
  takes_owner_other_side none = false
  takes_owner_other_side (some owner) = takes_other_side owner

  -- the paths whose owner takes the other side
  abbrev paths_from : Map String String → List String
  paths_from [] = []
  paths_from ((path, owner) ∷ leaves) =
      let rest = paths_from leaves in if takes_other_side owner then path ∷ rest else rest

  pub unit_keys : List String
  unit_keys = elim table.units.structure [
    | none ↦ table.units.rows
    | some structure ↦ structure ∷ table.units.rows
  ]

  outcome_without_units : TableOutcome
  outcome_without_units = if choice.whole_draft then other else unchanged

  is_relink_candidate : Bool
  unfolding unit_keys
  is_relink_candidate = every (is_applied choice) unit_keys

  module _ {R : Type 0} where
    parts_from_other_side : CatalogueRow R → OtherSideParts
    parts_from_other_side row = record {
      id = takes_owner_other_side (Map.get row.columns "id");
      paths = paths_from row.leaves;
      columns = filter (λ column. takes_owner_other_side (Map.get row.columns column)) row_columns;
    }

    other_side_existence_of : Sides R → RowOutcome
    other_side_existence_of pair = elim (at_side pair other_side_at) [
      | none ↦ RowOutcome.absent
      | some version ↦ if table.structure_differs then RowOutcome.move else RowOutcome.other_side
    ]

    abbrev owners_of : CatalogueRow R → List String
    owners_of row = add_all [] (values row.columns ++ values row.leaves)

    outcome_of_differences : CatalogueRow R → RowOutcome
    unfolding parts_from_other_side
    outcome_of_differences row =
        let owners = owners_of row in
        let taking = filter takes_other_side owners in
        if nat_eq (length taking) 0
        then RowOutcome.structure_side
        else if nat_eq (length taking) (length owners) && not table.structure_differs
        then RowOutcome.other_side
        else RowOutcome.merge (parts_from_other_side row)

    -- the outcome of a row whose existence does not come from the other side
    outcome_in_place : CatalogueRow R → RowOutcome
    unfolding outcome_of_differences
    outcome_in_place row = elim (at_side row.pair structure_side_at) [
      | none ↦ RowOutcome.absent
      | some version ↦ elim (at_side row.pair other_side_at) [
        | none ↦ RowOutcome.structure_side
        | some other_version ↦ outcome_of_differences row
      ]
    ]

    pub row_outcome_of : CatalogueRow R → RowOutcome
    unfolding outcome_in_place other_side_existence_of
    row_outcome_of row =
        if takes_owner_other_side row.existence
        then other_side_existence_of row.pair
        else outcome_in_place row

    keeps_structure_side_link : RowWithOutcome R → Bool
    keeps_structure_side_link row = elim row.kind [
      | absent ↦ not (is_some (at_side row.pair structure_side_at))
      | structure_side ↦ true
      | other_side ↦ false
      | move ↦ false
      | merge ↦ false
    ]

    takes_other_side_version : List (RowWithOutcome R) → Bool
    takes_other_side_version rows =
        not (is_some table.units.structure)
        && (every takes_other_side table.units.rows
            && every (λ row. is_other_or_absent row.kind) rows)

    pub table_outcome_of : List (RowWithOutcome R) → TableOutcome
    unfolding unit_keys keeps_structure_side_link takes_other_side_version outcome_without_units
    table_outcome_of rows =
        if nat_eq (length unit_keys) 0
        then outcome_without_units
        else if every keeps_structure_side_link rows
        then base
        else if takes_other_side_version rows
        then other
        else mixed

  outcome_of_one_sided_table : Sides VersionAccess → TableOutcome
  outcome_of_one_sided_table pair =
      if is_some (at_side pair structure_side_at) then present else TableOutcome.absent

  edits_table_in_place : Sides VersionAccess → Bool
  edits_table_in_place pair = edits_draft_in_place choice structure_side_at pair.draft_version
