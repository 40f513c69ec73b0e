-- ===== src/Outcome/Opposite.antt =====
-- That a commit of some units and a revert of the others agree.
use revisium_engine.Base.{
  String, true, if◌then◌else◌, Option, none, some, [], ◌∷◌, Eq-String, Eq-ℕ, not, includes,
  includes-append, includes-add_all, ◌++◌, ◌≡◌, refl, ◌∙◌, ap, arith,
}
use text.Mathlib.TextEquality.{eq_iff}
use revisium_engine.Base.Map
use revisium_engine.Base.Map.{Map}
use revisium_engine.Outcome.{
  at_side, CatalogueRow, OutcomeTable, structure_side_at, takes_other_side, takes_owner_other_side,
  paths_from, parts_from_other_side, owners_of, outcome_of_differences, outcome_in_place,
  row_outcome_of, values, row_columns, other_side_existence_of,
}
use revisium_engine.Choice.{
  head, draft, opposite_of, same_side, side_taken_by, same_truth, AppliedUnits, commit, revert,
  is_taken_from_draft,
}
use revisium_engine.Outcome.Owners.{owns, includes-values, filter_congr}

-- The units of a commit and those of a revert, when each unit of the table is applied by one of the
-- two.
module _ (committed reverted : AppliedUnits) (table : OutcomeTable) (structure : String)
    (commits : committed.operation ≡ commit) (reverts : reverted.operation ≡ revert)
    (complement : (key : String)
      → includes (structure ∷ table.units.rows) key ≡ true
      → includes reverted.applied key ≡ not (includes committed.applied key))
    (has_structure : table.units.structure ≡ some structure) where
  same_taken :
      (key : String)
      → includes (structure ∷ table.units.rows) key ≡ true
      → is_taken_from_draft committed key ≡ is_taken_from_draft reverted key
  same_taken key i = ground (arith, complement key i)

  same_structure_side : structure_side_at committed table ≡ structure_side_at reverted table
  same_structure_side =
      ground (arith, same_taken structure (ground (arith, eq_iff structure structure)))

  same_takes :
      (key : String)
      → includes (structure ∷ table.units.rows) key ≡ true
      → takes_other_side committed table key ≡ takes_other_side reverted table key
  same_takes key i =
      ap (λ b. not (same_truth b (same_side (structure_side_at committed table) draft)))
        (same_taken key i)
      ∙ ap (λ s. not (same_truth (is_taken_from_draft reverted key) (same_side s draft)))
          same_structure_side

  same_owner_takes :
      (owner : Option String)
      → ((key : String) → owner ≡ some key → includes (structure ∷ table.units.rows) key ≡ true)
      → takes_owner_other_side committed table owner ≡ takes_owner_other_side reverted table owner
  same_owner_takes none i = refl
  same_owner_takes (some owner) i = same_takes owner (i owner refl)

  same_paths :
      (leaves : Map String String)
      → ((key : String)
          → includes (values leaves) key ≡ true
          → includes (structure ∷ table.units.rows) key ≡ true)
      → paths_from committed table leaves ≡ paths_from reverted table leaves
  same_paths [] i = refl
  same_paths ((path, owner) ∷ leaves) i = ground (
    arith,
    same_takes owner (i owner (ground (arith, eq_iff owner owner))),
    same_paths leaves (λ key k. i key (ground arith)),
  )

  module _ {R : Type 0} (row : CatalogueRow R)
      (listed : (owner : String)
        → owns row owner ≡ true
        → includes (structure ∷ table.units.rows) owner ≡ true) where
    same_column :
        (c : String)
        → takes_owner_other_side committed table (Map.get row.columns c)
          ≡ takes_owner_other_side reverted table (Map.get row.columns c)
    same_column c =
        same_owner_takes (Map.get row.columns c)
          (λ key g. listed key (ground (arith, includes-values row.columns c key g)))

    same_parts :
        parts_from_other_side committed table row ≡ parts_from_other_side reverted table row
    unfolding parts_from_other_side
    same_parts = ground (
      arith,
      same_column "id",
      same_paths row.leaves (λ key i. listed key (ground arith)),
      filter_congr (λ c. takes_owner_other_side committed table (Map.get row.columns c))
          (λ c. takes_owner_other_side reverted table (Map.get row.columns c)) row_columns
          (λ c i. same_column c),
    )

    same_differences :
        outcome_of_differences committed table row ≡ outcome_of_differences reverted table row
    unfolding outcome_of_differences
    same_differences = ground (
      arith,
      same_parts,
      filter_congr (takes_other_side committed table) (takes_other_side reverted table)
          (owners_of committed table row)
          (λ owner i. same_takes owner (
            listed owner (
              ground (
                arith,
                includes-add_all [] (values row.columns ++ values row.leaves) owner,
                includes-append (values row.columns) (values row.leaves) owner,
              )))),
    )

    same_row_outcome : row_outcome_of committed table row ≡ row_outcome_of reverted table row
    unfolding row_outcome_of outcome_in_place other_side_existence_of
    same_row_outcome = ground (
      arith,
      same_differences,
      same_owner_takes row.existence (λ key e. listed key (ground (arith, eq_iff key key))),
      same_structure_side,
      ap (λ s. at_side row.pair s) same_structure_side,
      ap (λ s. at_side row.pair (opposite_of s)) same_structure_side,
    )

    -- A commit of some units of a table that has a structure unit, and a revert of exactly its other
    -- units, make the same of a row whose parts are owned by units of the table: the commit takes from
    -- the Draft the units that it applies and from Head the others, the revert the other way round.
    pub commit-revert :
        (row_outcome_of committed table row ≡ row_outcome_of reverted table row)
        × ((key : String)
            → side_taken_by committed key
              ≡ (if includes committed.applied key then draft else head))
        × ((key : String)
            → side_taken_by reverted key ≡ (if includes reverted.applied key then head else draft))
    commit-revert =
        (same_row_outcome, λ key. ground (arith, commits), λ key. ground (arith, reverts))
