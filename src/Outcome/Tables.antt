-- ===== src/Outcome/Tables.antt =====
-- What a table becomes of which no unit is applied.
use revisium_engine.Base.{
  String, Bool, true, false, List, [], ◌∷◌, Eq-String, Eq-ℕ, not, if◌then◌else◌, includes,
  includes-append, includes-add_all, ◌++◌, ◌≡◌, ◌≢◌, refl, ◌∙◌, ap, arith, Option-cases, List-cases,
  inl, inr, map, All,
}
use text.Mathlib.TextEquality.{eq_iff}
use revisium_engine.Outcome.{
  at_side, CatalogueRow, RowOutcome, OutcomeTable, RowWithOutcome, structure_side_at, other_side_at,
  takes_other_side, takes_owner_other_side, owners_of, outcome_of_differences, outcome_in_place,
  row_outcome_of, values, table_outcome_of, base, unit_keys, keeps_structure_side_link, kind_of,
  every,
}
use revisium_engine.Choice.{
  RevisionSide, head, draft, same_side, same_truth, AppliedUnits, is_taken_from_draft, is_applied,
  base_side, structure_side_of, ChangeOperation, commit, revert, base_side_of, is_revert,
}
use revisium_engine.Outcome.Owners.{owns, filter-none}

-- An idle structure unit leaves the structure on the base side, where a unit takes the other side
-- exactly when it is applied.
idle_side :
    (applied : Bool) (side : RevisionSide)
    → applied ≡ false
    → (if same_truth applied (same_side side head) then draft else head) ≡ side
idle_side applied head e = ground arith
idle_side applied draft e = ground arith

applied_cases :
    (applied : Bool) (side : RevisionSide)
    → not (same_truth (same_truth applied (same_side side head)) (same_side side draft)) ≡ applied
applied_cases true head = refl
applied_cases true draft = refl
applied_cases false head = refl
applied_cases false draft = refl

base_of :
    (operation : ChangeOperation)
    → base_side_of operation ≡ (if is_revert operation then draft else head)
base_of commit = refl
base_of revert = refl

-- What a catalogued row becomes, as the rows of a table are given to `tableOutcomeOf`.
abbrev pub with_outcome :
    {R : Type 0} → AppliedUnits → OutcomeTable → CatalogueRow R → RowWithOutcome R
with_outcome choice table row = record {
  pair = row.pair;
  kind = kind_of (row_outcome_of choice table row);
}

module _ (choice : AppliedUnits) (table : OutcomeTable)
    (idle : (key : String)
      → includes (unit_keys choice table) key ≡ true
      → is_applied choice key ≡ false) where
  idle_structure_side : structure_side_at choice table ≡ base_side choice
  unfolding unit_keys
  idle_structure_side = elim (Option-cases table.units.structure) [
    | inl nothing ↦ ground arith
    | inr (key, e) ↦
        ap (λ o. structure_side_of choice o) e
        ∙ idle_side (is_applied choice key) (base_side choice)
            (idle key (ground (arith, eq_iff key key)))
  ]

  idle_takes :
      (key : String)
      → includes (unit_keys choice table) key ≡ true
      → takes_other_side choice table key ≡ false
  idle_takes key i =
      ap (λ s. not (same_truth (is_taken_from_draft choice key) (same_side s draft)))
        idle_structure_side
      ∙ applied_cases (is_applied choice key) (base_side choice)
      ∙ idle key i

  module _ {R : Type 0} where
    idle_differences :
        (row : CatalogueRow R)
        → ((owner : String)
            → owns row owner ≡ true
            → includes (unit_keys choice table) owner ≡ true)
        → outcome_of_differences choice table row ≡ RowOutcome.structure_side
    unfolding outcome_of_differences
    idle_differences row listed = ground (
      arith,
      filter-none (takes_other_side choice table) (owners_of choice table row) (λ owner i.
          idle_takes owner (
            listed owner (
              ground (
                arith,
                includes-add_all [] (values row.columns ++ values row.leaves) owner,
                includes-append (values row.columns) (values row.leaves) owner,
              )))),
    )

    idle_existence :
        (row : CatalogueRow R)
        → ((owner : String)
            → owns row owner ≡ true
            → includes (unit_keys choice table) owner ≡ true)
        → takes_owner_other_side choice table row.existence ≡ false
    idle_existence row listed = elim (Option-cases row.existence) [
      | inl nothing ↦ ground arith
      | inr (key, e) ↦
          ap (λ o. takes_owner_other_side choice table o) e
          ∙ idle_takes key (listed key (ground (arith, eq_iff key key)))
    ]

    idle_row :
        (row : CatalogueRow R)
        → ((owner : String)
            → owns row owner ≡ true
            → includes (unit_keys choice table) owner ≡ true)
        → keeps_structure_side_link choice table (with_outcome choice table row) ≡ true
    unfolding keeps_structure_side_link row_outcome_of outcome_in_place
    idle_row row listed = ground (
      arith,
      idle_existence row listed,
      idle_differences row listed,
      Option-cases (at_side row.pair (structure_side_at choice table)),
      Option-cases (at_side row.pair (other_side_at choice table)),
    )

    idle_rows :
        (rows : List (CatalogueRow R))
        → All
            (λ row.
              (owner : String)
              → owns row owner ≡ true
              → includes (unit_keys choice table) owner ≡ true)
            rows
        → every (keeps_structure_side_link choice table) (map (with_outcome choice table) rows)
          ≡ true
    idle_rows [] listed = refl
    idle_rows (row ∷ rows) listed = ground (arith, idle_row row listed.0, idle_rows rows listed.1)

    -- A table that has units, none of them applied, keeps its base version, when the units of the
    -- table own the parts of its rows, and the base is Head for a commit and the Draft for a revert.
    pub idle_table-base :
        (rows : List (CatalogueRow R))
        → unit_keys choice table ≢ []
        → All
            (λ row.
              (owner : String)
              → owns row owner ≡ true
              → includes (unit_keys choice table) owner ≡ true)
            rows
        → (table_outcome_of choice table (map (with_outcome choice table) rows) ≡ base)
          × (structure_side_at choice table ≡ (if is_revert choice.operation then draft else head))
    unfolding table_outcome_of
    idle_table-base rows some_unit listed = (
      ground (arith, idle_rows rows listed, List-cases (unit_keys choice table)),
      idle_structure_side ∙ base_of choice.operation,
    )
