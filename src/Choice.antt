-- ===== src/Choice.antt =====
-- The class OutcomeRules of src/features/partial-changes/assembly/outcome-rules.ts: the units that a
-- commit or a revert applies, and the side that each takes. A `Set` is the list of its elements.
use revisium_engine.Base.{
  String, Bool, true, false, Option, none, some, List, Eq-String, Eq-ℕ, ◌&&◌, not, if◌then◌else◌,
  includes,
}

pub data RevisionSide : Type 0 where
  head draft : RevisionSide

abbrev pub same_side : RevisionSide → RevisionSide → Bool
same_side head head = true
same_side draft draft = true
same_side head draft = false
same_side draft head = false

abbrev pub opposite_of : RevisionSide → RevisionSide
opposite_of head = draft
opposite_of draft = head

pub data ChangeOperation : Type 0 where
  commit revert : ChangeOperation

pub record AppliedUnits : Type 0 where
  pub operation : ChangeOperation
  pub applied : List String
  pub whole_draft : Bool

pub record VersionAccess : Type 0 where
  pub readonly : Bool

abbrev pub is_mutable : Option VersionAccess → Bool
is_mutable none = false
is_mutable (some version) = not version.readonly

abbrev pub base_side_of : ChangeOperation → RevisionSide
base_side_of commit = head
base_side_of revert = draft

abbrev pub is_revert : ChangeOperation → Bool
is_revert commit = false
is_revert revert = true

-- `===` of two Booleans
abbrev pub same_truth : Bool → Bool → Bool
same_truth true b = b
same_truth false b = not b

module _ (choice : AppliedUnits) where
  abbrev pub base_side : RevisionSide
  base_side = base_side_of choice.operation

  abbrev pub unitless_side : RevisionSide
  unitless_side = if choice.whole_draft then opposite_of base_side else base_side

  abbrev pub takes_every_table_of : RevisionSide → Bool
  takes_every_table_of side = choice.whole_draft && same_side side unitless_side

  abbrev pub is_applied : String → Bool
  is_applied key = includes choice.applied key

  abbrev pub is_taken_from_draft : String → Bool
  is_taken_from_draft key = same_truth (is_applied key) (same_side base_side head)

  abbrev pub side_taken_by : String → RevisionSide
  side_taken_by key = if is_taken_from_draft key then draft else head

  abbrev pub structure_side_of : Option String → RevisionSide
  structure_side_of none = base_side
  structure_side_of (some structure) = side_taken_by structure

  abbrev pub edits_draft_in_place : RevisionSide → Option VersionAccess → Bool
  edits_draft_in_place side draft_access =
      is_revert choice.operation && (same_side side draft && is_mutable draft_access)
