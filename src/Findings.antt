-- ===== src/Findings.antt =====
-- src/features/partial-changes/closure/findings.ts, plan/plan-blocker.ts and plan/reason.ts: what the
-- checks of a target find, and the blockers of a plan.
pub mod Blockers
use revisium_engine.Base.{
  ℕ, suc, zero, String, Bool, true, false, Option, none, some, List, [], ◌∷◌, Eq-String, Eq-ℕ, ◌==◌,
  ◌&&◌, ◌||◌, not, if◌then◌else◌, includes, add, add_all, length, is_some, ◌++◌, ltb,
}
use revisium_engine.Base.Map
use revisium_engine.Base.Map.{Map}
use revisium_engine.Rules.Messages.{join}
use revisium_engine.Choice.{AppliedUnits, ChangeOperation}

pub record Reason : Type 0 where
  pub code : String
  pub table_id : String
  pub row_id : Option String
  pub path : Option String
  pub because : String

pub record PlanBlocker : Type 0 where
  pub code : String
  pub table_id : Option String
  pub row_id : Option String
  pub path : Option String
  pub message : String
  pub unit_key : Option String
  pub reason : Option Reason

-- the address of a unit and its key, which is all that the closure reads of it
pub record CatalogueUnit : Type 0 where
  pub key : String
  pub table_id : String
  pub row_id : Option String
  pub path : Option String

pub data Finding : Type 0 where
  requires : String → Reason → Finding
  blocks : PlanBlocker → Finding

abbrev pub or_blank : Option String → String
or_blank none = ""
or_blank (some path) = path

pub address_of : CatalogueUnit → String
address_of unit = elim unit.row_id [
  | none ↦ unit.table_id
  | some row_id ↦ join "" (unit.table_id ∷ "/" ∷ row_id ∷ or_blank unit.path ∷ [])
]

unfoldable pub required_excluded : CatalogueUnit → Reason → PlanBlocker
unfolding address_of
required_excluded unit reason = record {
  code = "requiredExcluded";
  table_id = some unit.table_id;
  row_id = unit.row_id;
  path = unit.path;
  message = join "" (address_of unit ∷ " is required but excluded" ∷ []);
  unit_key = some unit.key;
  reason = some reason;
}

unfoldable pub dangling_in_source : String → Reason → Option String → PlanBlocker
dangling_in_source because site unit_key = record {
  code = "danglingInSource";
  table_id = some site.table_id;
  row_id = site.row_id;
  path = site.path;
  message = join "" ("No unit can restore consistency: " ∷ because ∷ []);
  unit_key = unit_key;
  reason = none;
}

pub requiring_or_dangling : Option String → Reason → Option String → Finding
unfolding dangling_in_source
requiring_or_dangling none reason culprit =
    blocks (dangling_in_source reason.because reason culprit)
requiring_or_dangling (some key) reason culprit = requires key reason

-- Equality of the parts of an address that may be left out.
abbrev pub same_part : Option String → Option String → Bool
same_part none none = true
same_part none (some b) = false
same_part (some a) none = false
same_part (some a) (some b) = a == b

-- The keys that `JSON.stringify` gives two blockers are the same.
pub same_address : PlanBlocker → PlanBlocker → Bool
same_address a b =
    (a.code == b.code && same_part a.table_id b.table_id)
    && (same_part a.row_id b.row_id && same_part a.path b.path)

unfoldable pub has_address : List PlanBlocker → PlanBlocker → Bool
has_address [] blocker = false
has_address (b ∷ bs) blocker = same_address b blocker || has_address bs blocker

pub distinct_from : List PlanBlocker → List PlanBlocker → List PlanBlocker
unfolding has_address
distinct_from distinct [] = distinct
distinct_from distinct (blocker ∷ blockers) =
    distinct_from (if has_address distinct blocker then distinct else distinct ++ blocker ∷ [])
      blockers

unfoldable pub distinct_blockers : List PlanBlocker → List PlanBlocker
unfolding distinct_from
distinct_blockers blockers = distinct_from [] blockers
