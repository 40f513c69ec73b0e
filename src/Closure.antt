-- ===== src/Closure.antt =====
-- The dependency closure of a selection: src/features/partial-changes/closure/dependency-closure.ts,
-- closure/findings.ts, plan/plan-blocker.ts and plan/reason.ts. The estimate, the assembly of a
-- target and the checks of it are parameters.
pub mod Growth
pub mod Closed
pub mod Reported
mod Tests
use revisium_engine.Base.{
  ℕ, suc, zero, String, Bool, true, false, Option, none, some, List, [], ◌∷◌, Eq-String, Eq-ℕ, ◌==◌,
  ◌&&◌, ◌||◌, not, if◌then◌else◌, includes, add, add_all, length, is_some, ◌++◌, ltb,
}
use revisium_engine.Base.Map
use revisium_engine.Base.Map.{Map}
use revisium_engine.Base.Result.{Result, ok, throw, ◌>>=◌}
use revisium_engine.Rules.Messages.{join}
use revisium_engine.Choice.{AppliedUnits, ChangeOperation}
use revisium_engine.Findings.{
  CatalogueUnit, Finding, PlanBlocker, Reason, address_of, blocks, dangling_in_source,
  distinct_blockers, distinct_from, has_address, or_blank, required_excluded, requires,
  requiring_or_dangling, same_address, same_part,
}

pub data Guarded (E : Type 0) : Type 0 where
  within : E → Guarded E
  too_large : E → List PlanBlocker → Guarded E

-- The steps of a closure that other components do.
pub record ClosureSteps (T E : Type 0) : Type 0 where
  pub estimate_and_guard : AppliedUnits → Guarded E
  pub assemble : AppliedUnits → T
  pub blockers_of : T → List PlanBlocker
  pub checks : List (T → AppliedUnits → List Finding)

-- What the closure is asked: the operation, the selection as it is resolved, the catalogue.
pub record ClosureRequest : Type 0 where
  pub operation : ChangeOperation
  pub whole_draft : Bool
  pub selected : List String
  pub excluded : List String
  pub resolved_required : Map String Reason
  pub resolved_blockers : List PlanBlocker
  pub units : List CatalogueUnit

-- The two fields of `SelectionClosure` that it changes.
pub record SelectionClosure : Type 0 where
  pub applied : List String
  pub required : Map String Reason

pub record ClosureOutcome (E : Type 0) : Type 0 where
  pub applied : List String
  pub required : List (CatalogueUnit × Reason)
  pub blockers : List PlanBlocker
  pub estimate : E

pub data ClosureResult (T E : Type 0) : Type 0 where
  closed : ClosureOutcome E → T → ClosureResult T E
  refused : ClosureOutcome E → ClosureResult T E

abbrev pub reason_keys : Map String Reason → List String
reason_keys [] = []
reason_keys ((key, reason) ∷ m) = key ∷ reason_keys m

-- `catalogue.lookup.unit`, whose map has each key once
find_unit : List CatalogueUnit → String → Result CatalogueUnit
find_unit [] key = throw (join "" ("The catalogue has no unit " ∷ key ∷ []))
find_unit (unit ∷ units) key =
    let rest = find_unit units key in if unit.key == key then ok unit else rest

-- `requiredUnitsOf`
required_units_of : List CatalogueUnit → Map String Reason → List (CatalogueUnit × Reason)
required_units_of [] required = []
required_units_of (unit ∷ units) required =
    let rest = required_units_of units required in
    elim (Map.get required unit.key) [ none ↦ rest | some reason ↦ (unit, reason) ∷ rest ]

findings_by :
    {T : Type 0} → List (T → AppliedUnits → List Finding) → T → AppliedUnits → List Finding
findings_by [] target choice = []
findings_by (check ∷ checks) target choice = check target choice ++ findings_by checks target choice

module _ (request : ClosureRequest) where
  -- the constructor
  pub start : SelectionClosure
  start = record {
    applied = add_all (add_all [] request.selected) (reason_keys request.resolved_required);
    required = request.resolved_required;
  }

  pub applied_units : SelectionClosure → AppliedUnits
  applied_units s = record {
    operation = request.operation;
    applied = s.applied;
    whole_draft = request.whole_draft;
  }

  can_add : SelectionClosure → String → Bool
  can_add s key = not (includes request.excluded key) && not (includes s.applied key)

  add_required : SelectionClosure → Finding → SelectionClosure
  unfolding can_add
  add_required s (blocks blocker) = s
  add_required s (requires key reason) =
      if can_add s key
      then record { applied = add s.applied key; required = Map.set s.required key reason }
      else s

  pub add_required_units : SelectionClosure → List Finding → SelectionClosure
  unfolding add_required
  add_required_units s [] = s
  add_required_units s (finding ∷ findings) = add_required_units (add_required s finding) findings

  excluded_blocker : Reason → Result CatalogueUnit → Result PlanBlocker
  unfolding required_excluded
  excluded_blocker reason found = do unit ← found; ok (required_excluded unit reason)

  pub blocker_of : Finding → Result PlanBlocker
  unfolding find_unit excluded_blocker dangling_in_source
  blocker_of (blocks blocker) = ok blocker
  blocker_of (requires key reason) =
      if includes request.excluded key
      then excluded_blocker reason (find_unit request.units key)
      else ok (dangling_in_source reason.because reason (some key))

  pub blockers_of_findings : List Finding → Result (List PlanBlocker)
  unfolding blocker_of
  blockers_of_findings [] = ok []
  blockers_of_findings (finding ∷ findings) = do
    blocker ← blocker_of finding
    blockers ← blockers_of_findings findings
    ok (blocker ∷ blockers)

  pub outcome_with : {E : Type 0} → SelectionClosure → E → List PlanBlocker → ClosureOutcome E
  unfolding required_units_of distinct_blockers
  outcome_with s estimate blockers = record {
    applied = s.applied;
    required = required_units_of request.units s.required;
    blockers = distinct_blockers (request.resolved_blockers ++ blockers);
    estimate = estimate;
  }

  module _ {T E : Type 0} (steps : ClosureSteps T E) where
    pub findings_of : T → AppliedUnits → List Finding
    unfolding findings_by
    findings_of target choice = findings_by steps.checks target choice

    closed_outcome : SelectionClosure → E → T → List Finding → Result (ClosureResult T E)
    unfolding outcome_with blockers_of_findings
    closed_outcome s estimate target findings = do
      blockers ← blockers_of_findings findings
      ok (closed (outcome_with s estimate (steps.blockers_of target ++ blockers)) target)

    -- `close`, which calls itself again while units are added
    pub close : ℕ → SelectionClosure → Option (Result (ClosureResult T E))
    unfolding applied_units findings_of add_required_units closed_outcome outcome_with
    close zero s = none
    close (suc n) s =
        let choice = applied_units s in
        let target = steps.assemble choice in
        let findings = findings_of target choice in
        let grown = add_required_units s findings in
        let again = close n grown in
        elim (steps.estimate_and_guard choice) [
          | too_large estimate blockers ↦ some (ok (refused (outcome_with s estimate blockers)))
          | within estimate ↦
              if ltb (length s.applied) (length grown.applied)
              then again
              else some (closed_outcome grown estimate target findings)
        ]
