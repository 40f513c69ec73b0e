-- ===== src/Closure/Tests.antt =====
-- A closure that adds one required unit and closes without a blocker.
use revisium_engine.Base.{
  ℕ, String, true, false, none, some, List, [], ◌∷◌, Eq-String, ◌≡◌, refl, includes, if◌then◌else◌,
  arith, Bool-cases, inl, inr, ◌⊎◌, ◌||◌, is_some,
}
use revisium_engine.Base.Map
use revisium_engine.Rules.Messages.{join}
use revisium_engine.Base.Result.{Result, ok}
use revisium_engine.Choice.{AppliedUnits, commit}
use revisium_engine.Closure.{
  blocker_of, ClosureSteps, ClosureRequest, ClosureOutcome, ClosureResult, closed, within, close,
  start, findings_of, findings_by,
}
use revisium_engine.Findings.{
  Reason, PlanBlocker, CatalogueUnit, Finding, requires, distinct_blockers, has_address,
}
use revisium_engine.Findings.Blockers.{Separate, distinct_blockers-addresses}
use revisium_engine.Closure.Growth.{RequiresKnown, close-ends}
use revisium_engine.Closure.Reported.{closed-reported}
use revisium_engine.Closure.Closed.{
  choice_of, close-keeps, close-excluded, closed-required, closed-clean,
}

abbrev because : Reason
because = record {
  code = "referencedRowMissing";
  table_id = "posts";
  row_id = some "p1";
  path = some "/author";
  because = "posts/p1 references users/u1";
}

abbrev unit : String → CatalogueUnit
unit key = record { key = key; table_id = "users"; row_id = some key; path = none }

abbrev check_author : List String → AppliedUnits → List Finding
check_author target choice =
    if includes choice.applied "author" then [] else requires "author" because ∷ []

abbrev steps : ClosureSteps (List String) ℕ
steps = record {
  estimate_and_guard = λ choice. within 1;
  assemble = λ choice. choice.applied;
  blockers_of = λ target. [];
  checks = check_author ∷ [];
}

abbrev request : ClosureRequest
request = record {
  operation = commit;
  whole_draft = false;
  selected = "post" ∷ [];
  excluded = "other" ∷ [];
  resolved_required = [];
  resolved_blockers = [];
  units = unit "author" ∷ unit "post" ∷ unit "other" ∷ [];
}

abbrev outcome : ClosureOutcome ℕ
outcome = record {
  applied = "post" ∷ "author" ∷ [];
  required = (unit "author", because) ∷ [];
  blockers = [];
  estimate = 1;
}

abbrev target : List String
target = "post" ∷ "author" ∷ []

closes : close request steps 3 (start request) ≡ some (ok (closed outcome target))
unfolding close start Map.get Map.set
closes = refl

known : RequiresKnown request steps
unfolding findings_of findings_by
known t choice key i = elim (Bool-cases (includes choice.applied "author")) [
  | inl there ↦ ground arith
  | inr missing_author ↦ ground arith
]

close-ends_example :
    (r : Result (ClosureResult (List String) ℕ)) × (close request steps 3 (start request) ≡ some r)
unfolding start
close-ends_example = close-ends request steps 3 (start request) known (omega arith)

-- The resolved selection requires a unit beside the selected one.
abbrev with_tag : ClosureRequest
with_tag = record request {
  resolved_required = ("tag", because) ∷ [];
  units = unit "author" ∷ unit "post" ∷ unit "tag" ∷ [];
}

abbrev tagged : ClosureOutcome ℕ
tagged = record {
  applied = "post" ∷ "tag" ∷ "author" ∷ [];
  required = (unit "author", because) ∷ (unit "tag", because) ∷ [];
  blockers = [];
  estimate = 1;
}

closes_tagged :
    close with_tag steps 3 (start with_tag)
    ≡ some (ok (closed tagged ("post" ∷ "tag" ∷ "author" ∷ [])))
unfolding close start Map.get Map.set
closes_tagged = refl

close-keeps_example : includes tagged.applied "tag" ≡ true
unfolding Map.get
close-keeps_example =
    close-keeps with_tag steps 3 (closed tagged ("post" ∷ "tag" ∷ "author" ∷ [])) "tag"
      closes_tagged (inr refl)

close-excluded_example :
    includes outcome.applied "other"
    ≡ (includes request.selected "other" || is_some (Map.get request.resolved_required "other"))
close-excluded_example = close-excluded request steps 3 (closed outcome target) "other" closes refl

closed-clean_example :
    (target ≡ steps.assemble (choice_of request steps outcome))
    × (findings_of request steps target (choice_of request steps outcome) ≡ [])
closed-clean_example = closed-clean request steps 3 outcome target closes refl

-- The excluded unit is required: the closure closes with a blocker.
abbrev without_author : ClosureRequest
without_author = record request { excluded = "author" ∷ [] }

abbrev blocked : ClosureOutcome ℕ
blocked = record {
  applied = "post" ∷ [];
  required = [];
  blockers =
      record {
        code = "requiredExcluded";
        table_id = some "users";
        row_id = some "author";
        path = none;
        message = "users/author is required but excluded";
        unit_key = some "author";
        reason = some because;
      }
      ∷ [];
  estimate = 1;
}

closes_blocked :
    close without_author steps 2 (start without_author) ≡ some (ok (closed blocked ("post" ∷ [])))
unfolding close start Map.get join
closes_blocked = refl

closed-required_example :
    (includes blocked.applied "author" ≡ true) ⊎ (includes without_author.excluded "author" ≡ true)
closed-required_example =
    closed-required without_author steps 2 blocked ("post" ∷ []) "author" closes_blocked
      (unfold findings_of in refl)

distinct_blockers-addresses_example :
    Separate (distinct_blockers blocked.blockers)
    × ((b : PlanBlocker)
        → has_address (distinct_blockers blocked.blockers) b ≡ has_address blocked.blockers b)
distinct_blockers-addresses_example = distinct_blockers-addresses blocked.blockers

closed-reported_example :
    (b : PlanBlocker) × (blocker_of without_author (requires "author" because) ≡ ok b)
    × (has_address blocked.blockers b ≡ true)
closed-reported_example =
    closed-reported without_author steps 2 blocked ("post" ∷ []) 0 (requires "author" because)
      closes_blocked (unfold findings_of in refl)
