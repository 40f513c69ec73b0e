-- ===== src/Closure/Closed.antt =====
-- What a closure that ended has applied, and what it reports.
use revisium_engine.Base.{
  ℕ, zero, suc, String, true, some, List, [], ◌∷◌, ◌++◌, Eq-String, Eq-ℕ, ◌≡◌, refl, ◌∙◌, sym, ap,
  arith, Bool-cases, inl, inr, ◌⊎◌, ◌||◌, includes, length, ltb, is_some, add_all, includes-add_all,
}
use mathlib.Core.Path.{subst}
use revisium_engine.Base.Map
use revisium_engine.Base.Map.{Map}
use revisium_engine.Base.Result.{ok, >>=-eq-ok}
use revisium_engine.Choice.{AppliedUnits}
use revisium_engine.Closure.{
  ClosureRequest, SelectionClosure, ClosureSteps, ClosureOutcome, ClosureResult, add_required_units,
  applied_units, findings_of, close, closed_outcome, closed, refused, outcome_with, blocker_of,
  blockers_of_findings, start, reason_keys,
}
use revisium_engine.Findings.{PlanBlocker, Finding, Reason}
use revisium_engine.Findings.Blockers.{distinct_blockers-nil}
use revisium_engine.Closure.Growth.{
  required_keys, includes-add_required_units, unchanged_of_length, Guarded-cases,
}

abbrev applied_of : {T E : Type 0} → ClosureResult T E → List String
applied_of (closed outcome target) = outcome.applied
applied_of (refused outcome) = outcome.applied

includes-reason_keys :
    (m : Map String Reason) (key : String) → includes (reason_keys m) key ≡ is_some (Map.get m key)
unfolding Map.get
includes-reason_keys [] key = refl
includes-reason_keys ((k, reason) ∷ m) key = ground (arith, includes-reason_keys m key)

-- The constructor applies what is selected and what the resolved selection requires.
start-applied :
    (request : ClosureRequest) (key : String)
    → includes (start request).applied key
      ≡ (includes request.selected key || is_some (Map.get request.resolved_required key))
unfolding start
start-applied request key = ground (
  arith,
  includes-reason_keys request.resolved_required key,
  includes-add_all (add_all [] request.selected) (reason_keys request.resolved_required) key,
  includes-add_all [] request.selected key,
)

module _ {T E : Type 0} (request : ClosureRequest) (steps : ClosureSteps T E) where
  abbrev target_at : SelectionClosure → T
  target_at s = steps.assemble (applied_units request s)

  abbrev findings_at : SelectionClosure → List Finding
  findings_at s = findings_of request steps (target_at s) (applied_units request s)

  -- How a result stands to the last state of the closure.
  abbrev EndsAt : SelectionClosure → ClosureResult T E → Type 0
  EndsAt s r =
      ((e : E) × (l : List PlanBlocker) × (r ≡ refused (outcome_with request s e l)))
      ⊎ ((e : E) × (l : List PlanBlocker) × (blockers_of_findings request (findings_at s) ≡ ok l)
          × (r
              ≡ closed (outcome_with request s e (steps.blockers_of (target_at s) ++ l))
                  (target_at s))
          × (add_required_units request s (findings_at s) ≡ s))

  closed-ends :
      (s : SelectionClosure) (e : E) (r : ClosureResult T E)
      → add_required_units request s (findings_at s) ≡ s
      → closed_outcome request steps s e (target_at s) (findings_at s) ≡ ok r
      → EndsAt s r
  unfolding closed_outcome
  closed-ends s e r same h =
      let (l, b, g) = >>=-eq-ok (blockers_of_findings request (findings_at s)) _ h in
      inr (e, l, b, ground arith, same)

  -- What holds of the first state, and is kept by a pass, holds of the last one.
  pub close-EndsAt :
      (P : SelectionClosure → Type 0)
      (keeps : (s : SelectionClosure) (findings : List Finding)
        → P s
        → P (add_required_units request s findings))
      (n : ℕ) (s : SelectionClosure) (r : ClosureResult T E)
      → P s
      → close request steps n s ≡ some (ok r)
      → (last : SelectionClosure) × P last × EndsAt last r
  unfolding close
  close-EndsAt P keeps zero s r p h = cc
  close-EndsAt P keeps (suc n) s r p h =
      let grown = add_required_units request s (findings_at s) in
      elim (Guarded-cases (steps.estimate_and_guard (applied_units request s))) [
        | inr (e, l, g) ↦ (s, p, inl (e, l, ground arith))
        | inl (e, g) ↦ elim (Bool-cases (ltb (length s.applied) (length grown.applied))) [
          | inl more ↦ close-EndsAt P keeps n grown r (keeps s (findings_at s) p) (ground arith)
          | inr done ↦
              let same = unchanged_of_length request s (findings_at s) done in
              (s, p, closed-ends s e r same (ground arith))
        ]
      ]

  applied-EndsAt :
      (s : SelectionClosure) (r : ClosureResult T E) → EndsAt s r → applied_of r ≡ s.applied
  unfolding outcome_with
  applied-EndsAt s r (inl (e, l, g)) = ap applied_of g
  applied-EndsAt s r (inr (e, l, b, g, same)) = ap applied_of g

  -- A closure that returns has applied every unit that is selected or that the resolved selection
  -- requires.
  pub close-keeps :
      (n : ℕ) (r : ClosureResult T E) (key : String)
      → close request steps n (start request) ≡ some (ok r)
      → (includes request.selected key ≡ true)
        ⊎ (is_some (Map.get request.resolved_required key) ≡ true)
      → includes (applied_of r) key ≡ true
  close-keeps n r key h asked =
      let i : includes (start request).applied key ≡ true =
        ground (arith, start-applied request key, asked) in
      let (last, kept, ends) =
        close-EndsAt (λ s. includes s.applied key ≡ true)
          (λ s findings more. ground (arith, includes-add_required_units request s findings key)) n
          (start request) r i h in
      ap (λ l. includes l key) (applied-EndsAt last r ends) ∙ kept

  -- A closure that returns has applied an excluded unit exactly when it is selected or the resolved
  -- selection requires it.
  pub close-excluded :
      (n : ℕ) (r : ClosureResult T E) (key : String)
      → close request steps n (start request) ≡ some (ok r)
      → includes request.excluded key ≡ true
      → includes (applied_of r) key
        ≡ (includes request.selected key || is_some (Map.get request.resolved_required key))
  close-excluded n r key h x =
      let (last, kept, ends) =
        close-EndsAt (λ s. includes s.applied key ≡ includes (start request).applied key)
          (λ s findings out. ground (arith, includes-add_required_units request s findings key)) n
          (start request) r refl h in
      ap (λ l. includes l key) (applied-EndsAt last r ends) ∙ kept ∙ start-applied request key

  -- What the checks find of the target of an outcome.
  abbrev pub choice_of : ClosureOutcome E → AppliedUnits
  choice_of outcome = record {
    operation = request.operation;
    applied = outcome.applied;
    whole_draft = request.whole_draft;
  }

  kept_key :
      (s : SelectionClosure) (findings : List Finding) (key : String)
      → add_required_units request s findings ≡ s
      → includes (required_keys findings) key ≡ true
      → (includes s.applied key ≡ true) ⊎ (includes request.excluded key ≡ true)
  kept_key s findings key same i = elim (Bool-cases (includes request.excluded key)) [
    | inl out ↦ inr out
    | inr free ↦ inl (
        sym (ap (λ t. includes t.applied key) same)
        ∙ ground (arith, includes-add_required_units request s findings key))
  ]

  blockers-nil :
      (findings : List Finding) → blockers_of_findings request findings ≡ ok [] → findings ≡ []
  unfolding blockers_of_findings
  blockers-nil [] h = refl
  blockers-nil (finding ∷ findings) h =
      let (b, e, g) = >>=-eq-ok (blocker_of request finding) _ h in
      let (bs, e', g') = >>=-eq-ok (blockers_of_findings request findings) _ g in ground arith

  append-nil : (a b : List PlanBlocker) → a ++ b ≡ [] → b ≡ []
  append-nil [] b h = h
  append-nil (x ∷ a) b h = ground arith

  abbrev Settled : ClosureOutcome E → T → Type 0
  Settled outcome target =
      (target ≡ steps.assemble (choice_of outcome))
      × ((key : String)
          → includes (required_keys (findings_of request steps target (choice_of outcome))) key
            ≡ true
          → (includes outcome.applied key ≡ true) ⊎ (includes request.excluded key ≡ true))
      × (outcome.blockers ≡ [] → findings_of request steps target (choice_of outcome) ≡ [])

  Settled-last :
      (s : SelectionClosure) (e : E) (l : List PlanBlocker)
      → blockers_of_findings request (findings_at s) ≡ ok l
      → add_required_units request s (findings_at s) ≡ s
      → Settled (outcome_with request s e (steps.blockers_of (target_at s) ++ l)) (target_at s)
  unfolding outcome_with applied_units
  Settled-last s e l b same = (
    refl,
    λ key i. kept_key s (findings_at s) key same i,
    λ none_left.
        let all_nil =
          distinct_blockers-nil
            (request.resolved_blockers ++ (steps.blockers_of (target_at s) ++ l)) none_left in
        let l_nil =
          append-nil (steps.blockers_of (target_at s)) l
            (append-nil request.resolved_blockers _ all_nil) in
        blockers-nil (findings_at s) (b ∙ ap ok l_nil),
  )

  pub closed-parts :
      {o o' : ClosureOutcome E} {t t' : T}
      → ◌≡◌ {A = ClosureResult T E} (closed o t) (closed o' t')
      → (o' ≡ o) × (t' ≡ t)
  closed-parts h = (cc, cc)

  close-Settled :
      (n : ℕ) (outcome : ClosureOutcome E) (target : T)
      → close request steps n (start request) ≡ some (ok (closed outcome target))
      → Settled outcome target
  close-Settled n outcome target h =
      let (last, u, ends) =
        close-EndsAt (λ s. Unit) (λ s findings u. u) n (start request) (closed outcome target) tt
          h in
      elim ends [
        | inl (e, l, g) ↦ cc
        | inr (e, l, b, g, same) ↦
            let (o, t) = closed-parts g in
            subst (λ x. Settled x target) o
              (subst
                (λ x.
                  Settled (outcome_with request last e (steps.blockers_of (target_at last) ++ l)) x)
                t (Settled-last last e l b same))
      ]

  -- A closure that closes has, for every unit that a check of its target requires, applied or
  -- excluded the unit.
  pub closed-required :
      (n : ℕ) (outcome : ClosureOutcome E) (target : T) (key : String)
      → close request steps n (start request) ≡ some (ok (closed outcome target))
      → includes (required_keys (findings_of request steps target (choice_of outcome))) key ≡ true
      → (includes outcome.applied key ≡ true) ⊎ (includes request.excluded key ≡ true)
  closed-required n outcome target key h i =
      let (same, settled, clean) = close-Settled n outcome target h in settled key i

  -- A closure that closes without a blocker returns the target assembled from exactly the units that
  -- it applied, and no check finds anything in it.
  pub closed-clean :
      (n : ℕ) (outcome : ClosureOutcome E) (target : T)
      → close request steps n (start request) ≡ some (ok (closed outcome target))
      → outcome.blockers ≡ []
      → (target ≡ steps.assemble (choice_of outcome))
        × (findings_of request steps target (choice_of outcome) ≡ [])
  closed-clean n outcome target h none_left =
      let (same, settled, clean) = close-Settled n outcome target h in (same, clean none_left)
