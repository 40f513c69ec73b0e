-- ===== src/Closure/Reported.antt =====
-- That a closure which closes reports each finding.
use revisium_engine.Base.{
  ℕ, zero, suc, true, some, List, [], ◌∷◌, ◌++◌, ◌≡◌, sym, ◌∙◌, ap, arith, get_elem?, some_inj, inl,
  inr,
}
use revisium_engine.Base.Result.{ok, >>=-eq-ok, ok_inj}
use revisium_engine.Findings.{PlanBlocker, Finding, has_address}
use revisium_engine.Findings.Blockers.{distinct_blockers-addresses, same_address_refl, has-append}
use revisium_engine.Closure.{
  ClosureRequest, ClosureSteps, ClosureOutcome, closed, close, start, findings_of, blocker_of,
  blockers_of_findings, outcome_with, applied_units,
}
use revisium_engine.Closure.Closed.{close-EndsAt, closed-parts, choice_of}

module _ (request : ClosureRequest) where
  -- The blocker of each finding is among those of all.
  blocker_among :
      (findings : List Finding) (l : List PlanBlocker) (i : ℕ) (finding : Finding)
      → blockers_of_findings request findings ≡ ok l
      → get_elem? findings i ≡ some finding
      → (b : PlanBlocker) × (blocker_of request finding ≡ ok b) × (has_address l b ≡ true)
  unfolding blockers_of_findings has_address
  blocker_among [] l i finding h g = cc
  blocker_among (f ∷ fs) l zero finding h g =
      let (b, e, rest) = >>=-eq-ok (blocker_of request f) _ h in
      let (bs, e', done) = >>=-eq-ok (blockers_of_findings request fs) _ rest in
      (
        b,
        ap (blocker_of request) (sym (some_inj {a = f} {b = finding} g)) ∙ e,
        ap (λ x. has_address x b) (sym (ok_inj done)) ∙ ground (arith, same_address_refl b),
      )
  blocker_among (f ∷ fs) l (suc i) finding h g =
      let (b, e, rest) = >>=-eq-ok (blocker_of request f) _ h in
      let (bs, e', done) = >>=-eq-ok (blockers_of_findings request fs) _ rest in
      let (own, made, among) = blocker_among fs bs i finding e' g in
      (own, made, ap (λ x. has_address x own) (sym (ok_inj done)) ∙ ground arith)

  module _ {T E : Type 0} (steps : ClosureSteps T E) where
    -- A closure that closes reports each finding of its target: the finding has a blocker, and the
    -- outcome has a blocker of the same address.
    pub closed-reported :
        (n : ℕ) (outcome : ClosureOutcome E) (target : T) (i : ℕ) (finding : Finding)
        → close request steps n (start request) ≡ some (ok (closed outcome target))
        → get_elem? (findings_of request steps target (choice_of request steps outcome)) i
          ≡ some finding
        → (b : PlanBlocker) × (blocker_of request finding ≡ ok b)
          × (has_address outcome.blockers b ≡ true)
    unfolding outcome_with applied_units
    closed-reported n outcome target i finding h g =
        let (last, u, ends) =
          close-EndsAt request steps (λ s. Unit) (λ s findings u. u) n (start request)
            (closed outcome target) tt h in
        elim ends [
          | inl (e, l, same) ↦ cc
          | inr (e, l, made, same, kept) ↦
              let (o, t) = closed-parts request steps same in
              let choice = applied_units request last in
              let findings =
                ap (λ x. findings_of request steps x choice) t
                ∙ ap (λ x. findings_of request steps target (choice_of request steps x)) o in
              let (b, own, among) =
                blocker_among (findings_of request steps (steps.assemble choice) choice) l i finding
                  made (ap (λ x. get_elem? x i) findings ∙ g) in
              let others = steps.blockers_of (steps.assemble choice) in
              let addresses =
                (distinct_blockers-addresses (request.resolved_blockers ++ (others ++ l))).1 b in
              (
                b,
                own,
                ap (λ x. has_address x.blockers b) (sym o)
                    ∙ addresses
                    ∙ ground (
                      arith,
                      has-append request.resolved_blockers (others ++ l) b,
                      has-append others l b,
                      among,
                    ),
              )
        ]
