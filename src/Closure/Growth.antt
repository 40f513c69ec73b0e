-- ===== src/Closure/Growth.antt =====
-- How the units that findings require are added, and that the closure ends.
use revisium_engine.Base.{
  ℕ, zero, suc, ◌≤◌, ◌<◌, String, Bool, true, false, some, List, [], ◌∷◌, Eq-String, Eq-ℕ, ◌==◌,
  ◌&&◌, ◌||◌, not, ◌≡◌, refl, ◌∙◌, sym, ap, arith, Bool-cases, inl, inr, ◌⊎◌, includes, add, filter,
  length, ltb, includes-add, length-append,
}
use text.Mathlib.TextEquality.{eq_iff}
use revisium_engine.Base.Result.{Result, ok}
use revisium_engine.Closure.{
  ClosureRequest, SelectionClosure, ClosureSteps, ClosureResult, Guarded, within, too_large,
  can_add, add_required, add_required_units, applied_units, findings_of, close, closed_outcome,
  refused, outcome_with,
}
use revisium_engine.Findings.{Finding, requires, blocks, CatalogueUnit, PlanBlocker}
use revisium_engine.Choice.{AppliedUnits}

-- The keys of the units that findings require.
abbrev pub required_keys : List Finding → List String
required_keys [] = []
required_keys (requires key reason ∷ findings) = key ∷ required_keys findings
required_keys (blocks blocker ∷ findings) = required_keys findings

abbrev catalogue_keys : List CatalogueUnit → List String
catalogue_keys [] = []
catalogue_keys (unit ∷ units) = unit.key ∷ catalogue_keys units

length-add-new :
    (l : List String) (a : String) → includes l a ≡ false → length (add l a) ≡ suc (length l)
length-add-new l a h = ground (arith, length-append l (a ∷ []))

module _ (request : ClosureRequest) where
  includes-add_required :
      (s : SelectionClosure) (finding : Finding) (key : String)
      → includes (add_required request s finding).applied key ≡ (
          includes s.applied key
          || (includes (required_keys (finding ∷ [])) key && not (includes request.excluded key)))
  unfolding add_required can_add
  includes-add_required s (blocks blocker) key = ground arith
  includes-add_required s (requires k reason) key = elim (Bool-cases (k == key)) [
    | inl same ↦ ground (
      arith,
      includes-add s.applied k key,
      ap (λ x. includes s.applied x) ((eq_iff k key).0 same),
      ap (λ x. includes request.excluded x) ((eq_iff k key).0 same),
      Bool-cases (includes s.applied k),
      Bool-cases (includes request.excluded k),
    )
    | inr other ↦ ground (
      arith,
      includes-add s.applied k key,
      Bool-cases (includes s.applied k),
      Bool-cases (includes request.excluded k),
    )
  ]

  -- The units applied after a pass over findings: those before, and the required ones that are not
  -- excluded.
  pub includes-add_required_units :
      (s : SelectionClosure) (findings : List Finding) (key : String)
      → includes (add_required_units request s findings).applied key ≡ (
          includes s.applied key
          || (includes (required_keys findings) key && not (includes request.excluded key)))
  unfolding add_required_units
  includes-add_required_units s [] key = ground arith
  includes-add_required_units s (blocks blocker ∷ findings) key = ground (
    arith,
    includes-add_required s (blocks blocker) key,
    includes-add_required_units (add_required request s (blocks blocker)) findings key,
  )
  includes-add_required_units s (requires k reason ∷ findings) key = ground (
    arith,
    includes-add_required s (requires k reason) key,
    includes-add_required_units (add_required request s (requires k reason)) findings key,
  )

  -- A finding adds one unit, or changes nothing.
  add_required-cases :
      (s : SelectionClosure) (finding : Finding)
      → (add_required request s finding ≡ s)
        ⊎ (length (add_required request s finding).applied ≡ suc (length s.applied))
  unfolding add_required can_add
  add_required-cases s (blocks blocker) = inl refl
  add_required-cases s (requires key reason) = elim (Bool-cases (can_add request s key)) [
    | inl new ↦ inr (ground (arith, length-add-new s.applied key))
    | inr old ↦ inl (ground arith)
  ]

  length-grows :
      (s : SelectionClosure) (findings : List Finding)
      → length s.applied ≤ length (add_required_units request s findings).applied
  unfolding add_required_units
  length-grows s [] = omega arith
  length-grows s (finding ∷ findings) =
      ground (
        arith,
        length-grows (add_required request s finding) findings,
        add_required-cases s finding,
      )

  -- A pass that leaves the number of applied units leaves the closure as it is.
  pub unchanged_of_length :
      (s : SelectionClosure) (findings : List Finding)
      → ltb (length s.applied) (length (add_required_units request s findings).applied) ≡ false
      → add_required_units request s findings ≡ s
  unfolding add_required_units
  unchanged_of_length s [] h = refl
  unchanged_of_length s (finding ∷ findings) h = elim (add_required-cases s finding) [
    | inl same ↦
        ap (λ t. add_required_units request t findings) same
        ∙ unchanged_of_length s findings (
            sym (
              ap
                (λ t.
                  ltb (length s.applied) (length (add_required_units request t findings).applied))
                same)
            ∙ h)
    | inr more ↦ ground (arith, length-grows (add_required request s finding) findings)
  ]

  -- A pass that applies more units applies one that a finding requires and was not applied.
  new_key :
      (s : SelectionClosure) (findings : List Finding)
      → ltb (length s.applied) (length (add_required_units request s findings).applied) ≡ true
      → (key : String) × (includes (required_keys findings) key ≡ true)
        × (includes s.applied key ≡ false)
        × (includes request.excluded key ≡ false)
  unfolding add_required_units add_required can_add
  new_key s [] h = absurd (ground arith)
  new_key s (blocks blocker ∷ findings) h = new_key s findings h
  new_key s (requires key reason ∷ findings) h = elim (Bool-cases (can_add request s key)) [
    | inl new ↦ (key, ground (arith, eq_iff key key), ground arith, ground arith)
    | inr old ↦
        let same : add_required request s (requires key reason) ≡ s = ground arith in
        let (later, i, a, x) = new_key s findings (
          sym (
            ap
              (λ t. ltb (length s.applied) (length (add_required_units request t findings).applied))
              same)
          ∙ h) in
        (later, ground arith, a, x)
  ]

pub Guarded-cases :
    {E : Type 0} (g : Guarded E)
    → ((e : E) × (g ≡ within e)) ⊎ ((e : E) × (l : List PlanBlocker) × (g ≡ too_large e l))
Guarded-cases (within e) = inl (e, refl)
Guarded-cases (too_large e l) = inr (e, l, refl)

-- A filter that drops an element more keeps fewer.
filter-le :
    (p q : String → Bool) (l : List String)
    → ((x : String) → q x ≡ true → p x ≡ true)
    → length (filter q l) ≤ length (filter p l)
filter-le p q [] imp = omega arith
filter-le p q (x ∷ l) imp = ground (arith, imp x, filter-le p q l imp)

filter-lt :
    (p q : String → Bool) (l : List String) (a : String)
    → ((x : String) → q x ≡ true → p x ≡ true)
    → includes l a ≡ true
    → p a ≡ true
    → q a ≡ false
    → length (filter q l) < length (filter p l)
filter-lt p q [] a imp i h h' = absurd (ground arith)
filter-lt p q (x ∷ l) a imp i h h' = elim (Bool-cases (x == a)) [
  | inl same ↦
      ground (arith, filter-le p q l imp, ap p ((eq_iff x a).0 same), ap q ((eq_iff x a).0 same))
  | inr other ↦ ground (arith, imp x, filter-lt p q l a imp (ground arith) h h')
]

module _ {T E : Type 0} (request : ClosureRequest) (steps : ClosureSteps T E) where
  -- How many units of the catalogue are not applied.
  abbrev pub missing : SelectionClosure → ℕ
  missing s = length (filter (λ key. not (includes s.applied key)) (catalogue_keys request.units))

  -- Findings require units of the catalogue alone.
  abbrev pub RequiresKnown : Type 0
  RequiresKnown =
      (target : T) (choice : AppliedUnits) (key : String)
      → includes (required_keys (findings_of request steps target choice)) key ≡ true
      → includes (catalogue_keys request.units) key ≡ true

  missing-lt :
      (s : SelectionClosure) (target : T) (choice : AppliedUnits)
      → RequiresKnown
      → ltb
          (length s.applied)
          (length (add_required_units request s (findings_of request steps target choice)).applied)
        ≡ true
      → missing (add_required_units request s (findings_of request steps target choice)) < missing s
  missing-lt s target choice known h =
      let findings = findings_of request steps target choice in
      let (key, i, a, x) = new_key request s findings h in
      filter-lt (λ k. not (includes s.applied k))
        (λ k. not (includes (add_required_units request s findings).applied k))
        (catalogue_keys request.units) key
        (λ k g. ground (arith, includes-add_required_units request s findings k))
        (known target choice key i) (ground arith)
        (ground (arith, includes-add_required_units request s findings key))

  -- The closure ends: one pass for each unit of the catalogue that is not applied, and one more, are
  -- enough, when the findings require units of the catalogue alone.
  pub close-ends :
      (n : ℕ) (s : SelectionClosure)
      → RequiresKnown
      → missing s < n
      → (r : Result (ClosureResult T E)) × (close request steps n s ≡ some r)
  unfolding close
  close-ends zero s known h = absurd (omega arith)
  close-ends (suc n) s known h =
      let choice = applied_units request s in
      let target = steps.assemble choice in
      let grown = add_required_units request s (findings_of request steps target choice) in
      elim (Guarded-cases (steps.estimate_and_guard choice)) [
        | inr (e, l, g) ↦ (ok (refused (outcome_with request s e l)), ground arith)
        | inl (e, g) ↦ elim (Bool-cases (ltb (length s.applied) (length grown.applied))) [
          | inl more ↦
              let (r, ends) =
                close-ends n grown known
                  (omega (arith, missing-lt s target choice known more, h)) in
              (r, ground arith)
          | inr done ↦ (
            closed_outcome request steps grown e target (findings_of request steps target choice),
            ground arith,
          )
        ]
      ]
