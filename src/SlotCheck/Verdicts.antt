-- ===== src/SlotCheck/Verdicts.antt =====
-- What the verdict of slot-check.ts on one slot says of the slot.
use revisium_engine.Base.{
  Bool, true, false, Option, none, some, ◌≡◌, ◌↔◌, refl, arith, Option-cases, Bool-cases, inl, inr,
}
use revisium_engine.Replay.State.{ReplayFailure}
use revisium_engine.Replay.Run.{ReplayedSlot}
use revisium_engine.SlotCheck.{
  SlotCheck, unreplayable, reproduces, check_slot, replays_to, schemas_equal, judge,
}

abbrev pub is_reproduced : {S : Type 0} → SlotCheck S → Bool
is_reproduced (reproduces slot) = true
is_reproduced _ = false

abbrev pub failure_in : {S : Type 0} → SlotCheck S → Option ReplayFailure
failure_in (unreplayable slot failure) = some failure
failure_in _ = none

module _ {S : Type 0} (deep_equal : S → S → Bool) where
  judge-is_reproduced :
      (slot : ReplayedSlot S) (expected : S) (schema : Option S) (failure : Option ReplayFailure)
      → slot.schema ≡ schema
      → (is_reproduced (judge deep_equal slot (some expected) failure) ≡ true)
        ↔ ((failure ≡ none) × (a : S) × (schema ≡ some a) × (deep_equal a expected ≡ true))
  unfolding judge replays_to schemas_equal
  judge-is_reproduced slot expected schema (some f) e = (λ h. cc, λ (clean, a, found, same). cc)
  judge-is_reproduced slot expected none none e = (λ h. ground arith, λ (clean, a, found, same). cc)
  judge-is_reproduced slot expected (some a) none e =
      (λ h. (refl, a, refl, ground arith), λ (clean, b, found, same). ground arith)

  pub check-is_reproduced :
      (slot : ReplayedSlot S) (expected : S)
      → (is_reproduced (check_slot deep_equal (some slot) (some expected)) ≡ true) ↔ (
          (slot.broken_by ≡ none)
          × (slot.failure ≡ none)
          × (a : S) × (slot.schema ≡ some a)
          × (deep_equal a expected ≡ true))
  unfolding check_slot
  check-is_reproduced slot expected = elim (Option-cases slot.broken_by) [
    | inr (m, b) ↦ (λ h. ground arith, λ (whole, clean, a, found, same). ground arith)
    | inl whole ↦ (
      λ h.
          let (clean, a, found, same) =
            (judge-is_reproduced slot expected slot.schema slot.failure refl).0 (ground arith) in
          (whole, clean, a, found, same),
      λ (b, clean, a, found, same). ground (
        arith,
        (judge-is_reproduced slot expected slot.schema slot.failure refl).1 (clean, a, found, same),
      ),
    )
  ]

  pub check-failure_in :
      (slot : ReplayedSlot S) (schema : Option S) (failure : ReplayFailure)
      → (failure_in (check_slot deep_equal (some slot) schema) ≡ some failure)
        ↔ ((slot.broken_by ≡ none) × (slot.failure ≡ some failure))
  unfolding check_slot judge
  check-failure_in slot schema failure = elim (Option-cases slot.broken_by) [
    | inr (m, b) ↦ (λ h. ground arith, λ (whole, failed). ground arith)
    | inl whole ↦ elim (Option-cases slot.failure) [
      | inl clean ↦ (
        λ h. ground (arith, Bool-cases (replays_to deep_equal slot.schema schema)),
        λ (b, failed). ground arith,
      )
      | inr (f, e) ↦ (λ h. (whole, ground arith), λ (b, failed). ground arith)
    ]
  ]
