-- ===== src/SlotCheck/Replayed.antt =====
-- The verdicts of slot-check.ts on the tables of a ledger that ledger-replay.ts has replayed.
use revisium_engine.Base.{
  String, Bool, true, Option, none, some, Eq-String, ◌≡◌, ◌↔◌, sym, Option-cases, inl, inr,
}
use mathlib.Core.Path.{subst}
use revisium_engine.Base.Map
use revisium_engine.Slots.Held.{Coherent}
use revisium_engine.Replay.State.{ReplayFailure, LedgerReplay}
use revisium_engine.Replay.Run.{ReplayedSlot, result}
use revisium_engine.Replay.Results.{result-current_slots, result-schemas, result-unreplayable}
use revisium_engine.SlotCheck.{check_slot, check_table_slot}
use revisium_engine.SlotCheck.Verdicts.{
  is_reproduced, failure_in, check-is_reproduced, check-failure_in,
}

module _ {S : Type 0} (deep_equal : S → S → Bool) where
  never : (expected : S) → is_reproduced (check_slot deep_equal none (some expected)) ≡ true → ⊥
  unfolding check_slot
  never expected h = cc

  never_fails :
      (expected : S) (failure : ReplayFailure)
      → failure_in (check_slot deep_equal none (some expected)) ≡ some failure
      → ⊥
  unfolding check_slot
  never_fails expected failure h = cc

  -- After a replay whose slots and map of current ids agree, the check of a table against a schema
  -- says that its slot reproduces the schema exactly when the replay has a schema for the table and
  -- the deep equality takes the two as equal; and it reports a failure exactly when that failure is
  -- the one for which the replay has the table as unreplayable.
  pub check_table_slot-result :
      (r : LedgerReplay S) (id : String) (expected : S) (failure : ReplayFailure)
      → Coherent r.table_slots
      → ((is_reproduced (check_table_slot deep_equal (result r) id (some expected)) ≡ true)
          ↔ ((a : S) × (Map.get (result r).schemas id ≡ some a) × (deep_equal a expected ≡ true)))
        × ((failure_in (check_table_slot deep_equal (result r) id (some expected)) ≡ some failure)
            ↔ (Map.get (result r).unreplayable id ≡ some failure))
  unfolding check_table_slot
  check_table_slot-result r id expected failure c =
      let Check : Option (ReplayedSlot S) → Type 0 =
        λ o. is_reproduced (check_slot deep_equal o (some expected)) ≡ true in
      let Fails : Option (ReplayedSlot S) → Type 0 =
        λ o. failure_in (check_slot deep_equal o (some expected)) ≡ some failure in
      (
        (
          λ h. elim (Option-cases (Map.get (result r).current_slots id)) [
            | inl missing ↦ absurd (never expected (subst Check missing h))
            | inr (slot, found) ↦
                let (k, at_k, here) = (result-current_slots r id slot c).0 found in
                let (whole, clean, a, schema, same) =
                  (check-is_reproduced deep_equal slot expected).0 (subst Check found h) in
                (a, (result-schemas r id a c).1 (k, slot, at_k, here, whole, clean, schema), same)
          ],
          λ (a, has, same).
              let (k, slot, at_k, here, whole, clean, schema) = (result-schemas r id a c).0 has in
              subst Check (sym ((result-current_slots r id slot c).1 (k, at_k, here)))
                ((check-is_reproduced deep_equal slot expected).1 (whole, clean, a, schema, same)),
        ),
        (
          λ h. elim (Option-cases (Map.get (result r).current_slots id)) [
            | inl missing ↦ absurd (never_fails expected failure (subst Fails missing h))
            | inr (slot, found) ↦
                let (k, at_k, here) = (result-current_slots r id slot c).0 found in
                let (whole, failed) =
                  (check-failure_in deep_equal slot (some expected) failure).0
                    (subst Fails found h) in
                (result-unreplayable r id failure c).1 (k, slot, at_k, here, whole, failed)
          ],
          λ has.
              let (k, slot, at_k, here, whole, failed) =
                (result-unreplayable r id failure c).0 has in
              subst Fails (sym ((result-current_slots r id slot c).1 (k, at_k, here)))
                ((check-failure_in deep_equal slot (some expected) failure).1 (whole, failed)),
        ),
      )
