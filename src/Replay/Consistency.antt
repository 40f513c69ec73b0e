-- ===== src/Replay/Consistency.antt =====
-- A replay without a failure ends with foreign keys that all name current tables.
use revisium_engine.Base.{
  ℕ, String, none, some, List, [], ◌∷◌, Eq-String, Eq-ℕ, ◌≡◌, arith, Option-cases, inl, inr,
}
use revisium_engine.Base.Result.{ok, throw, Result-cases}
use revisium_engine.Ledger.{Migration, init, update, rename, remove}
use revisium_engine.Rules.{Toolkit}
use revisium_engine.Rules.Renaming.{RenamesForeignKeys}
use revisium_engine.Replay.State.{LedgerReplay, ReplayFailure, failure_at, failure_of}
use revisium_engine.Replay.Steps.{apply_step}
use revisium_engine.Replay.Run.{apply, apply_all}
use revisium_engine.Replay.Failures.{step_of, started, outcome_of, apply_failed, apply_returned}
use revisium_engine.Replay.Sticky.{apply_all_keeps}
use revisium_engine.Replay.Success.{create-Wrote, update-Wrote}
use revisium_engine.Replay.Renames.{rename-Renamed}
use revisium_engine.Replay.Removals.{remove-Removed}
use revisium_engine.Replay.Integrity.{
  Integrity, written_keeps, Renamed-keeps, Removed-keeps, moved, slot_is,
}

-- A replay in which no slot has a failure.
abbrev pub IsClean : {S : Type 0} → LedgerReplay S → Type 0
IsClean r = (k : ℕ) → failure_at k r ≡ none

module _ {S : Type 0} (toolkit : Toolkit S) (laws : RenamesForeignKeys toolkit) where
  step_keeps :
      (m : Migration S) (r : LedgerReplay S)
      → Integrity toolkit r
      → outcome_of toolkit m r ≡ ok tt
      → Integrity toolkit (apply_step toolkit m (step_of toolkit m r) (started toolkit m r)).1
  unfolding apply_step outcome_of
  step_keeps (init i id schema) r h e =
      let m : Migration S = init i id schema in
      let step = step_of toolkit m r in
      written_keeps toolkit m r h id _ (λ j. rw (slot_is toolkit m r h) (moved toolkit m r h j))
        ((create-Wrote toolkit i id schema step).at (started toolkit m r) tt e)
  step_keeps (update i id patches) r h e =
      let m : Migration S = update i id patches in
      let step = step_of toolkit m r in
      written_keeps toolkit m r h id _ (λ j. rw (slot_is toolkit m r h) (moved toolkit m r h j))
        ((update-Wrote toolkit i id patches step.slot).at (started toolkit m r) tt e)
  step_keeps (rename i id next) r h e =
      let m : Migration S = rename i id next in
      let step = step_of toolkit m r in
      Renamed-keeps toolkit m r h id next _ laws
        (λ j. rw (slot_is toolkit m r h) (moved toolkit m r h j)) (slot_is toolkit m r h)
        ((rename-Renamed toolkit id next i step).at (started toolkit m r) tt e)
  step_keeps (remove i id) r h e =
      let m : Migration S = remove i id in
      let step = step_of toolkit m r in
      Removed-keeps toolkit m r h id _ (moved toolkit m r h)
        ((remove-Removed toolkit id i step.slot).at (started toolkit m r) tt e)

  -- A step that threw leaves a failure.
  failure_left :
      (m : Migration S) (r : LedgerReplay S) (e : String)
      → outcome_of toolkit m r ≡ throw e
      → (f : ReplayFailure) × (failure_at (step_of toolkit m r).slot (apply toolkit m r) ≡ some f)
  failure_left m r e h =
      let slot = (step_of toolkit m r).slot in
      let c = apply_failed toolkit m r e h in
      let f = c.failures slot in
      elim (Option-cases (failure_at slot r)) [
        | inl clean ↦ (failure_of m e, ground arith)
        | inr (g, old) ↦ (g, ground arith)
      ]

  -- If no slot has a failure at the end, the first step returned.
  clean_step :
      (m : Migration S) (ms : List (Migration S)) (r : LedgerReplay S)
      → IsClean (apply_all toolkit ms (apply toolkit m r))
      → outcome_of toolkit m r ≡ ok tt
  clean_step m ms r c = elim (Result-cases (outcome_of toolkit m r)) [
    | inl (u, e) ↦ e
    | inr (message, e) ↦
        let (f, left) = failure_left m r message e in
        let slot = (step_of toolkit m r).slot in
        let kept = apply_all_keeps toolkit ms (apply toolkit m r) slot f left in
        absurd (ground (arith, c slot))
  ]

  pub apply_all-Integrity :
      (ms : List (Migration S)) (r : LedgerReplay S)
      → Integrity toolkit r
      → IsClean (apply_all toolkit ms r)
      → Integrity toolkit (apply_all toolkit ms r)
  unfolding apply_all
  apply_all-Integrity [] r h c = h
  apply_all-Integrity (m ∷ ms) r h c =
      let e = clean_step m ms r c in
      apply_all-Integrity ms (apply toolkit m r)
        (rw (apply_returned toolkit m r e) (step_keeps m r h e)) c
