-- ===== src/Replay/Sticky.antt =====
-- The first failure of a slot stays its failure, whatever the later steps do.
use revisium_engine.Base.{
  ℕ, String, Option, none, some, List, [], ◌∷◌, ◌≡◌, refl, ◌∙◌, arith, Bool-cases, inl, inr,
}
use revisium_engine.Base.Result.{Result, ok, throw}
use revisium_engine.Base.Exec.{update, continue, ◌>>=◌}
use revisium_engine.Ledger.{Migration}
use revisium_engine.Slots.{SlotStep}
use revisium_engine.Rules.{Toolkit}
use revisium_engine.Rules.Messages.{depends_on_unreplayable}
use revisium_engine.Replay.State.{
  LedgerReplay, CurrentTable, Replaying, ReplayFailure, Cause, referrer_rewrite, failure_at,
  set_schema, taint, record_reads, failure_of, is_tainted,
}
use revisium_engine.Replay.Checks.{foreign_key_targets_of}
use revisium_engine.Replay.Steps.{
  apply_step, taint_tables, taint_dependent, taint_across_rename, taint_if_dependent, set_schemas,
  other_referrers,
}
use revisium_engine.Replay.Run.{apply, apply_all}
use revisium_engine.Replay.Atomic.{
  OnlyReads, reading_rules, OnlyReads-validate_schema, OnlyReads-validate_patches,
  OnlyReads-ensure_not_referenced,
}
use revisium_engine.Replay.Fields.{failure_at-taint, failure_at-set_schema}
use revisium_engine.Replay.Failures.{
  Unchanged-failure_at, step_of, started, outcome_of, apply_failed, apply_returned,
  failure_at-started,
}

module _ {S : Type 0} where
  abbrev KeepsFailures : LedgerReplay S → LedgerReplay S → Type 0
  KeepsFailures r r' =
      (i : ℕ) (f : ReplayFailure) → failure_at i r ≡ some f → failure_at i r' ≡ some f

  -- A write that keeps every failure.
  record Careful (g : LedgerReplay S → LedgerReplay S) : Type 0 where
    at : (r : LedgerReplay S) → KeepsFailures r (g r)

  record Sticky {A : Type 0} (m : Replaying S A) : Type 0 where
    at : (r : LedgerReplay S) → KeepsFailures r (m r).1

  Careful-taint : (k : ℕ) (f : ReplayFailure) → Careful (taint k f)
  Careful-taint k f = record { at = λ r i g h. ground (arith, failure_at-taint k f r i) }

  Careful-set_schema : (k : ℕ) (m : Migration S) (c : Cause) (s : S) → Careful (set_schema k m c s)
  Careful-set_schema k m c s = record { at = λ r i g h. failure_at-set_schema k m c s r i ∙ h }

  Careful-taint_dependent :
      (k : ℕ) (m : Migration S) (o : Option String) → Careful (taint_dependent k m o)
  unfolding taint_dependent
  Careful-taint_dependent k m none = record { at = λ r i f h. h }
  Careful-taint_dependent k m (some id) = Careful-taint k _

  taint_tables-keeps :
      (m : Migration S) (id : String) (ts : List (CurrentTable S)) (r : LedgerReplay S)
      → KeepsFailures r (taint_tables m id ts r)
  unfolding taint_tables
  taint_tables-keeps m id [] r i f h = h
  taint_tables-keeps m id (t ∷ ts) r i f h =
      taint_tables-keeps m id ts (taint t.slot (failure_of m (depends_on_unreplayable id)) r) i f
        ((Careful-taint t.slot (failure_of m (depends_on_unreplayable id))).at r i f h)

  set_schemas-keeps :
      (m : Migration S) (ts : List (CurrentTable S)) (r : LedgerReplay S)
      → KeepsFailures r (set_schemas m ts r)
  unfolding set_schemas
  set_schemas-keeps m [] r i f h = h
  set_schemas-keeps m (t ∷ ts) r i f h =
      set_schemas-keeps m ts (set_schema t.slot m referrer_rewrite t.schema r) i f
        ((Careful-set_schema t.slot m referrer_rewrite t.schema).at r i f h)

  Careful-set_schemas : (m : Migration S) (ts : List (CurrentTable S)) → Careful (set_schemas m ts)
  Careful-set_schemas m ts = record { at = set_schemas-keeps m ts }

  Careful-taint_across_rename :
      (m : Migration S) (next : String) (k : ℕ) (ts : List (CurrentTable S))
      → Careful (taint_across_rename m next k ts)
  unfolding taint_across_rename
  Careful-taint_across_rename m next k ts = record {
    at = λ r i f h. elim (Bool-cases (is_tainted k r)) [
      | inl t ↦ rw t (
          (Careful-taint_dependent k m _).at _ i f
            (taint_tables-keeps m next (other_referrers k ts) r i f h))
      | inr t ↦ rw t ((Careful-taint_dependent k m _).at r i f h)
    ];
  }

  Careful-taint_if_dependent :
      (toolkit : Toolkit S) (id : String) (k : ℕ) (m : Migration S) (schemas : List S)
      → Careful (taint_if_dependent toolkit id k m schemas)
  unfolding taint_if_dependent
  Careful-taint_if_dependent toolkit id k m schemas = record {
    at = λ r i f h.
        let r' = record_reads m (foreign_key_targets_of toolkit id schemas) r in
        (Careful-taint_dependent k m _).at r' i f (unfold record_reads failure_at in h);
  }

  Sticky-OnlyReads : {A : Type 0} (m : Replaying S A) → OnlyReads m → Sticky m
  Sticky-OnlyReads m h = record { at = λ r i f e. Unchanged-failure_at i (h.at r) ∙ e }

  Sticky-update : (g : LedgerReplay S → LedgerReplay S) → Careful g → Sticky {A = Unit} (update g)
  unfolding update
  Sticky-update g h = record { at = h.at }

  module _ {A B : Type 0} where
    Sticky-continue :
        (x : Result A) (f : A → Replaying S B) (r : LedgerReplay S)
        → ((a : A) → Sticky (f a))
        → KeepsFailures r (continue x f r).1
    Sticky-continue (ok a) f r h = (h a).at r
    Sticky-continue (throw e) f r h = λ i g t. t

    Sticky-bind :
        (m : Replaying S A) (f : A → Replaying S B)
        → Sticky m
        → ((a : A) → Sticky (f a))
        → Sticky (m >>= f)
    unfolding ◌>>=◌
    Sticky-bind m f hm hf = record {
      at = λ r i g h. Sticky-continue (m r).0 f (m r).1 hf i g (hm.at r i g h);
    }

ruleset sticky_rules = (
  Sticky-bind, Sticky-OnlyReads, Sticky-update, Careful-set_schema, Careful-set_schemas,
  Careful-taint_across_rename, Careful-taint_if_dependent, reading_rules, OnlyReads-validate_schema,
  OnlyReads-validate_patches, OnlyReads-ensure_not_referenced,
)

module _ {S : Type 0} (toolkit : Toolkit S) where
  apply_step-Sticky : (m : Migration S) (step : SlotStep) → Sticky (apply_step toolkit m step)
  unfolding apply_step
  apply_step-Sticky (Migration.init i id schema) step = search sticky_rules depth 9
  apply_step-Sticky (Migration.update i id patches) step = search sticky_rules depth 10
  apply_step-Sticky (Migration.rename i id next) step = search sticky_rules depth 12
  apply_step-Sticky (Migration.remove i id) step = search sticky_rules depth 9

  apply_keeps : (m : Migration S) (r : LedgerReplay S) → KeepsFailures r (apply toolkit m r)
  apply_keeps m r i f h = go (outcome_of toolkit m r) refl
    where
      go :
          (o : Result (Unit {0}))
          → outcome_of toolkit m r ≡ o
          → failure_at i (apply toolkit m r) ≡ some f
      go (ok u) e = rw (apply_returned toolkit m r e) (
          (apply_step-Sticky m (step_of toolkit m r)).at (started toolkit m r) i f
            (failure_at-started toolkit m r i ∙ h))
      go (throw e') e = ground (arith, (apply_failed toolkit m r e' e).failures i)

  pub apply_all_keeps :
      (ms : List (Migration S)) (r : LedgerReplay S) → KeepsFailures r (apply_all toolkit ms r)
  unfolding apply_all
  apply_all_keeps [] r i f h = h
  apply_all_keeps (m ∷ ms) r i f h =
      apply_all_keeps ms (apply toolkit m r) i f (apply_keeps m r i f h)

  -- The failure of a slot stays the one that it has, whatever is replayed after it.
  pub first_failure_stays :
      (ms : List (Migration S)) (r : LedgerReplay S) (i : ℕ) (f : ReplayFailure)
      → failure_at i r ≡ some f
      → failure_at i (apply_all toolkit ms r) ≡ some f
  first_failure_stays ms r i f h = apply_all_keeps ms r i f h
