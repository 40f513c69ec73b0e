-- ===== src/Replay/Failures.antt =====
-- What a replay does about a step that throws, and that the first failure of a slot stays.
use revisium_engine.Base.{
  ℕ, String, true, false, List, [], ◌∷◌, ◌++◌, Eq-String, Eq-ℕ, ◌≡◌, refl, arith, nat_eq,
  if◌then◌else◌,
}
use revisium_engine.Base.Result.{Result, ok, throw}
use revisium_engine.Ledger.{Migration, table_id}
use revisium_engine.Slots.{SlotStep, follow}
use revisium_engine.Rules.{Toolkit}
use revisium_engine.Replay.State.{
  LedgerReplay, ReplayFailure, UnattributedFailure, schema_of, failure_at, taint, first_failure,
  failure_of,
}
use revisium_engine.Replay.Steps.{apply_step}
use revisium_engine.Replay.Run.{apply, settle, record_failure}
use revisium_engine.Replay.Atomic.{Unchanged, apply_step-Atomic}
use revisium_engine.Replay.Fields.{schema_of-taint, failure_at-taint}

module _ {S : Type 0} where
  pub Unchanged-schema_of :
      {r r' : LedgerReplay S} (i : ℕ) → Unchanged r r' → schema_of i r' ≡ schema_of i r
  unfolding schema_of
  Unchanged-schema_of i h = cc h.schemas

  pub Unchanged-failure_at :
      {r r' : LedgerReplay S} (i : ℕ) → Unchanged r r' → failure_at i r' ≡ failure_at i r
  unfolding failure_at
  Unchanged-failure_at i h = cc h.schemas

  settle-throw :
      (m : Migration S) (step : SlotStep) (p : Result (Unit {0}) × LedgerReplay S) {e : String}
      → p.0 ≡ throw e
      → settle m step p ≡ record_failure m step (failure_of m e) p.1
  unfolding settle
  settle-throw m step (ok u, r) h = cc
  settle-throw m step (throw e', r) h = cc

  settle-ok :
      (m : Migration S) (step : SlotStep) (p : Result (Unit {0}) × LedgerReplay S)
      → p.0 ≡ ok tt
      → settle m step p ≡ p.1
  unfolding settle
  settle-ok m step (ok u, r) h = refl
  settle-ok m step (throw e', r) h = cc

module _ {S : Type 0} (toolkit : Toolkit S) (m : Migration S) (r : LedgerReplay S) where
  -- The step of a migration, the replay in which it starts, and how it ends.
  unfoldable pub step_of : SlotStep
  step_of = (follow m r.table_slots).0

  unfoldable pub started : LedgerReplay S
  started = record r { table_slots = (follow m r.table_slots).1 }

  unfoldable pub outcome_of : Result (Unit {0})
  outcome_of = (apply_step toolkit m step_of started).0

  pub failure_at-started : (i : ℕ) → failure_at i started ≡ failure_at i r
  unfolding failure_at started
  failure_at-started i = refl

  pub schema_of-started : (i : ℕ) → schema_of i started ≡ schema_of i r
  unfolding schema_of started
  schema_of-started i = refl

  pub step_of-follow : step_of ≡ (follow m r.table_slots).0
  unfolding step_of
  step_of-follow = refl

  pub slots-started : started.table_slots ≡ (follow m r.table_slots).1
  unfolding started
  slots-started = refl

  abbrev unattributed_after :
      SlotStep → ReplayFailure → List UnattributedFailure → List UnattributedFailure
  unattributed_after step f us = elim step.attributable [
    | true ↦ us
    | false ↦ us ++ record { table = table_id m; failure = f } ∷ []
  ]

  -- What a failed step leaves behind.
  pub record Contained (e : String) (r' : LedgerReplay S) : Type 0 where
    pub slots : r'.table_slots ≡ (follow m r.table_slots).1
    pub schemas : (i : ℕ) → schema_of i r' ≡ schema_of i r
    pub trails : r'.trails ≡ r.trails
    pub failures :
        (i : ℕ)
        → failure_at i r' ≡ (
            if nat_eq step_of.slot i
            then first_failure (failure_at i r) (failure_of m e)
            else failure_at i r)
    pub unattributed : r'.unattributed ≡ unattributed_after step_of (failure_of m e) r.unattributed

  settled_failure :
      (e : String) (r' : LedgerReplay S)
      → Unchanged started r'
      → Contained e (record_failure m step_of (failure_of m e) r')
  unfolding record_failure started taint schema_of failure_at
  settled_failure e r' h = record {
    slots = ground (arith, h.slots);
    schemas = λ i. ground (arith, h.schemas, schema_of-taint step_of.slot (failure_of m e) r' i);
    trails = ground (arith, h.trails);
    failures = λ i. ground (arith, h.schemas, failure_at-taint step_of.slot (failure_of m e) r' i);
    unattributed = ground (arith, h.unattributed);
  }

  -- A migration whose step throws leaves the slots as following it leaves them, every schema and every
  -- trail as it was, one new failure: at the slot of the step, unless it had one, and one unattributed
  -- failure more when the step is not attributable.
  pub apply_failed : (e : String) → outcome_of ≡ throw e → Contained e (apply toolkit m r)
  unfolding outcome_of apply step_of started
  apply_failed e h = rw (settle-throw m step_of (apply_step toolkit m step_of started) h) (
      settled_failure e (apply_step toolkit m step_of started).1
        ((apply_step-Atomic toolkit m step_of).at started e h))

  pub apply_returned :
      outcome_of ≡ ok tt → apply toolkit m r ≡ (apply_step toolkit m step_of started).1
  unfolding outcome_of apply step_of started
  apply_returned h = settle-ok m step_of (apply_step toolkit m step_of started) h
