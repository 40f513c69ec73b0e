-- ===== src/Replay/Fields.antt =====
-- What each write of a replay does to the schema and the failure of a slot.
use revisium_engine.Base.{
  ℕ, String, Option, none, some, List, [], ◌∷◌, Eq-String, Eq-ℕ, ◌≡◌, refl, ◌∙◌, arith, Bool-cases,
  inl, inr, nat_eq, if◌then◌else◌,
}
use revisium_engine.Base.Map.{get-set}
use revisium_engine.Ledger.{Migration}
use revisium_engine.Rules.{Toolkit}
use revisium_engine.Rules.Messages.{depends_on_unreplayable}
use revisium_engine.Replay.State.{
  LedgerReplay, CurrentTable, ReplayFailure, Cause, schema_of, failure_at, slot_schema_of,
  set_schema, taint, record_reads, first_failure, failure_of, is_tainted,
}
use revisium_engine.Replay.Checks.{foreign_key_targets_of}
use revisium_engine.Replay.Steps.{
  taint_tables, taint_dependent, taint_across_rename, taint_if_dependent, find_tainted_target,
  other_referrers,
}

module _ {S : Type 0} where
  pub schema_of-set_schema :
      (k : ℕ) (m : Migration S) (c : Cause) (s : S) (r : LedgerReplay S) (i : ℕ)
      → schema_of i (set_schema k m c s r) ≡ (if nat_eq k i then some s else schema_of i r)
  unfolding schema_of set_schema
  schema_of-set_schema k m c s r i =
      ground (arith, get-set r.slot_schemas k i (record (slot_schema_of k r) { schema = some s }))

  pub failure_at-set_schema :
      (k : ℕ) (m : Migration S) (c : Cause) (s : S) (r : LedgerReplay S) (i : ℕ)
      → failure_at i (set_schema k m c s r) ≡ failure_at i r
  unfolding failure_at set_schema
  failure_at-set_schema k m c s r i =
      ground (arith, get-set r.slot_schemas k i (record (slot_schema_of k r) { schema = some s }))

  pub schema_of-taint :
      (k : ℕ) (f : ReplayFailure) (r : LedgerReplay S) (i : ℕ)
      → schema_of i (taint k f r) ≡ schema_of i r
  unfolding schema_of taint
  schema_of-taint k f r i = ground (
    arith,
    get-set r.slot_schemas k i
        (record (slot_schema_of k r) { failure = first_failure (slot_schema_of k r).failure f }),
  )

  pub failure_at-taint :
      (k : ℕ) (f : ReplayFailure) (r : LedgerReplay S) (i : ℕ)
      → failure_at i (taint k f r)
        ≡ (if nat_eq k i then first_failure (failure_at i r) f else failure_at i r)
  unfolding failure_at taint
  failure_at-taint k f r i = ground (
    arith,
    get-set r.slot_schemas k i
        (record (slot_schema_of k r) { failure = first_failure (slot_schema_of k r).failure f }),
  )

  -- A write that leaves every schema, and the slots, as they are.
  pub record SameSchemas (r r' : LedgerReplay S) : Type 0 where
    pub slots : r'.table_slots ≡ r.table_slots
    pub schemas : (i : ℕ) → schema_of i r' ≡ schema_of i r
    pub trails : r'.trails ≡ r.trails

  SameSchemas-refl : (r : LedgerReplay S) → SameSchemas r r
  SameSchemas-refl r = record { slots = refl; schemas = λ i. refl; trails = refl }

  SameSchemas-trans : {r s t : LedgerReplay S} → SameSchemas r s → SameSchemas s t → SameSchemas r t
  SameSchemas-trans h k = record {
    slots = k.slots ∙ h.slots;
    schemas = λ i. k.schemas i ∙ h.schemas i;
    trails = k.trails ∙ h.trails;
  }

  SameSchemas-taint : (k : ℕ) (f : ReplayFailure) (r : LedgerReplay S) → SameSchemas r (taint k f r)
  SameSchemas-taint k f r = record {
    slots = unfold taint in refl;
    schemas = schema_of-taint k f r;
    trails = unfold taint in refl;
  }

  pub SameSchemas-record_reads :
      (m : Migration S) (ids : List String) (r : LedgerReplay S)
      → SameSchemas r (record_reads m ids r)
  unfolding record_reads schema_of
  SameSchemas-record_reads m ids r = record { slots = refl; schemas = λ i. refl; trails = refl }

  SameSchemas-taint_dependent :
      (k : ℕ) (m : Migration S) (o : Option String) (r : LedgerReplay S)
      → SameSchemas r (taint_dependent k m o r)
  unfolding taint_dependent
  SameSchemas-taint_dependent k m none r = SameSchemas-refl r
  SameSchemas-taint_dependent k m (some id) r = SameSchemas-taint k _ r

  SameSchemas-taint_tables :
      (m : Migration S) (id : String) (ts : List (CurrentTable S)) (r : LedgerReplay S)
      → SameSchemas r (taint_tables m id ts r)
  unfolding taint_tables
  SameSchemas-taint_tables m id [] r = SameSchemas-refl r
  SameSchemas-taint_tables m id (t ∷ ts) r =
      SameSchemas-trans (SameSchemas-taint t.slot (failure_of m (depends_on_unreplayable id)) r) (
        SameSchemas-taint_tables m id ts
          (taint t.slot (failure_of m (depends_on_unreplayable id)) r))

  pub SameSchemas-taint_across_rename :
      (m : Migration S) (next : String) (k : ℕ) (ts : List (CurrentTable S)) (r : LedgerReplay S)
      → SameSchemas r (taint_across_rename m next k ts r)
  unfolding taint_across_rename
  SameSchemas-taint_across_rename m next k ts r = elim (Bool-cases (is_tainted k r)) [
    | inl t ↦ rw t (
        SameSchemas-trans (SameSchemas-taint_tables m next (other_referrers k ts) r)
          (SameSchemas-taint_dependent k m _ _))
    | inr t ↦ rw t (SameSchemas-taint_dependent k m _ r)
  ]

  pub SameSchemas-taint_if_dependent :
      (toolkit : Toolkit S) (id : String) (k : ℕ) (m : Migration S) (schemas : List S)
      (r : LedgerReplay S)
      → SameSchemas r (taint_if_dependent toolkit id k m schemas r)
  unfolding taint_if_dependent
  SameSchemas-taint_if_dependent toolkit id k m schemas r =
      let targets = foreign_key_targets_of toolkit id schemas in
      let r' = record_reads m targets r in
      SameSchemas-trans (SameSchemas-record_reads m targets r)
        (SameSchemas-taint_dependent k m (find_tainted_target r' targets) r')
