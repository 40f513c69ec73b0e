-- ===== src/Replay/Atomic.antt =====
-- A step that throws has changed nothing but the list of reads.
use revisium_engine.Base.{
  ℕ, String, Option, none, some, List, [], ◌∷◌, Eq-String, Eq-ℕ, ◌≡◌, ◌≢◌, refl, ◌∙◌, Bool-cases,
  Option-cases, inl, inr,
}
use revisium_engine.Base.Result.{Result, ok, throw}
use revisium_engine.Base.Exec.{update, pure, lift, gets, continue, ◌>>=◌, ◌>>◌}
use revisium_engine.Ledger.{Migration, JsonPatch}
use revisium_engine.Slots.{SlotStep}
use revisium_engine.Rules.{Toolkit}
use revisium_engine.Replay.State.{LedgerReplay, Replaying, schema_of, is_tainted, record_reads}
use revisium_engine.Replay.Checks.{
  existing_schema, ensure_valid_table_id, refuse_missing, refuse_referenced, ensure_free,
  ensure_not_referenced, ensure_referenced_tables_exist, validate_schema, validate_schemas,
  validate_patches,
}
use revisium_engine.Replay.Steps.{apply_step}

module _ {S : Type 0} where
  pub record Unchanged (r r' : LedgerReplay S) : Type 0 where
    pub slots : r'.table_slots ≡ r.table_slots
    pub schemas : r'.slot_schemas ≡ r.slot_schemas
    pub unattributed : r'.unattributed ≡ r.unattributed
    pub trails : r'.trails ≡ r.trails

  Unchanged-refl : (r : LedgerReplay S) → Unchanged r r
  Unchanged-refl r = record { slots = refl; schemas = refl; unattributed = refl; trails = refl }

  Unchanged-reads :
      (m : Migration S) (ids : List String) (r : LedgerReplay S)
      → Unchanged r (record_reads m ids r)
  unfolding record_reads
  Unchanged-reads m ids r = record {
    slots = refl;
    schemas = refl;
    unattributed = refl;
    trails = refl;
  }

  Unchanged-trans : {r s t : LedgerReplay S} → Unchanged r s → Unchanged s t → Unchanged r t
  Unchanged-trans h k = record {
    slots = k.slots ∙ h.slots;
    schemas = k.schemas ∙ h.schemas;
    unattributed = k.unattributed ∙ h.unattributed;
    trails = k.trails ∙ h.trails;
  }

  pub record OnlyReads {A : Type 0} (m : Replaying S A) : Type 0 where
    pub at : (r : LedgerReplay S) → Unchanged r (m r).1

  pub record Atomic {A : Type 0} (m : Replaying S A) : Type 0 where
    pub at : (r : LedgerReplay S) (e : String) → (m r).0 ≡ throw e → Unchanged r (m r).1

  record NeverThrows {A : Type 0} (m : Replaying S A) : Type 0 where
    at : (r : LedgerReplay S) (e : String) → (m r).0 ≢ throw e

  module _ {A : Type 0} where
    pub OnlyReads-pure : (a : A) → OnlyReads (pure a)
    unfolding pure
    OnlyReads-pure a = record { at = λ r. Unchanged-refl r }

    pub OnlyReads-lift : (x : Result A) → OnlyReads (lift x)
    unfolding lift
    OnlyReads-lift x = record { at = λ r. Unchanged-refl r }

    pub OnlyReads-gets : (f : LedgerReplay S → A) → OnlyReads (gets f)
    unfolding gets
    OnlyReads-gets f = record { at = λ r. Unchanged-refl r }

    Atomic-NeverThrows : (m : Replaying S A) → NeverThrows m → Atomic m
    Atomic-NeverThrows m h = record { at = λ r e t. absurd (h.at r e t) }

    Atomic-OnlyReads : (m : Replaying S A) → OnlyReads m → Atomic m
    Atomic-OnlyReads m h = record { at = λ r e t. h.at r }

  module _ {A B : Type 0} where
    OnlyReads-continue :
        (x : Result A) (f : A → Replaying S B) (r : LedgerReplay S)
        → ((a : A) → OnlyReads (f a))
        → Unchanged r (continue x f r).1
    OnlyReads-continue (ok a) f r h = (h a).at r
    OnlyReads-continue (throw e) f r h = Unchanged-refl r

    pub OnlyReads-bind :
        (m : Replaying S A) (f : A → Replaying S B)
        → OnlyReads m
        → ((a : A) → OnlyReads (f a))
        → OnlyReads (m >>= f)
    unfolding ◌>>=◌
    OnlyReads-bind m f hm hf = record {
      at = λ r. Unchanged-trans (hm.at r) (OnlyReads-continue (m r).0 f (m r).1 hf);
    }

    Atomic-continue :
        (x : Result A) (f : A → Replaying S B) (r : LedgerReplay S) (e : String)
        → ((a : A) → Atomic (f a))
        → (continue x f r).0 ≡ throw e
        → Unchanged r (continue x f r).1
    Atomic-continue (ok a) f r e h t = (h a).at r e t
    Atomic-continue (throw e') f r e h t = Unchanged-refl r

    Atomic-bind :
        (m : Replaying S A) (f : A → Replaying S B)
        → OnlyReads m
        → ((a : A) → Atomic (f a))
        → Atomic (m >>= f)
    unfolding ◌>>=◌
    Atomic-bind m f hm hf = record {
      at = λ r e t. Unchanged-trans (hm.at r) (Atomic-continue (m r).0 f (m r).1 e hf t);
    }

  Atomic-updates :
      (f g : LedgerReplay S → LedgerReplay S) → Atomic {A = Unit} (update f >> update g)
  unfolding ◌>>=◌ update
  Atomic-updates f g = record { at = λ r e t. cc }

  pub OnlyReads-record_reads :
      (m : Migration S) (ids : List String) → OnlyReads (update (record_reads m ids))
  unfolding update
  OnlyReads-record_reads m ids = record { at = Unchanged-reads m ids }

  pub OnlyReads-existing_schema : (k : ℕ) (id : String) → OnlyReads (existing_schema {S = S} k id)
  unfolding existing_schema
  OnlyReads-existing_schema k id = record {
    at = λ r. elim (Option-cases (schema_of k r)) [
      | inl nothing ↦ rw (nothing, existing_schema) (Unchanged-refl r)
      | inr (s, e) ↦ rw (e, existing_schema) (Unchanged-refl r)
    ];
  }

  pub OnlyReads-ensure_valid_table_id : (id : String) → OnlyReads (ensure_valid_table_id {S = S} id)
  unfolding ensure_valid_table_id
  OnlyReads-ensure_valid_table_id id = OnlyReads-lift _

  pub OnlyReads-ensure_free : (id : String) (d : Option ℕ) → OnlyReads (ensure_free {S = S} id d)
  unfolding ensure_free
  OnlyReads-ensure_free id none = record { at = λ r. Unchanged-refl r }
  OnlyReads-ensure_free id (some k) = record {
    at = λ r. elim (Bool-cases (is_tainted k r)) [
      | inl t ↦ rw t (Unchanged-refl r)
      | inr t ↦ rw t (Unchanged-refl r)
    ];
  }

  Unchanged-refuse_missing :
      (m : Migration S) (ids : List String) (r : LedgerReplay S)
      → Unchanged r (refuse_missing m ids r).1
  unfolding refuse_missing
  Unchanged-refuse_missing m [] r = Unchanged-refl r
  Unchanged-refuse_missing m (id ∷ ids) r = Unchanged-reads m (id ∷ ids) r

  Unchanged-refuse_referenced :
      (id : String) (ids : List String) (r : LedgerReplay S)
      → Unchanged r (refuse_referenced id ids r).1
  unfolding refuse_referenced
  Unchanged-refuse_referenced id [] r = Unchanged-refl r
  Unchanged-refuse_referenced id (x ∷ ids) r = Unchanged-refl r

pub ruleset reading_rules = (
  OnlyReads-bind, OnlyReads-pure, OnlyReads-lift, OnlyReads-gets, OnlyReads-record_reads,
  OnlyReads-existing_schema, OnlyReads-ensure_valid_table_id, OnlyReads-ensure_free,
)

module _ {S : Type 0} (toolkit : Toolkit S) where
  OnlyReads-ensure_referenced :
      (m : Migration S) (schema : S) → OnlyReads (ensure_referenced_tables_exist toolkit m schema)
  unfolding ensure_referenced_tables_exist
  OnlyReads-ensure_referenced m schema = record { at = λ r. Unchanged-refuse_missing m _ r }

  pub OnlyReads-ensure_not_referenced :
      (m : Migration S) → OnlyReads (ensure_not_referenced toolkit m)
  unfolding ensure_not_referenced
  OnlyReads-ensure_not_referenced m = record {
    at = λ r. Unchanged-trans (Unchanged-reads m _ r) (Unchanged-refuse_referenced _ _ _);
  }

  pub OnlyReads-validate_schema :
      (m : Migration S) (schema : S) → OnlyReads (validate_schema toolkit m schema)
  unfolding validate_schema
  OnlyReads-validate_schema m schema = search (reading_rules, OnlyReads-ensure_referenced)

  OnlyReads-validate_schemas :
      (m : Migration S) (schemas : List S) → OnlyReads (validate_schemas toolkit m schemas)
  unfolding validate_schemas
  OnlyReads-validate_schemas m [] = OnlyReads-pure tt
  OnlyReads-validate_schemas m (schema ∷ schemas) =
      OnlyReads-bind _ _ (OnlyReads-validate_schema m schema)
        (λ _. OnlyReads-validate_schemas m schemas)

  pub OnlyReads-validate_patches :
      (m : Migration S) (patches : List (JsonPatch S))
      → OnlyReads (validate_patches toolkit m patches)
  unfolding validate_patches
  OnlyReads-validate_patches m patches =
      OnlyReads-bind _ _ (OnlyReads-lift _) (λ _. OnlyReads-validate_schemas m _)

ruleset atomic_rules = (
  Atomic-bind, Atomic-updates, Atomic-OnlyReads, reading_rules, OnlyReads-validate_schema,
  OnlyReads-validate_patches, OnlyReads-ensure_not_referenced,
)

module _ {S : Type 0} (toolkit : Toolkit S) where
  pub apply_step-Atomic : (m : Migration S) (step : SlotStep) → Atomic (apply_step toolkit m step)
  unfolding apply_step
  apply_step-Atomic (Migration.init i id schema) step = search atomic_rules depth 9
  apply_step-Atomic (Migration.update i id patches) step = search atomic_rules depth 9
  apply_step-Atomic (Migration.rename i id next) step = search atomic_rules depth 12
  apply_step-Atomic (Migration.remove i id) step = search atomic_rules depth 9
