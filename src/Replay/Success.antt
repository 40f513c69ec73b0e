-- ===== src/Replay/Success.antt =====
-- What is known of a step that returned: its checks passed where it started, and its writes are
-- all that changed.
use revisium_engine.Base.{
  ℕ, String, true, not, some, List, [], ◌∷◌, ◌++◌, Eq-String, Eq-ℕ, ◌==◌, ◌≡◌, ◌≢◌, refl, ◌∙◌,
  arith, nat_eq, if◌then◌else◌, includes, filter, includes-filter, includes-add_all, add_all,
  filter-nil, includes-append, is_some,
}
use revisium_engine.Base.Map
use revisium_engine.Base.Result.{ok}
use revisium_engine.Base.Exec.{update, ◌>>=◌, ◌>>◌, >>=-ok}
use revisium_engine.Ledger.{Migration, JsonPatch, table_id, init}
use revisium_engine.Slots.{SlotStep}
use revisium_engine.Rules.{Toolkit, patch_values, foreign_keys_of}
use text.Mathlib.TextEquality.{eq_iff}
use revisium_engine.Replay.State.{LedgerReplay, Replaying, schema_of, own_step, set_schema}
use revisium_engine.Replay.Checks.{
  ensure_referenced_tables_exist, foreign_key_targets_of, missing_of, refuse_missing,
  validate_schema,
}
use revisium_engine.Replay.Steps.{taint_if_dependent, create_table, update_table}
use revisium_engine.Replay.Atomic.{
  OnlyReads, Unchanged, OnlyReads-ensure_valid_table_id, OnlyReads-ensure_free, OnlyReads-lift,
  OnlyReads-existing_schema, OnlyReads-validate_schema, OnlyReads-validate_patches,
}
use revisium_engine.Replay.Fields.{schema_of-set_schema, SameSchemas-taint_if_dependent}
use revisium_engine.Replay.Failures.{Unchanged-schema_of}

-- What holds of the states before and after a computation that returns.
pub record Post {S : Type 0} {A : Type 0} (m : Replaying S A)
    (Q : LedgerReplay S → LedgerReplay S → Type 0) : Type 0 where
  pub at : (r : LedgerReplay S) (a : A) → (m r).0 ≡ ok a → Q r (m r).1

-- A computation that only reads may stand in front.
pub Post-skip :
    {S A B : Type 0} (Q : LedgerReplay S → LedgerReplay S → Type 0)
    → ((r r₁ r' : LedgerReplay S) → Unchanged r r₁ → Q r₁ r' → Q r r')
    → (m : Replaying S A) (f : A → Replaying S B) → OnlyReads m
    → ((a : A) → Post (f a) Q)
    → Post (m >>= f) Q
Post-skip Q stable m f h k = record {
  at = λ r b e.
      let (a, _, p, rest) = >>=-ok m f r e in
      rw p (stable r (m r).1 _ (h.at r) ((k a).at (m r).1 b rest));
}

module _ {S : Type 0} (toolkit : Toolkit S) where
  -- Every foreign key of the schema, but the table itself, has a current slot.
  abbrev TargetsExist : LedgerReplay S → String → S → Type 0
  TargetsExist r id schema =
      (t : String)
      → includes (foreign_keys_of toolkit schema) t ≡ true
      → id ≢ t
      → is_some (Map.get r.table_slots.current t) ≡ true

  TargetsExist-Unchanged :
      {r r' : LedgerReplay S} (id : String) (schema : S)
      → Unchanged r r'
      → TargetsExist r' id schema
      → TargetsExist r id schema
  TargetsExist-Unchanged id schema h e t i n = ground (arith, e t i n, h.slots)

  refuse_missing-ok :
      (m : Migration S) (ids : List String) (r : LedgerReplay S)
      → (refuse_missing m ids r).0 ≡ ok tt
      → ids ≡ []
  unfolding refuse_missing
  refuse_missing-ok m [] r h = refl
  refuse_missing-ok m (id ∷ ids) r h = cc

  missing_none :
      (r : LedgerReplay S) (id : String) (schema : S)
      → missing_of r (foreign_key_targets_of toolkit id (schema ∷ [])) ≡ []
      → TargetsExist r id schema
  unfolding missing_of foreign_key_targets_of
  missing_none r id schema h t i n =
      let keys = foreign_keys_of toolkit schema in
      let others = filter (λ target. not (target == id)) (keys ++ []) in
      let missing = λ (target : String). not (is_some (Map.get r.table_slots.current target)) in
      ground (
        arith,
        filter-nil missing (add_all [] others) t h,
        includes-add_all [] others t,
        includes-filter (λ target. not (target == id)) (keys ++ []) t,
        includes-append keys [] t,
        eq_iff t id,
      )

  validate_schema-ok :
      (m : Migration S) (schema : S) (r : LedgerReplay S)
      → (validate_schema toolkit m schema r).0 ≡ ok tt
      → TargetsExist r (table_id m) schema
  unfolding validate_schema ensure_referenced_tables_exist
  validate_schema-ok m schema r h =
      let (u, e, step, rest) = >>=-ok _ _ r h in
      missing_none r (table_id m) schema (refuse_missing-ok m _ r e)

  -- A step gives one slot a schema whose foreign keys all have current slots.
  pub record Put (k : ℕ) (schema : S) (r r' : LedgerReplay S) : Type 0 where
    pub slots : r'.table_slots ≡ r.table_slots
    pub schemas : (i : ℕ) → schema_of i r' ≡ (if nat_eq k i then some schema else schema_of i r)

  pub record Wrote (id : String) (k : ℕ) (r r' : LedgerReplay S) : Type 0 where
    pub schema : S
    pub targets : TargetsExist r id schema
    pub put : Put k schema r r'

  Put-stable :
      (k : ℕ) (schema : S) (r r₁ r' : LedgerReplay S)
      → Unchanged r r₁
      → Put k schema r₁ r'
      → Put k schema r r'
  Put-stable k schema r r₁ r' h p = record {
    slots = p.slots ∙ h.slots;
    schemas = λ i. ground (arith, p.schemas i, Unchanged-schema_of i h);
  }

  Wrote-stable :
      (id : String) (k : ℕ) (r r₁ r' : LedgerReplay S)
      → Unchanged r r₁
      → Wrote id k r₁ r'
      → Wrote id k r r'
  Wrote-stable id k r r₁ r' h w = record {
    schema = w.schema;
    targets = TargetsExist-Unchanged id w.schema h w.targets;
    put = Put-stable k w.schema r r₁ r' h w.put;
  }

  Post-Put :
      (id : String) (k : ℕ) (m : Migration S) (schema : S) (named : List S)
      → Post {A = Unit}
          (update (set_schema k m own_step schema)
            >> update (taint_if_dependent toolkit id k m named))
          (Put k schema)
  unfolding update ◌>>=◌
  Post-Put id k m schema named = record {
    at = λ r u h.
        let r₁ = set_schema k m own_step schema r in
        let same = SameSchemas-taint_if_dependent toolkit id k m named r₁ in
        record {
          slots = same.slots ∙ unfold set_schema in refl;
          schemas = λ i. same.schemas i ∙ schema_of-set_schema k m own_step schema r i;
        };
  }

  Post-validated :
      (m : Migration S) (k : ℕ) (schema : S) (f : Unit {0} → Replaying S (Unit {0}))
      → Post (f tt) (Put k schema)
      → Post (validate_schema toolkit m schema >>= f) (Wrote (table_id m) k)
  Post-validated m k schema f h = record {
    at = λ r u e.
        let (_, checked, p, rest) = >>=-ok (validate_schema toolkit m schema) f r e in
        let kept = (OnlyReads-validate_schema toolkit m schema).at r in
        record {
          schema = schema;
          targets = validate_schema-ok m schema r checked;
          put = rw p (Put-stable k schema _ _ _ kept (h.at _ u rest));
        };
  }

  Put-after :
      {A : Type 0} (k : ℕ) (schema : S) (m : Replaying S A) (f : A → Replaying S (Unit {0}))
      → OnlyReads m
      → ((a : A) → Post (f a) (Put k schema))
      → Post (m >>= f) (Put k schema)
  Put-after k schema m f = Post-skip (Put k schema) (Put-stable k schema) m f

  Wrote-after :
      {A : Type 0} (id : String) (k : ℕ) (m : Replaying S A) (f : A → Replaying S (Unit {0}))
      → OnlyReads m
      → ((a : A) → Post (f a) (Wrote id k))
      → Post (m >>= f) (Wrote id k)
  Wrote-after id k m f = Post-skip (Wrote id k) (Wrote-stable id k) m f

  pub create-Wrote :
      (i id : String) (schema : S) (step : SlotStep)
      → Post (create_table toolkit (init i id schema) id schema step) (Wrote id step.slot)
  unfolding create_table
  create-Wrote i id schema step = Post-validated (init i id schema) step.slot schema _ (
      Put-after _ _ _ _ (OnlyReads-ensure_valid_table_id id) (λ _.
        Put-after _ _ _ _ (OnlyReads-ensure_free id step.displaced) (λ _.
          Put-after _ _ _ _ (OnlyReads-lift _)
            (λ _. Post-Put id step.slot (init i id schema) schema (schema ∷ [])))))

  pub update-Wrote :
      (i id : String) (patches : List (JsonPatch S)) (k : ℕ)
      → Post (update_table toolkit (Migration.update i id patches) id patches k) (Wrote id k)
  unfolding update_table
  update-Wrote i id patches k =
      let m : Migration S = Migration.update i id patches in
      Wrote-after id k _ _ (OnlyReads-validate_patches toolkit m patches) (λ _.
        Wrote-after id k _ _ (OnlyReads-existing_schema k id) (λ existing.
          Wrote-after id k _ _ (OnlyReads-lift _) (λ schema. Post-validated m k schema _ (
            Put-after _ _ _ _ (OnlyReads-lift _)
              (λ _. Post-Put id k m schema (patch_values patches ++ schema ∷ []))))))
