-- ===== src/Replay/Renames.antt =====
-- What is known of a rename that returned: ids and schemas are rewritten together.
use revisium_engine.Base.{
  ℕ, String, Bool, true, false, some, List, [], ◌∷◌, Eq-String, Eq-ℕ, ◌≡◌, ◌⊎◌, refl, ◌∙◌, sym,
  arith, inl, inr,
}
use revisium_engine.Base.Map
use revisium_engine.Base.Map.{Map, mem_of_get}
use revisium_engine.Base.Result.{ok}
use revisium_engine.Base.Exec.{update, lift, gets, ◌>>=◌, ◌>>◌, >>=-ok}
use revisium_engine.Ledger.{Migration, rename}
use revisium_engine.Slots.{SlotStep}
use revisium_engine.Rules.{Toolkit}
use revisium_engine.Replay.State.{
  LedgerReplay, CurrentTable, Replaying, schema_of, record_reads, set_schema, current_tables,
  current_from, referrer_rewrite,
}
use revisium_engine.Replay.Checks.{
  references, keep_referrers, existing_schema, referrers_of, table_ids_of, rewritten_after_rename,
}
use revisium_engine.Replay.Steps.{other_referrers, set_schemas, taint_across_rename, rename_table}
use revisium_engine.Replay.Atomic.{
  Unchanged, OnlyReads-ensure_valid_table_id, OnlyReads-ensure_free, OnlyReads-existing_schema,
}
use revisium_engine.Replay.Fields.{
  SameSchemas, SameSchemas-taint_across_rename, SameSchemas-record_reads,
}
use revisium_engine.Replay.Failures.{Unchanged-schema_of}
use revisium_engine.Replay.Success.{Post, Post-skip}
use revisium_engine.Replay.Referrers.{
  is_slot_of, current_from-AreCurrent, keep_referrers-AreCurrent, referrers_full, IsRenamed,
  AreRenamed, rewritten-AreRenamed, set_schemas-cases,
}

module _ {S : Type 0} where
  slots-set_schemas :
      (m : Migration S) (ts : List (CurrentTable S)) (r : LedgerReplay S)
      → (set_schemas m ts r).table_slots ≡ r.table_slots
  unfolding set_schemas set_schema
  slots-set_schemas m [] r = refl
  slots-set_schemas m (t ∷ ts) r =
      slots-set_schemas m ts (set_schema t.slot m referrer_rewrite t.schema r)

pub not_of_implied : (b c : Bool) → (b ≡ true → c ≡ true) → c ≡ false → b ≡ false
not_of_implied true c h e = cc (h refl)
not_of_implied false c h e = refl

module _ {S : Type 0} (toolkit : Toolkit S) (id next : String) where
  -- The loops that write the rewritten schemas.
  written_loops :
      (m : Migration S) (slot : ℕ) (ts : List (CurrentTable S)) (r r₁ : LedgerReplay S) (i : ℕ)
      (s : S)
      → AreRenamed toolkit id next r ts
      → schema_of i (set_schemas m ts (taint_across_rename m next slot ts r₁)) ≡ some s
      → IsRenamed toolkit id next r i s ⊎ ((schema_of i r₁ ≡ some s) × (is_slot_of ts i ≡ false))
  written_loops m slot ts r r₁ i s a h =
      let r₂ = taint_across_rename m next slot ts r₁ in
      let same = (SameSchemas-taint_across_rename m next slot ts r₁).schemas i in
      elim (set_schemas-cases toolkit id next m r ts r₂ i s a h) [
        | inl renamed ↦ inl renamed
        | inr (kept, unlisted) ↦ inr (sym same ∙ kept, unlisted)
      ]

  pub record Rewrote (r r' : LedgerReplay S) : Type 0 where
    pub slots : r'.table_slots ≡ r.table_slots
    pub known : (i : ℕ) (s : S) → schema_of i r' ≡ some s → (old : S) × (schema_of i r ≡ some old)
    pub schemas :
        (x : String) (i : ℕ) (s : S)
        → Map.get r.table_slots.current x ≡ some i
        → schema_of i r' ≡ some s
        → IsRenamed toolkit id next r i s
          ⊎ ((schema_of i r ≡ some s) × (references toolkit s id ≡ false))

  Rewrote-stable : (r r₁ r' : LedgerReplay S) → Unchanged r r₁ → Rewrote r₁ r' → Rewrote r r'
  Rewrote-stable r r₁ r' h w = record {
    slots = w.slots ∙ h.slots;
    known = λ i s e. let (old, held) = w.known i s e in (old, sym (Unchanged-schema_of i h) ∙ held);
    schemas = λ x i s g e.
        let same = Unchanged-schema_of i h in
        elim (w.schemas x i s (rw h.slots g) e) [
          | inl (old, held, renamed) ↦ inl (old, sym same ∙ held, renamed)
          | inr (kept, unreferring) ↦ inr (sym same ∙ kept, unreferring)
        ];
  }

  -- The part of a rename behind its checks.
  rewrite_loops : Migration S → ℕ → List (CurrentTable S) → Replaying S (Unit {0})
  rewrite_loops m slot referrers = do
    update (record_reads m (table_ids_of (other_referrers slot referrers)))
    rewritten ← lift (rewritten_after_rename toolkit id next referrers)
    update (taint_across_rename m next slot rewritten)
    update (set_schemas m rewritten)

  rewritten_facts :
      (r : LedgerReplay S) (rewritten : List (CurrentTable S))
      → rewritten_after_rename toolkit id next (referrers_of toolkit id r) ≡ ok rewritten
      → AreRenamed toolkit id next r rewritten
        × ((i : ℕ) → is_slot_of rewritten i ≡ is_slot_of (referrers_of toolkit id r) i)
  unfolding referrers_of current_tables
  rewritten_facts r rewritten e =
      let tables = current_from r r.table_slots.current in
      rewritten-AreRenamed toolkit id next r (keep_referrers toolkit id tables)
        (keep_referrers-AreCurrent toolkit r id tables
          (current_from-AreCurrent r r.table_slots.current))
        e

  rewrite_settled :
      (m : Migration S) (slot : ℕ) (r r₁ : LedgerReplay S) (rewritten : List (CurrentTable S))
      → SameSchemas r r₁
      → rewritten_after_rename toolkit id next (referrers_of toolkit id r) ≡ ok rewritten
      → Rewrote r (set_schemas m rewritten (taint_across_rename m next slot rewritten r₁))
  unfolding referrers_of current_tables
  rewrite_settled m slot r r₁ rewritten same e = record {
    slots =
        slots-set_schemas m rewritten (taint_across_rename m next slot rewritten r₁)
        ∙ (SameSchemas-taint_across_rename m next slot rewritten r₁).slots
        ∙ same.slots;
    known = λ i s h.
        let (renamed, _) = rewritten_facts r rewritten e in
        elim (written_loops m slot rewritten r r₁ i s renamed h) [
          | inl (old, held, _) ↦ (old, held)
          | inr (kept, _) ↦ (s, sym (same.schemas i) ∙ kept)
        ];
    schemas = λ x i s g h.
        let (renamed, listed) = rewritten_facts r rewritten e in
        elim (written_loops m slot rewritten r r₁ i s renamed h) [
          | inl new ↦ inl new
          | inr (kept, unlisted) ↦
              let held : schema_of i r ≡ some s = sym (same.schemas i) ∙ kept in
              let full =
                referrers_full toolkit r id r.table_slots.current x i s
                  (mem_of_get r.table_slots.current x i g) held in
              inr (held, not_of_implied _ _ full (sym (listed i) ∙ unlisted))
        ];
  }

  Post-rewrite_loops :
      (m : Migration S) (slot : ℕ)
      → Post (gets (referrers_of toolkit id) >>= rewrite_loops m slot) Rewrote
  unfolding ◌>>=◌ gets lift update rewrite_loops
  Post-rewrite_loops m slot = record {
    at = λ r u h.
        let referrers = referrers_of toolkit id r in
        let ids = table_ids_of (other_referrers slot referrers) in
        let (rewritten, e, p, _) =
          >>=-ok (lift (rewritten_after_rename toolkit id next referrers))
            (λ ts. update (taint_across_rename m next slot ts) >> update (set_schemas m ts))
            (record_reads m ids r) h in
        rw p (
          rewrite_settled m slot r (record_reads m ids r) rewritten
            (SameSchemas-record_reads m ids r) e);
  }

  -- A rename that returns was of a table with a schema.
  pub record Renamed (slot : ℕ) (r r' : LedgerReplay S) : Type 0 where
    pub existed : (s : S) × (schema_of slot r ≡ some s)
    pub rewrote : Rewrote r r'

  existing_schema-ok :
      (k : ℕ) (r : LedgerReplay S) {s : S}
      → (existing_schema k id r).0 ≡ ok s
      → schema_of k r ≡ some s
  unfolding existing_schema
  existing_schema-ok k r h = ground arith

  pub rename-Renamed :
      (i : String) (step : SlotStep)
      → Post (rename_table toolkit (rename i id next) id next step) (Renamed step.slot)
  unfolding rename_table rewrite_loops
  rename-Renamed i step = record {
    at = λ r u h.
        let m : Migration S = rename i id next in
        let (s, e, p, rest) = >>=-ok (existing_schema step.slot id) _ r h in
        let kept = (OnlyReads-existing_schema step.slot id).at r in
        let behind =
          Post-skip Rewrote Rewrote-stable _ _ (OnlyReads-ensure_valid_table_id next) (λ _.
            Post-skip Rewrote Rewrote-stable _ _ (OnlyReads-ensure_free next step.displaced)
              (λ _. Post-rewrite_loops m step.slot)) in
        record {
          existed = (s, existing_schema-ok step.slot r e);
          rewrote = rw p (Rewrote-stable r _ _ kept (behind.at _ u rest));
        };
  }
