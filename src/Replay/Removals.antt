-- ===== src/Replay/Removals.antt =====
-- What is known of a removal that returned.
use revisium_engine.Base.{
  ℕ, String, false, some, List, [], ◌∷◌, Eq-String, Eq-ℕ, ◌≡◌, refl, ◌∙◌, ap,
}
use revisium_engine.Base.Map
use revisium_engine.Base.Map.{Map, mem_of_get}
use revisium_engine.Base.Result.{ok}
use revisium_engine.Ledger.{Migration}
use revisium_engine.Rules.{Toolkit}
use revisium_engine.Replay.State.{LedgerReplay, CurrentTable, schema_of, current_tables}
use revisium_engine.Replay.Checks.{
  references, ensure_not_referenced, referrers_of, table_ids_of, refuse_referenced,
}
use revisium_engine.Replay.Steps.{remove_table}
use revisium_engine.Replay.Atomic.{
  Unchanged, OnlyReads-existing_schema, OnlyReads-ensure_not_referenced,
}
use revisium_engine.Replay.Failures.{Unchanged-schema_of}
use revisium_engine.Replay.Success.{Post, Post-skip}
use revisium_engine.Replay.Referrers.{is_slot_of, referrers_full}
use revisium_engine.Replay.Renames.{not_of_implied}

module _ {S : Type 0} (toolkit : Toolkit S) (id : String) where
  -- A removal that returns: nothing has changed, and no current table references the id.
  pub record Removed (r r' : LedgerReplay S) : Type 0 where
    pub slots : r'.table_slots ≡ r.table_slots
    pub schemas : (i : ℕ) → schema_of i r' ≡ schema_of i r
    pub unreferenced :
        (x : String) (i : ℕ) (s : S)
        → Map.get r.table_slots.current x ≡ some i
        → schema_of i r ≡ some s
        → references toolkit s id ≡ false

  refuse_referenced-ok :
      (ids : List String) (r : LedgerReplay S) → (refuse_referenced id ids r).0 ≡ ok tt → ids ≡ []
  unfolding refuse_referenced
  refuse_referenced-ok [] r h = refl
  refuse_referenced-ok (x ∷ ids) r h = cc

  no_ids : (ts : List (CurrentTable S)) → table_ids_of ts ≡ [] → ts ≡ []
  unfolding table_ids_of
  no_ids [] h = refl
  no_ids (t ∷ ts) h = cc

  no_referrers :
      (r : LedgerReplay S)
      → referrers_of toolkit id r ≡ []
      → (x : String) (i : ℕ) (s : S) → Map.get r.table_slots.current x ≡ some i
      → schema_of i r ≡ some s
      → references toolkit s id ≡ false
  unfolding referrers_of current_tables
  no_referrers r none_found x i s g e =
      not_of_implied _ _
        (referrers_full toolkit r id r.table_slots.current x i s
          (mem_of_get r.table_slots.current x i g) e)
        (ap (λ ts. is_slot_of ts i) none_found)

  Removed-stable : (r r₁ r' : LedgerReplay S) → Unchanged r r₁ → Removed r₁ r' → Removed r r'
  Removed-stable r r₁ r' h w = record {
    slots = w.slots ∙ h.slots;
    schemas = λ i. w.schemas i ∙ Unchanged-schema_of i h;
    unreferenced = λ x i s g e. w.unreferenced x i s (rw h.slots g) (Unchanged-schema_of i h ∙ e);
  }

  Post-ensure_not_referenced :
      (i : String) → Post (ensure_not_referenced toolkit (Migration.remove i id)) Removed
  unfolding ensure_not_referenced
  Post-ensure_not_referenced i = record {
    at = λ r u h.
        let m : Migration S = Migration.remove i id in
        let kept = (OnlyReads-ensure_not_referenced toolkit m).at r in
        record {
          slots = kept.slots;
          schemas = λ k. Unchanged-schema_of k kept;
          unreferenced =
              no_referrers r (no_ids (referrers_of toolkit id r) (refuse_referenced-ok _ _ h));
        };
  }

  pub remove-Removed :
      (i : String) (slot : ℕ) → Post (remove_table toolkit (Migration.remove i id) id slot) Removed
  unfolding remove_table
  remove-Removed i slot =
      Post-skip Removed Removed-stable _ _ (OnlyReads-existing_schema slot id)
        (λ _. Post-ensure_not_referenced i)
