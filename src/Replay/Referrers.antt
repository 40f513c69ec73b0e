-- ===== src/Replay/Referrers.antt =====
-- What is known of a rename and of a removal that returned.
use revisium_engine.Base.{
  ℕ, String, Bool, true, false, some, List, [], ◌∷◌, Eq-String, Eq-ℕ, ◌||◌, ◌≡◌, ◌⊎◌, refl, arith,
  Bool-cases, Option-cases, inl, inr, nat_eq, nat_eq_iff,
}
use mathlib.Core.List.{Memᴰ}
use mathlib.Core.List.Memᴰ
use revisium_engine.Base.Result.{ok, >>=-eq-ok}
use revisium_engine.Ledger.{Migration}
use revisium_engine.Rules.{Toolkit, renamed_foreign_keys}
use revisium_engine.Replay.State.{
  LedgerReplay, CurrentTable, schema_of, set_schema, current_from, referrer_rewrite,
}
use revisium_engine.Replay.Checks.{references, keep_referrers, rewritten_after_rename}
use revisium_engine.Replay.Steps.{set_schemas}
use revisium_engine.Replay.Fields.{schema_of-set_schema}

module _ {S : Type 0} where
  abbrev pub is_slot_of : List (CurrentTable S) → ℕ → Bool
  is_slot_of [] i = false
  is_slot_of (t ∷ ts) i = nat_eq t.slot i || is_slot_of ts i

  -- Every listed table has the schema of its slot.
  abbrev AreCurrent : LedgerReplay S → List (CurrentTable S) → Type 0
  AreCurrent r [] = Unit
  AreCurrent r (t ∷ ts) = (schema_of t.slot r ≡ some t.schema) × AreCurrent r ts

  pub current_from-AreCurrent :
      (r : LedgerReplay S) (entries : List (String × ℕ)) → AreCurrent r (current_from r entries)
  unfolding current_from
  current_from-AreCurrent r [] = tt
  current_from-AreCurrent r ((id, k) ∷ entries) = elim (Option-cases (schema_of k r)) [
    | inl nothing ↦ rw (nothing, current_from) (current_from-AreCurrent r entries)
    | inr (s, e) ↦ rw (e, current_from) (e, current_from-AreCurrent r entries)
  ]

module _ {S : Type 0} (toolkit : Toolkit S) where
  pub keep_referrers-AreCurrent :
      (r : LedgerReplay S) (id : String) (ts : List (CurrentTable S))
      → AreCurrent r ts
      → AreCurrent r (keep_referrers toolkit id ts)
  unfolding keep_referrers
  keep_referrers-AreCurrent r id [] h = tt
  keep_referrers-AreCurrent r id (t ∷ ts) h = elim (Bool-cases (references toolkit t.schema id)) [
    | inl referring ↦ rw referring (h.0, keep_referrers-AreCurrent r id ts h.1)
    | inr other ↦ rw other (keep_referrers-AreCurrent r id ts h.1)
  ]

  -- A current table with a schema that references the id is among the referrers.
  pub referrers_full :
      (r : LedgerReplay S) (id : String) (entries : List (String × ℕ)) (x : String) (i : ℕ) (s : S)
      → Memᴰ (x, i) entries
      → schema_of i r ≡ some s
      → references toolkit s id ≡ true
      → is_slot_of (keep_referrers toolkit id (current_from r entries)) i ≡ true
  unfolding keep_referrers current_from references
  referrers_full r id [] x i s m e h = absurd (Memᴰ.not-nil m)
  referrers_full r id ((y, k) ∷ entries) x i s (Memᴰ.head p) e h = ground (arith, p)
  referrers_full r id ((y, k) ∷ entries) x i s (Memᴰ.tail m) e h =
      ground (arith, referrers_full r id entries x i s m e h)

  module _ (id next : String) where
    -- A listed table got its schema from the one of its slot, by the rename.
    abbrev pub IsRenamed : LedgerReplay S → ℕ → S → Type 0
    IsRenamed r k s =
        (old : S) × (schema_of k r ≡ some old) × (renamed_foreign_keys toolkit old id next ≡ ok s)

    abbrev pub AreRenamed : LedgerReplay S → List (CurrentTable S) → Type 0
    AreRenamed r [] = Unit
    AreRenamed r (t ∷ ts) = IsRenamed r t.slot t.schema × AreRenamed r ts

    pub rewritten-AreRenamed :
        (r : LedgerReplay S) (ts : List (CurrentTable S)) {ts' : List (CurrentTable S)}
        → AreCurrent r ts
        → rewritten_after_rename toolkit id next ts ≡ ok ts'
        → AreRenamed r ts' × ((i : ℕ) → is_slot_of ts' i ≡ is_slot_of ts i)
    unfolding rewritten_after_rename
    rewritten-AreRenamed r [] {ts'} c h = let e : ts' ≡ [] = cc in rw e (tt, λ i. refl)
    rewritten-AreRenamed r (t ∷ ts) {ts'} c h =
        let (s, e, h₁) = >>=-eq-ok (renamed_foreign_keys toolkit t.schema id next) _ h in
        let (rest, e', h₂) = >>=-eq-ok (rewritten_after_rename toolkit id next ts) _ h₁ in
        let (renamed, same) = rewritten-AreRenamed r ts c.1 e' in
        let shape : ts' ≡ record t { schema = s } ∷ rest = cc in
        rw shape (((t.schema, c.0, e), renamed), λ i. ground (arith, same i))

    -- The slot that the loop writes first, before the rest of the list.
    written_first :
        (r₀ : LedgerReplay S) (t : CurrentTable S) (m : Migration S) (r : LedgerReplay S) (i : ℕ)
        (s : S)
        → IsRenamed r₀ t.slot t.schema
        → schema_of i (set_schema t.slot m referrer_rewrite t.schema r) ≡ some s
        → IsRenamed r₀ i s ⊎ ((schema_of i r ≡ some s) × (nat_eq t.slot i ≡ false))
    written_first r₀ t m r i s a h =
        let written = schema_of-set_schema t.slot m referrer_rewrite t.schema r i in
        elim (Bool-cases (nat_eq t.slot i)) [
          | inl here ↦
              let at_slot : t.slot ≡ i = (nat_eq_iff t.slot i).0 here in
              let is_schema : t.schema ≡ s = ground arith in inl (rw (← at_slot, ← is_schema) a)
          | inr elsewhere ↦ inr (ground arith, elsewhere)
        ]

    pub set_schemas-cases :
        (m : Migration S) (r₀ : LedgerReplay S) (ts : List (CurrentTable S)) (r : LedgerReplay S)
        (i : ℕ) (s : S)
        → AreRenamed r₀ ts
        → schema_of i (set_schemas m ts r) ≡ some s
        → IsRenamed r₀ i s ⊎ ((schema_of i r ≡ some s) × (is_slot_of ts i ≡ false))
    unfolding set_schemas
    set_schemas-cases m r₀ [] r i s a h = inr (h, refl)
    set_schemas-cases m r₀ (t ∷ ts) r i s a h =
        elim (set_schemas-cases m r₀ ts (set_schema t.slot m referrer_rewrite t.schema r) i s a.1
          h) [
            | inl renamed ↦ inl renamed
            | inr (written, unlisted) ↦ elim (written_first r₀ t m r i s a.0 written) [
              | inl renamed ↦ inl renamed
              | inr (kept, elsewhere) ↦ inr (kept, ground arith)
            ]
          ]
