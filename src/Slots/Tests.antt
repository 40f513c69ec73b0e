-- ===== src/Slots/Tests.antt =====
-- The theorems on table slots at a small ledger: two tables are started, one is renamed over the
-- other, a third is opened and removed.
use revisium_engine.Base.{
  ℕ, String, true, none, some, List, [], ◌∷◌, ◌++◌, ◌≡◌, refl, ◌↔◌, if◌then◌else◌, nat_eq, not,
  ◌||◌, ◌&&◌, Eq-String,
}
use revisium_engine.Ledger.{Migration, init, update, rename, remove}
use revisium_engine.Slots.{TableSlots, table_slots, follow, follow_all, is_ledgered}
use revisium_engine.Slots.Held.{Coherent}
use revisium_engine.Slots.Steps.{holders, holders_all, holders-follow_all}
use revisium_engine.Slots.Trace.{table_slots-Coherent, follow_all-Coherent, is_ledgered_iff}
use revisium_engine.Slots.History.{logged, assigned, follow_all-partition}
use revisium_engine.Slots.Broken.{broken, is_hit, broken-follow, first}
use revisium_engine.Base.Map

abbrev ids : List String
ids = "users" ∷ "posts" ∷ []

abbrev displacing : Migration ℕ
displacing = rename "m1" "users" "posts"

abbrev ledger : List (Migration ℕ)
ledger = displacing ∷ init "m2" "tags" 7 ∷ remove "m3" "tags" ∷ update "m4" "posts" [] ∷ []

abbrev started : TableSlots ℕ
started = table_slots ids

follow_all-Coherent_example : Coherent (follow_all ledger started)
follow_all-Coherent_example =
    follow_all-Coherent ledger started (table_slots-Coherent ℕ ids (refl, (refl, tt)))

holders-follow_all_example :
    holders (follow_all ledger started) ≡ holders_all ledger (holders started)
holders-follow_all_example =
    holders-follow_all ledger started (table_slots-Coherent ℕ ids (refl, (refl, tt)))

follow_all-partition_example :
    logged (follow_all ledger started) 0 ≡ logged started 0 ++ assigned ledger started 0
follow_all-partition_example =
    follow_all-partition ledger started 0 (table_slots-Coherent ℕ ids (refl, (refl, tt)))

broken-follow_example : broken (follow displacing started).1 1 ≡ (
    if (nat_eq (follow displacing started).0.slot 1
        && not (follow displacing started).0.attributable)
      || is_hit (follow displacing started).0.displaced (follow displacing started).0.slot 1
    then first (broken started 1) displacing
    else broken started 1)
broken-follow_example =
    broken-follow displacing started 1 (table_slots-Coherent ℕ ids (refl, (refl, tt)))

is_ledgered_iff_example : (is_ledgered (follow_all ledger started).slots "posts" ≡ true) ↔ (
    (k : ℕ) × (Map.get (follow_all ledger started).current "posts" ≡ some k)
    × (broken (follow_all ledger started) k ≡ none))
is_ledgered_iff_example =
    is_ledgered_iff (follow_all ledger started) "posts"
      (follow_all-Coherent ledger started (table_slots-Coherent ℕ ids (refl, (refl, tt))))
