-- ===== src/Timeline/Tests.antt =====
-- The timeline of a ledger that opens a table, renames it and opens another under its first id.
use revisium_engine.Base.{ℕ, String, Option, none, some, List, [], ◌∷◌, ◌≡◌, refl, Eq-String}
use revisium_engine.Base.Map
use revisium_engine.Base.Map.{Map}
use revisium_engine.Base.Result.{ok}
use revisium_engine.Ledger.{Migration, init, rename}
use revisium_engine.Slots.{follow, table_slots}
use revisium_engine.SlotCheck.{lineage_id_of}
use revisium_engine.Timeline.{
  LedgerTableIdChange, TableIdTimeline, table_id_timeline, position_of, last_change_before,
  or_no_changes,
}
use revisium_engine.Timeline.Sorted.{IsLatest, last_change_before-IsLatest}

abbrev opening : Migration ℕ
opening = init "m1" "users" 1

abbrev renaming : Migration ℕ
renaming = rename "m2" "users" "people"

abbrev opening_again : Migration ℕ
opening_again = init "m3" "users" 2

abbrev ledger : List (Migration ℕ)
ledger = opening ∷ renaming ∷ opening_again ∷ []

abbrev change : Migration ℕ → Option String → ℕ → LedgerTableIdChange ℕ
change m lineage position = record { migration = m; lineage = lineage; position = position }

abbrev timeline : TableIdTimeline ℕ
timeline = record {
  positions = ("m1", 0) ∷ ("m2", 1) ∷ ("m3", 2) ∷ [];
  changes =
      (
        "users",
        change opening (some "m1") 0
            ∷ change renaming none 1
            ∷ change opening_again (some "m3") 2
            ∷ [],
      )
      ∷ ("people", change renaming (some "m1") 1 ∷ [])
      ∷ [];
}

made : table_id_timeline ledger ≡ ok timeline
unfolding table_id_timeline Map.get Map.set Map.delete follow table_slots lineage_id_of
made = refl

at_third : position_of timeline opening_again ≡ ok 2
unfolding position_of Map.get
at_third = refl

last_change_before-IsLatest_example :
    (o : Option (LedgerTableIdChange ℕ)) × (last_change_before timeline opening_again "users"
      ≡ ok o)
    × IsLatest (or_no_changes (Map.get timeline.changes "users")) 2 o
last_change_before-IsLatest_example =
    last_change_before-IsLatest ledger timeline opening_again "users" 2 made at_third

found : last_change_before timeline opening_again "users" ≡ ok (some (change renaming none 1))
unfolding last_change_before Map.get
found = refl
