-- ===== src/Outcome/Tests.antt =====
-- The theorems on outcomes at a table with a structure unit and two row units.
use revisium_engine.Base.{
  ℕ, String, true, false, none, some, [], ◌∷◌, ◌≡◌, ◌≢◌, refl, includes, not, is_some, map, arith,
  Eq-String, All_of_includes, if◌then◌else◌,
}
use revisium_engine.Base.Map
use revisium_engine.Outcome.{
  CatalogueRow, OutcomeTable, row_outcome_of, structure_side_at, at_side, table_outcome_of, base,
  unit_keys,
}
use revisium_engine.Choice.{AppliedUnits, commit, revert, head, draft, is_revert, side_taken_by}
use revisium_engine.Outcome.Parts.{
  side_of_path, side_of_column, is_present, row_outcome-path, row_outcome-column,
  row_outcome-existence,
}
use revisium_engine.Outcome.Owners.{owns}
use revisium_engine.Outcome.Opposite.{commit-revert}
use revisium_engine.Outcome.Tables.{idle_table-base, with_outcome}

abbrev table : OutcomeTable
table = record {
  units = record { structure = some "structure"; rows = "title" ∷ "renamed" ∷ "created" ∷ [] };
  structure_differs = true;
}

abbrev changed : CatalogueRow ℕ
changed = record {
  pair = record { head_version = some 1; draft_version = some 2 };
  existence = none;
  columns = ("id", "renamed") ∷ ("schemaHash", "structure") ∷ [];
  leaves = ("/title", "title") ∷ ("/body", "structure") ∷ [];
}

abbrev created : CatalogueRow ℕ
created = record {
  pair = record { head_version = none; draft_version = some 3 };
  existence = some "created";
  columns = [];
  leaves = [];
}

abbrev committed : AppliedUnits
committed = record { operation = commit; applied = "title" ∷ "created" ∷ []; whole_draft = false }

abbrev reverted : AppliedUnits
reverted = record {
  operation = revert;
  applied = "structure" ∷ "renamed" ∷ [];
  whole_draft = false;
}

abbrev idle : AppliedUnits
idle = record { operation = commit; applied = "elsewhere" ∷ []; whole_draft = false }

row_outcome-path_example :
    side_of_path
      (row_outcome_of committed table changed)
      (structure_side_at committed table)
      "/title"
    ≡ some (side_taken_by committed "title")
unfolding Map.get
row_outcome-path_example =
    row_outcome-path committed table changed 1 2 "/title" "title" (refl, (refl, tt)) refl refl refl
      refl

row_outcome-column_example :
    side_of_column (row_outcome_of committed table changed) (structure_side_at committed table) "id"
    ≡ some (side_taken_by committed "renamed")
unfolding Map.get
row_outcome-column_example =
    row_outcome-column committed table changed 1 2 "id" "renamed" refl refl refl refl refl

row_outcome-existence_example :
    is_present (row_outcome_of committed table created)
    ≡ is_some (at_side created.pair (side_taken_by committed "created"))
row_outcome-existence_example = row_outcome-existence committed table created "created" refl

listed_changed :
    (owner : String)
    → owns changed owner ≡ true
    → includes ("structure" ∷ table.units.rows) owner ≡ true
listed_changed owner h = ground arith

idle_listed_changed :
    (owner : String) → owns changed owner ≡ true → includes (unit_keys idle table) owner ≡ true
unfolding unit_keys
idle_listed_changed owner h = ground arith

idle_listed_created :
    (owner : String) → owns created owner ≡ true → includes (unit_keys idle table) owner ≡ true
unfolding unit_keys
idle_listed_created owner h = ground arith

one_of_two :
    (key : String)
    → includes ("structure" ∷ table.units.rows) key ≡ true
    → includes reverted.applied key ≡ not (includes committed.applied key)
one_of_two key i =
    All_of_includes (λ k. includes reverted.applied k ≡ not (includes committed.applied k))
      ("structure" ∷ table.units.rows) key (refl, (refl, (refl, (refl, tt)))) i

commit-revert_example :
    (row_outcome_of committed table changed ≡ row_outcome_of reverted table changed)
    × ((key : String)
        → side_taken_by committed key ≡ (if includes committed.applied key then draft else head))
    × ((key : String)
        → side_taken_by reverted key ≡ (if includes reverted.applied key then head else draft))
commit-revert_example =
    commit-revert committed reverted table "structure" refl refl one_of_two refl changed
      listed_changed

idle_keys :
    (key : String) → includes (unit_keys idle table) key ≡ true → includes idle.applied key ≡ false
unfolding unit_keys
idle_keys key i =
    All_of_includes (λ k. includes idle.applied k ≡ false) ("structure" ∷ table.units.rows) key
      (refl, (refl, (refl, (refl, tt)))) i

some_units : unit_keys idle table ≢ []
unfolding unit_keys
some_units h = cc

idle_table-base_example :
    (table_outcome_of idle table (map (with_outcome idle table) (changed ∷ created ∷ [])) ≡ base)
    × (structure_side_at idle table ≡ (if is_revert idle.operation then draft else head))
idle_table-base_example =
    idle_table-base idle table idle_keys (changed ∷ created ∷ []) some_units
      (idle_listed_changed, (idle_listed_created, tt))
