-- ===== src/Migrations/Tests.antt =====
-- Concrete runs of the job of src/features/migration/services.
use revisium_engine.Base.{
  String, Bool, true, false, Option, none, some, List, [], ◌∷◌, ◌≡◌, refl, Eq-String, ◌==◌, ◌&&◌,
  arith, eq_of_beq, Bool-cases, inl, inr, ap,
}
use revisium_engine.Base.Map
use revisium_engine.Migrations.{
  TableMigration, Row, Database, MigrationStatus, MigrationPhase, done,
}
use revisium_engine.Migrations.Copies.{AreCopies}
use revisium_engine.Migrations.Loading.{IdOrder}
use revisium_engine.Migrations.Consistent.{IsConsistent}
use revisium_engine.Migrations.Batches.{Toolkit}
use revisium_engine.Migrations.Swap.{SwapTerms}
use revisium_engine.Migrations.Events.{World, Event, run, step}
use revisium_engine.Migrations.Reached.{run-IsConsistent, run-linked}
use revisium_engine.Migrations.Fencing.{step-fenced}
use revisium_engine.Migrations.Alone.Completed.{IsCompletedBy, run_steps-completes}

-- an order of the ids "a" and "b"
abbrev b_after_a : String → String → Bool
b_after_a id other = id == "b" && other == "a"

b_after_a-IdOrder : IdOrder b_after_a
b_after_a-IdOrder = record {
  irreflexive = λ id. not_both id;
  asymmetric = λ id other h. not_twice id other h;
}
  where
    not_both : (id : String) → b_after_a id id ≡ false
    not_both id = elim (Bool-cases (id == "b")) [
      | inr other ↦ ap (λ t. t && id == "a") other
      | inl same ↦ ap (λ i. i == "b" && i == "a") (eq_of_beq id "b" same)
    ]

    not_twice : (id other : String) → b_after_a id other ≡ true → b_after_a other id ≡ false
    not_twice id other h = elim (Bool-cases (id == "b")) [
      | inr another ↦ ground arith
      | inl same ↦ let unlike = ap (λ i. i == "a") (eq_of_beq id "b" same) in ground arith
    ]

abbrev renaming : Toolkit String String
renaming = record {
  is_greater = b_after_a;
  patched_rows = λ patches rows. done (λ id. some patches);
  after_migrate_rows = λ rows. done (λ row. row.content);
  validate_rows = λ rows. done tt;
  object_hash = λ content. content;
  new_version_id = λ row. row.id;
}

abbrev agreed : SwapTerms String
agreed = record {
  patched_schema_hash = λ m. some m.target_schema_hash;
  ensure_ledger_free = λ m. done tt;
  record_schema_update = λ m. done tt;
  migrate_views = λ m. done tt;
}

abbrev row_of : String → Row String
row_of id = record {
  version_id = "v";
  created_id = "c";
  id = id;
  readonly = true;
  content = "old";
  meta = "";
  hash = "";
  schema_hash = "";
  created_at = 1;
  updated_at = 1;
  published_at = 1;
}

abbrev two_rows : List (Row String)
two_rows = row_of "a" ∷ row_of "b" ∷ []

abbrev new_job : Option String → TableMigration String
new_job token = record {
  id = "m";
  revision_id = "r";
  table_id = "t";
  source_table_version_id = "source";
  shadow_table_version_id = none;
  status = MigrationStatus.pending;
  phase = MigrationPhase.init;
  patches = "new";
  previous_schema_hash = "p";
  target_schema_hash = "q";
  total_rows = 2;
  copied_rows = 0;
  last_copied_row_id = none;
  batch_size = 1;
  current_batch = 0;
  created_at = 0;
  started_at = none;
  completed_at = none;
  last_progress_at = none;
  locked_by = token;
  locked_at = some 0;
  heartbeat_at = some 0;
  error_message = none;
  retry_count = 0;
  max_retries = 3;
}

abbrev draft_of : Option String → Database String String
draft_of token = record {
  job = some (new_job token);
  tables = ("source", two_rows) ∷ [];
  linked = "source" ∷ [];
  is_draft = true;
  schema_hash = some "p";
}

abbrev world : World String String
world = record { database = draft_of (some "w1"); observed = [] }

-- w1 begins the copy, stalls, and acts again on what it read after w2 took the job over
abbrev two_workers : List (Event String)
two_workers =
    Event.read_of (record { migration_id = "m"; token = "w1" })
    ∷ Event.act_of "w1" "shadow" 1
    ∷ Event.read_of (record { migration_id = "m"; token = "w1" })
    ∷ Event.claim_of MigrationStatus.copying (record { migration_id = "m"; token = "w2" }) 10 99
    ∷ Event.read_of (record { migration_id = "m"; token = "w2" })
    ∷ Event.act_of "w2" "" 100
    ∷ Event.act_of "w1" "" 101
    ∷ Event.abort
    ∷ []

run-IsConsistent_example : IsConsistent "source" two_rows (run renaming agreed two_workers world)
unfolding Map.get
run-IsConsistent_example =
    run-IsConsistent renaming agreed b_after_a-IdOrder "source" two_rows
      (refl, (refl, tt), (refl, tt, tt)) two_workers world (new_job (some "w1"))
      (refl, refl, refl, refl, refl, refl, refl, refl, refl, refl)

run-linked_example :
    (version : String) × (rows : List (Row String)) × ((run renaming agreed two_workers
        world).database.linked
      ≡ version ∷ [])
    × (Map.get (run renaming agreed two_workers world).database.tables version ≡ some rows)
    × AreCopies two_rows rows
unfolding Map.get
run-linked_example =
    run-linked renaming agreed b_after_a-IdOrder "source" two_rows
      (refl, (refl, tt), (refl, tt, tt)) two_workers world (new_job (some "w1"))
      (refl, refl, refl, refl, refl, refl, refl, refl, refl, refl)

step-fenced_example :
    (step renaming agreed
      (Event.retry_of (record { migration_id = "m"; token = "w0" }))
      world).database
    ≡ draft_of (some "w1")
step-fenced_example =
    step-fenced renaming agreed world (new_job (some "w1")) refl "w0" refl
      (Event.retry_of (record { migration_id = "m"; token = "w0" })) refl

run_steps-completes_example :
    IsCompletedBy renaming agreed
      (λ n. "shadow")
      (λ n. n)
      (record { migration_id = "m"; token = "w1" })
      5
      "source"
      two_rows
      (draft_of (some "w1"))
unfolding Map.get
run_steps-completes_example =
    run_steps-completes renaming agreed (λ n. "shadow") (λ n. n)
      (record { migration_id = "m"; token = "w1" }) two_rows
      (record {
        patch = λ patches rows. ((λ id. some patches), refl);
        hook = λ rows. ((λ row. row.content), refl);
        valid = λ rows. refl;
      })
      (record { target = λ m. refl; free = λ m. refl; recorded = λ m. refl; migrated = λ m. refl })
      b_after_a-IdOrder (refl, (refl, tt), (refl, tt, tt)) (draft_of (some "w1"))
      (new_job (some "w1"))
      (record {
        found = refl;
        own_id = refl;
        own = refl;
        draft = refl;
        unchanged = refl;
        sized = omega arith;
        nonblank = λ shadow named. cc;
      })
      (refl, refl, refl, refl, refl, refl, refl, refl, refl, refl) refl refl
