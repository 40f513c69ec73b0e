-- ===== src/Migrations/Preserved.antt =====
-- The statements of src/features/migration/services that change the job's record alone keep the job
-- consistent.
pub mod Leases
pub mod Copying
pub mod Swapping
pub mod Batches
use revisium_engine.Base.{
  ℕ, String, Bool, true, false, Option, none, some, List, [], ◌∷◌, ◌++◌, ◌≡◌, ◌≢◌, ◌⊎◌, Eq-String,
  Eq-ℕ, ◌==◌, length, refl, sym, ◌∙◌, ap, inl, inr, arith, Bool-cases, Option-cases, some_inj, ◌&&◌,
}
use mathlib.Core.Path.{subst}
use revisium_engine.Base.Map
use revisium_engine.Base.Map.{Map}
use revisium_engine.Migrations.{
  TableMigration, Row, Database, MigrationStatus, update_many, update_where, is_pending, is_copying,
  is_swapping, Attempt, done, failing, done_inj,
}
use revisium_engine.Migrations.Swap.{shadow_table_of}
use revisium_engine.Migrations.Steps.{StepResult, continues_with}
use revisium_engine.Migrations.Consistent.{
  IsUncopied, IsCopiedTo, IsAtStage, IsJobConsistent, IsJob, IsOf, IsObservation, IsLinked,
  IsConsistent,
}
use revisium_engine.Migrations.Events.{World, database_of}

pub copying_status : (s : MigrationStatus) → is_copying s ≡ true → s ≡ MigrationStatus.copying
copying_status MigrationStatus.copying h = refl
copying_status _ h = cc

pub shadow_table_of-some :
    (named : Option String) (shadow : String)
    → shadow_table_of named ≡ done shadow
    → named ≡ some shadow
shadow_table_of-some none shadow h = cc
shadow_table_of-some (some version) shadow h = ground arith

module _ {J : Type 0} (source_id : String) (source : List (Row J))
    (tables : Map String (List (Row J))) {shadow last : Option String} {copied_rows : ℕ} where
  pub pending_stage :
      (status : MigrationStatus)
      → is_pending status ≡ true
      → IsAtStage source_id source status tables shadow copied_rows last
      → (shadow ≡ none) × (copied_rows ≡ 0) × (last ≡ none)
  pending_stage MigrationStatus.pending h stage = stage
  pending_stage _ h stage = cc

  pub copying_stage :
      (status : MigrationStatus)
      → is_copying status ≡ true
      → IsAtStage source_id source status tables shadow copied_rows last
      → IsCopiedTo source_id source tables shadow copied_rows last
  copying_stage MigrationStatus.copying h stage = stage
  copying_stage _ h stage = cc

  pub swapping_stage :
      (status : MigrationStatus)
      → is_swapping status ≡ true
      → IsAtStage source_id source status tables shadow copied_rows last
      → IsCopiedTo source_id source tables shadow copied_rows last × (copied_rows ≡ length source)
  swapping_stage MigrationStatus.swapping h stage = stage
  swapping_stage _ h stage = cc

  -- A job that stops stays where it was.
  pub stopped_stage :
      (status : MigrationStatus)
      → IsAtStage source_id source status tables shadow copied_rows last
      → IsUncopied source_id source shadow copied_rows last
        ⊎ IsCopiedTo source_id source tables shadow copied_rows last
  stopped_stage MigrationStatus.pending stage = inl stage
  stopped_stage MigrationStatus.copying stage = inr stage
  stopped_stage MigrationStatus.swapping stage = inr stage.0
  stopped_stage MigrationStatus.completed stage = stage
  stopped_stage MigrationStatus.failed stage = stage
  stopped_stage MigrationStatus.cancelled stage = stage

module _ {P J : Type 0} where
  -- What holds before a step and after it returned holds of the database that it leaves.
  pub database_of-keeps {κ} :
      (Q : Database P J → Type κ) (attempt : Attempt (Database P J × StepResult))
      (before : Database P J)
      → Q before
      → ((db : Database P J) (result : StepResult) → attempt ≡ done (db, result) → Q db)
      → Q (database_of attempt before)
  database_of-keeps Q (done (db, result)) before held after = after db result refl
  database_of-keeps Q (failing e) before held after = held

  pub database_of-written :
      (result : StepResult) (written : Database P J × Bool) (before : Database P J)
      → database_of (continues_with result (done written)) before ≡ written.0
  database_of-written result (db, true) before = refl
  database_of-written result (db, false) before = refl

  pub continues_with-eq-done :
      (result : StepResult) (attempt : Attempt (Database P J × Bool)) (db : Database P J)
      (after : StepResult)
      → continues_with result attempt ≡ done (db, after)
      → (written : Bool) × (attempt ≡ done (db, written))
  continues_with-eq-done result (failing e) db after h = cc
  continues_with-eq-done result (done (made, true)) db after h =
      (true, ap (λ d. done (d, true)) (ap (λ p. p.0) (done_inj h)))
  continues_with-eq-done result (done (made, false)) db after h =
      (false, ap (λ d. done (d, false)) (ap (λ p. p.0) (done_inj h)))

module _ {P J : Type 0} (source_id : String) (source : List (Row J)) where
  -- While the job is there, the Draft links its source.
  pub linked_source :
      (db : Database P J) (m : TableMigration P)
      → db.job ≡ some m
      → IsLinked source_id source db
      → db.linked ≡ source_id ∷ []
  linked_source db m found (inl linked) = linked
  linked_source db m found (inr swapped) = let gone = swapped.0 in cc

  -- Another record of the job, at the same shadow table.
  pub put_job :
      (w : World P J) (m changed : TableMigration P)
      → IsConsistent source_id source w
      → w.database.job ≡ some m
      → changed.shadow_table_version_id ≡ m.shadow_table_version_id
      → IsJobConsistent source_id source w.database.tables changed
      → IsConsistent source_id source
          (record w { database = record w.database { job = some changed } })
  put_job w m changed c found same job = record {
    kept = c.kept;
    linked = inl (linked_source w.database m found c.linked);
    job = job;
    observed = λ token read held.
        let (of_source, of_job) = c.observed token read held in
        (of_source, λ shadow named. same ∙ subst (IsOf read) found of_job shadow named);
  }

  pub job_consistent :
      (w : World P J) (m : TableMigration P)
      → IsConsistent source_id source w
      → w.database.job ≡ some m
      → IsJobConsistent source_id source w.database.tables m
  job_consistent w m c found = subst (IsJob source_id source w.database.tables) found c.job

  update_where-IsConsistent :
      (test : TableMigration P → Bool) (change : TableMigration P → TableMigration P)
      (w : World P J) (job : Option (TableMigration P))
      → w.database.job ≡ job
      → IsConsistent source_id source w
      → ((m : TableMigration P) → (change m).shadow_table_version_id ≡ m.shadow_table_version_id)
      → ((m : TableMigration P)
          → test m ≡ true
          → IsJobConsistent source_id source w.database.tables m
          → IsJobConsistent source_id source w.database.tables (change m))
      → IsConsistent source_id source
          (record w { database = (update_where test change job w.database).0 })
  update_where-IsConsistent test change w none found c same keep = c
  update_where-IsConsistent test change w (some m) found c same keep = elim (Bool-cases (test m)) [
    | inl chosen ↦
        rw (chosen, update_where)
          (put_job w m (change m) c found (same m) (keep m chosen (job_consistent w m c found)))
    | inr left ↦ rw (left, update_where) c
  ]

  -- An update keeps a job consistent, when each record that it changes stays so.
  pub update_many-IsConsistent :
      (test : TableMigration P → Bool) (change : TableMigration P → TableMigration P)
      (w : World P J)
      → IsConsistent source_id source w
      → ((m : TableMigration P) → (change m).shadow_table_version_id ≡ m.shadow_table_version_id)
      → ((m : TableMigration P)
          → test m ≡ true
          → IsJobConsistent source_id source w.database.tables m
          → IsJobConsistent source_id source w.database.tables (change m))
      → IsConsistent source_id source
          (record w { database = (update_many test change w.database).0 })
  update_many-IsConsistent test change w c same keep =
      update_where-IsConsistent test change w w.database.job refl c same keep
