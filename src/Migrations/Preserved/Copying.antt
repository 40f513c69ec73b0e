-- ===== src/Migrations/Preserved/Copying.antt =====
-- `beginCopy` and `writeBatch` keep the job consistent: the shadow table starts empty, and a batch
-- adds the copies of exactly the next rows of the source, whatever the worker read and when.
use revisium_engine.Base.{
  ℕ, String, true, Option, none, some, List, [], ◌≡◌, ◌≢◌, Eq-String, Eq-ℕ, ◌==◌, refl, ◌∙◌, ap,
  inl, inr, arith, Bool-cases, Option-cases, ◌&&◌,
}
use mathlib.Core.Path.{subst}
use revisium_engine.Base.Map
use revisium_engine.Base.Map.{Map, get-set_other, get-set_same}
use revisium_engine.Migrations.{
  MigrationLease, TableMigration, Row, update_where, is_pending, is_value,
}
use revisium_engine.Migrations.Consistent.{IsOf, IsObservation, IsConsistent}
use revisium_engine.Migrations.Preserved.{job_consistent, linked_source, pending_stage}
use revisium_engine.Migrations.Transitions.{
  begin_copy, copying_into, commit_copy, create_unless, create_shadow_table, or_value,
}
use revisium_engine.Migrations.Batches.{last_row}
use revisium_engine.Migrations.Steps.{StepResult, continues_with}
use revisium_engine.Migrations.Events.{World, database_of}

other_key :
    {J : Type 0} (source_id : String) (source : List (Row J)) (tables : Map String (List (Row J)))
    (key : String)
    → Map.get tables source_id ≡ some source
    → Map.get tables key ≡ none
    → key ≢ source_id
other_key source_id source tables key kept free same =
    let found = ap (λ k. Map.get tables k) same in cc

module _ {P J : Type 0} (source_id : String) (source : List (Row J)) where
  -- The job starts to copy into a new table.
  begun-IsConsistent :
      (w : World P J) (m migration : TableMigration P) (fresh : String) (now : ℕ)
      → IsConsistent source_id source w
      → w.database.job ≡ some m
      → is_pending m.status ≡ true
      → Map.get w.database.tables fresh ≡ none
      → IsConsistent source_id source (record w {
        database = record w.database {
          job = some (copying_into migration fresh now m);
          tables = Map.set w.database.tables fresh [];
        };
      })
  unfolding last_row
  begun-IsConsistent w m migration fresh now c found pending free =
      let (of_source, of_total, stage) = job_consistent source_id source w m c found in
      let (unnamed, uncounted, unread) =
        pending_stage source_id source w.database.tables m.status pending stage in
      let other = other_key source_id source w.database.tables fresh c.kept free in
      record {
        kept = get-set_other w.database.tables fresh source_id [] other ∙ c.kept;
        linked = inl (linked_source source_id source w.database m found c.linked);
        job = (
          of_source,
          of_total,
          record {
            shadow = fresh;
            named = refl;
            other = other;
            copies = [];
            held = get-set_same w.database.tables fresh [];
            copied = [];
            left = source;
            split = refl;
            same = tt;
            count = uncounted;
            last = unread;
          },
        );
        observed = λ token read held.
            let (read_source, of_job) = c.observed token read held in
            (
              read_source,
              λ shadow named. let still = subst (IsOf read) found of_job shadow named in cc,
            );
      }

  begin_where-IsConsistent :
      (w : World P J) (lease : MigrationLease) (migration : TableMigration P) (fresh : String)
      (now : ℕ) (job : Option (TableMigration P))
      → w.database.job ≡ job
      → IsConsistent source_id source w
      → IsObservation source_id source job migration
      → let version_id = or_value migration.shadow_table_version_id fresh in
        IsConsistent source_id source (record w {
          database =
              database_of
                (continues_with StepResult.continue (
                  commit_copy
                    (update_where
                      (λ m.
                        m.id == lease.migration_id
                        && is_pending m.status
                        && is_value m.locked_by lease.token)
                      (copying_into migration version_id now)
                      job
                      w.database)
                    migration
                    version_id))
                w.database;
        })
  begin_where-IsConsistent w lease migration fresh now none found c o = c
  begin_where-IsConsistent w lease migration fresh now (some m) found c o =
      elim (Bool-cases
        (m.id == lease.migration_id && is_pending m.status && is_value m.locked_by lease.token)) [
          | inr left ↦ rw (left, update_where) c
          | inl chosen ↦
              rw (chosen, update_where)
                (elim (Option-cases migration.shadow_table_version_id) [
                  | inr (shadow, named) ↦
                      let (unnamed, uncounted, unread) =
                        pending_stage source_id source w.database.tables m.status (ground arith)
                          (job_consistent source_id source w m c found).2 in
                      let still = o.1 shadow named in cc
                  | inl unnamed ↦ elim (Option-cases (Map.get w.database.tables fresh)) [
                    | inr (rows, taken) ↦
                        rw
                          (
                            unnamed, commit_copy, create_unless, create_shadow_table, o.0, c.kept,
                            taken,
                          )
                          c
                    | inl free ↦
                        rw
                          (
                            unnamed, commit_copy, create_unless, create_shadow_table, o.0, c.kept,
                            free,
                          )
                          (begun-IsConsistent w m migration fresh now c found (ground arith) free)
                  ]
                ])
        ]

  -- What a worker that read the job before does to begin the copy keeps the job consistent.
  pub begin_copy-IsConsistent :
      (w : World P J) (lease : MigrationLease) (migration : TableMigration P) (fresh : String)
      (now : ℕ)
      → IsConsistent source_id source w
      → IsObservation source_id source w.database.job migration
      → IsConsistent source_id source (record w {
        database =
            database_of
              (continues_with StepResult.continue (begin_copy lease migration fresh now w.database))
              w.database;
      })
  unfolding begin_copy
  begin_copy-IsConsistent w lease migration fresh now c o =
      begin_where-IsConsistent w lease migration fresh now w.database.job refl c o
