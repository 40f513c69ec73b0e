-- ===== src/Migrations/Preserved/Batches.antt =====
-- `writeBatch` keeps the job consistent: a batch adds the copies of exactly the next rows of the
-- source, whatever the worker had read of the job and when.
use revisium_engine.Base.{
  ℕ, String, Bool, true, Option, none, some, List, ◌++◌, ◌≡◌, ◌≢◌, Eq-String, Eq-ℕ, ◌==◌, length,
  length-append, refl, sym, ◌∙◌, ap, inl, inr, arith, ◌+◌, Bool-cases, some_inj, ◌&&◌, eq_of_beq,
}
use mathlib.Core.Path.{subst}
use mathlib.Core.List.{append_assoc}
use revisium_engine.Base.Map
use revisium_engine.Base.Map.{Map, get-set_other, get-set_same}
use revisium_engine.Migrations.{
  MigrationLease, TableMigration, Row, Database, done, update_where, update_where-true,
  update_where-false, is_copying, is_value, same_value, >>=-eq-done, done_inj,
}
use revisium_engine.Migrations.Copies.{AreCopies, AreCopies-append, migrated-AreCopies}
use revisium_engine.Migrations.Loading.{
  IdOrder, IsListedById, last_row-append, load_batch_rows-next, drop, take-append-drop, last_id,
  id_of,
}
use revisium_engine.Migrations.Consistent.{IsCopiedTo, IsAtStage, IsOf, IsObservation, IsConsistent}
use revisium_engine.Migrations.Preserved.{
  job_consistent, linked_source, copying_stage, copying_status, database_of-keeps,
  continues_with-eq-done, shadow_table_of-some,
}
use revisium_engine.Migrations.Transitions.{advance_checkpoint}
use revisium_engine.Migrations.Batches.{
  Toolkit, last_row, load_batch_rows, migrate_and_process_batch, write_batch, commit_batch,
  insert_batch_into_shadow, insert_into, take, shadow_rows,
}
use revisium_engine.Migrations.Swap.{SwapTerms, shadow_table_of}
use revisium_engine.Migrations.Steps.{StepResult, copy_rows, copy_next_batch, rows_of}
use revisium_engine.Migrations.Events.{World, database_of}

module _ {P J : Type 0} (source_id : String) (source : List (Row J)) where
  -- The rows of a batch and its checkpoint are written together.
  written-IsConsistent :
      (w : World P J) (m : TableMigration P) (shadow : String) (batch more copies : List (Row J))
      (last : Row J) (count : ℕ) (now : ℕ)
      → IsConsistent source_id source w
      → w.database.job ≡ some m
      → is_copying m.status ≡ true
      → m.shadow_table_version_id ≡ some shadow
      → (k : IsCopiedTo source_id source w.database.tables m.shadow_table_version_id m.copied_rows
          m.last_copied_row_id)
      → k.left ≡ batch ++ more
      → AreCopies batch copies
      → last_row batch ≡ some last
      → count ≡ m.copied_rows + length batch
      → IsConsistent source_id source (record w {
        database = record w.database {
          job = some (record m {
            copied_rows = count;
            last_copied_row_id = some last.id;
            current_batch = m.current_batch + 1;
            last_progress_at = some now;
          });
          tables = Map.set w.database.tables shadow (k.copies ++ copies);
        };
      })
  written-IsConsistent w m shadow batch more copies last count now c found copying named k next same
        at_end counted =
      let (of_source, of_total, stage) = job_consistent source_id source w m c found in
      let at_shadow = some_inj (sym k.named ∙ named) in
      let other = subst (λ s. s ≢ source_id) at_shadow k.other in
      record {
        kept = get-set_other w.database.tables shadow source_id _ other ∙ c.kept;
        linked = inl (linked_source source_id source w.database m found c.linked);
        job = (
          of_source,
          of_total,
          subst
              (λ s.
                IsAtStage source_id source s (Map.set w.database.tables shadow (k.copies ++ copies))
                  m.shadow_table_version_id count (some last.id))
              (sym (copying_status m.status copying))
              (record {
                shadow = shadow;
                named = named;
                other = other;
                copies = k.copies ++ copies;
                held = get-set_same w.database.tables shadow _;
                copied = k.copied ++ batch;
                left = more;
                split =
                    k.split ∙ ap (λ l. k.copied ++ l) next ∙ sym (append_assoc k.copied batch more);
                same = AreCopies-append k.copied k.copies batch copies k.same same;
                count = omega (arith, counted, k.count, length-append k.copied batch);
                last = sym (ap id_of (last_row-append k.copied batch last at_end));
              }),
        );
        observed = λ token read held.
            let (read_source, of_job) = c.observed token read held in
            (read_source, subst (IsOf read) found of_job);
      }

module _ {P : Type 0} where
  -- the guard and the change of the checkpoint, for the record that the worker read
  abbrev is_current : MigrationLease → TableMigration P → TableMigration P → Bool
  is_current lease migration m =
      m.id == lease.migration_id
      && is_copying m.status
      && is_value m.locked_by lease.token
      && m.copied_rows == migration.copied_rows
      && same_value m.last_copied_row_id migration.last_copied_row_id

  abbrev advanced :
      {J : Type 0} → TableMigration P → ℕ → Row J → ℕ → TableMigration P → TableMigration P
  advanced migration count last now m = record m {
    copied_rows = migration.copied_rows + count;
    last_copied_row_id = some last.id;
    current_batch = m.current_batch + 1;
    last_progress_at = some now;
  }

module _ {P J : Type 0} (kit : Toolkit P J) (terms : SwapTerms P) (source_id : String)
    (source : List (Row J)) where
  insert_into-tables :
      (found : Option (List (Row J))) (shadow : String) (rows : List (Row J))
      (db after : Database P J)
      → insert_into kit found shadow rows db ≡ done after
      → (old : List (Row J)) × (found ≡ some old)
        × (after ≡ record db { tables = Map.set db.tables shadow (old ++ rows) })
  insert_into-tables none shadow rows db after h = cc
  insert_into-tables (some old) shadow rows db after h = (old, refl, sym (done_inj h))

  commit_batch-true :
      (db after : Database P J) (migration : TableMigration P) (shadow : String)
      (migrated : List (Row J)) (now : ℕ) (written : Bool)
      → commit_batch kit (db, true) migration shadow migrated now ≡ done (after, written)
      → (old : List (Row J)) × (Map.get db.tables shadow ≡ some old)
        × (after ≡ record db {
          tables =
              Map.set db.tables shadow
                (old ++ shadow_rows kit migration.target_schema_hash now migrated);
        })
  commit_batch-true db after migration shadow migrated now written h =
      let (made, inserted, returned) =
        >>=-eq-done (insert_batch_into_shadow kit migration shadow migrated now db) _ h in
      let (old, held, as_made) =
        insert_into-tables (Map.get db.tables shadow) shadow
          (shadow_rows kit migration.target_schema_hash now migrated) db made inserted in
      (old, held, sym (ap (λ p. p.0) (done_inj returned)) ∙ as_made)

  same_value-eq : (a b : Option String) → same_value a b ≡ true → a ≡ b
  same_value-eq none none h = refl
  same_value-eq none (some b) h = cc
  same_value-eq (some a) none h = cc
  same_value-eq (some a) (some b) h = ap some (eq_of_beq a b h)

  advanced-IsConsistent :
      (w : World P J) (lease : MigrationLease) (migration : TableMigration P) (shadow : String)
      (last : Row J) (migrated : List (Row J)) (now : ℕ) (job : Option (TableMigration P))
      (after : Database P J) (written : Bool)
      → w.database.job ≡ job
      → IsConsistent source_id source w
      → IsObservation source_id source job migration
      → IsListedById kit source
      → IdOrder kit.is_greater
      → migration.shadow_table_version_id ≡ some shadow
      → let rows = load_batch_rows kit source migration.last_copied_row_id migration.batch_size in
        last_row rows ≡ some last
        → migrate_and_process_batch kit rows migration.patches ≡ done migrated
        → commit_batch kit
            (update_where
              (is_current lease migration)
              (advanced migration (length rows) last now)
              job
              w.database)
            migration
            shadow
            migrated
            now
          ≡ done (after, written)
        → IsConsistent source_id source (record w { database = after })
  advanced-IsConsistent w lease migration shadow last migrated now none after written found c o
        listed order named at_end as_migrated h =
      subst (λ db. IsConsistent source_id source (record w { database = db }))
        (ap (λ p. p.0) (done_inj h)) c
  advanced-IsConsistent w lease migration shadow last migrated now (some m) after written found c o
        listed order named at_end as_migrated h =
      let rows = load_batch_rows kit source migration.last_copied_row_id migration.batch_size in
      elim (Bool-cases (is_current lease migration m)) [
        | inl chosen ↦
            let (old, held, as_made) =
              commit_batch-true
                (record w.database { job = some (advanced migration (length rows) last now m) })
                after migration shadow migrated now written
                (subst
                  (λ p. commit_batch kit p migration shadow migrated now ≡ done (after, written))
                  (update_where-true (is_current lease migration)
                    (advanced migration (length rows) last now) m w.database chosen)
                  h) in
            let k =
              copying_stage source_id source w.database.tables m.status (ground arith)
                (job_consistent source_id source w m c found).2 in
            let job_named = o.1 shadow named in
            let at_shadow = some_inj (sym k.named ∙ job_named) in
            let as_old =
              some_inj
                (sym held ∙ ap (λ s. Map.get w.database.tables s) (sym at_shadow) ∙ k.held) in
            let read_on =
              sym (same_value-eq m.last_copied_row_id migration.last_copied_row_id (ground arith))
              ∙ k.last in
            let batch = take migration.batch_size k.left in
            let as_batch =
              ap (λ l. load_batch_rows kit source l migration.batch_size) read_on
              ∙ ap (λ l. load_batch_rows kit l (last_id k.copied) migration.batch_size) k.split
              ∙ load_batch_rows-next kit order k.copied k.left migration.batch_size
                  (subst (IsListedById kit) k.split listed) in
            let copies = shadow_rows kit migration.target_schema_hash now migrated in
            let same_count : m.copied_rows ≡ migration.copied_rows = ground arith in
            let same_length = ap length as_batch in
            subst (λ db. IsConsistent source_id source (record w { database = db }))
              (ap
                  (λ l. record w.database {
                    job = some (advanced migration (length rows) last now m);
                    tables = Map.set w.database.tables shadow (l ++ copies);
                  })
                  (sym as_old)
                ∙ sym as_made)
              (written-IsConsistent source_id source w m shadow batch
                (drop migration.batch_size k.left) copies last (migration.copied_rows + length rows)
                now c found (ground arith) job_named k
                (sym (take-append-drop migration.batch_size k.left))
                (subst (λ l. AreCopies l copies) as_batch
                  (migrated-AreCopies kit rows migrated migration.patches
                    migration.target_schema_hash now as_migrated))
                (ap last_row (sym as_batch) ∙ at_end) (omega arith))
        | inr left ↦
            subst (λ db. IsConsistent source_id source (record w { database = db }))
              (ap (λ p. p.0)
                (done_inj (
                  subst
                    (λ p. commit_batch kit p migration shadow migrated now ≡ done (after, written))
                    (update_where-false (is_current lease migration)
                      (advanced migration (length rows) last now) m w.database left)
                    h)))
              c
      ]

  copy_rows-IsConsistent :
      (w : World P J) (lease : MigrationLease) (migration : TableMigration P) (shadow : String)
      (end : Option (Row J)) (now : ℕ) (after : Database P J) (result : StepResult)
      → IsConsistent source_id source w
      → IsObservation source_id source w.database.job migration
      → IsListedById kit source
      → IdOrder kit.is_greater
      → migration.shadow_table_version_id ≡ some shadow
      → let rows = load_batch_rows kit source migration.last_copied_row_id migration.batch_size in
        last_row rows ≡ end
        → copy_rows kit terms end rows lease migration shadow now w.database ≡ done (after, result)
        → IsConsistent source_id source (record w { database = after })
  unfolding write_batch advance_checkpoint
  copy_rows-IsConsistent w lease migration shadow none now after result c o listed order named
        at_end h =
      cc
  copy_rows-IsConsistent w lease migration shadow (some last) now after result c o listed order
        named at_end h =
      let rows = load_batch_rows kit source migration.last_copied_row_id migration.batch_size in
      let (migrated, as_migrated, validated) =
        >>=-eq-done (migrate_and_process_batch kit rows migration.patches) _ h in
      let (valid, as_valid, continued) = >>=-eq-done (kit.validate_rows migrated) _ validated in
      let (written, as_written) =
        continues_with-eq-done StepResult.continue _ after result continued in
      advanced-IsConsistent w lease migration shadow last migrated now w.database.job after written
        refl c o listed order named at_end as_migrated as_written

  -- What a worker that read the job before does to copy the next batch keeps the job consistent.
  pub copy_next_batch-IsConsistent :
      (w : World P J) (lease : MigrationLease) (migration : TableMigration P) (now : ℕ)
      → IsConsistent source_id source w
      → IsObservation source_id source w.database.job migration
      → IsListedById kit source
      → IdOrder kit.is_greater
      → IsConsistent source_id source (record w {
        database =
            database_of (copy_next_batch kit terms lease migration now w.database) w.database;
      })
  unfolding copy_next_batch write_batch advance_checkpoint
  copy_next_batch-IsConsistent w lease migration now c o listed order =
      database_of-keeps (λ db. IsConsistent source_id source (record w { database = db }))
        (copy_next_batch kit terms lease migration now w.database) w.database c
        λ after result h.
          let (shadow, as_shadow, copied) =
            >>=-eq-done (shadow_table_of migration.shadow_table_version_id) _ h in
          let batch : List (Row J) → List (Row J) =
            λ table. load_batch_rows kit table migration.last_copied_row_id migration.batch_size in
          copy_rows-IsConsistent w lease migration shadow (last_row (batch source)) now after result
            c o listed order
            (shadow_table_of-some migration.shadow_table_version_id shadow as_shadow) refl
            (subst
              (λ table.
                copy_rows kit terms (last_row (batch table)) (batch table) lease migration shadow
                  now w.database
                ≡ done (after, result))
              (ap rows_of (ap (λ key. Map.get w.database.tables key) o.0 ∙ c.kept)) copied)
