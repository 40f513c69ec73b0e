-- ===== src/Migrations/Alone/Completed.antt =====
-- The run of an undisturbed worker of src/features/migration/services: as many steps as the table has
-- rows, and three more, are enough to complete the job.
use revisium_engine.Base.{
  ℕ, zero, suc, String, false, Option, none, some, List, [], ◌∷◌, ◌++◌, ◌≡◌, ◌≢◌, Eq-String, length,
  length-append, refl, sym, ◌∙◌, ap, arith, ◌<◌, ◌≤◌, ◌+◌, ltb, Bool-cases, inl, inr, if◌then◌else◌,
  ◌⊎◌, some_inj, ◌==◌,
}
use mathlib.Core.Path.{subst}
use mathlib.Core.List.{append-nil}
use revisium_engine.Base.Map
use revisium_engine.Migrations.{
  MigrationLease, TableMigration, Row, Database, MigrationStatus, done, is_copying,
}
use revisium_engine.Migrations.Copies.{AreCopies, length_of_copies}
use revisium_engine.Migrations.Loading.{IdOrder, IsListedById}
use revisium_engine.Migrations.Consistent.{IsCopiedTo, IsConsistent, IsOf}
use revisium_engine.Migrations.Preserved.{job_consistent, copying_stage, linked_source}
use revisium_engine.Migrations.Preserved.Swapping.{no_more}
use revisium_engine.Migrations.Transitions.{begin_swap, copying_into}
use revisium_engine.Migrations.Batches.{Toolkit}
use revisium_engine.Migrations.Swap.{SwapTerms}
use revisium_engine.Migrations.Steps.{
  StepResult, step_of_status, run_next_step, run_steps, continues_with, copy_next_batch,
}
use revisium_engine.Migrations.Events.{World, database_of}
use revisium_engine.Migrations.Reached.{IsNew, new-IsConsistent, step_of_status-IsConsistent}
use revisium_engine.Migrations.Alone.{IsAccepting, IsAgreeing, IsHeld, run_next_step-held}
use revisium_engine.Migrations.Alone.Copying.{copying_step-held, begin_copy-held, batch_written}
use revisium_engine.Migrations.Alone.Finishing.{swap_begun, begin_swap-held, swap-held}

ltb_of_le : (a b : ℕ) → b ≤ a → ltb a b ≡ false
ltb_of_le a b h = ground arith

module _ {P J : Type 0} (kit : Toolkit P J) (terms : SwapTerms P) (fresh : ℕ → String)
    (clock : ℕ → ℕ) (lease : MigrationLease) where
  abbrev unobserved : Database P J → World P J
  unobserved db = record { database = db; observed = [] }

  -- The run with the given fuel completes the job: its record is gone, and the Draft links another
  -- version of the table, with the copies of all rows of the source.
  abbrev pub IsCompletedBy : ℕ → String → List (Row J) → Database P J → Type 0
  IsCompletedBy fuel source_id source db =
      (after : Database P J) × (shadow : String) × (copies : List (Row J)) × (run_steps kit terms
          fresh clock fuel lease db
        ≡ some (after, StepResult.completed))
      × (after.job ≡ none)
      × (after.linked ≡ shadow ∷ [])
      × (shadow ≢ source_id)
      × (Map.get after.tables shadow ≡ some copies)
      × AreCopies source copies

  run_steps-continue :
      (fuel : ℕ) (db after : Database P J)
      → run_next_step kit terms lease (fresh fuel) (clock fuel) db ≡ (after, StepResult.continue)
      → run_steps kit terms fresh clock (suc fuel) lease db
        ≡ run_steps kit terms fresh clock fuel lease after
  unfolding run_steps
  run_steps-continue fuel db after h =
      ap
        (λ p. elim p.1 as (λ r. Option (Database P J × StepResult)) [
          | StepResult.continue ↦ run_steps kit terms fresh clock fuel lease p.0
          | other ↦ some (p.0, other)
        ])
        h

  run_steps-completed :
      (fuel : ℕ) (db after : Database P J)
      → run_next_step kit terms lease (fresh fuel) (clock fuel) db ≡ (after, StepResult.completed)
      → run_steps kit terms fresh clock (suc fuel) lease db ≡ some (after, StepResult.completed)
  unfolding run_steps
  run_steps-completed fuel db after h =
      ap
        (λ p. elim p.1 as (λ r. Option (Database P J × StepResult)) [
          | StepResult.continue ↦ run_steps kit terms fresh clock fuel lease p.0
          | other ↦ some (p.0, other)
        ])
        h

  after_step :
      (fuel : ℕ) (source_id : String) (source : List (Row J)) (db after : Database P J)
      → run_next_step kit terms lease (fresh fuel) (clock fuel) db ≡ (after, StepResult.continue)
      → IsCompletedBy fuel source_id source after
      → IsCompletedBy (suc fuel) source_id source db
  after_step fuel source_id source db after h
        (end, shadow, copies, completes, gone, linked, other, held, all) =
      (
        end,
        shadow,
        copies,
        run_steps-continue fuel db after h ∙ completes,
        gone,
        linked,
        other,
        held,
        all,
      )

module _ {P J : Type 0} (kit : Toolkit P J) (terms : SwapTerms P) (fresh : ℕ → String)
    (clock : ℕ → ℕ) (lease : MigrationLease) (source : List (Row J)) (accepting : IsAccepting kit)
    (agreeing : IsAgreeing terms) (order : IdOrder kit.is_greater)
    (listed : IsListedById kit source) where
  -- With all rows copied, two more steps complete the job.
  finishes :
      (fuel : ℕ) (db : Database P J) (m : TableMigration P) (held : IsHeld lease db m)
      → IsConsistent m.source_table_version_id source (record { database = db; observed = [] })
      → m.status ≡ MigrationStatus.copying
      → m.copied_rows ≡ m.total_rows
      → IsCompletedBy kit terms fresh clock lease
          (suc (suc fuel))
          m.source_table_version_id
          source
          db
  finishes fuel db m held c copying all =
      let (of_source, of_total, stage) =
        job_consistent m.source_table_version_id source (record { database = db; observed = [] }) m
          c held.found in
      let k =
        copying_stage m.source_table_version_id source db.tables m.status (ap is_copying copying)
          stage in
      let linked = linked_source m.source_table_version_id source db m held.found c.linked in
      let nothing_left =
        no_more k.copied k.left (ap length (sym k.split) ∙ sym of_total ∙ sym all ∙ k.count) in
      let everything = k.split ∙ ap (λ l. k.copied ++ l) nothing_left ∙ append-nil k.copied in
      let copies = subst (λ l. AreCopies l k.copies) (sym everything) k.same in
      let begun = swap_begun kit terms lease db m held (clock (suc fuel)) in
      let swapping : Database P J = record db { job = some begun } in
      let held_begun : IsHeld lease swapping begun = record {
        found = refl;
        own_id = held.own_id;
        own = held.own;
        draft = held.draft;
        unchanged = held.unchanged;
        sized = held.sized;
        nonblank = held.nonblank;
      } in
      after_step kit terms fresh clock lease (suc fuel) m.source_table_version_id source db swapping
        (run_next_step-held kit terms lease db m held (fresh (suc fuel)) (clock (suc fuel)) swapping
          StepResult.continue
          (ap (λ s. step_of_status kit terms s lease m (fresh (suc fuel)) (clock (suc fuel)) db)
              copying
            ∙ ap
                (λ b.
                  if b
                  then copy_next_batch kit terms lease m (clock (suc fuel)) db
                  else continues_with StepResult.continue
                      (done (begin_swap lease (clock (suc fuel)) db)))
                (ltb_of_le m.copied_rows m.total_rows (omega arith))
            ∙ ap (λ p. continues_with StepResult.continue (done p))
                (begin_swap-held kit terms lease db m held (clock (suc fuel)) copying all)))
        (
          record db { job = none; linked = k.shadow ∷ [] },
          k.shadow,
          k.copies,
          run_steps-completed kit terms fresh clock lease fuel swapping _ (
              run_next_step-held kit terms lease swapping begun held_begun (fresh fuel) (clock fuel)
                _ StepResult.completed
                (ap (continues_with StepResult.completed) (
                  swap-held kit terms lease swapping begun held_begun k.shadow k.copies (clock fuel)
                    agreeing refl k.named k.other linked k.held
                    (length_of_copies source k.copies copies ∙ sym of_total)))),
          refl,
          refl,
          k.other,
          k.held,
          copies,
        )

  -- A step of the job leaves it consistent.
  step_keeps :
      (db after : Database P J) (m : TableMigration P) (held : IsHeld lease db m)
      (result : StepResult) (new : String) (now : ℕ)
      → IsConsistent m.source_table_version_id source (record { database = db; observed = [] })
      → step_of_status kit terms m.status lease m new now db ≡ done (after, result)
      → IsConsistent m.source_table_version_id source (record { database = after; observed = [] })
  step_keeps db after m held result new now c h =
      subst
        (λ d.
          IsConsistent m.source_table_version_id source (record { database = d; observed = [] }))
        (ap (λ a. database_of a db) h)
        (step_of_status-IsConsistent kit terms order m.source_table_version_id source listed
          m.status (record { database = db; observed = [] }) lease m new now c
          (refl, subst (IsOf m) (sym held.found) (λ shadow named. named)))

  abbrev CopyingCompletes : ℕ → Type 0
  CopyingCompletes n =
      (db : Database P J) (m : TableMigration P)
      → IsHeld lease db m
      → IsConsistent m.source_table_version_id source (record { database = db; observed = [] })
      → m.status ≡ MigrationStatus.copying
      → length source ≤ m.copied_rows + n
      → IsCompletedBy kit terms fresh clock lease (suc (suc n)) m.source_table_version_id source db

  copies_on :
      (n : ℕ) (db : Database P J) (m : TableMigration P) (held : IsHeld lease db m)
      → CopyingCompletes n
      → IsConsistent m.source_table_version_id source (record { database = db; observed = [] })
      → m.status ≡ MigrationStatus.copying
      → length source ≤ m.copied_rows + suc n
      → IsCopiedTo m.source_table_version_id source db.tables m.shadow_table_version_id
          m.copied_rows m.last_copied_row_id
      → m.total_rows ≡ length source
      → m.copied_rows < m.total_rows
      → IsCompletedBy kit terms fresh clock lease
          (suc (suc (suc n)))
          m.source_table_version_id
          source
          db
  copies_on n db m held then_completes c copying enough k of_total more =
      let now = clock (suc (suc n)) in
      let (last, rows, migrated, steps, some_rows) =
        copying_step-held kit terms lease db m held source k (fresh (suc (suc n))) now accepting
          listed order copying c.kept of_total more in
      let after =
        batch_written kit terms lease db m held last rows migrated k.copies now k.shadow in
      after_step kit terms fresh clock lease (suc (suc n)) m.source_table_version_id source db after
        (run_next_step-held kit terms lease db m held (fresh (suc (suc n))) now after
          StepResult.continue steps)
        (then_completes after
          (record m {
            copied_rows = m.copied_rows + length rows;
            last_copied_row_id = some last.id;
            current_batch = m.current_batch + 1;
            last_progress_at = some now;
          })
          (record {
            found = refl;
            own_id = held.own_id;
            own = held.own;
            draft = held.draft;
            unchanged = held.unchanged;
            sized = held.sized;
            nonblank = held.nonblank;
          })
          (step_keeps db after m held StepResult.continue (fresh (suc (suc n))) now c steps) copying
          (omega arith))

  -- Either all rows are copied, or some are left.
  copied_or_left :
      (db : Database P J) (m : TableMigration P)
      → IsHeld lease db m
      → IsConsistent m.source_table_version_id source (record { database = db; observed = [] })
      → m.status ≡ MigrationStatus.copying
      → (k : IsCopiedTo m.source_table_version_id source db.tables m.shadow_table_version_id
          m.copied_rows m.last_copied_row_id)
        × (m.total_rows ≡ length source)
        × ((m.copied_rows ≡ m.total_rows) ⊎ (m.copied_rows < m.total_rows))
  copied_or_left db m held c copying =
      let (of_source, of_total, stage) =
        job_consistent m.source_table_version_id source (record { database = db; observed = [] }) m
          c held.found in
      let k =
        copying_stage m.source_table_version_id source db.tables m.status (ap is_copying copying)
          stage in
      let within : m.copied_rows ≤ m.total_rows =
        omega (arith, of_total, k.count, ap length k.split, length-append k.copied k.left) in
      (
        k,
        of_total,
        elim (Bool-cases (ltb m.copied_rows m.total_rows)) [
          | inr all ↦ inl (ground arith)
          | inl more ↦ inr (ground arith)
        ],
      )

  copying_completes : (n : ℕ) → CopyingCompletes n
  copying_completes zero db m held c copying enough =
      let (k, of_total, left) = copied_or_left db m held c copying in
      elim left [
        | inl all ↦ finishes zero db m held c copying all
        | inr more ↦ absurd (omega arith)
      ]
  copying_completes (suc n) db m held c copying enough =
      let (k, of_total, left) = copied_or_left db m held c copying in
      elim left [
        | inl all ↦ finishes (suc n) db m held c copying all
        | inr more ↦ copies_on n db m held (copying_completes n) c copying enough k of_total more
      ]

  -- A worker that holds the lease of a new job, and that nobody disturbs, completes the job in as
  -- many steps as the source has rows, and three more: the record is gone, and the Draft links another
  -- version of the table, whose rows are the copies of all rows of the source. The batches are not
  -- empty, patches, hooks, validation and the checks of other parts accept, the Draft and its schema
  -- are those the job was created with, the new version id is neither blank nor taken, and the source
  -- lists its rows by ascending ids, strictly ordered and none blank.
  pub run_steps-completes :
      (db : Database P J) (m : TableMigration P)
      → IsHeld lease db m
      → IsNew m.source_table_version_id source (record { database = db; observed = [] }) m
      → let fuel = suc (suc (length source)) in
        Map.get db.tables (fresh fuel) ≡ none
        → (fresh fuel == "") ≡ false
        → IsCompletedBy kit terms fresh clock lease (suc fuel) m.source_table_version_id source db
  run_steps-completes db m held new free nonblank =
      let fuel = suc (suc (length source)) in
      let (found, unread, linked, kept, pending, at_source, total, unnamed, uncounted, last) =
        new in
      let begun = copying_into m (fresh fuel) (clock fuel) m in
      let copying : Database P J = record db {
        job = some begun;
        tables = Map.set db.tables (fresh fuel) [];
      } in
      let steps : step_of_status kit terms m.status lease m (fresh fuel) (clock fuel) db
          ≡ done (copying, StepResult.continue) =
        ap (λ s. step_of_status kit terms s lease m (fresh fuel) (clock fuel) db) pending
        ∙ ap (continues_with StepResult.continue) (
            begin_copy-held kit terms lease db m held (fresh fuel) (clock fuel) source pending
              unnamed kept free) in
      after_step kit terms fresh clock lease fuel m.source_table_version_id source db copying
        (run_next_step-held kit terms lease db m held (fresh fuel) (clock fuel) copying
          StepResult.continue steps)
        (copying_completes (length source) copying begun
          (record {
            found = refl;
            own_id = held.own_id;
            own = held.own;
            draft = held.draft;
            unchanged = held.unchanged;
            sized = held.sized;
            nonblank = λ shadow named. subst (λ s. (s == "") ≡ false) (some_inj named) nonblank;
          })
          (step_keeps db copying m held StepResult.continue (fresh fuel) (clock fuel)
            (new-IsConsistent m.source_table_version_id source
              (record { database = db; observed = [] }) m new)
            steps)
          refl (omega (arith, uncounted)))
