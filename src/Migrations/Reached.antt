-- ===== src/Migrations/Reached.antt =====
-- Whatever the workers of src/features/migration/services do, and in whatever order, a new job stays
-- consistent, and the Draft never links a table with other rows than the copies of the source's.
use revisium_engine.Base.{
  ℕ, String, Option, none, some, List, [], ◌∷◌, ◌≡◌, Eq-String, ◌==◌, length, refl, sym, ◌∙◌, ap,
  inl, inr, arith, Bool-cases, some_inj, ltb, is_some, if◌then◌else◌,
}
use mathlib.Core.Path.{subst}
use revisium_engine.Base.Map
use revisium_engine.Base.Map.{Map, get-set, get-delete}
use revisium_engine.Migrations.{MigrationLease, TableMigration, Row, MigrationStatus, done}
use revisium_engine.Migrations.Copies.{AreCopies, AreCopies-refl}
use revisium_engine.Migrations.Loading.{IdOrder, IsListedById}
use revisium_engine.Migrations.Consistent.{IsObservation, IsConsistent}
use revisium_engine.Migrations.Preserved.{job_consistent, database_of-written}
use revisium_engine.Migrations.Preserved.Leases.{
  claim_status-IsConsistent, own_swap-IsConsistent, fail_stalled_swap-IsConsistent,
  renew-IsConsistent, release-IsConsistent, cancel_stalled-IsConsistent, retry-IsConsistent,
  fail-IsConsistent, begin_swap-IsConsistent,
}
use revisium_engine.Migrations.Preserved.Copying.{begin_copy-IsConsistent}
use revisium_engine.Migrations.Preserved.Batches.{copy_next_batch-IsConsistent}
use revisium_engine.Migrations.Preserved.Swapping.{swap-IsConsistent, abort-IsConsistent}
use revisium_engine.Migrations.Transitions.{begin_swap}
use revisium_engine.Migrations.Leases.{find_owned, owned_in}
use revisium_engine.Migrations.Batches.{Toolkit}
use revisium_engine.Migrations.Swap.{SwapTerms}
use revisium_engine.Migrations.Steps.{
  StepResult, continues_with, run_step, step_of_status, copy_next_batch,
}
use revisium_engine.Migrations.Events.{World, Event, database_of, act, observe, step, run}

none_ne_some : {A : Type 0} {a : A} → ◌≡◌ {A = Option A} none (some a) → ⊥
none_ne_some h = let broken = ap is_some h in absurd (ground arith)

none_held :
    {P : Type 0} (token : String) (m : TableMigration P)
    → Map.get {V = TableMigration P} ([]) token ≡ some m
    → ⊥
none_held {P} token m held = none_ne_some (sym (Map.get-nil {V = TableMigration P} token) ∙ held)

module _ {P : Type 0} where
  owned_in_job :
      (job : Option (TableMigration P)) (lease : MigrationLease) (m : TableMigration P)
      → owned_in job lease ≡ some m
      → job ≡ some m
  owned_in_job none lease m h = cc
  owned_in_job (some job) lease m h = ground arith

module _ {P J : Type 0} (source_id : String) (source : List (Row J)) where
  -- A job that was just created, of a table whose source the Draft links, before any worker read it.
  abbrev pub IsNew : World P J → TableMigration P → Type 0
  IsNew w m =
      (w.database.job ≡ some m)
      × (w.observed ≡ [])
      × (w.database.linked ≡ source_id ∷ [])
      × (Map.get w.database.tables source_id ≡ some source)
      × (m.status ≡ MigrationStatus.pending)
      × (m.source_table_version_id ≡ source_id)
      × (m.total_rows ≡ length source)
      × (m.shadow_table_version_id ≡ none)
      × (m.copied_rows ≡ 0)
      × (m.last_copied_row_id ≡ none)

  pub new-IsConsistent :
      (w : World P J) (m : TableMigration P) → IsNew w m → IsConsistent source_id source w
  new-IsConsistent w m
        (found, unread, linked, kept, pending, at_source, total, shadow, copied, last) =
      record {
        kept = kept;
        linked = inl linked;
        job = rw found (at_source, total, rw pending (shadow, copied, last));
        observed = λ token read held.
            absurd (none_held token read (subst (λ o. Map.get o token ≡ some read) unread held));
      }

  read-IsConsistent :
      (found : Option (TableMigration P)) (token : String) (w : World P J)
      → ((m : TableMigration P) → found ≡ some m → w.database.job ≡ some m)
      → IsConsistent source_id source w
      → IsConsistent source_id source (observe found token w)
  read-IsConsistent none token w of_job c = record {
    kept = c.kept;
    linked = c.linked;
    job = c.job;
    observed =
        λ other m held. c.observed other m (ground (arith, get-delete w.observed token other));
  }
  read-IsConsistent (some found) token w of_job c = record {
    kept = c.kept;
    linked = c.linked;
    job = c.job;
    observed = λ other m held. elim (Bool-cases (token == other)) [
      | inl same ↦
          let read : found ≡ m = some_inj (ground (arith, get-set w.observed token other found)) in
          let job = job_consistent source_id source w found c (of_job found refl) in
          subst (λ r. IsObservation source_id source w.database.job r) read
            (job.0, rw (of_job found refl) (λ shadow named. named))
      | inr another ↦ c.observed other m (ground (arith, get-set w.observed token other found))
    ];
  }

  linked_rows :
      (w : World P J)
      → IsConsistent source_id source w
      → (version : String) × (rows : List (Row J)) × (w.database.linked ≡ version ∷ [])
        × (Map.get w.database.tables version ≡ some rows)
        × AreCopies source rows
  linked_rows w c = elim c.linked [
    | inl linked ↦ (source_id, source, linked, c.kept, AreCopies-refl source)
    | inr (gone, shadow, copies, linked, other, held, all) ↦ (shadow, copies, linked, held, all)
  ]

module _ {P J : Type 0} (kit : Toolkit P J) (terms : SwapTerms P) (order : IdOrder kit.is_greater)
    (source_id : String) (source : List (Row J)) (listed : IsListedById kit source) where
  pub step_of_status-IsConsistent :
      (status : MigrationStatus) (w : World P J) (lease : MigrationLease)
      (migration : TableMigration P) (fresh : String) (now : ℕ)
      → IsConsistent source_id source w
      → IsObservation source_id source w.database.job migration
      → IsConsistent source_id source (record w {
        database =
            database_of
              (step_of_status kit terms status lease migration fresh now w.database)
              w.database;
      })
  step_of_status-IsConsistent MigrationStatus.pending w lease migration fresh now c o =
      begin_copy-IsConsistent source_id source w lease migration fresh now c o
  step_of_status-IsConsistent MigrationStatus.copying w lease migration fresh now c o =
      elim (Bool-cases (ltb migration.copied_rows migration.total_rows)) [
        | inl more ↦
            subst
              (λ b. IsConsistent source_id source (record w {
                database =
                    database_of
                      (if b
                        then copy_next_batch kit terms lease migration now w.database
                        else continues_with StepResult.continue
                            (done (begin_swap lease now w.database)))
                      w.database;
              }))
              (sym more)
              (copy_next_batch-IsConsistent kit terms source_id source w lease migration now c o
                listed order)
        | inr all ↦
            subst
              (λ b. IsConsistent source_id source (record w {
                database =
                    database_of
                      (if b
                        then copy_next_batch kit terms lease migration now w.database
                        else continues_with StepResult.continue
                            (done (begin_swap lease now w.database)))
                      w.database;
              }))
              (sym all)
              (subst (λ db. IsConsistent source_id source (record w { database = db }))
                (sym (
                  database_of-written StepResult.continue (begin_swap lease now w.database)
                    w.database))
                (begin_swap-IsConsistent source_id source w c lease now))
      ]
  step_of_status-IsConsistent MigrationStatus.swapping w lease migration fresh now c o =
      swap-IsConsistent terms source_id source w lease migration now c o
  step_of_status-IsConsistent _ w lease migration fresh now c o = c

  act-IsConsistent :
      (read : Option (TableMigration P)) (w : World P J) (token fresh : String) (now : ℕ)
      → Map.get w.observed token ≡ read
      → IsConsistent source_id source w
      → IsConsistent source_id source
          (record w { database = act kit terms read token fresh now w.database })
  unfolding run_step
  act-IsConsistent none w token fresh now held c = c
  act-IsConsistent (some m) w token fresh now held c =
      step_of_status-IsConsistent m.status w _ m fresh now c (c.observed token m held)

  step-IsConsistent :
      (event : Event P) (w : World P J)
      → IsConsistent source_id source w
      → IsConsistent source_id source (step kit terms event w)
  unfolding step find_owned
  step-IsConsistent (Event.claim_of status lease timeout now) w c =
      claim_status-IsConsistent source_id source w c status lease timeout now
  step-IsConsistent (Event.own_swap_of owner lease now) w c =
      own_swap-IsConsistent source_id source w c owner lease now
  step-IsConsistent (Event.fail_swap_of owner now) w c =
      fail_stalled_swap-IsConsistent source_id source w c owner now
  step-IsConsistent (Event.read_of lease) w c =
      read-IsConsistent source_id source (owned_in w.database.job lease) lease.token w
        (owned_in_job w.database.job lease) c
  step-IsConsistent (Event.act_of token fresh now) w c =
      act-IsConsistent (Map.get w.observed token) w token fresh now refl c
  step-IsConsistent (Event.retry_of lease) w c = retry-IsConsistent source_id source w c lease
  step-IsConsistent (Event.fail_of lease message now) w c =
      fail-IsConsistent source_id source w c lease message now
  step-IsConsistent (Event.renew_of lease now) w c =
      renew-IsConsistent source_id source w c lease now
  step-IsConsistent (Event.release_of lease) w c = release-IsConsistent source_id source w c lease
  step-IsConsistent (Event.cancel_stalled_of timeout now) w c =
      cancel_stalled-IsConsistent source_id source w c timeout now
  step-IsConsistent Event.abort w c = abort-IsConsistent source_id source w c

  run_keeps :
      (events : List (Event P)) (w : World P J)
      → IsConsistent source_id source w
      → IsConsistent source_id source (run kit terms events w)
  unfolding run
  run_keeps [] w c = c
  run_keeps (event ∷ events) w c =
      run_keeps events (step kit terms event w) (step-IsConsistent event w c)

  -- A new job stays consistent whatever the workers do, and in whatever order. While its record is
  -- there, either no row is copied and there is no shadow table, which is so while it is pending; or
  -- the shadow table has the copies of as many first rows of the source as the checkpoint counts,
  -- which is so while it copies or swaps; a job that swaps has copied all rows, and one at another
  -- status is at one of the two. What workers read names no other shadow table; and the
  -- Draft links the source, or, once the record is gone, a table with the copies of all rows. The
  -- source lists its rows by ascending ids, which the database compares by a strict order and none of
  -- which is blank.
  pub run-IsConsistent :
      (events : List (Event P)) (w : World P J) (m : TableMigration P)
      → IsNew source_id source w m
      → IsConsistent source_id source (run kit terms events w)
  run-IsConsistent events w m new = run_keeps events w (new-IsConsistent source_id source w m new)

  -- Whatever the workers do to a new job, and in whatever order, the Draft links exactly one version
  -- of the table, and its rows are the copies of all rows of the source, in order, each once. The
  -- source lists its rows by ascending ids, which the database compares by a strict order and none of
  -- which is blank.
  pub run-linked :
      (events : List (Event P)) (w : World P J) (m : TableMigration P)
      → IsNew source_id source w m
      → (version : String) × (rows : List (Row J)) × ((run kit terms events w).database.linked
          ≡ version ∷ [])
        × (Map.get (run kit terms events w).database.tables version ≡ some rows)
        × AreCopies source rows
  run-linked events w m new =
      linked_rows source_id source (run kit terms events w) (run-IsConsistent events w m new)
