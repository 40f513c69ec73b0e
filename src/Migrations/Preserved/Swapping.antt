-- ===== src/Migrations/Preserved/Swapping.antt =====
-- The swap and the abort of a job keep it consistent: the Draft links the shadow table only once it
-- has the copies of all rows, and an abort deletes no table that the Draft links.
use revisium_engine.Base.{
  ℕ, String, Bool, true, Option, none, some, List, [], ◌∷◌, ◌++◌, ◌≡◌, ◌≢◌, Eq-String, Eq-ℕ, ◌==◌,
  length, length-append, refl, sym, ◌∙◌, ap, inl, inr, arith, Bool-cases, some_inj, ◌&&◌, beq_refl,
  ne_of_beq,
}
use mathlib.Core.Path.{subst}
use mathlib.Core.List.{append-nil}
use revisium_engine.Base.Map
use revisium_engine.Base.Map.{Map, get-delete_other}
use revisium_engine.Migrations.{
  MigrationLease, TableMigration, Row, Database, MigrationStatus, done, update_where,
  update_where-true, update_where-false, delete_where, delete_where-true, is_swapping,
  is_cancellable, >>=-eq-done, done_inj,
}
use revisium_engine.Migrations.Copies.{AreCopies}
use revisium_engine.Migrations.Consistent.{IsObservation, IsLinked, IsConsistent}
use revisium_engine.Migrations.Preserved.{
  job_consistent, linked_source, swapping_stage, database_of-keeps, continues_with-eq-done,
  shadow_table_of-some,
}
use revisium_engine.Migrations.Transitions.{
  lock_swap, complete_swap, swap_owned_by, cancel, commit_cancel, delete_unlinked_table,
}
use revisium_engine.Migrations.Swap.{
  SwapTerms, shadow_table_of, recheck, link_shadow_table, swap_locked, delete_swapped_record,
  swap_within_transaction, ensure_revision_is_draft, ensure_draft_links_source,
  ensure_draft_schema_unchanged, ensure_patches_give_target_schema, ensure_shadow_complete,
}
use revisium_engine.Migrations.Steps.{StepResult, continues_with}
use revisium_engine.Migrations.Events.{
  World, database_of, or_before, abort_status, abort_found, abort_migration,
}

pub no_more : {A : Type 0} (xs ys : List A) → length (xs ++ ys) ≡ length xs → ys ≡ []
no_more xs [] h = refl
no_more xs (y ∷ ys) h = absurd (omega (arith, length-append xs (y ∷ ys)))

module _ {P J : Type 0} (source_id : String) (source : List (Row J)) where
  pub link_shadow_table-eq :
      (migration : TableMigration P) (shadow : String) (db : Database P J)
      → migration.source_table_version_id ≡ source_id
      → db.linked ≡ source_id ∷ []
      → link_shadow_table migration shadow db ≡ record db { linked = shadow ∷ [] }
  unfolding link_shadow_table
  link_shadow_table-eq migration shadow db named linked =
      rw (linked, named, beq_refl source_id) refl

  -- Once the job is gone, what is left is the links.
  gone-IsConsistent :
      (w : World P J) (db : Database P J)
      → IsConsistent source_id source w
      → Map.get db.tables source_id ≡ some source
      → db.job ≡ none
      → IsLinked source_id source db
      → IsConsistent source_id source (record w { database = db })
  gone-IsConsistent w db c kept gone linked = record {
    kept = kept;
    linked = linked;
    job = rw gone tt;
    observed = λ token read held. ((c.observed token read held).0, rw gone tt);
  }

  delete_unlinked_table-keeps :
      (shadow : Option String) (db : Database P J)
      → db.linked ≡ source_id ∷ []
      → Map.get db.tables source_id ≡ some source
      → let after = delete_unlinked_table shadow db in
        (Map.get after.tables source_id ≡ some source)
        × (after.job ≡ db.job)
        × (after.linked ≡ db.linked)
  delete_unlinked_table-keeps none db linked kept = (kept, refl, refl)
  delete_unlinked_table-keeps (some shadow) db linked kept =
      elim (Bool-cases (source_id == shadow)) [
        | inl same ↦ rw (linked, same, delete_unlinked_table) (kept, refl, refl)
        | inr other ↦
            rw (linked, other, delete_unlinked_table)
              (
                get-delete_other db.tables shadow source_id
                      (λ eq. ne_of_beq source_id shadow other (sym eq))
                    ∙ kept,
                refl,
                refl,
              )
      ]

  cancel_where-IsConsistent :
      (w : World P J) (m : TableMigration P)
      → w.database.job ≡ some m
      → IsConsistent source_id source w
      → IsConsistent source_id source (record w {
        database =
            (commit_cancel
              (delete_where (λ t. t.id == m.id && is_cancellable t.status) (some m) w.database)
              m).0;
      })
  cancel_where-IsConsistent w m found c =
      elim (Bool-cases (m.id == m.id && is_cancellable m.status)) [
        | inr left ↦ rw (left, delete_where) c
        | inl chosen ↦
            rw (chosen, delete_where)
              (let unlocked = record w.database { job = none } in
                let linked = linked_source source_id source w.database m found c.linked in
                let kept =
                  delete_unlinked_table-keeps m.shadow_table_version_id unlocked linked c.kept in
                gone-IsConsistent w (delete_unlinked_table m.shadow_table_version_id unlocked) c
                  kept.0 kept.1 (inl (kept.2 ∙ linked)))
      ]

  cancel-IsConsistent :
      (w : World P J) (m : TableMigration P)
      → w.database.job ≡ some m
      → IsConsistent source_id source w
      → IsConsistent source_id source (record w { database = (cancel m w.database).0 })
  unfolding cancel
  cancel-IsConsistent w m found c =
      subst
        (λ job. IsConsistent source_id source (record w {
          database =
              (commit_cancel
                (delete_where (λ t. t.id == m.id && is_cancellable t.status) job w.database) m).0;
        }))
        (sym found) (cancel_where-IsConsistent w m found c)

  abort_status-IsConsistent :
      (status : MigrationStatus) (w : World P J) (m : TableMigration P)
      → w.database.job ≡ some m
      → IsConsistent source_id source w
      → IsConsistent source_id source
          (record w { database = or_before (abort_status status m w.database) w.database })
  abort_status-IsConsistent MigrationStatus.swapping w m found c = c
  abort_status-IsConsistent MigrationStatus.completed w m found c = c
  abort_status-IsConsistent MigrationStatus.cancelled w m found c = c
  abort_status-IsConsistent _ w m found c = cancel-IsConsistent w m found c

  abort_found-IsConsistent :
      (job : Option (TableMigration P)) (w : World P J)
      → w.database.job ≡ job
      → IsConsistent source_id source w
      → IsConsistent source_id source
          (record w { database = or_before (abort_found job w.database) w.database })
  abort_found-IsConsistent none w found c = c
  abort_found-IsConsistent (some m) w found c = abort_status-IsConsistent m.status w m found c

  pub abort-IsConsistent :
      (w : World P J)
      → IsConsistent source_id source w
      → IsConsistent source_id source
          (record w { database = or_before (abort_migration w.database) w.database })
  unfolding abort_migration
  abort-IsConsistent w c = abort_found-IsConsistent w.database.job w refl c

module _ {P J : Type 0} (terms : SwapTerms P) where
  recheck-shadow :
      (migration : TableMigration P) (db : Database P J) (shadow : String)
      → recheck terms migration db ≡ done shadow
      → migration.shadow_table_version_id ≡ some shadow
  unfolding recheck
  recheck-shadow migration db shadow h =
      let (named, as_named, h1) =
        >>=-eq-done (shadow_table_of migration.shadow_table_version_id) _ h in
      let (a, as_a, h2) = >>=-eq-done (ensure_revision_is_draft db) _ h1 in
      let (b, as_b, h3) = >>=-eq-done (ensure_draft_links_source migration named db) _ h2 in
      let (c, as_c, h4) = >>=-eq-done (ensure_draft_schema_unchanged migration db) _ h3 in
      let (d, as_d, h5) = >>=-eq-done (ensure_patches_give_target_schema terms migration) _ h4 in
      let (e, as_e, h6) = >>=-eq-done (ensure_shadow_complete migration named db) _ h5 in
      let (f, as_f, h7) = >>=-eq-done (terms.ensure_ledger_free migration) _ h6 in
      subst (λ s. migration.shadow_table_version_id ≡ some s) (done_inj h7)
        (shadow_table_of-some migration.shadow_table_version_id named as_named)

module _ {P J : Type 0} (source_id : String) (source : List (Row J)) where
  -- All rows are copied, and the Draft links the shadow table.
  swapped-IsLinked :
      (m migration : TableMigration P) (shadow : String) (w : World P J)
      → w.database.job ≡ some m
      → IsConsistent source_id source w
      → IsObservation source_id source (some m) migration
      → is_swapping m.status ≡ true
      → migration.shadow_table_version_id ≡ some shadow
      → (copies : List (Row J)) × (shadow ≢ source_id)
        × (Map.get w.database.tables shadow ≡ some copies)
        × AreCopies source copies
  swapped-IsLinked m migration shadow w found c o swapping named =
      let (k, complete) =
        swapping_stage source_id source w.database.tables m.status swapping
          (job_consistent source_id source w m c found).2 in
      let at_shadow = some_inj (sym k.named ∙ o.1 shadow named) in
      let nothing_left =
        no_more k.copied k.left (ap length (sym k.split) ∙ sym complete ∙ k.count) in
      let all = k.split ∙ ap (λ l. k.copied ++ l) nothing_left ∙ append-nil k.copied in
      (
        k.copies,
        subst (λ s. s ≢ source_id) at_shadow k.other,
        ap (λ s. Map.get w.database.tables s) (sym at_shadow) ∙ k.held,
        subst (λ l. AreCopies l k.copies) (sym all) k.same,
      )

module _ {P J : Type 0} (terms : SwapTerms P) (source_id : String) (source : List (Row J)) where
  swapped-IsConsistent :
      (w : World P J) (m migration : TableMigration P) (lease : MigrationLease) (now : ℕ)
      (after : Database P J) (written : Bool)
      → w.database.job ≡ some m
      → IsConsistent source_id source w
      → IsObservation source_id source (some m) migration
      → swap_owned_by lease m ≡ true
      → swap_locked terms
          (record w.database { job = some (record m { heartbeat_at = some now }) }, true)
          lease
          migration
        ≡ done (after, written)
      → IsConsistent source_id source (record w { database = after })
  unfolding complete_swap
  swapped-IsConsistent w m migration lease now after written found c o owned h =
      let locked : Database P J = record w.database {
        job = some (record m { heartbeat_at = some now });
      } in
      let (shadow, as_shadow, h1) = >>=-eq-done (recheck terms migration locked) _ h in
      let (recorded, as_recorded, h2) = >>=-eq-done (terms.record_schema_update migration) _ h1 in
      let (migrated, as_migrated, h3) = >>=-eq-done (terms.migrate_views migration) _ h2 in
      let linked = linked_source source_id source w.database m found c.linked in
      let as_linked = link_shadow_table-eq source_id source migration shadow locked o.0 linked in
      let swapped : Database P J = record w.database { job = none; linked = shadow ∷ [] } in
      let as_swapped : after ≡ swapped = sym (
        ap (λ p. p.0)
          (done_inj (
            subst (λ p. delete_swapped_record p ≡ done (after, written))
              (delete_where-true (swap_owned_by lease) (record m { heartbeat_at = some now })
                (record locked { linked = shadow ∷ [] }) owned)
              (subst (λ db. delete_swapped_record (complete_swap lease db) ≡ done (after, written))
                as_linked h3)))) in
      let (copies, other, held, all) =
        swapped-IsLinked source_id source m migration shadow w found c o (ground arith)
          (recheck-shadow terms migration locked shadow as_shadow) in
      subst (λ db. IsConsistent source_id source (record w { database = db })) (sym as_swapped)
        (gone-IsConsistent source_id source w swapped c c.kept refl
          (inr (refl, shadow, copies, refl, other, held, all)))

  swap_where-IsConsistent :
      (job : Option (TableMigration P)) (w : World P J) (migration : TableMigration P)
      (lease : MigrationLease) (now : ℕ) (after : Database P J) (written : Bool)
      → w.database.job ≡ job
      → IsConsistent source_id source w
      → IsObservation source_id source job migration
      → swap_locked terms
          (update_where
            (swap_owned_by lease)
            (λ m. record m { heartbeat_at = some now })
            job
            w.database)
          lease
          migration
        ≡ done (after, written)
      → IsConsistent source_id source (record w { database = after })
  swap_where-IsConsistent none w migration lease now after written found c o h =
      subst (λ db. IsConsistent source_id source (record w { database = db }))
        (ap (λ p. p.0) (done_inj h)) c
  swap_where-IsConsistent (some m) w migration lease now after written found c o h =
      elim (Bool-cases (swap_owned_by lease m)) [
        | inl owned ↦ swapped-IsConsistent w m migration lease now after written found c o owned (
            subst (λ p. swap_locked terms p lease migration ≡ done (after, written))
              (update_where-true (swap_owned_by lease) (λ t. record t { heartbeat_at = some now }) m
                w.database owned)
              h)
        | inr left ↦
            subst (λ db. IsConsistent source_id source (record w { database = db }))
              (ap (λ p. p.0)
                (done_inj (
                  subst (λ p. swap_locked terms p lease migration ≡ done (after, written))
                    (update_where-false (swap_owned_by lease)
                      (λ t. record t { heartbeat_at = some now }) m w.database left)
                    h)))
              c
      ]

  -- What a worker that read the job before does to swap the tables keeps the job consistent.
  pub swap-IsConsistent :
      (w : World P J) (lease : MigrationLease) (migration : TableMigration P) (now : ℕ)
      → IsConsistent source_id source w
      → IsObservation source_id source w.database.job migration
      → IsConsistent source_id source (record w {
        database =
            database_of
              (continues_with StepResult.completed
                (swap_within_transaction terms lease migration now w.database))
              w.database;
      })
  unfolding swap_within_transaction lock_swap
  swap-IsConsistent w lease migration now c o =
      database_of-keeps (λ db. IsConsistent source_id source (record w { database = db }))
        (continues_with StepResult.completed
          (swap_within_transaction terms lease migration now w.database))
        w.database c
        λ after result h.
          let (written, as_written) =
            continues_with-eq-done StepResult.completed
              (swap_within_transaction terms lease migration now w.database) after result h in
          swap_where-IsConsistent w.database.job w migration lease now after written refl c o
            as_written
