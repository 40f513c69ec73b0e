-- ===== src/Migrations/Alone/Copying.antt =====
-- The first step of an undisturbed worker makes the shadow table, and while rows are left, the next
-- step copies a batch of them.
use revisium_engine.Base.{
  ℕ, zero, suc, String, Bool, true, Option, none, some, List, [], ◌∷◌, ◌++◌, ◌≡◌, Eq-String, Eq-ℕ,
  ◌==◌, length, length-append, refl, sym, ◌∙◌, ap, arith, ◌<◌, ◌+◌, beq_refl, ◌&&◌, if◌then◌else◌,
  is_some, ltb,
}
use mathlib.Core.Path.{subst}
use revisium_engine.Base.Map
use revisium_engine.Base.Map.{get-set_same}
use revisium_engine.Migrations.{
  MigrationLease, TableMigration, Row, Database, MigrationStatus, done, is_value, is_copying,
  is_pending, same_value, update_where, update_where-true, >>=-done, failing, passing,
}
use revisium_engine.Migrations.Loading.{
  IdOrder, IsListedById, last_id, last_row-some, load_batch_rows-next,
}
use revisium_engine.Migrations.Consistent.{IsCopiedTo}
use revisium_engine.Migrations.Transitions.{
  begin_copy, begin_swap, commit_copy, copying_into, create_unless, or_value, advance_checkpoint,
}
use revisium_engine.Migrations.Batches.{
  Toolkit, take, last_row, load_batch_rows, migrate_and_process_batch, write_batch, commit_batch,
  shadow_rows, with_content, insert_batch_into_shadow, insert_into,
}
use revisium_engine.Migrations.Swap.{SwapTerms, shadow_table_of}
use revisium_engine.Migrations.Steps.{
  StepResult, continues_with, step_of_status, copy_next_batch, copy_rows, rows_of,
}
use revisium_engine.Migrations.Alone.{IsAccepting, IsHeld, owns}

ltb_of_lt : (a b : ℕ) → a < b → ltb a b ≡ true
ltb_of_lt a b h = ground arith

nonempty : {A : Type 0} (xs : List A) → 0 < length xs → (x : A) × (rest : List A) × (xs ≡ x ∷ rest)
nonempty [] h = absurd (omega arith)
nonempty (x ∷ rest) h = (x, rest, refl)

length-take_pos :
    {A : Type 0} (n : ℕ) (xs : List A) → 0 < n → 0 < length xs → 0 < length (take n xs)
length-take_pos zero xs h more = absurd (omega arith)
length-take_pos (suc n) [] h more = absurd (omega arith)
length-take_pos (suc n) (x ∷ xs) h more = omega arith

module _ {P J : Type 0} (kit : Toolkit P J) (terms : SwapTerms P) (lease : MigrationLease)
    (db : Database P J) (m : TableMigration P) (held : IsHeld lease db m) where
  pub begin_copy-held :
      (fresh : String) (now : ℕ) (source : List (Row J))
      → m.status ≡ MigrationStatus.pending
      → m.shadow_table_version_id ≡ none
      → Map.get db.tables m.source_table_version_id ≡ some source
      → Map.get db.tables fresh ≡ none
      → begin_copy lease m fresh now db
        ≡ done (
          record db {
            job = some (copying_into m fresh now m);
            tables = Map.set db.tables fresh [];
          },
          true,
        )
  unfolding begin_copy
  begin_copy-held fresh now source pending unnamed kept free =
      let starts : TableMigration P → Bool = λ t.
        t.id == lease.migration_id && is_pending t.status && is_value t.locked_by lease.token in
      let owned = owns kit terms lease db m held in
      let is_new = ap is_pending pending in
      let starts_it : starts m ≡ true = ground arith in
      ap (λ v. commit_copy (update_where starts (copying_into m v now) db.job db) m v)
        (ap (λ o. or_value o fresh) unnamed)
      ∙ ap (λ j. commit_copy (update_where starts (copying_into m fresh now) j db) m fresh)
          held.found
      ∙ ap (λ p. commit_copy p m fresh)
          (update_where-true starts (copying_into m fresh now) m db starts_it)
      ∙ ap (λ r. elim r [ done created ↦ done (created, true) | failing e ↦ failing e ])
          (ap (λ o. create_unless o m fresh (record db { job = some (copying_into m fresh now m) }))
              unnamed
            ∙ ap
                (λ o.
                  if is_some o
                  then if is_some (Map.get db.tables fresh)
                    then failing (passing "Unique constraint failed on the fields: (`versionId`)")
                    else done (record db {
                      job = some (copying_into m fresh now m);
                      tables = Map.set db.tables fresh [];
                    })
                  else failing (passing "No Table found"))
                kept
            ∙ ap
                (λ o.
                  if is_some o
                  then failing (passing "Unique constraint failed on the fields: (`versionId`)")
                  else done (record db {
                    job = some (copying_into m fresh now m);
                    tables = Map.set db.tables fresh [];
                  }))
                free)

  -- The batch that the worker reads next, and what it writes.
  load_batch-held :
      (source : List (Row J))
      (k : IsCopiedTo m.source_table_version_id source db.tables m.shadow_table_version_id
        m.copied_rows m.last_copied_row_id)
      → IsListedById kit source
      → IdOrder kit.is_greater
      → load_batch_rows kit source m.last_copied_row_id m.batch_size ≡ take m.batch_size k.left
  load_batch-held source k listed order =
      ap (λ l. load_batch_rows kit source l m.batch_size) k.last
      ∙ ap (λ l. load_batch_rows kit l (last_id k.copied) m.batch_size) k.split
      ∙ load_batch_rows-next kit order k.copied k.left m.batch_size
          (subst (IsListedById kit) k.split listed)

  migrated-accepted :
      (accepting : IsAccepting kit) (rows : List (Row J)) (patches : P)
      → (migrated : List (Row J)) × (migrate_and_process_batch kit rows patches ≡ done migrated)
  unfolding migrate_and_process_batch
  migrated-accepted accepting rows patches =
      let (patched, as_patched) = accepting.patch patches rows in
      let processed = with_content kit (λ row. or_value (patched row.id) row.content) rows in
      let (content, as_hooked) = accepting.hook processed in
      (
        with_content kit content processed,
        >>=-done (kit.patched_rows patches rows) _ as_patched
            (>>=-done (kit.after_migrate_rows processed) _ as_hooked refl),
      )

  abbrev pub batch_written :
      Row J → List (Row J) → List (Row J) → List (Row J) → ℕ → String → Database P J
  batch_written last rows migrated copies now shadow = record db {
    job = some (record m {
      copied_rows = m.copied_rows + length rows;
      last_copied_row_id = some last.id;
      current_batch = m.current_batch + 1;
      last_progress_at = some now;
    });
    tables = Map.set db.tables shadow (copies ++ shadow_rows kit m.target_schema_hash now migrated);
  }

  same_value_refl : (o : Option String) → same_value o o ≡ true
  same_value_refl none = refl
  same_value_refl (some a) = beq_refl a

  write_batch-held :
      (shadow : String) (last : Row J) (rows migrated copies : List (Row J)) (now : ℕ)
      → m.status ≡ MigrationStatus.copying
      → Map.get db.tables shadow ≡ some copies
      → write_batch kit lease m shadow
          (record { copied_rows = m.copied_rows + length rows; last_copied_row_id = some last.id })
          migrated
          now
          db
        ≡ done (batch_written last rows migrated copies now shadow, true)
  unfolding write_batch advance_checkpoint
  write_batch-held shadow last rows migrated copies now copying there =
      let guarded : TableMigration P → Bool = λ t.
        t.id == lease.migration_id
        && is_copying t.status
        && is_value t.locked_by lease.token
        && t.copied_rows == m.copied_rows
        && same_value t.last_copied_row_id m.last_copied_row_id in
      let moved : TableMigration P → TableMigration P = λ t. record t {
        copied_rows = m.copied_rows + length rows;
        last_copied_row_id = some last.id;
        current_batch = t.current_batch + 1;
        last_progress_at = some now;
      } in
      let owned = owns kit terms lease db m held in
      let is_copied = ap is_copying copying in
      let same = same_value_refl m.last_copied_row_id in
      let same_count = beq_refl m.copied_rows in
      let passes : guarded m ≡ true = ground arith in
      ap (λ j. commit_batch kit (update_where guarded moved j db) m shadow migrated now) held.found
      ∙ ap (λ p. commit_batch kit p m shadow migrated now)
          (update_where-true guarded moved m db passes)
      ∙ >>=-done
          (insert_batch_into_shadow kit m shadow migrated now (record db { job = some (moved m) }))
          _
          (ap
            (λ o.
              insert_into kit o shadow (shadow_rows kit m.target_schema_hash now migrated)
                (record db { job = some (moved m) }))
            there)
          refl

  -- While rows are left to copy, the next step copies some and goes on.
  pub copying_step-held :
      (source : List (Row J))
      (k : IsCopiedTo m.source_table_version_id source db.tables m.shadow_table_version_id
        m.copied_rows m.last_copied_row_id)
      (fresh : String) (now : ℕ)
      → IsAccepting kit
      → IsListedById kit source
      → IdOrder kit.is_greater
      → m.status ≡ MigrationStatus.copying
      → Map.get db.tables m.source_table_version_id ≡ some source
      → m.total_rows ≡ length source
      → m.copied_rows < m.total_rows
      → (last : Row J) × (rows migrated : List (Row J)) × (step_of_status kit terms m.status lease m
            fresh now db
          ≡ done (batch_written last rows migrated k.copies now k.shadow, StepResult.continue))
        × (0 < length rows)
  unfolding copy_next_batch
  copying_step-held source k fresh now accepting listed order copying kept total more =
      let left_over : 0 < length k.left =
        omega (arith, k.count, ap length k.split, length-append k.copied k.left) in
      let rows = load_batch_rows kit source m.last_copied_row_id m.batch_size in
      let some_rows : 0 < length rows =
        subst (λ l. 0 < length l) (sym (load_batch-held source k listed order))
          (length-take_pos m.batch_size k.left held.sized left_over) in
      let (y, others, as_rows) = nonempty rows some_rows in
      let (last, at_end) = last_row-some y others in
      let ends = ap last_row as_rows ∙ at_end in
      let (migrated, as_migrated) = migrated-accepted accepting rows m.patches in
      let batch : List (Row J) → List (Row J) =
        λ table. load_batch_rows kit table m.last_copied_row_id m.batch_size in
      (
        last,
        rows,
        migrated,
        ap (λ s. step_of_status kit terms s lease m fresh now db) copying
            ∙ ap
                (λ b.
                  if b
                  then copy_next_batch kit terms lease m now db
                  else continues_with StepResult.continue (done (begin_swap lease now db)))
                (ltb_of_lt m.copied_rows m.total_rows more)
            ∙ >>=-done (shadow_table_of m.shadow_table_version_id) _
                (ap shadow_table_of k.named
                  ∙ ap
                      (λ b.
                        if b
                        then failing (passing "Shadow table not set for migration")
                        else done k.shadow)
                      (held.nonblank k.shadow k.named))
                (ap
                    (λ table.
                      copy_rows kit terms (last_row (batch table)) (batch table) lease m k.shadow
                        now db)
                    (ap rows_of kept)
                  ∙ ap (λ end. copy_rows kit terms end rows lease m k.shadow now db) ends
                  ∙ >>=-done (migrate_and_process_batch kit rows m.patches) _ as_migrated (
                      >>=-done (kit.validate_rows migrated) _ (accepting.valid migrated) (
                        ap (continues_with StepResult.continue) (
                          write_batch-held k.shadow last rows migrated k.copies now copying
                            k.held)))),
        some_rows,
      )
