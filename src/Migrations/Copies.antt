-- ===== src/Migrations/Copies.antt =====
-- The copies that migration-batch.service.ts writes: a shadow row keeps all of its source row but the
-- data, the hashes, the version and the time of the update, and a batch keeps the rows in order.
use revisium_engine.Base.{ℕ, String, List, [], ◌∷◌, ◌++◌, ◌≡◌, refl, length, arith}
use mathlib.Core.Path.{subst}
use revisium_engine.Migrations.{Row, done, >>=-eq-done, done_inj}
use revisium_engine.Migrations.Batches.{
  Toolkit, with_content, shadow_rows, migrate_and_process_batch,
}

module _ {J : Type 0} where
  -- what a row and its copy share
  abbrev pub IsCopy : Row J → Row J → Type 0
  IsCopy row copy =
      (copy.id ≡ row.id)
      × (copy.created_id ≡ row.created_id)
      × (copy.meta ≡ row.meta)
      × (copy.created_at ≡ row.created_at)
      × (copy.published_at ≡ row.published_at)

  -- Every row of the first list has its copy in the second, at the same place, and no other is there.
  abbrev pub AreCopies : List (Row J) → List (Row J) → Type 0
  AreCopies [] [] = Unit
  AreCopies [] (copy ∷ copies) = ⊥
  AreCopies (row ∷ rows) [] = ⊥
  AreCopies (row ∷ rows) (copy ∷ copies) = IsCopy row copy × AreCopies rows copies

  pub AreCopies-refl : (rows : List (Row J)) → AreCopies rows rows
  AreCopies-refl [] = tt
  AreCopies-refl (row ∷ rows) = ((refl, refl, refl, refl, refl), AreCopies-refl rows)

  pub AreCopies-append :
      (rows copies more_rows more_copies : List (Row J))
      → AreCopies rows copies
      → AreCopies more_rows more_copies
      → AreCopies (rows ++ more_rows) (copies ++ more_copies)
  AreCopies-append [] [] more_rows more_copies h more = more
  AreCopies-append [] (copy ∷ copies) more_rows more_copies h more = absurd h
  AreCopies-append (row ∷ rows) [] more_rows more_copies h more = absurd h
  AreCopies-append (row ∷ rows) (copy ∷ copies) more_rows more_copies h more =
      (h.0, AreCopies-append rows copies more_rows more_copies h.1 more)

  pub length_of_copies :
      (rows copies : List (Row J)) → AreCopies rows copies → length copies ≡ length rows
  length_of_copies [] [] h = refl
  length_of_copies [] (copy ∷ copies) h = absurd h
  length_of_copies (row ∷ rows) [] h = absurd h
  length_of_copies (row ∷ rows) (copy ∷ copies) h = omega (arith, length_of_copies rows copies h.1)

module _ {P J : Type 0} (kit : Toolkit P J) where
  shadow_rows-AreCopies :
      (content more : Row J → J) (hash : String) (now : ℕ) (rows : List (Row J))
      → AreCopies rows
          (shadow_rows kit hash now (with_content kit content (with_content kit more rows)))
  shadow_rows-AreCopies content more hash now [] = tt
  shadow_rows-AreCopies content more hash now (row ∷ rows) =
      ((refl, refl, refl, refl, refl), shadow_rows-AreCopies content more hash now rows)

  -- What a batch writes are the copies of the rows that it read.
  pub migrated-AreCopies :
      (rows migrated : List (Row J)) (patches : P) (hash : String) (now : ℕ)
      → migrate_and_process_batch kit rows patches ≡ done migrated
      → AreCopies rows (shadow_rows kit hash now migrated)
  unfolding migrate_and_process_batch
  migrated-AreCopies rows migrated patches hash now h =
      let (patched, as_patched, hooked) = >>=-eq-done (kit.patched_rows patches rows) _ h in
      let (content, as_hooked, returned) = >>=-eq-done (kit.after_migrate_rows _) _ hooked in
      subst (λ rest. AreCopies rows (shadow_rows kit hash now rest)) (done_inj returned)
        (shadow_rows-AreCopies content _ hash now rows)
