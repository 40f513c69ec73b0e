-- ===== src/Migrations/Preserved/Leases.antt =====
-- The statements on the lease and on the retries of the job keep it consistent.
use revisium_engine.Base.{ℕ, String, Bool, some, List, Eq-String, refl, arith, ◌+◌}
use revisium_engine.Migrations.{
  MigrationLease, TableMigration, Row, MigrationStatus, MigrationPhase, owned_by, released, failed,
  cancelled,
}
use revisium_engine.Migrations.Consistent.{IsConsistent}
use revisium_engine.Migrations.Preserved.{update_many-IsConsistent, copying_stage, stopped_stage}
use revisium_engine.Migrations.Transitions.{retry, fail, begin_swap}
use revisium_engine.Migrations.Leases.{
  claim_status, own_swap, fail_stalled_swap, renew, release, cancel_stalled,
}
use revisium_engine.Migrations.Events.{World}

module _ {P J : Type 0} (source_id : String) (source : List (Row J)) (w : World P J)
    (c : IsConsistent source_id source w) where
  pub claim_status-IsConsistent :
      (status : MigrationStatus) (lease : MigrationLease) (timeout now : ℕ)
      → IsConsistent source_id source
          (record w { database = (claim_status status lease timeout now w.database).0 })
  unfolding claim_status
  claim_status-IsConsistent status lease timeout now =
      update_many-IsConsistent source_id source _ (owned_by lease now) w c (λ m. refl)
        (λ m chosen j. j)

  pub own_swap-IsConsistent :
      (owner : TableMigration P → Bool) (lease : MigrationLease) (now : ℕ)
      → IsConsistent source_id source
          (record w { database = (own_swap owner lease now w.database).0 })
  unfolding own_swap
  own_swap-IsConsistent owner lease now =
      update_many-IsConsistent source_id source _
        (λ m. owned_by lease now (record m { retry_count = m.retry_count + 1 })) w c (λ m. refl)
        (λ m chosen j. j)

  pub fail_stalled_swap-IsConsistent :
      (owner : TableMigration P → Bool) (now : ℕ)
      → IsConsistent source_id source
          (record w { database = (fail_stalled_swap owner now w.database).0 })
  unfolding fail_stalled_swap
  fail_stalled_swap-IsConsistent owner now =
      update_many-IsConsistent source_id source _
        (λ m. released (record m {
          status = failed;
          error_message =
              some "SWAP_STALLED: the swap did not complete within maxRetries claims and takeovers";
          completed_at = some now;
        }))
        w c (λ m. refl)
        (λ m chosen j. (j.0, j.1, stopped_stage source_id source w.database.tables m.status j.2))

  pub renew-IsConsistent :
      (lease : MigrationLease) (now : ℕ)
      → IsConsistent source_id source (record w { database = (renew lease now w.database).0 })
  unfolding renew
  renew-IsConsistent lease now =
      update_many-IsConsistent source_id source _ (λ m. record m { heartbeat_at = some now }) w c
        (λ m. refl) (λ m chosen j. j)

  pub release-IsConsistent :
      (lease : MigrationLease)
      → IsConsistent source_id source (record w { database = (release lease w.database).0 })
  unfolding release
  release-IsConsistent lease =
      update_many-IsConsistent source_id source _ released w c (λ m. refl) (λ m chosen j. j)

  pub cancel_stalled-IsConsistent :
      (timeout now : ℕ)
      → IsConsistent source_id source
          (record w { database = (cancel_stalled timeout now w.database).0 })
  unfolding cancel_stalled
  cancel_stalled-IsConsistent timeout now =
      update_many-IsConsistent source_id source _
        (λ m. released (record m {
          status = cancelled;
          error_message = some "STALLED: no progress within stallTimeoutMs";
          completed_at = some now;
        }))
        w c (λ m. refl)
        (λ m chosen j. (j.0, j.1, stopped_stage source_id source w.database.tables m.status j.2))

  pub retry-IsConsistent :
      (lease : MigrationLease)
      → IsConsistent source_id source (record w { database = (retry lease w.database).0 })
  unfolding retry
  retry-IsConsistent lease =
      update_many-IsConsistent source_id source _
        (λ m. released (record m { retry_count = m.retry_count + 1 })) w c (λ m. refl)
        (λ m chosen j. j)

  pub fail-IsConsistent :
      (lease : MigrationLease) (message : String) (now : ℕ)
      → IsConsistent source_id source
          (record w { database = (fail lease message now w.database).0 })
  unfolding fail
  fail-IsConsistent lease message now =
      update_many-IsConsistent source_id source _
        (λ m.
          released
            (record m { status = failed; error_message = some message; completed_at = some now }))
        w c (λ m. refl)
        (λ m chosen j. (j.0, j.1, stopped_stage source_id source w.database.tables m.status j.2))

  -- A swap begins once all rows are copied.
  pub begin_swap-IsConsistent :
      (lease : MigrationLease) (now : ℕ)
      → IsConsistent source_id source (record w { database = (begin_swap lease now w.database).0 })
  unfolding begin_swap
  begin_swap-IsConsistent lease now =
      update_many-IsConsistent source_id source _
        (λ m. record m {
          status = MigrationStatus.swapping;
          phase = MigrationPhase.swapping;
          last_progress_at = some now;
        })
        w c (λ m. refl)
        (λ m chosen j. (
          j.0,
          j.1,
          (
            copying_stage source_id source w.database.tables m.status (ground arith) j.2,
            ground (arith, j.1),
          ),
        ))
