-- ===== src/Locking/Recovery.antt =====
-- What recovery does to the two tables.
use arkode.Prelude.{ℕ, ◌≡◌, refl, ap₂, map}
use arkode.Tables.{UniqueKeys}
use arkode.Tables.Recover.{failed_if_dead, fail_stale-map}
use arkode.ProcessIdentity.{StaleRunCheckDeps}
use arkode.FileRuns.{
  is_file_in_progress, is_maintenance_in_progress, file_run_id, maintenance_run_id,
}
use arkode.Locking.{
  LockState, is_stale_file_run, is_stale_maintenance_run, fail_file_run, fail_maintenance_run,
  recover_stale_repository_runs,
}

module _ (deps : StaleRunCheckDeps) (repository_id : ℕ) where
  abbrev pub recovered : LockState → LockState
  recovered s = record {
    runs =
        map
          (failed_if_dead file_run_id (is_stale_file_run deps) (fail_file_run deps) (λ r. refl)
            (is_file_in_progress repository_id))
          s.runs;
    maintenance =
        map
          (failed_if_dead maintenance_run_id (is_stale_maintenance_run deps)
            (fail_maintenance_run deps) (λ r. refl) (is_maintenance_in_progress repository_id))
          s.maintenance;
  }

  -- Recovery changes exactly the rows of this repository that are in progress and dead, in both
  -- tables: each becomes Failed, with its message and finish time, and every other row stays as it
  -- is. Ids are unique in each table.
  pub recover-exact :
      (s : LockState)
      → UniqueKeys file_run_id s.runs
      → UniqueKeys maintenance_run_id s.maintenance
      → recover_stale_repository_runs deps repository_id s ≡ recovered s
  unfolding recover_stale_repository_runs
  recover-exact s u v =
      ap₂ (λ a b. record { runs = a; maintenance = b })
        (fail_stale-map file_run_id (is_stale_file_run deps) (fail_file_run deps) (λ r. refl)
          (is_file_in_progress repository_id) s.runs u)
        (fail_stale-map maintenance_run_id (is_stale_maintenance_run deps)
          (fail_maintenance_run deps) (λ r. refl) (is_maintenance_in_progress repository_id)
          s.maintenance v)
