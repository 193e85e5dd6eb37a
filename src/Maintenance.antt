-- ===== src/Maintenance.antt =====
-- packages/engine-core/src/fileBackup/maintenance/runFileBackupMaintenance.ts: pruning and checking
-- the repositories. restic and the secrets are parameters.
pub mod Environment
pub mod Sweep
pub mod Release
mod Examples
use Prim.Native.String.{String}
use text.Mathlib.Text.{◌==◌ as str_eq}
use arkode.Prelude.{
  ℕ, suc, ◌+◌, ◌-◌, ◌*◌, Bool, true, false, ◌||◌, List, [], ◌∷◌, ◌++◌, reverse, Option, none, some,
  leb, if◌then◌else◌, keep, is_some,
}
use arkode.Prelude.Results.{Result, ok, err}
use arkode.FileRepositories.{
  FileRepositories, get_repository_by_id, list_for_active_clients, mark_pruned, mark_checked,
}
use arkode.Replication.Target.{non_empty}
use arkode.Types.{BackupRunStatus, success, warning, failed}
use arkode.FileTypes.{
  FileBackupRepository, FileBackupOperationKind, MaintenanceOperation, prune, check,
  check_read_data,
}
use arkode.ProcessIdentity.{StaleRunCheckDeps}
use arkode.FileRuns.{create_maintenance_run, mark_maintenance_finished}
use arkode.Locking.{LockState, HeldBy, recover_stale_repository_runs, check_repository_lock}
pub use arkode.Maintenance.Environment.{
  MaintenanceOpts, MaintenanceOutcome, CheckResult, prune_max_unused, Moment, MaintenanceEnv,
  MaintenanceState, is_operation_due, lock_kind, operations_to_consider,
}

module _ {W : Type 0} (env : MaintenanceEnv W) where
  abbrev pub skipped : FileBackupRepository → MaintenanceOperation → String → MaintenanceOutcome
  skipped repository operation reason = record {
    repository_id = repository.id;
    operation = operation;
    ran = false;
    skipped_reason = some reason;
    error = none;
  }

  abbrev pub finished :
      FileBackupRepository → MaintenanceOperation → Bool → Option String → MaintenanceOutcome
  finished repository operation ran error = record {
    repository_id = repository.id;
    operation = operation;
    ran = ran;
    skipped_reason = none;
    error = error;
  }

  abbrev pub next_step : MaintenanceState W → MaintenanceState W
  next_step s = record s { step = suc s.step }

  abbrev pub finish_row :
      Moment → BackupRunStatus → Option String → Option ℕ → LockState → LockState
  finish_row at status message bytes lock = record lock {
    maintenance =
        mark_maintenance_finished at.new_id at.finished_now status message bytes lock.maintenance;
  }

  abbrev pub after_prune :
      Moment
      → FileBackupRepository
      → MaintenanceOperation
      → Result String ℕ
      → MaintenanceState W
      → MaintenanceOutcome × MaintenanceState W
  after_prune at repository operation (err message) s = (
    finished repository operation true (some message),
    record s { lock = finish_row at failed (some message) none s.lock },
  )
  after_prune at repository operation (ok bytes) s = (
    finished repository operation true none,
    record s {
      lock = finish_row at success none (some bytes) s.lock;
      repositories = mark_pruned repository.id at.stamped_now s.repositories;
    },
  )

  abbrev pub after_check :
      Moment
      → FileBackupRepository
      → MaintenanceOperation
      → Result String CheckResult
      → MaintenanceState W
      → MaintenanceOutcome × MaintenanceState W
  after_check at repository operation (err message) s = (
    finished repository operation true (some message),
    record s { lock = finish_row at failed (some message) none s.lock },
  )
  after_check at repository operation (ok result) s = (
    finished repository operation true none,
    record s {
      lock = finish_row at (if result.is_ok then success else warning) result.message none s.lock;
      repositories = mark_checked repository.id at.stamped_now s.repositories;
    },
  )

  abbrev pub reads_data : MaintenanceOperation → Bool
  reads_data check_read_data = true
  reads_data _ = false

  -- The body of the `try`, on the row that was created.
  abbrev pub run_restic :
      Moment
      → FileBackupRepository
      → MaintenanceOperation
      → String
      → MaintenanceState W
      → MaintenanceOutcome × MaintenanceState W
  run_restic at repository prune password s =
      let (result, restic) =
        env.run_prune repository.repo_path password prune_max_unused s.restic in
      after_prune at repository prune result (record s { restic = restic })
  run_restic at repository operation password s =
      let (result, restic) =
        env.run_check repository.repo_path password (reads_data operation) s.restic in
      after_check at repository operation result (record s { restic = restic })

  abbrev pub create_row :
      Moment → FileBackupRepository → MaintenanceOperation → LockState → LockState
  create_row at repository operation lock = record lock {
    maintenance =
        create_maintenance_run at.new_id at.created_now repository.id operation env.pid
          lock.maintenance;
  }

  abbrev pub if_password :
      Moment
      → FileBackupRepository
      → MaintenanceOperation
      → Option String
      → MaintenanceState W
      → MaintenanceOutcome × MaintenanceState W
  if_password at repository operation none s =
      (finished repository operation false (some "Could not resolve the repository password."), s)
  if_password at repository operation (some password) s =
      run_restic at repository operation password
        (record s { lock = create_row at repository operation s.lock })

  abbrev pub if_free :
      Moment
      → FileBackupRepository
      → MaintenanceOperation
      → Option HeldBy
      → MaintenanceState W
      → MaintenanceOutcome × MaintenanceState W
  if_free at repository operation (some holder) s =
      (skipped repository operation "repository busy", s)
  if_free at repository operation none s =
      if_password at repository operation
        (non_empty (env.get_secret repository.password_secret_ref)) s

  abbrev pub if_due :
      Moment
      → FileBackupRepository
      → MaintenanceOperation
      → Bool
      → MaintenanceState W
      → MaintenanceOutcome × MaintenanceState W
  if_due at repository operation false s = (skipped repository operation "not due yet", s)
  if_due at repository operation true s =
      if_free at repository operation
        (check_repository_lock at.deps s.lock repository.id (lock_kind operation)) s

  abbrev pub consider :
      Bool
      → FileBackupRepository
      → MaintenanceOperation
      → MaintenanceState W
      → MaintenanceOutcome × MaintenanceState W
  consider forced repository operation s =
      let at = env.moment s.step in
      if_due at repository operation (forced || is_operation_due repository operation at.due_now)
        (next_step s)

  unfoldable pub run_operations :
      Bool
      → FileBackupRepository
      → List MaintenanceOperation
      → MaintenanceState W
      → List MaintenanceOutcome × MaintenanceState W
  unfolding check_repository_lock
  run_operations forced repository [] s = ([], s)
  run_operations forced repository (operation ∷ operations) s =
      let (outcome, s1) = consider forced repository operation s in
      let (outcomes, s2) = run_operations forced repository operations s1 in
      (outcome ∷ outcomes, s2)

  abbrev pub recover : FileBackupRepository → MaintenanceState W → MaintenanceState W
  recover repository s = record s {
    lock = recover_stale_repository_runs (env.moment s.step).deps repository.id s.lock;
  }

  unfoldable pub run_repositories :
      Option MaintenanceOperation
      → List FileBackupRepository
      → MaintenanceState W
      → List MaintenanceOutcome × MaintenanceState W
  unfolding run_operations
  run_repositories requested [] s = ([], s)
  run_repositories requested (repository ∷ rest) s =
      let (outcomes, s1) =
        run_operations (is_some requested) repository (operations_to_consider requested)
          (recover repository s) in
      let (more, s2) = run_repositories requested rest s1 in (outcomes ++ more, s2)

  abbrev pub found : Option FileBackupRepository → List FileBackupRepository
  found none = []
  found (some repository) = repository ∷ []

  abbrev pub repositories_of : Option ℕ → FileRepositories → List FileBackupRepository
  repositories_of none rows = list_for_active_clients env.is_active_client rows
  repositories_of (some id) rows = found (get_repository_by_id id rows)

  unfoldable pub run_file_backup_maintenance :
      MaintenanceOpts → MaintenanceState W → List MaintenanceOutcome × MaintenanceState W
  unfolding run_repositories
  run_file_backup_maintenance opts s =
      run_repositories opts.operation (repositories_of opts.repository_id s.repositories) s
