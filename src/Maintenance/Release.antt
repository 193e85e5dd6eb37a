-- ===== src/Maintenance/Release.antt =====
-- A sweep leaves no repository locked.
use arkode.Prelude.{
  ℕ, ◌≡◌, Bool, true, false, ◌&&◌, List, [], ◌∷◌, Option, none, some, ◌==◌, if◌then◌else◌, is_some,
}
use Prim.Native.String.{String}
use arkode.Prelude.Results.{Result, ok, err}
use arkode.Types.{BackupRunStatus, success, warning, failed}
use arkode.FileTypes.{
  FileBackupRepository, FileBackupMaintenanceRun, MaintenanceOperation, prune, check,
  check_read_data,
}
use arkode.FileRuns.{
  maintenance_run_id, finished_maintenance_row, create_maintenance_run, mark_maintenance_finished,
  list_maintenance_in_progress, is_maintenance_in_progress,
}
use arkode.Locking.{LockState, HeldBy}
use arkode.Locking.Exclusion.{IsIdle, not_listed}
use arkode.Locking.Idle.{inserted-unlisted, recover-IsIdle}
use arkode.Maintenance.{
  Moment, MaintenanceEnv, MaintenanceState, MaintenanceOpts, MaintenanceOutcome, CheckResult,
  finish_row, create_row, next_step, after_prune, after_check, run_restic, if_password, if_free,
  if_due, consider, run_operations, recover, run_repositories, repositories_of,
  run_file_backup_maintenance, operations_to_consider,
}

module _ (id : ℕ) where
  module _ {W : Type 0} (env : MaintenanceEnv W) where
    abbrev LeavesIdle : MaintenanceOutcome × MaintenanceState W → Type 0
    LeavesIdle result = IsIdle id result.1.lock

    module _ (at : Moment) (repository : FileBackupRepository)
        (operation : MaintenanceOperation) where
      -- The row that was created is finished, with a status that is not in progress.
      finish_row-IsIdle :
          (status : BackupRunStatus) (message : Option String) (bytes : Option ℕ) (lock : LockState)
          → ((r : FileBackupMaintenanceRun)
              → is_maintenance_in_progress id
                  (finished_maintenance_row at.finished_now status message bytes r)
                ≡ false)
          → IsIdle id lock
          → IsIdle id
              (finish_row env at status message bytes (create_row env at repository operation lock))
      unfolding create_maintenance_run mark_maintenance_finished list_maintenance_in_progress
      finish_row-IsIdle status message bytes lock done (no_runs, no_maintenance) = (
        no_runs,
        inserted-unlisted maintenance_run_id (is_maintenance_in_progress id)
            (finished_maintenance_row at.finished_now status message bytes) done _ lock.maintenance
            no_maintenance,
      )

      off : (r : FileBackupMaintenanceRun) → (r.repository_id == id && false) ≡ false
      off r = not_listed (r.repository_id == id)

      check_status-off :
          (b : Bool) (message : Option String) (r : FileBackupMaintenanceRun)
          → is_maintenance_in_progress id (
              finished_maintenance_row at.finished_now
                (if b then success else warning)
                message
                none
                r)
            ≡ false
      check_status-off true message r = off r
      check_status-off false message r = off r

      module _ (s : MaintenanceState W) (idle : IsIdle id s.lock) where
        abbrev created : W → MaintenanceState W
        created restic = record s {
          lock = create_row env at repository operation s.lock;
          restic = restic;
        }

        after_prune-LeavesIdle :
            (result : Result String ℕ) (restic : W)
            → LeavesIdle (after_prune env at repository operation result (created restic))
        after_prune-LeavesIdle (err message) restic =
            finish_row-IsIdle failed (some message) none s.lock off idle
        after_prune-LeavesIdle (ok bytes) restic =
            finish_row-IsIdle success none (some bytes) s.lock off idle

        after_check-LeavesIdle :
            (result : Result String CheckResult) (restic : W)
            → LeavesIdle (after_check env at repository operation result (created restic))
        after_check-LeavesIdle (err message) restic =
            finish_row-IsIdle failed (some message) none s.lock off idle
        after_check-LeavesIdle (ok result) restic =
            finish_row-IsIdle (if result.is_ok then success else warning) result.message none s.lock
              (check_status-off result.is_ok result.message) idle

    module _ (at : Moment) (repository : FileBackupRepository) where
      run_restic-LeavesIdle :
          (operation : MaintenanceOperation) (password : String) (s : MaintenanceState W)
          → IsIdle id s.lock
          → LeavesIdle (
              run_restic env at repository operation password
                (record s { lock = create_row env at repository operation s.lock }))
      run_restic-LeavesIdle prune password s idle =
          after_prune-LeavesIdle at repository prune s idle _ _
      run_restic-LeavesIdle check password s idle =
          after_check-LeavesIdle at repository check s idle _ _
      run_restic-LeavesIdle check_read_data password s idle =
          after_check-LeavesIdle at repository check_read_data s idle _ _

      module _ (operation : MaintenanceOperation) (s : MaintenanceState W)
          (idle : IsIdle id s.lock) where
        if_password-LeavesIdle :
            (password : Option String)
            → LeavesIdle (if_password env at repository operation password s)
        if_password-LeavesIdle none = idle
        if_password-LeavesIdle (some password) = run_restic-LeavesIdle operation password s idle

        if_free-LeavesIdle :
            (holder : Option HeldBy) → LeavesIdle (if_free env at repository operation holder s)
        if_free-LeavesIdle (some holder) = idle
        if_free-LeavesIdle none = if_password-LeavesIdle _

        if_due-LeavesIdle : (due : Bool) → LeavesIdle (if_due env at repository operation due s)
        if_due-LeavesIdle false = idle
        if_due-LeavesIdle true = if_free-LeavesIdle _

    consider-LeavesIdle :
        (forced : Bool) (repository : FileBackupRepository) (operation : MaintenanceOperation)
        (s : MaintenanceState W)
        → IsIdle id s.lock
        → LeavesIdle (consider env forced repository operation s)
    consider-LeavesIdle forced repository operation s idle =
        if_due-LeavesIdle (env.moment s.step) repository operation (next_step env s) idle _

    run_operations-IsIdle :
        (forced : Bool) (repository : FileBackupRepository) (operations : List MaintenanceOperation)
        (s : MaintenanceState W)
        → IsIdle id s.lock
        → IsIdle id (run_operations env forced repository operations s).1.lock
    unfolding run_operations
    run_operations-IsIdle forced repository [] s idle = idle
    run_operations-IsIdle forced repository (operation ∷ operations) s idle =
        run_operations-IsIdle forced repository operations
          (consider env forced repository operation s).1
          (consider-LeavesIdle forced repository operation s idle)

    run_repositories-IsIdle :
        (requested : Option MaintenanceOperation) (repositories : List FileBackupRepository)
        (s : MaintenanceState W)
        → IsIdle id s.lock
        → IsIdle id (run_repositories env requested repositories s).1.lock
    unfolding run_repositories
    run_repositories-IsIdle requested [] s idle = idle
    run_repositories-IsIdle requested (repository ∷ rest) s idle =
        run_repositories-IsIdle requested rest _ (
          run_operations-IsIdle (is_some requested) repository (operations_to_consider requested)
            (recover env repository s)
            (recover-IsIdle id (env.moment s.step).deps repository.id s.lock idle))

-- A sweep leaves every repository unlocked that it found unlocked: when nothing of a repository is in
-- progress before `runFileBackupMaintenance`, nothing is after it, whichever repositories and
-- operations it was asked for and whether restic succeeds, warns or throws.
pub sweep-IsIdle :
    {W : Type 0} (env : MaintenanceEnv W) (opts : MaintenanceOpts) (s : MaintenanceState W) (id : ℕ)
    → IsIdle id s.lock
    → IsIdle id (run_file_backup_maintenance env opts s).1.lock
unfolding run_file_backup_maintenance
sweep-IsIdle env opts s id idle =
    run_repositories-IsIdle id env opts.operation
      (repositories_of env opts.repository_id s.repositories) s idle
