-- ===== src/Locking.antt =====
-- packages/engine-core/src/fileBackup/locking/repositoryLock.ts: one operation at a time on a
-- restic repository, decided from the rows that say "in progress".
pub mod Recovery
pub mod Exclusion
pub mod Idle
mod Examples
use Prim.Native.String.{String}
use arkode.Prelude.{ℕ, Bool, true, false, not, List, [], ◌∷◌, Option, none, some, keep}
use arkode.Tables.Recover.{fail_stale}
use arkode.Types.{failed}
use arkode.FileTypes.{FileBackupRun, FileBackupMaintenanceRun, FileBackupOperationKind}
use arkode.ProcessIdentity.{StaleRunCheckDeps, is_stale_in_progress_run}
use arkode.FileRuns.{
  FileRuns, MaintenanceRuns, list_file_in_progress, list_maintenance_in_progress, finished_file_row,
  finished_maintenance_row, file_run_id, maintenance_run_id,
}

pub record LockState : Type 0 where
  pub runs : FileRuns
  pub maintenance : MaintenanceRuns

abbrev pub run_interrupted : String
run_interrupted = "Run interrupted: owning process is no longer alive."

abbrev pub maintenance_interrupted : String
maintenance_interrupted = "Maintenance run interrupted: owning process is no longer alive."

pub data HeldBy : Type 0 where
  run maintenance : ℕ → HeldBy

abbrev pub holder_of_maintenance : MaintenanceRuns → Option HeldBy
holder_of_maintenance [] = none
holder_of_maintenance (r ∷ _) = some (maintenance r.id)

abbrev pub holder_of_runs : FileRuns → Option HeldBy → Option HeldBy
holder_of_runs [] otherwise = otherwise
holder_of_runs (r ∷ _) otherwise = some (run r.id)

module _ (deps : StaleRunCheckDeps) where
  abbrev pub is_stale_file_run : FileBackupRun → Bool
  is_stale_file_run r = is_stale_in_progress_run deps r.pid (some r.started_at)

  abbrev pub is_stale_maintenance_run : FileBackupMaintenanceRun → Bool
  is_stale_maintenance_run r = is_stale_in_progress_run deps r.pid (some r.started_at)

  abbrev pub fail_file_run : FileBackupRun → FileBackupRun
  fail_file_run = finished_file_row deps.now failed (some run_interrupted) none

  abbrev pub fail_maintenance_run : FileBackupMaintenanceRun → FileBackupMaintenanceRun
  fail_maintenance_run =
      finished_maintenance_row deps.now failed (some maintenance_interrupted) none

  unfoldable pub recover_stale_repository_runs : ℕ → LockState → LockState
  unfolding fail_stale list_file_in_progress list_maintenance_in_progress
  recover_stale_repository_runs repository_id s = record {
    runs =
        fail_stale file_run_id is_stale_file_run fail_file_run
          (list_file_in_progress repository_id s.runs) s.runs;
    maintenance =
        fail_stale maintenance_run_id is_stale_maintenance_run fail_maintenance_run
          (list_maintenance_in_progress repository_id s.maintenance) s.maintenance;
  }

  -- `locked` is true where a holder is returned. The kind of operation is not looked at.
  unfoldable pub check_repository_lock : LockState → ℕ → FileBackupOperationKind → Option HeldBy
  unfolding list_file_in_progress list_maintenance_in_progress
  check_repository_lock s repository_id operation =
      holder_of_runs
        (keep (λ r. not (is_stale_file_run r)) (list_file_in_progress repository_id s.runs))
        (holder_of_maintenance (
          keep (λ r. not (is_stale_maintenance_run r))
            (list_maintenance_in_progress repository_id s.maintenance)))
