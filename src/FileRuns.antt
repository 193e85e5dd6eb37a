-- ===== src/FileRuns.antt =====
-- The tables of the file-backup domain that take part in locking:
-- packages/engine-core/src/fileBackup/db/repositories/fileBackupRunsRepo.ts and
-- fileBackupMaintenanceRunsRepo.ts. A table is the list of its rows, the row inserted last first.
use Prim.Native.String.{String}
use arkode.Prelude.{
  ℕ, Bool, true, false, ◌&&◌, List, ◌∷◌, Option, none, some, ◌==◌, keep, head?, take, or_default,
  is_some,
}
use arkode.Tables.{update_where, get_where}
use arkode.Tables.Newest.{newest_first}
use arkode.Types.{BackupRunStatus, pending, running, producing, validating}
use arkode.FileTypes.{FileBackupRun, FileBackupMaintenanceRun, MaintenanceOperation}
use arkode.Runs.{is_running, is_success, matches_filter}

abbrev pub FileRuns : Type 0
FileRuns = List FileBackupRun

abbrev pub MaintenanceRuns : Type 0
MaintenanceRuns = List FileBackupMaintenanceRun

abbrev pub file_run_id : FileBackupRun → ℕ
file_run_id r = r.id

abbrev pub maintenance_run_id : FileBackupMaintenanceRun → ℕ
maintenance_run_id r = r.id

pub record CreateFileBackupRunInput : Type 0 where
  pub task_id : ℕ
  pub client_id : ℕ
  pub repository_id : ℕ
  pub pid : ℕ

abbrev pub new_file_row : ℕ → ℕ → CreateFileBackupRunInput → FileBackupRun
new_file_row id now input = record {
  id = id;
  task_id = input.task_id;
  client_id = input.client_id;
  repository_id = input.repository_id;
  status = pending;
  snapshot_id = none;
  total_bytes_processed = none;
  files_deleted = none;
  started_at = now;
  finished_at = none;
  error_message = none;
  error_stack = none;
  pid = some input.pid;
  progress = none;
}

unfoldable pub create_file_run : ℕ → ℕ → CreateFileBackupRunInput → FileRuns → FileRuns
unfolding update_where
create_file_run id now input runs =
    update_where file_run_id id (λ r. record r { status = running })
      (new_file_row id now input ∷ runs)

abbrev pub finished_file_row :
    ℕ → BackupRunStatus → Option String → Option String → FileBackupRun → FileBackupRun
finished_file_row now s message stack r = record r {
  status = s;
  error_message = message;
  error_stack = stack;
  finished_at = some now;
}

unfoldable pub mark_file_producing : ℕ → FileRuns → FileRuns
unfolding update_where
mark_file_producing id runs =
    update_where file_run_id id (λ r. record r { status = producing }) runs

unfoldable pub update_file_progress : ℕ → Option String → FileRuns → FileRuns
unfolding update_where
update_file_progress id progress runs =
    update_where file_run_id id (λ r. record r { progress = progress }) runs

-- The counts that the summary has besides are written to columns that are left out.
abbrev pub summarized_row : String → ℕ → ℕ → FileBackupRun → FileBackupRun
summarized_row snapshot bytes deleted r = record r {
  status = validating;
  snapshot_id = some snapshot;
  total_bytes_processed = some bytes;
  files_deleted = some deleted;
}

unfoldable pub record_backup_summary : ℕ → String → ℕ → ℕ → FileRuns → FileRuns
unfolding update_where
record_backup_summary id snapshot bytes deleted runs =
    update_where file_run_id id (summarized_row snapshot bytes deleted) runs

unfoldable pub get_file_run_by_id : ℕ → FileRuns → Option FileBackupRun
unfolding get_where
get_file_run_by_id id runs = get_where file_run_id id runs

-- `ORDER BY started_at DESC, rowid DESC`.
abbrev pub file_start_of : FileBackupRun → ℕ
file_start_of r = r.started_at

unfoldable pub get_latest_file_run_by_task : ℕ → FileRuns → Option FileBackupRun
unfolding newest_first
get_latest_file_run_by_task task_id runs =
    head? (newest_first file_start_of (keep (λ r. r.task_id == task_id) runs))

unfoldable pub get_latest_successful_file_run_by_task : ℕ → FileRuns → Option FileBackupRun
unfolding newest_first
get_latest_successful_file_run_by_task task_id runs = head? (
    newest_first file_start_of
      (keep (λ r. r.task_id == task_id && is_success r.status && is_some r.snapshot_id) runs))

unfoldable pub list_recent_file_runs : Option ℕ → Option ℕ → Option ℕ → FileRuns → FileRuns
unfolding newest_first
list_recent_file_runs task_id client_id limit runs = take (or_default limit 200) (
    newest_first file_start_of
      (keep (λ r. matches_filter task_id r.task_id && matches_filter client_id r.client_id) runs))

unfoldable pub mark_file_finished :
    ℕ → ℕ → BackupRunStatus → Option String → Option String → FileRuns → FileRuns
unfolding update_where
mark_file_finished id now s message stack runs =
    update_where file_run_id id (finished_file_row now s message stack) runs

abbrev pub is_file_in_progress : ℕ → FileBackupRun → Bool
is_file_in_progress repository_id r = r.repository_id == repository_id && is_running r.status

unfoldable pub list_file_in_progress : ℕ → FileRuns → FileRuns
list_file_in_progress repository_id runs = keep (is_file_in_progress repository_id) runs

unfoldable pub create_maintenance_run :
    ℕ → ℕ → ℕ → MaintenanceOperation → ℕ → MaintenanceRuns → MaintenanceRuns
create_maintenance_run id now repository_id operation pid runs =
    record {
      id = id;
      repository_id = repository_id;
      operation = operation;
      status = running;
      started_at = now;
      finished_at = none;
      bytes_reclaimed = none;
      error_message = none;
      pid = some pid;
    }
    ∷ runs

abbrev pub finished_maintenance_row :
    ℕ
    → BackupRunStatus
    → Option String
    → Option ℕ
    → FileBackupMaintenanceRun
    → FileBackupMaintenanceRun
finished_maintenance_row now s message bytes r = record r {
  status = s;
  error_message = message;
  bytes_reclaimed = bytes;
  finished_at = some now;
}

unfoldable pub mark_maintenance_finished :
    ℕ → ℕ → BackupRunStatus → Option String → Option ℕ → MaintenanceRuns → MaintenanceRuns
unfolding update_where
mark_maintenance_finished id now s message bytes runs =
    update_where maintenance_run_id id (finished_maintenance_row now s message bytes) runs

abbrev is_status_running : BackupRunStatus → Bool
is_status_running running = true
is_status_running _ = false

abbrev pub is_maintenance_in_progress : ℕ → FileBackupMaintenanceRun → Bool
is_maintenance_in_progress repository_id r =
    r.repository_id == repository_id && is_status_running r.status

unfoldable pub list_maintenance_in_progress : ℕ → MaintenanceRuns → MaintenanceRuns
list_maintenance_in_progress repository_id runs =
    keep (is_maintenance_in_progress repository_id) runs
