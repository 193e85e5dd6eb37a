-- ===== src/Dashboard.antt =====
-- packages/engine-core/src/status/getDashboardStatus.ts: the rows of the dashboard. The names, the
-- backup set and the live progress of a row are left out.
pub mod Rows
mod Examples
use Prim.Native.String.{String}
use arkode.Prelude.{
  ℕ, Bool, true, false, List, [], ◌∷◌, ◌++◌, Option, none, some, ◌==◌, ◌&&◌, keep, map,
}
use arkode.Types.{BackupTask, BackupRun, BackupRunStatus, Client}
use arkode.FileTypes.{FileBackupTask, FileBackupRun}
use arkode.Schedule.IsDue.{is_same_local_date, started_today, file_started_today}
use arkode.Schedule.Next.{ScheduleShape, shape_of, next_scheduled_run_at}
use arkode.Runs.{
  Runs, get_latest_by_task, get_latest_with_file_by_task, get_latest_scheduled_by_task,
}
use arkode.FileRuns.{FileRuns, get_latest_file_run_by_task, get_latest_successful_file_run_by_task}

pub data Kind : Type 0 where
  db file : Kind

-- `status` is `none` for 'NeverRun'.
pub record DashboardRow : Type 0 where
  pub kind : Kind
  pub client_id : ℕ
  pub task_id : ℕ
  pub status : Option BackupRunStatus
  pub size_bytes : Option ℕ
  pub checksum_sha256 : Option String
  pub last_good_backup_at : Option ℕ
  pub latest_attempt_at : Option ℕ
  pub latest_error_message : Option String
  pub next_run_at : Option ℕ
  pub schedule_enabled : Bool

-- `run?.field ?? null`.
abbrev pub field_of {ℓ κ} : {A : Type ℓ} {B : Type κ} → (A → Option B) → Option A → Option B
field_of field none = none
field_of field (some run) = field run

abbrev pub file_shape_of : FileBackupTask → ScheduleShape
file_shape_of task = record {
  schedule_time = task.schedule_time;
  schedule_enabled = task.schedule_enabled;
  schedule_frequency = task.schedule_frequency;
  schedule_days_of_week = task.schedule_days_of_week;
  schedule_day_of_month = task.schedule_day_of_month;
}

module _ (now : ℕ) where
  unfoldable pub db_row : Runs → BackupTask → DashboardRow
  unfolding next_scheduled_run_at get_latest_by_task get_latest_with_file_by_task
      get_latest_scheduled_by_task is_same_local_date
  db_row runs task =
      let latest_run = get_latest_by_task task.id runs in
      let latest_good_run = get_latest_with_file_by_task task.id runs in
      let latest_scheduled_run = get_latest_scheduled_by_task task.id runs in
      record {
        kind = db;
        client_id = task.client_id;
        task_id = task.id;
        status = field_of (λ (r : BackupRun). some r.status) latest_run;
        size_bytes = field_of (λ (r : BackupRun). r.size_bytes) latest_good_run;
        checksum_sha256 = field_of (λ (r : BackupRun). r.checksum_sha256) latest_good_run;
        last_good_backup_at = field_of (λ (r : BackupRun). r.downloaded_at) latest_good_run;
        latest_attempt_at = field_of (λ (r : BackupRun). r.finished_at) latest_run;
        latest_error_message = field_of (λ (r : BackupRun). r.error_message) latest_run;
        next_run_at =
            next_scheduled_run_at (shape_of task) now (started_today latest_scheduled_run now);
        schedule_enabled = task.schedule_enabled;
      }

  unfoldable pub file_row : FileRuns → FileBackupTask → DashboardRow
  unfolding next_scheduled_run_at get_latest_file_run_by_task get_latest_successful_file_run_by_task
      is_same_local_date
  file_row runs task =
      let latest_run = get_latest_file_run_by_task task.id runs in
      let latest_good_run = get_latest_successful_file_run_by_task task.id runs in
      record {
        kind = file;
        client_id = task.client_id;
        task_id = task.id;
        status = field_of (λ (r : FileBackupRun). some r.status) latest_run;
        size_bytes = field_of (λ (r : FileBackupRun). r.total_bytes_processed) latest_good_run;
        checksum_sha256 = none;
        last_good_backup_at = field_of (λ (r : FileBackupRun). r.finished_at) latest_good_run;
        latest_attempt_at = field_of (λ (r : FileBackupRun). r.finished_at) latest_run;
        latest_error_message = field_of (λ (r : FileBackupRun). r.error_message) latest_run;
        next_run_at =
            next_scheduled_run_at (file_shape_of task) now (file_started_today latest_run now);
        schedule_enabled = task.schedule_enabled;
      }

  -- The rows of one client: `listByClient(client.id).filter((task) => task.isActive)`.
  abbrev pub client_rows :
      List BackupTask → List FileBackupTask → Runs → FileRuns → Client → List DashboardRow
  client_rows tasks file_tasks runs file_runs client =
      map (db_row runs) (keep (λ (t : BackupTask). t.client_id == client.id && t.is_active) tasks)
      ++ map (file_row file_runs)
          (keep (λ (t : FileBackupTask). t.client_id == client.id && t.is_active) file_tasks)

  -- `listActive().flatMap(…)`, over the table of clients in its order.
  unfoldable pub get_dashboard_status :
      List Client → List BackupTask → List FileBackupTask → Runs → FileRuns → List DashboardRow
  unfolding db_row file_row
  get_dashboard_status [] tasks file_tasks runs file_runs = []
  get_dashboard_status (c ∷ cs) tasks file_tasks runs file_runs =
      let rows = get_dashboard_status cs tasks file_tasks runs file_runs in
      elim c.is_active [
        | true ↦ client_rows tasks file_tasks runs file_runs c ++ rows
        | false ↦ rows
      ]
