-- ===== src/Tasks.antt =====
-- packages/engine-core/src/db/repositories/tasksRepo.ts: the table of tasks, with the CHECK of
-- db/migrations/0011_fix_remote_dump_docker_check.sql. `setSchedule` is Schedule.SetSchedule. Foreign
-- keys and the times of creation and change are left out.
pub mod Create
pub mod Update
pub mod Operations
pub mod Guards
pub mod Check
pub mod Kept
pub mod Frozen
mod Examples
use Prim.Native.String.{String}
use arkode.Prelude.{
  ℕ, Bool, true, false, not, ◌&&◌, ◌||◌, List, [], ◌∷◌, Option, none, some, any, keep, is_some,
  if◌then◌else◌,
}
use arkode.Prelude.Results.{Result, ok, err, ◌>>=◌, ◌>>◌, ensure, or_throw}
use arkode.Types.{
  BackupTask, TaskPipeline, BackupStrategyKind, fetch_existing, remote_dump, direct_dump, host,
  docker,
}
use arkode.Tables.{update_where, get_where}
use arkode.Runs.{Runs, is_backup}
use arkode.Schedule.SetSchedule.{ScheduleError, task_key}

abbrev pub Tasks : Type 0
Tasks = List BackupTask

pub data TransportType : Type 0 where
  sftp ssh ftp : TransportType

-- What the operations throw; the last two are errors of SQLite.
pub data TaskError : Type 0 where
  transport_not_found wrong_transport_type connection_not_found no_task : TaskError
  host_without_command docker_without_target docker_without_engine : TaskError
  no_pipeline has_real_backups fetch_without_command_fields fetch_without_path : TaskError
  dump_without_path_fields dump_without_template docker_builds_command : TaskError
  bad_schedule : ScheduleError → TaskError
  id_taken check_failed : TaskError

-- Which columns a strategy has.
abbrev pub satisfies_check : BackupStrategyKind → Option ℕ → Option ℕ → TaskPipeline → Bool
satisfies_check fetch_existing transport_id connection_id p =
    is_some transport_id
    && not (is_some connection_id)
    && is_some p.remote_path
    && not (is_some p.remote_command)
    && not (is_some p.remote_output_path_template)
satisfies_check remote_dump transport_id connection_id p =
    is_some transport_id
    && not (is_some connection_id)
    && not (is_some p.remote_path)
    && is_some p.remote_output_path_template
    && (elim p.remote_dump_exec_mode [
      | host ↦ is_some p.remote_command
      | docker ↦
          is_some p.docker_container
          && is_some p.remote_dump_database
          && is_some p.remote_dump_db_user
    ])
satisfies_check direct_dump transport_id connection_id p =
    is_some connection_id
    && not (is_some transport_id)
    && not (is_some p.remote_path)
    && not (is_some p.remote_command)
    && not (is_some p.remote_output_path_template)

unfoldable pub passes_check : BackupTask → Bool
passes_check t = satisfies_check t.strategy t.transport_id t.database_connection_id t.pipeline

unfoldable pub get_task : ℕ → Tasks → Option BackupTask
unfolding get_where
get_task id tasks = get_where task_key id tasks

-- Every active task with a schedule that is configured and enabled.
unfoldable pub list_scheduled : Tasks → Tasks
list_scheduled tasks =
    keep (λ (t : BackupTask). t.is_active && t.schedule_enabled && is_some t.schedule_time) tasks

-- What a call answers: the table after it, with the row that it read back.
abbrev pub Written : Type 0
Written = Result TaskError (Tasks × BackupTask)

-- INSERT, under the primary key and the CHECK.
unfoldable pub insert_row : BackupTask → Tasks → Written
unfolding get_task passes_check
insert_row row tasks = do
  ensure (not (is_some (get_task row.id tasks))) id_taken
  ensure (passes_check row) check_failed
  ok (row ∷ tasks, row)

-- UPDATE of columns that the CHECK reads.
unfoldable pub write_row : BackupTask → Tasks → Written
unfolding update_where passes_check
write_row row tasks = do
  ensure (passes_check row) check_failed
  ok (update_where task_key row.id (λ t. row) tasks, row)

-- UPDATE of other columns, by id.
unfoldable pub change_row : ℕ → (BackupTask → BackupTask) → Tasks → Written
unfolding get_task update_where
change_row id change tasks = do
  existing ← or_throw (get_task id tasks) no_task
  ok (update_where task_key id change tasks, change existing)

abbrev pub set_active : Bool → BackupTask → BackupTask
set_active active t = record t { is_active = active }

abbrev pub deactivate : ℕ → Tasks → Written
deactivate id tasks = change_row id (set_active false) tasks

abbrev pub reactivate : ℕ → Tasks → Written
reactivate id tasks = change_row id (set_active true) tasks

abbrev pub with_windows_task_name : Option String → BackupTask → BackupTask
with_windows_task_name name t = record t { windows_task_name = name }

abbrev pub set_windows_task_name : ℕ → Option String → Tasks → Written
set_windows_task_name id name tasks = change_row id (with_windows_task_name name) tasks

-- A Success or Warning run of the task left a file.
unfoldable pub has_real_backup : ℕ → Runs → Bool
has_real_backup id runs = any (is_backup none (some id)) runs
