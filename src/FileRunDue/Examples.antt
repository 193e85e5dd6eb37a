-- ===== src/FileRunDue/Examples.antt =====
-- A pass over two folder backups at noon of day 5: the first is due and throws, and the second, which
-- is due too, runs after it.
use arkode.Prelude.{ℕ, ◌≡◌, refl, Bool, true, [], ◌∷◌, map, Option, none, some, ◌==◌, if◌then◌else◌}
use Prim.Native.String.{String}
use arkode.Tables.{update_where, get_where}
use arkode.Tables.Newest.{newest_first}
use arkode.FileTypes.{FileBackupTask}
use arkode.ProcessIdentity.{is_stale_in_progress_run}
use arkode.Calendar.{civil, next_day, days_in_month}
use arkode.Schedule.TimeText.{hours_minutes}
use arkode.Schedule.IsDue.{is_file_backup_task_due, is_same_local_date}
use arkode.Orchestrator.Samples.{acme}
use arkode.FileOrchestrator.{FileEnv}
use arkode.FileOrchestrator.Samples.{documents, file_env, interrupted_state}
use arkode.FileRunDue.{run_file_backup_due_tasks}
use arkode.Samples.{half_past_two, noon_of}

abbrev due_documents : ℕ → ℕ → FileBackupTask
due_documents id client_id = record documents {
  id = id;
  client_id = client_id;
  schedule_time = some half_past_two;
  schedule_enabled = true;
}

-- Client 1 only is there.
abbrev file_envs : ℕ → FileEnv (Unit {0})
file_envs k = record file_env {
  new_id = 100;
  get_client = λ id. if id == 1 then some acme else none;
}

error_then_run :
    map {B = ℕ × Bool × Option String}
      (λ r. (r.task_id, r.ran, r.error))
      (run_file_backup_due_tasks file_envs
        (noon_of 5)
        (due_documents 3 9 ∷ due_documents 2 1 ∷ [])
        interrupted_state).0
    ≡ (3, true, some "Client not found for file-backup task.") ∷ (2, true, none) ∷ []
unfolding run_file_backup_due_tasks is_stale_in_progress_run is_file_backup_task_due update_where
    get_where newest_first hours_minutes is_same_local_date civil next_day days_in_month
error_then_run = refl
