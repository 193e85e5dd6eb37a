-- ===== src/FileRunDue.antt =====
-- packages/engine-core/src/fileBackup/scheduler/runFileBackupDueTasks.ts: one pass over the folder
-- backups. What the k-th task of the pass meets is the k-th environment.
pub mod Release
mod Examples
use arkode.Prelude.{ℕ, suc, Bool, true, false, List, [], ◌∷◌, Option, none, some}
use Prim.Native.String.{String}
use arkode.FileTypes.{FileBackupTask, FileBackupRun}
use arkode.FileRuns.{get_latest_file_run_by_task}
use arkode.Schedule.IsDue.{is_file_backup_task_due}
use arkode.FileOrchestrator.{FileEnv, FileState, FileOutcome, returned, threw, run_file_backup_task}

pub record FileBackupRunDueResult : Type 0 where
  pub task_id : ℕ
  pub ran : Bool
  pub result : Option (FileBackupRun × Bool)
  pub error : Option String

abbrev pub file_not_due : FileBackupTask → FileBackupRunDueResult
file_not_due task = record { task_id = task.id; ran = false; result = none; error = none }

-- The `try` and the `catch` around `runFileBackupTask`.
abbrev pub file_result_of : FileBackupTask → FileOutcome → FileBackupRunDueResult
file_result_of task (returned run skipped) = record {
  task_id = task.id;
  ran = true;
  result = some (run, skipped);
  error = none;
}
file_result_of task (threw error) = record {
  task_id = task.id;
  ran = true;
  result = none;
  error = some error.message;
}

module _ {W : Type 0} (envs : ℕ → FileEnv W) (now : ℕ) where
  abbrev pub is_file_due_in : FileBackupTask → FileState W → Bool
  is_file_due_in task s =
      is_file_backup_task_due task now (get_latest_file_run_by_task task.id s.lock.runs)

  -- One turn of the loop, on whether the task is due.
  abbrev pub run_file_if :
      Bool → ℕ → FileBackupTask → FileState W → FileBackupRunDueResult × FileState W
  run_file_if false k task s = (file_not_due task, s)
  run_file_if true k task s =
      let (outcome, s') = run_file_backup_task (envs k) task s in (file_result_of task outcome, s')

  unfoldable pub run_file_due_from :
      ℕ → List FileBackupTask → FileState W → List FileBackupRunDueResult × FileState W
  unfolding run_file_backup_task is_file_backup_task_due get_latest_file_run_by_task
  run_file_due_from k [] s = ([], s)
  run_file_due_from k (task ∷ tasks) s =
      let (result, s1) = run_file_if (is_file_due_in task s) k task s in
      let (results, s2) = run_file_due_from (suc k) tasks s1 in (result ∷ results, s2)

  unfoldable pub run_file_backup_due_tasks :
      List FileBackupTask → FileState W → List FileBackupRunDueResult × FileState W
  unfolding run_file_due_from
  run_file_backup_due_tasks tasks s = run_file_due_from 0 tasks s
