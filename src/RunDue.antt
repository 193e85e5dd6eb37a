-- ===== src/RunDue.antt =====
-- packages/engine-core/src/scheduler/runDueTasks.ts: one pass over the tasks. What the k-th task
-- of the pass meets is the k-th environment, `runDueTasks` sets the trigger of each.
pub mod Pass
pub mod Samples
mod Examples
use arkode.Prelude.{ℕ, ◌+◌, Bool, true, false, List, [], ◌∷◌, Option, none, some}
use Prim.Native.String.{String}
use arkode.Types.{BackupTask, BackupRun, scheduled}
use arkode.Schedule.IsDue.{is_task_due}
use arkode.Runs.{get_latest_scheduled_by_task}
use arkode.Orchestrator.{
  Env, State, Outcome, returned, threw, RunError, no_new_dump, other_error, run_backup_task,
}

pub record RunDueResult : Type 0 where
  pub task_id : ℕ
  pub ran : Bool
  pub result : Option (BackupRun × Bool)
  pub error : Option String

abbrev pub message_of : RunError → String
message_of (no_new_dump message) = message
message_of (other_error message stack) = message

abbrev pub not_due : BackupTask → RunDueResult
not_due task = record { task_id = task.id; ran = false; result = none; error = none }

-- The `try` and the `catch` around `runBackupTask`.
abbrev pub result_of : BackupTask → Outcome → RunDueResult
result_of task (returned run skipped) = record {
  task_id = task.id;
  ran = true;
  result = some (run, skipped);
  error = none;
}
result_of task (threw error) = record {
  task_id = task.id;
  ran = true;
  result = none;
  error = some (message_of error);
}

module _ {W : Type 0} (envs : ℕ → Env W) (now : ℕ) where
  abbrev pub scheduled_env : ℕ → Env W
  scheduled_env k = record (envs k) { run_trigger = some scheduled }

  abbrev pub is_due_in : BackupTask → State W → Bool
  is_due_in task s = is_task_due task now (get_latest_scheduled_by_task task.id s.runs)

  -- One turn of the loop, on whether the task is due.
  abbrev pub run_if : Bool → ℕ → BackupTask → State W → RunDueResult × State W
  run_if false k task s = (not_due task, s)
  run_if true k task s =
      let (outcome, s') = run_backup_task (scheduled_env k) task s in (result_of task outcome, s')

  unfoldable pub run_due_from : ℕ → List BackupTask → State W → List RunDueResult × State W
  unfolding run_backup_task is_task_due get_latest_scheduled_by_task
  run_due_from k [] s = ([], s)
  run_due_from k (task ∷ tasks) s =
      let (result, s1) = run_if (is_due_in task s) k task s in
      let (results, s2) = run_due_from (k + 1) tasks s1 in (result ∷ results, s2)

  unfoldable pub run_due_tasks : List BackupTask → State W → List RunDueResult × State W
  unfolding run_due_from
  run_due_tasks tasks s = run_due_from 0 tasks s
