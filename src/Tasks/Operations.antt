-- ===== src/Tasks/Operations.antt =====
-- The operations of the repository as values, and a sequence of them.
use Prim.Native.String.{String}
use arkode.Prelude.{ℕ, Bool, List, [], ◌∷◌, Option}
use arkode.Prelude.Results.{Result, ok, err}
use arkode.Types.{BackupTask}
use arkode.Runs.{Runs}
use arkode.Schedule.SetSchedule.{SetScheduleInput, ScheduleError, set_schedule}
use arkode.Tasks.{
  Tasks, TransportType, bad_schedule, Written, deactivate, reactivate, set_windows_task_name,
  change_row,
}
use arkode.Tasks.Create.{
  CreateFetchExistingTaskInput, CreateRemoteDumpTaskInput, CreateDirectDumpTaskInput,
  create_fetch_existing, create_remote_dump, create_direct_dump,
}
use arkode.Tasks.Update.{UpdateTaskInput, update_task}

pub data Operation : Type 0 where
  new_fetch_existing : ℕ → CreateFetchExistingTaskInput → Operation
  new_remote_dump : ℕ → CreateRemoteDumpTaskInput → Operation
  new_direct_dump : ℕ → CreateDirectDumpTaskInput → Operation
  patched : ℕ → UpdateTaskInput → Operation
  scheduled_at : ℕ → SetScheduleInput → Operation
  deactivated reactivated : ℕ → Operation
  installed_as : ℕ → Option String → Operation

-- The UPDATE of a schedule writes no column that the CHECK reads.
abbrev pub written_schedule : Result ScheduleError (Tasks × BackupTask) → Written
written_schedule (ok result) = ok result
written_schedule (err error) = err (bad_schedule error)

-- A call that throws leaves the table as it was.
abbrev pub table_after : Written → Tasks → Tasks
table_after (ok (tasks', row)) tasks = tasks'
table_after (err error) tasks = tasks

module _ (transports : ℕ → Option TransportType) (connections : ℕ → Bool) where
  unfoldable pub perform_task : Operation → Runs → Tasks → Written
  unfolding create_fetch_existing create_remote_dump create_direct_dump update_task set_schedule
      change_row
  perform_task (new_fetch_existing id input) runs tasks =
      create_fetch_existing transports connections id input tasks
  perform_task (new_remote_dump id input) runs tasks =
      create_remote_dump transports connections id input tasks
  perform_task (new_direct_dump id input) runs tasks =
      create_direct_dump transports connections id input tasks
  perform_task (patched id patch) runs tasks = update_task id patch runs tasks
  perform_task (scheduled_at id input) runs tasks = written_schedule (set_schedule tasks id input)
  perform_task (deactivated id) runs tasks = deactivate id tasks
  perform_task (reactivated id) runs tasks = reactivate id tasks
  perform_task (installed_as id name) runs tasks = set_windows_task_name id name tasks

  -- Each call with the table of runs that it finds.
  unfoldable pub perform_all : List (Operation × Runs) → Tasks → Tasks
  unfolding perform_task
  perform_all [] tasks = tasks
  perform_all ((operation, runs) ∷ steps) tasks =
      perform_all steps (table_after (perform_task operation runs tasks) tasks)
