-- ===== src/Tasks/Check.antt =====
-- The guards of the repository against the CHECK of the table.
use arkode.Prelude.{
  ℕ, ◌≡◌, ◌≢◌, refl, ap, subst, ◌∙◌, Bool, true, false, not, Option, some, arith, All, is_some,
}
use arkode.Prelude.Results.{Result, ok, err, ◌>>◌, ensure, >>-cases, or_throw-cases}
use arkode.Types.{BackupTask}
use arkode.Schedule.SetSchedule.{task_key}
use arkode.Schedule.Written.{planned_row-with_days, set_schedule-written}
use arkode.Tables.{All-update_where, get_where-All}
use arkode.Runs.{Runs}
use arkode.Tasks.{
  Tasks, TransportType, TaskError, check_failed, passes_check, get_task, Written, insert_row,
  write_row, change_row, has_real_backup, no_task, transport_not_found, wrong_transport_type,
  connection_not_found, set_active, with_windows_task_name,
}
use arkode.Tasks.Create.{
  CreateFetchExistingTaskInput, CreateRemoteDumpTaskInput, CreateDirectDumpTaskInput,
  validate_remote_dump_input, create_fetch_existing, create_remote_dump, create_direct_dump,
  fetch_row, dump_row, direct_row, may_fetch, may_dump,
}
use arkode.Schedule.SetSchedule.{ScheduleError, SetScheduleInput, planned_row, set_schedule}
use arkode.Tasks.Operations.{
  Operation, new_fetch_existing, new_remote_dump, new_direct_dump, patched, scheduled_at,
  deactivated, reactivated, installed_as, written_schedule, perform_task,
}
use arkode.Tasks.Guards.{
  IsChecked, HasColumnsOf, same-IsChecked, dump_columns-checked, validate_mode-spares,
  check_patch-spares, patched_row-IsChecked,
}
use arkode.Tasks.Update.{
  UpdateTaskInput, resolved, touches_pipeline, check_patch, patched_row, update_task,
}

-- A table whose rows pass the CHECK, or an error that is not the CHECK's.
abbrev pub IsAccepted : Written → Type 0
IsAccepted (ok (tasks', row)) = All IsChecked tasks'
IsAccepted (err error) = error ≢ check_failed

>>-IsAccepted :
    (first : Result TaskError (Unit {0})) (rest : Written)
    → first ≢ err check_failed
    → (first ≡ ok tt → IsAccepted rest)
    → IsAccepted (first >> rest)
>>-IsAccepted first rest spares done =
    >>-cases IsAccepted first rest (λ error e f. spares (e ∙ ap err f)) done

insert-IsAccepted :
    (row : BackupTask) (tasks : Tasks)
    → IsChecked row
    → All IsChecked tasks
    → IsAccepted (insert_row row tasks)
unfolding insert_row
insert-IsAccepted row tasks checked all =
    >>-IsAccepted (ensure (not (is_some (get_task row.id tasks))) TaskError.id_taken) _
      (ground arith) (λ e. rw checked (checked, all))

write-IsAccepted :
    (row : BackupTask) (tasks : Tasks)
    → IsChecked row
    → All IsChecked tasks
    → IsAccepted (write_row row tasks)
unfolding write_row
write-IsAccepted row tasks checked all =
    rw checked (All-update_where task_key IsChecked row.id (λ t. row) tasks (λ t h. checked) all)

change-IsAccepted :
    (id : ℕ) (change : BackupTask → BackupTask) (tasks : Tasks)
    → ((t : BackupTask) → IsChecked t → IsChecked (change t))
    → All IsChecked tasks
    → IsAccepted (change_row id change tasks)
unfolding change_row
change-IsAccepted id change tasks keeps all =
    or_throw-cases IsAccepted (get_task id tasks) _ _ (λ e. cc)
      (λ t found. All-update_where task_key IsChecked id change tasks keeps all)

planned_row-HasColumnsOf :
    (existing : BackupTask) (input : SetScheduleInput) {row : BackupTask}
    → planned_row existing input ≡ ok row
    → HasColumnsOf existing row
planned_row-HasColumnsOf existing input h =
    let (chosen, found, same) = planned_row-with_days existing input h in
    subst (HasColumnsOf existing) same (record {
      strategy = refl;
      transport_id = refl;
      database_connection_id = refl;
      pipeline = refl;
    })

module _ (transports : ℕ → Option TransportType) (connections : ℕ → Bool) (tasks : Tasks)
    (all : All IsChecked tasks) where
  get_task-IsChecked : (id : ℕ) {t : BackupTask} → get_task id tasks ≡ some t → IsChecked t
  unfolding get_task
  get_task-IsChecked id found = get_where-All task_key IsChecked id tasks found all

  fetch-IsAccepted :
      (id : ℕ) (input : CreateFetchExistingTaskInput)
      → IsAccepted (create_fetch_existing transports connections id input tasks)
  unfolding create_fetch_existing passes_check
  fetch-IsAccepted id input =
      or_throw-cases IsAccepted (transports input.transport_id) transport_not_found _ (λ e. cc)
        (λ transport known.
          >>-IsAccepted (ensure (may_fetch transport) wrong_transport_type) _ (ground arith)
            (λ e. insert-IsAccepted (fetch_row id input) tasks refl all))

  dump-IsAccepted :
      (id : ℕ) (input : CreateRemoteDumpTaskInput)
      → IsAccepted (create_remote_dump transports connections id input tasks)
  unfolding create_remote_dump passes_check
  dump-IsAccepted id input =
      or_throw-cases IsAccepted (transports input.transport_id) transport_not_found _ (λ e. cc)
        (λ transport known.
          >>-IsAccepted (ensure (may_dump transport) wrong_transport_type) _ (ground arith) (λ e.
            >>-IsAccepted (validate_remote_dump_input input) _ (validate_mode-spares _ input)
              (λ valid.
                insert-IsAccepted (dump_row id input) tasks (dump_columns-checked _ input valid)
                  all)))

  direct-IsAccepted :
      (id : ℕ) (input : CreateDirectDumpTaskInput)
      → IsAccepted (create_direct_dump transports connections id input tasks)
  unfolding create_direct_dump passes_check
  direct-IsAccepted id input =
      >>-IsAccepted (ensure (connections input.database_connection_id) connection_not_found) _
        (ground arith) (λ e. insert-IsAccepted (direct_row id input) tasks refl all)

  update-IsAccepted :
      (id : ℕ) (patch : UpdateTaskInput) (runs : Runs)
      → IsAccepted (update_task id patch runs tasks)
  unfolding update_task
  update-IsAccepted id patch runs =
      or_throw-cases IsAccepted (get_task id tasks) no_task _ (λ e. cc)
        (λ t found.
          >>-IsAccepted
            (check_patch (touches_pipeline patch) t.strategy (has_real_backup id runs) patch
              (resolved patch t.pipeline))
            _ (check_patch-spares patch _ t.strategy _ _)
            (λ passed.
              write-IsAccepted (patched_row patch t) tasks
                (patched_row-IsChecked patch _ _ t refl (get_task-IsChecked id found) passed) all))

  schedule-IsAccepted :
      (id : ℕ) (input : SetScheduleInput)
      → IsAccepted (written_schedule (set_schedule tasks id input))
  schedule-IsAccepted id input = by_result (set_schedule tasks id input) refl
    where
      by_result :
          (result : Result ScheduleError (Tasks × BackupTask))
          → set_schedule tasks id input ≡ result
          → IsAccepted (written_schedule result)
      by_result (err error) e = λ e. cc
      by_result (ok (tasks', row)) e =
          let (valid, existing, found, planned, stored) = set_schedule-written tasks id input e in
          let checked =
            same-IsChecked existing row (planned_row-HasColumnsOf existing input planned)
              (get_where-All task_key IsChecked id tasks found all) in
          subst (All IsChecked) stored
            (All-update_where task_key IsChecked row.id (λ t. row) tasks (λ t h. checked) all)

-- The guards of the repository are as strict as the CHECK of its table: on a table whose rows pass
-- it, no operation is refused by it, whatever its input (a creation, an update, a schedule), and the
-- rows of the table that the operation leaves pass it.
pub perform_task-IsAccepted :
    (transports : ℕ → Option TransportType) (connections : ℕ → Bool) (tasks : Tasks)
    → All IsChecked tasks
    → (operation : Operation) (runs : Runs)
    → IsAccepted (perform_task transports connections operation runs tasks)
unfolding perform_task passes_check
perform_task-IsAccepted transports connections tasks all (new_fetch_existing id input) runs =
    fetch-IsAccepted transports connections tasks all id input
perform_task-IsAccepted transports connections tasks all (new_remote_dump id input) runs =
    dump-IsAccepted transports connections tasks all id input
perform_task-IsAccepted transports connections tasks all (new_direct_dump id input) runs =
    direct-IsAccepted transports connections tasks all id input
perform_task-IsAccepted transports connections tasks all (patched id patch) runs =
    update-IsAccepted transports connections tasks all id patch runs
perform_task-IsAccepted transports connections tasks all (scheduled_at id input) runs =
    schedule-IsAccepted transports connections tasks all id input
perform_task-IsAccepted transports connections tasks all (deactivated id) runs =
    change-IsAccepted id (set_active false) tasks (λ t h. h) all
perform_task-IsAccepted transports connections tasks all (reactivated id) runs =
    change-IsAccepted id (set_active true) tasks (λ t h. h) all
perform_task-IsAccepted transports connections tasks all (installed_as id name) runs =
    change-IsAccepted id (with_windows_task_name name) tasks (λ t h. h) all
