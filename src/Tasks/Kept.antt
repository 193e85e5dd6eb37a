-- ===== src/Tasks/Kept.antt =====
-- What each operation leaves of a task that has a real backup.
use mathlib.Core.Option.{some-injective}
use arkode.Prelude.{
  ℕ, ◌≡◌, ◌≢◌, refl, ap, subst, ◌∙◌, sym, Bool, true, false, not, Option, some, is_some, ◌==◌,
  Bool-cases, inl, inr, ==_iff,
}
use arkode.Prelude.Results.{Result, ok, err, ensure, ensure-passed, >>-cases, or_throw-cases}
use arkode.Types.{
  BackupTask, TaskPipeline, BackupStrategyKind, DbEngine, fetch_existing, remote_dump, direct_dump,
}
use arkode.Tables.{update_where, get_where, get_where-update_where, get_where-put, get_where-key}
use arkode.Runs.{Runs}
use arkode.Schedule.SetSchedule.{ScheduleError, SetScheduleInput, set_schedule, task_key}
use arkode.Schedule.Written.{planned_row-with_days, set_schedule-written}
use arkode.Tasks.{
  Tasks, TransportType, TaskError, passes_check, get_task, Written, insert_row, write_row,
  change_row, has_real_backup, id_taken, check_failed, no_task, transport_not_found,
  wrong_transport_type, connection_not_found, set_active, with_windows_task_name,
}
use arkode.Tasks.Create.{
  CreateFetchExistingTaskInput, CreateRemoteDumpTaskInput, CreateDirectDumpTaskInput,
  validate_remote_dump_input, create_fetch_existing, create_remote_dump, create_direct_dump,
  fetch_row, dump_row, direct_row, may_fetch, may_dump,
}
use arkode.Tasks.Operations.{
  Operation, new_fetch_existing, new_remote_dump, new_direct_dump, patched, scheduled_at,
  deactivated, reactivated, installed_as, written_schedule, perform_task, table_after,
}
use arkode.Tasks.Guards.{resolved-untouched}
use arkode.Tasks.Update.{
  UpdateTaskInput, resolved, touches_pipeline, check_patch, patched_row, update_task,
}

-- What a task backs up and how.
abbrev pub source_of :
    BackupTask → BackupStrategyKind × Option ℕ × Option ℕ × DbEngine × TaskPipeline
source_of t = (t.strategy, t.transport_id, t.database_connection_id, t.db_engine, t.pipeline)

-- A patch that the guards let through on a task with a real backup has no pipeline key.
untouched :
    (patch : UpdateTaskInput) (s : BackupTask)
    → check_patch (touches_pipeline patch) s.strategy true patch (resolved patch s.pipeline) ≡ ok tt
    → touches_pipeline patch ≡ false
untouched patch s passed = by_test (touches_pipeline patch) s.strategy passed
  where
    by_test :
        (b : Bool) (strategy : BackupStrategyKind)
        → check_patch b strategy true patch (resolved patch s.pipeline) ≡ ok tt
        → b ≡ false
    by_test false strategy e = refl
    by_test true fetch_existing e = cc
    by_test true remote_dump e = cc
    by_test true direct_dump e = cc

module _ (id : ℕ) (tasks : Tasks) (t : BackupTask) (found : get_task id tasks ≡ some t) where
  abbrev Keeps : Tasks → Type 0
  Keeps tasks' = (t' : BackupTask) × (get_task id tasks' ≡ some t') × (source_of t' ≡ source_of t)

  -- The call leaves a task with this id and this source.
  abbrev IsKept : Written → Type 0
  IsKept result = Keeps (table_after result tasks)

  thrown-IsKept : (error : TaskError) → IsKept (err error)
  thrown-IsKept error = (t, found, refl)

  insert-IsKept : (row : BackupTask) → IsKept (insert_row row tasks)
  unfolding insert_row get_task get_where
  insert-IsKept row =
      >>-cases IsKept (ensure (not (is_some (get_task row.id tasks))) id_taken) _
        (λ error e. thrown-IsKept error)
        (λ fresh.
          let absent : not (is_some (get_task row.id tasks)) ≡ true = ensure-passed _ _ fresh in
          >>-cases IsKept (ensure (passes_check row) check_failed) _
            (λ error e. thrown-IsKept error)
            (λ checked. elim (Bool-cases (row.id == id)) [
              | inl same ↦ absurd (taken (rw ((==_iff row.id id).0 same, found) at absent))
              | inr other ↦ (t, rw other found, refl)
            ]))
    where
      taken : false ≢ true
      taken e = cc

  write-IsKept :
      (row : BackupTask)
      → (row.id ≡ id → source_of row ≡ source_of t)
      → Keeps (update_where task_key row.id (λ s. row) tasks)
  unfolding get_task
  write-IsKept row same = elim (Bool-cases (id == row.id)) [
    | inl here ↦ (
      row,
      rw (get_where-put task_key row id tasks, here, found) refl,
      same (sym ((==_iff id row.id).0 here)),
    )
    | inr other ↦ (t, rw (get_where-put task_key row id tasks, other) found, refl)
  ]

  change-IsKept :
      (other : ℕ) (change : BackupTask → BackupTask)
      → ((s : BackupTask) → (change s).id ≡ s.id)
      → ((s : BackupTask) → source_of (change s) ≡ source_of s)
      → IsKept (change_row other change tasks)
  unfolding change_row get_task
  change-IsKept other change same_id same =
      or_throw-cases IsKept (get_task other tasks) no_task _ (thrown-IsKept no_task) (λ s known.
        elim (Bool-cases (id == other)) [
          | inl here ↦ (
            change t,
            rw (get_where-update_where task_key change same_id id other tasks, here, found) refl,
            same t,
          )
          | inr elsewhere ↦ (
            t,
            rw (get_where-update_where task_key change same_id id other tasks, elsewhere) found,
            refl,
          )
        ])

  write-patched :
      (row : BackupTask)
      → (row.id ≡ id → source_of row ≡ source_of t)
      → IsKept (write_row row tasks)
  unfolding write_row
  write-patched row same =
      >>-cases IsKept (ensure (passes_check row) check_failed) _ (λ error e. thrown-IsKept error)
        (λ checked. write-IsKept row same)

  found_again : (s : BackupTask) (other : ℕ) → get_task other tasks ≡ some s → other ≡ id → s ≡ t
  found_again s other known same =
      some-injective s t (sym known ∙ ap (λ k. get_task k tasks) same ∙ found)

  schedule-IsKept :
      (other : ℕ) (input : SetScheduleInput)
      → IsKept (written_schedule (set_schedule tasks other input))
  unfolding get_task
  schedule-IsKept other input = by_result (set_schedule tasks other input) refl
    where
      by_result :
          (result : Result ScheduleError (Tasks × BackupTask))
          → set_schedule tasks other input ≡ result
          → IsKept (written_schedule result)
      by_result (err error) e = (t, found, refl)
      by_result (ok (tasks', row)) e =
          let (valid, existing, known, planned, stored) =
            set_schedule-written tasks other input e in
          let (chosen, days, row_is) = planned_row-with_days existing input planned in
          subst Keeps stored (
            write-IsKept row (λ here.
              ap source_of (sym row_is)
              ∙ ap source_of (
                  found_again existing other known
                    (sym (get_where-key task_key other tasks known) ∙ ap task_key row_is ∙ here))))

  update-IsKept :
      (other : ℕ) (patch : UpdateTaskInput) (runs : Runs)
      → has_real_backup id runs ≡ true
      → IsKept (update_task other patch runs tasks)
  unfolding update_task
  update-IsKept other patch runs backed =
      or_throw-cases IsKept (get_task other tasks) no_task _ (thrown-IsKept no_task) (λ s known.
        >>-cases IsKept
          (check_patch (touches_pipeline patch) s.strategy (has_real_backup other runs) patch
            (resolved patch s.pipeline))
          _ (λ error e. thrown-IsKept error)
          (λ passed. write-patched (patched_row patch s) (λ here.
            let at_id : other ≡ id = sym (get_where-key task_key other tasks known) ∙ here in
            ap (λ p. (s.strategy, s.transport_id, s.database_connection_id, s.db_engine, p))
              (resolved-untouched patch s.pipeline
                (untouched patch s (rw (at_id, backed) at passed)))
            ∙ ap source_of (found_again s other known at_id))))

  module _ (transports : ℕ → Option TransportType) (connections : ℕ → Bool) where
    fetch-IsKept :
        (other : ℕ) (input : CreateFetchExistingTaskInput)
        → IsKept (create_fetch_existing transports connections other input tasks)
    unfolding create_fetch_existing
    fetch-IsKept other input =
        or_throw-cases IsKept (transports input.transport_id) transport_not_found _
          (thrown-IsKept transport_not_found)
          (λ transport known.
            >>-cases IsKept (ensure (may_fetch transport) wrong_transport_type) _
              (λ error e. thrown-IsKept error) (λ e. insert-IsKept (fetch_row other input)))

    dump-IsKept :
        (other : ℕ) (input : CreateRemoteDumpTaskInput)
        → IsKept (create_remote_dump transports connections other input tasks)
    unfolding create_remote_dump
    dump-IsKept other input =
        or_throw-cases IsKept (transports input.transport_id) transport_not_found _
          (thrown-IsKept transport_not_found)
          (λ transport known.
            >>-cases IsKept (ensure (may_dump transport) wrong_transport_type) _
              (λ error e. thrown-IsKept error)
              (λ e.
                >>-cases IsKept (validate_remote_dump_input input) _
                  (λ error e. thrown-IsKept error) (λ e. insert-IsKept (dump_row other input))))

    direct-IsKept :
        (other : ℕ) (input : CreateDirectDumpTaskInput)
        → IsKept (create_direct_dump transports connections other input tasks)
    unfolding create_direct_dump
    direct-IsKept other input =
        >>-cases IsKept (ensure (connections input.database_connection_id) connection_not_found) _
          (λ error e. thrown-IsKept error) (λ e. insert-IsKept (direct_row other input))

    pub perform_task-IsKept :
        (operation : Operation) (runs : Runs)
        → has_real_backup id runs ≡ true
        → IsKept (perform_task transports connections operation runs tasks)
    unfolding perform_task
    perform_task-IsKept (new_fetch_existing other input) runs backed = fetch-IsKept other input
    perform_task-IsKept (new_remote_dump other input) runs backed = dump-IsKept other input
    perform_task-IsKept (new_direct_dump other input) runs backed = direct-IsKept other input
    perform_task-IsKept (patched other patch) runs backed = update-IsKept other patch runs backed
    perform_task-IsKept (scheduled_at other input) runs backed = schedule-IsKept other input
    perform_task-IsKept (deactivated other) runs backed =
        change-IsKept other (set_active false) (λ s. refl) (λ s. refl)
    perform_task-IsKept (reactivated other) runs backed =
        change-IsKept other (set_active true) (λ s. refl) (λ s. refl)
    perform_task-IsKept (installed_as other name) runs backed =
        change-IsKept other (with_windows_task_name name) (λ s. refl) (λ s. refl)
