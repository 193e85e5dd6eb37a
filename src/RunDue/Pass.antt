-- ===== src/RunDue/Pass.antt =====
-- What one pass decides, whatever its runs answer.
use arkode.Prelude.{
  ℕ, ◌+◌, ◌≤◌, ◌≡◌, refl, ap, ap₂, sym, ◌∙◌, ◌≢◌, Bool, true, false, ◌&&◌, List, [], ◌∷◌, arith,
  ◌==◌, keep, head?,
}
use arkode.Tables.{Fresh, UniqueKeys}
use arkode.Tables.Newest.{newest_first}
use arkode.Types.{BackupTask, BackupRun}
use arkode.Schedule.IsDue.{is_task_due}
use arkode.Runs.{Runs, run_id, start_of, is_scheduled, get_latest_scheduled_by_task}
use arkode.Orchestrator.{Env, State, Outcome, returned, threw, run_backup_task}
use arkode.Orchestrator.Frame.{rows_of, run-rows_of, run-Fresh, run-UniqueKeys}
use arkode.RunDue.{
  RunDueResult, result_of, scheduled_env, is_due_in, run_if, run_due_from, run_due_tasks,
}

abbrev pub task_key : BackupTask → ℕ
task_key t = t.id

-- For each result, the task and whether it ran.
abbrev pub decisions : List RunDueResult → List (ℕ × Bool)
decisions [] = []
decisions (r ∷ rs) = (r.task_id, r.ran) ∷ decisions rs

-- For each task, whether it is due on the tables as they stand.
abbrev pub due_list : {W : Type 0} → (ℕ → Env W) → ℕ → List BackupTask → State W → List (ℕ × Bool)
due_list envs now [] s = []
due_list envs now (task ∷ tasks) s =
    (task.id, is_due_in envs now task s) ∷ due_list envs now tasks s

keep-keep :
    (task_id : ℕ) (test : BackupRun → Bool) (runs : Runs)
    → keep (λ r. r.task_id == task_id && test r) runs ≡ keep test (rows_of task_id runs)
keep-keep task_id test [] = refl
keep-keep task_id test (r ∷ rs) = ground (arith, keep-keep task_id test rs)

latest_scheduled-rows_of :
    (task_id : ℕ) (runs runs' : Runs)
    → rows_of task_id runs ≡ rows_of task_id runs'
    → get_latest_scheduled_by_task task_id runs ≡ get_latest_scheduled_by_task task_id runs'
unfolding get_latest_scheduled_by_task
latest_scheduled-rows_of task_id runs runs' same =
    ap (λ rs. head? (newest_first start_of rs))
      (keep-keep task_id (λ r. is_scheduled r.trigger) runs
        ∙ ap (keep (λ (r : BackupRun). is_scheduled r.trigger)) same
        ∙ sym (keep-keep task_id (λ r. is_scheduled r.trigger) runs'))

module _ {W : Type 0} (envs : ℕ → Env W) (now : ℕ)
    (distinct : (i j : ℕ) → i ≢ j → (envs i).new_id ≢ (envs j).new_id) where
  -- The ids of the runs from the k-th on are unused.
  abbrev UnusedFrom : ℕ → Runs → Type 0
  UnusedFrom k runs = (i : ℕ) → k ≤ i → Fresh run_id (envs i).new_id runs

  module _ (k : ℕ) (task : BackupTask) (s : State W) (unique : UniqueKeys run_id s.runs)
      (unused : UnusedFrom k s.runs) where
    run_if-UniqueKeys : (due : Bool) → UniqueKeys run_id (run_if envs now due k task s).1.runs
    run_if-UniqueKeys false = unique
    run_if-UniqueKeys true =
        run-UniqueKeys (scheduled_env envs now k) task s unique (unused k (omega arith))

    run_if-UnusedFrom : (due : Bool) → UnusedFrom (k + 1) (run_if envs now due k task s).1.runs
    run_if-UnusedFrom false i le = unused i (omega arith)
    run_if-UnusedFrom true i le =
        run-Fresh (scheduled_env envs now k) task s unique (unused k (omega arith)) (envs i).new_id
          (distinct i k (λ e. omega arith)) (unused i (omega arith))

    run_if-due_list :
        (due : Bool) (tasks : List BackupTask)
        → Fresh task_key task.id tasks
        → due_list envs now tasks (run_if envs now due k task s).1 ≡ due_list envs now tasks s
    run_if-due_list false tasks fresh = refl
    run_if-due_list true [] fresh = refl
    run_if-due_list true (t ∷ ts) fresh =
        ap₂ (λ latest rest. (t.id, is_task_due t now latest) ∷ rest)
          (latest_scheduled-rows_of t.id _ s.runs (
            run-rows_of (scheduled_env envs now k) task s unique (unused k (omega arith)) t.id
              fresh.0))
          (run_if-due_list true ts fresh.1)

    run_if-decision :
        (due : Bool)
        → ((run_if envs now due k task s).0.task_id ≡ task.id)
          × ((run_if envs now due k task s).0.ran ≡ due)
    run_if-decision false = (refl, refl)
    run_if-decision true = of_outcome (run_backup_task (scheduled_env envs now k) task s).0
      where
        of_outcome :
            (o : Outcome) → ((result_of task o).task_id ≡ task.id) × ((result_of task o).ran ≡ true)
        of_outcome (returned run skipped) = (refl, refl)
        of_outcome (threw error) = (refl, refl)

  run_due_from-decisions :
      (k : ℕ) (tasks : List BackupTask) (s : State W)
      → UniqueKeys run_id s.runs
      → UnusedFrom k s.runs
      → UniqueKeys task_key tasks
      → decisions (run_due_from envs now k tasks s).0 ≡ due_list envs now tasks s
  unfolding run_due_from
  run_due_from-decisions k [] s unique unused tasks_unique = refl
  run_due_from-decisions k (task ∷ tasks) s unique unused tasks_unique =
      let due = is_due_in envs now task s in
      ap₂ (λ d ds. d ∷ ds)
        (ap₂ (λ id ran. (id, ran)) (run_if-decision k task s unique unused due).0
          (run_if-decision k task s unique unused due).1)
        (run_due_from-decisions (k + 1) tasks (run_if envs now due k task s).1
            (run_if-UniqueKeys k task s unique unused due)
            (run_if-UnusedFrom k task s unique unused due) tasks_unique.1
          ∙ run_if-due_list k task s unique unused due tasks tasks_unique.0)

-- A pass of `runDueTasks` over tasks with distinct ids gives one result for each task, in order,
-- and runs exactly the tasks that are due on the tables as they stood when it started: what the
-- runs before answer (an error, a skip, a failure) changes no later decision. Run ids are unique,
-- and those that the pass gives out are unused and differ from each other.
pub run_due-decisions :
    {W : Type 0} (envs : ℕ → Env W) (now : ℕ) (tasks : List BackupTask) (s : State W)
    → ((i j : ℕ) → i ≢ j → (envs i).new_id ≢ (envs j).new_id)
    → UniqueKeys run_id s.runs
    → ((i : ℕ) → Fresh run_id (envs i).new_id s.runs)
    → UniqueKeys task_key tasks
    → decisions (run_due_tasks envs now tasks s).0 ≡ due_list envs now tasks s
unfolding run_due_tasks
run_due-decisions envs now tasks s distinct unique unused tasks_unique =
    run_due_from-decisions envs now distinct 0 tasks s unique (λ i le. unused i) tasks_unique
