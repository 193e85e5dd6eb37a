-- ===== src/Orchestrator/Outcomes.antt =====
-- What a call of `runBackupTask` leaves, by what it meets.
use arkode.Prelude.{
  ◌≡◌, refl, ap, sym, ◌∙◌, subst, Bool, true, false, not, ◌&&◌, [], ◌∷◌, map, none, some, arith,
  ◌==◌, keep,
}
use arkode.Prelude.Results.{err}
use arkode.Tables.{Fresh, UniqueKeys}
use arkode.Tables.Recover.{
  failed_if_dead, fail_stale-map, idle_after, live_after, Fresh-failed_if_dead,
  UniqueKeys-failed_if_dead,
}
use arkode.Types.{
  BackupTask, BackupRun, Client, BackupRunStatus, pending, running, producing, validating, success,
  warning, failed,
}
use arkode.ProcessIdentity.{is_stale_in_progress_run}
use arkode.Runs.{Runs, run_id, is_running, list_in_progress, new_row, set_status}
use arkode.Orchestrator.{
  Env, State, Outcome, returned, threw, RunError, is_stale_run, fail_run, recover_stale_runs,
  run_backup_task, skip_or_start, start, after_prepare, prepare, attempt, create_input,
}
use arkode.Orchestrator.Steps.{is_finished, IsOwn, Ends, create-row, attempt-Ends}

abbrev pub is_listed : BackupTask → BackupRun → Bool
is_listed task r = r.task_id == task.id && is_running r.status

-- The runs of the task that a living process may still be working on.
abbrev pub live_runs : {W : Type 0} → Env W → BackupTask → Runs → Runs
live_runs env task runs =
    keep (λ r. not (is_stale_run env.stale_deps r)) (keep (is_listed task) runs)

-- The table with the dead runs of the task failed.
abbrev pub recovered : {W : Type 0} → Env W → BackupTask → Runs → Runs
recovered env task runs =
    map
      (failed_if_dead run_id (is_stale_run env.stale_deps) (fail_run env.stale_deps) (λ r. refl)
        (is_listed task))
      runs

pub finished-running : (s : BackupRunStatus) → is_finished s ≡ true → is_running s ≡ false
finished-running success h = refl
finished-running warning h = refl
finished-running failed h = refl
finished-running pending h = cc
finished-running running h = cc
finished-running producing h = cc
finished-running validating h = cc

module _ {W : Type 0} (env : Env W) (task : BackupTask) (s : State W) where
  recover-eq :
      UniqueKeys run_id s.runs
      → recover_stale_runs env.stale_deps task.id s.runs ≡ recovered env task s.runs
  unfolding recover_stale_runs list_in_progress
  recover-eq unique =
      fail_stale-map run_id (is_stale_run env.stale_deps) (fail_run env.stale_deps) (λ r. refl)
        (is_listed task) s.runs unique

  pub run-eq :
      UniqueKeys run_id s.runs
      → run_backup_task env task s
        ≡ skip_or_start env task
            (live_runs env task s.runs)
            (record s { runs = recovered env task s.runs })
  unfolding run_backup_task list_in_progress
  run-eq unique =
      ap
        (λ runs.
          skip_or_start env task
            (keep (λ r. not (is_stale_run env.stale_deps r)) (keep (is_listed task) runs))
            (record s { runs = runs }))
        (recover-eq unique)
      ∙ ap (λ live. skip_or_start env task live (record s { runs = recovered env task s.runs }))
          (live_after run_id (is_stale_run env.stale_deps) (fail_run env.stale_deps) (λ r. refl)
            (is_listed task) (λ r. ground arith) s.runs)

-- A call that finds a run of the task whose owner may still be at work only fails the dead runs of
-- the task, and returns the first living one as skipped.
pub live_run-skips :
    {W : Type 0} (env : Env W) (task : BackupTask) (s : State W) (run : BackupRun) (others : Runs)
    → UniqueKeys run_id s.runs
    → live_runs env task s.runs ≡ run ∷ others
    → run_backup_task env task s
      ≡ (returned run true, record s { runs = recovered env task s.runs })
live_run-skips env task s run others unique live =
    run-eq env task s unique
    ∙ ap (λ l. skip_or_start env task l (record s { runs = recovered env task s.runs })) live

module _ {W : Type 0} (env : Env W) (task : BackupTask) (s : State W) (client : Client)
    (unique : UniqueKeys run_id s.runs) (fresh : Fresh run_id env.new_id s.runs)
    (idle : live_runs env task s.runs ≡ [])
    (known : env.get_client task.client_id ≡ some client) where
  pub fresh_recovered : Fresh run_id env.new_id (recovered env task s.runs)
  fresh_recovered =
      Fresh-failed_if_dead run_id (is_stale_run env.stale_deps) (fail_run env.stale_deps)
        (λ r. refl) (is_listed task) env.new_id s.runs fresh

  abbrev pub first_row : BackupRun
  first_row = set_status running (new_row env.new_id env.created_now (create_input env task))

  -- The state after `runsRepo.create`.
  abbrev pub created : State W
  created = record s { runs = first_row ∷ recovered env task s.runs }

  pub start-eq :
      run_backup_task env task s
      ≡ after_prepare env task client
          (prepare env env.make_target_dir env.clean_orphaned_part_files)
          created
  start-eq =
      run-eq env task s unique
      ∙ ap (λ l. skip_or_start env task l (record s { runs = recovered env task s.runs })) idle
      ∙ ap (λ c. start env task c (record s { runs = recovered env task s.runs })) known
      ∙ ap
          (λ runs.
            after_prepare env task client
              (prepare env env.make_target_dir env.clean_orphaned_part_files)
              (record s { runs = runs }))
          (create-row env task client (recovered env task s.runs) fresh_recovered)

  pub first_row-IsOwn : IsOwn env task first_row
  first_row-IsOwn = record {
    same_id = refl;
    same_task = refl;
    same_trigger = refl;
    same_start = refl;
  }

  recovered_idle : keep (is_listed task) (recovered env task s.runs) ≡ []
  recovered_idle =
      let done : (r : BackupRun) → is_listed task (fail_run env.stale_deps r) ≡ false =
        λ r. ground arith in
      idle_after run_id (is_stale_run env.stale_deps) (fail_run env.stale_deps) (λ r. refl)
        (is_listed task) done s.runs
        (live_after run_id (is_stale_run env.stale_deps) (fail_run env.stale_deps) (λ r. refl)
            (is_listed task) done s.runs
          ∙ idle)

  finished-listed : (r : BackupRun) → is_finished r.status ≡ true → is_listed task r ≡ false
  finished-listed r done = ground (arith, finished-running r.status done)

  pub attempt-eq :
      env.make_target_dir ≡ none
      → env.clean_orphaned_part_files ≡ none
      → run_backup_task env task s ≡ attempt env task client created
  attempt-eq made cleaned =
      start-eq
      ∙ ap
          (λ m. after_prepare env task client (prepare env m env.clean_orphaned_part_files) created)
          made
      ∙ ap (λ c. after_prepare env task client (prepare env none c) created) cleaned

  pub run-Ends :
      env.make_target_dir ≡ none
      → env.clean_orphaned_part_files ≡ none
      → Ends env task (recovered env task s.runs) (run_backup_task env task s)
  run-Ends made cleaned =
      subst (Ends env task (recovered env task s.runs)) (sym (attempt-eq made cleaned)) (
        attempt-Ends env task client (recovered env task s.runs) fresh_recovered created first_row
          first_row-IsOwn refl)

  Ends-idle :
      (result : Outcome × State W)
      → Ends env task (recovered env task s.runs) result
      → list_in_progress task.id result.1.runs ≡ []
  unfolding list_in_progress
  Ends-idle result e =
      rw e.stored (ground (arith, finished-listed e.run e.finished, recovered_idle))

  -- With the id of the new run unused, no living run of the task, its client known and the folder
  -- ready, a call returns the row that it created, whatever the strategy, the validators and the
  -- retention answer: the row is finished, the others are those of before with the dead runs
  -- failed, and no run of the task is in progress afterwards.
  pub fresh_run-finishes :
      env.make_target_dir ≡ none
      → env.clean_orphaned_part_files ≡ none
      → Ends env task (recovered env task s.runs) (run_backup_task env task s)
        × (list_in_progress task.id (run_backup_task env task s).1.runs ≡ [])
  fresh_run-finishes made cleaned =
      (run-Ends made cleaned, Ends-idle (run_backup_task env task s) (run-Ends made cleaned))

  stuck-live :
      (later : Env W)
      → is_stale_in_progress_run later.stale_deps (some env.pid) (some env.created_now) ≡ false
      → live_runs later task (first_row ∷ recovered env task s.runs)
        ≡ first_row ∷ live_runs later task (recovered env task s.runs)
  stuck-live later alive = ground arith

  -- An error before the `try` block, from the folder or from its cleaning, leaves the new row in
  -- progress: the call throws, and a later call for the same task, while the process lives, returns
  -- this row as skipped.
  pub unprepared_run-blocks :
      (error : RunError) (later : Env W)
      → prepare env env.make_target_dir env.clean_orphaned_part_files ≡ err error
      → is_stale_in_progress_run later.stale_deps (some env.pid) (some env.created_now) ≡ false
      → ((run_backup_task env task s).0 ≡ threw error)
        × ((run_backup_task later task (run_backup_task env task s).1).0 ≡ returned first_row true)
  unprepared_run-blocks error later fails alive =
      let stops : run_backup_task env task s ≡ (threw error, created) =
        start-eq ∙ ap (λ p. after_prepare env task client p created) fails in
      (
        ap (λ p. p.0) stops,
        ap (λ p. (run_backup_task later task p.1).0) stops
            ∙ ap (λ p. p.0)
                (live_run-skips later task created first_row _
                  (
                    fresh_recovered,
                    UniqueKeys-failed_if_dead run_id (is_stale_run env.stale_deps)
                        (fail_run env.stale_deps) (λ r. refl) (is_listed task) s.runs unique,
                  )
                  (stuck-live later alive)),
      )
