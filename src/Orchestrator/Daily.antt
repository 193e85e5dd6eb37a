-- ===== src/Orchestrator/Daily.antt =====
-- A scheduled run and the due test of the same day (scheduler/isTaskDue.ts).
use arkode.Prelude.{
  ℕ, ◌≤◌, ◌≡◌, ap, sym, ◌∙◌, subst, Bool, true, false, ◌&&◌, [], ◌∷◌, none, some, arith, ◌==◌, keep,
  or_default, All, All-keep_of,
}
use arkode.Tables.{Fresh, UniqueKeys}
use arkode.Types.{BackupTask, BackupRun, Client, manual, scheduled}
use arkode.Schedule.IsDue.{is_same_local_date, is_task_due}
use arkode.Runs.{Runs, run_id, is_scheduled, start_of, get_latest_scheduled_by_task}
use arkode.Tables.Newest.{newest_first, All-newest_first, insert_newest-top}
use arkode.Orchestrator.{Env, State, run_backup_task}
use arkode.Orchestrator.Outcomes.{live_runs, recovered, run-Ends}

latest_scheduled-top :
    (task : BackupTask) (r : BackupRun) (rest : Runs)
    → r.task_id ≡ task.id
    → r.trigger ≡ scheduled
    → All (λ (x : BackupRun). x.started_at ≤ r.started_at) rest
    → get_latest_scheduled_by_task task.id (r ∷ rest) ≡ some r
unfolding get_latest_scheduled_by_task newest_first
latest_scheduled-top task r rest same at older =
    let scheduled_of_task : (BackupRun → Bool) =
      λ x. x.task_id == task.id && is_scheduled x.trigger in
    ground (
      arith,
      insert_newest-top start_of r (newest_first start_of (keep scheduled_of_task rest)) (
          All-newest_first start_of (λ (x : BackupRun). x.started_at ≤ r.started_at)
            (keep scheduled_of_task rest)
            (All-keep_of (λ (x : BackupRun). x.started_at ≤ r.started_at) scheduled_of_task rest
              older)),
    )

recovered-older :
    {W : Type 0} (env : Env W) (task : BackupTask) (now : ℕ) (runs : Runs)
    → All (λ (x : BackupRun). x.started_at ≤ now) runs
    → All (λ (x : BackupRun). x.started_at ≤ now) (recovered env task runs)
recovered-older env task now [] h = tt
recovered-older env task now (r ∷ rs) h = ground (arith, h.0, recovered-older env task now rs h.1)

started_today-due :
    (task : BackupTask) (now : ℕ) (r : BackupRun)
    → is_same_local_date r.started_at now ≡ true
    → is_task_due task now (some r) ≡ false
unfolding is_task_due
started_today-due task now r today = ground arith

-- A scheduled call that creates its row (its id unused, no living run of the task, the client
-- known, the folder ready) settles the day: if no run of the table starts later than the new one,
-- `isTaskDue` is false at every moment of the local day on which it started, however it ended.
pub scheduled_run-settles_day :
    {W : Type 0} (env : Env W) (task : BackupTask) (s : State W) (client : Client) (now : ℕ)
    → UniqueKeys run_id s.runs
    → Fresh run_id env.new_id s.runs
    → live_runs env task s.runs ≡ []
    → env.get_client task.client_id ≡ some client
    → env.make_target_dir ≡ none
    → env.clean_orphaned_part_files ≡ none
    → env.run_trigger ≡ some scheduled
    → All (λ (x : BackupRun). x.started_at ≤ env.created_now) s.runs
    → is_same_local_date env.created_now now ≡ true
    → is_task_due task now
        (get_latest_scheduled_by_task task.id (run_backup_task env task s).1.runs)
      ≡ false
scheduled_run-settles_day env task s client now unique fresh idle known made cleaned at older
      today =
    let ends = run-Ends env task s client unique fresh idle known made cleaned in
    let own = ends.own in
    let latest : get_latest_scheduled_by_task task.id (ends.run ∷ recovered env task s.runs)
        ≡ some ends.run =
      latest_scheduled-top task ends.run (recovered env task s.runs) own.same_task
        (own.same_trigger ∙ ap (λ t. or_default t manual) at)
        (subst (λ n. All (λ (x : BackupRun). x.started_at ≤ n) (recovered env task s.runs))
          (sym own.same_start) (recovered-older env task env.created_now s.runs older)) in
    rw (ends.stored, latest)
      (started_today-due task now ends.run
        (ap (λ n. is_same_local_date n now) own.same_start ∙ today))
