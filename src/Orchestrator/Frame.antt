-- ===== src/Orchestrator/Frame.antt =====
-- What a run may do to the table, on every branch, and the rows of the other tasks.
use arkode.Prelude.{
  ℕ, ◌≡◌, refl, ap, sym, subst, ◌∙◌, ◌≢◌, [], ◌∷◌, Option, none, some, arith, ◌==◌, keep,
}
use arkode.Prelude.Results.{Result, ok, err}
use arkode.Tables.{Fresh, UniqueKeys}
use arkode.Tables.Recover.{Fresh-failed_if_dead, UniqueKeys-failed_if_dead}
use arkode.Types.{BackupTask, BackupRun, Client}
use arkode.Runs.{Runs, run_id}
use arkode.Orchestrator.{
  Env, State, Outcome, RunError, run_backup_task, skip_or_start, start, after_prepare, is_stale_run,
  fail_run,
}
use arkode.Orchestrator.Steps.{IsOwn, attempt-Ends}
use arkode.Orchestrator.Outcomes.{
  is_listed, live_runs, recovered, first_row, first_row-IsOwn, fresh_recovered, run-eq, start-eq,
  created, live_run-skips,
}

-- The rows of one task.
abbrev pub rows_of : ℕ → Runs → Runs
rows_of task_id runs = keep (λ r. r.task_id == task_id) runs

rows_of-recovered :
    {W : Type 0} (env : Env W) (task : BackupTask) (other : ℕ) (runs : Runs)
    → other ≢ task.id
    → rows_of other (recovered env task runs) ≡ rows_of other runs
rows_of-recovered env task other [] differ = refl
rows_of-recovered env task other (r ∷ rs) differ =
    ground (arith, differ, rows_of-recovered env task other rs differ)

rows_of-skip :
    (other : ℕ) (r : BackupRun) (rest : Runs)
    → r.task_id ≢ other
    → rows_of other (r ∷ rest) ≡ rows_of other rest
rows_of-skip other r rest differ = ground arith

-- A run leaves the recovered table, or its own row above it.
module _ {W : Type 0} (env : Env W) (task : BackupTask) (s : State W)
    (unique : UniqueKeys run_id s.runs) (fresh : Fresh run_id env.new_id s.runs) (P : Runs → Type 0)
    (bare : P (recovered env task s.runs))
    (with_row : (r : BackupRun) → IsOwn env task r → P (r ∷ recovered env task s.runs)) where
  abbrev After : Outcome × State W → Type 0
  After result = P result.1.runs

  module _ (client : Client) (idle : live_runs env task s.runs ≡ [])
      (known : env.get_client task.client_id ≡ some client) where
    after_prepare-After :
        (ready : Result RunError (Unit {0}))
        → After (
            after_prepare env task client ready (created env task s client unique fresh idle known))
    after_prepare-After (err error) =
        with_row (first_row env task s client unique fresh idle known)
          (first_row-IsOwn env task s client unique fresh idle known)
    after_prepare-After (ok ready) =
        let ends =
          attempt-Ends env task client (recovered env task s.runs)
            (fresh_recovered env task s client unique fresh idle known)
            (created env task s client unique fresh idle known)
            (first_row env task s client unique fresh idle known)
            (first_row-IsOwn env task s client unique fresh idle known) refl in
        subst P (sym ends.stored) (with_row ends.run ends.own)

    started-After : After (run_backup_task env task s)
    started-After =
        subst After (sym (start-eq env task s client unique fresh idle known))
          (after_prepare-After _)

  by_client :
      live_runs env task s.runs ≡ []
      → (c : Option Client) → env.get_client task.client_id ≡ c
      → After (run_backup_task env task s)
  by_client idle (some client) known = started-After client idle known
  by_client idle none unknown =
      subst After
        (sym (
          run-eq env task s unique
          ∙ ap (λ l. skip_or_start env task l (record s { runs = recovered env task s.runs })) idle
          ∙ ap (λ c. start env task c (record s { runs = recovered env task s.runs })) unknown))
        bare

  by_live : (live : Runs) → live_runs env task s.runs ≡ live → After (run_backup_task env task s)
  by_live [] idle = by_client idle (env.get_client task.client_id) refl
  by_live (r ∷ rs) busy = subst After (sym (live_run-skips env task s r rs unique busy)) bare

  pub run-elim : After (run_backup_task env task s)
  run-elim = by_live (live_runs env task s.runs) refl

module _ {W : Type 0} (env : Env W) (task : BackupTask) (s : State W)
    (unique : UniqueKeys run_id s.runs) (fresh : Fresh run_id env.new_id s.runs) where
  -- However a run ends (skipped, thrown, failed or finished), it leaves every row of every other
  -- task as it was, in the same order, where ids are unique and the new one is unused.
  pub run-rows_of :
      (other : ℕ)
      → other ≢ task.id
      → rows_of other (run_backup_task env task s).1.runs ≡ rows_of other s.runs
  run-rows_of other differ =
      let kept = rows_of-recovered env task other s.runs differ in
      run-elim env task s unique fresh (λ runs. rows_of other runs ≡ rows_of other s.runs) kept
        (λ r own.
          rows_of-skip other r (recovered env task s.runs)
            (λ same. differ (sym same ∙ own.same_task))
          ∙ kept)

  Fresh-recovered : (id : ℕ) → Fresh run_id id s.runs → Fresh run_id id (recovered env task s.runs)
  Fresh-recovered id h =
      Fresh-failed_if_dead run_id (is_stale_run env.stale_deps) (fail_run env.stale_deps)
        (λ r. refl) (is_listed task) id s.runs h

  pub run-Fresh :
      (id : ℕ)
      → id ≢ env.new_id
      → Fresh run_id id s.runs
      → Fresh run_id id (run_backup_task env task s).1.runs
  run-Fresh id differ h =
      run-elim env task s unique fresh (Fresh run_id id) (Fresh-recovered id h)
        (λ r own. (λ same. differ (sym same ∙ own.same_id), Fresh-recovered id h))

  pub run-UniqueKeys : UniqueKeys run_id (run_backup_task env task s).1.runs
  run-UniqueKeys =
      let kept =
        UniqueKeys-failed_if_dead run_id (is_stale_run env.stale_deps) (fail_run env.stale_deps)
          (λ r. refl) (is_listed task) s.runs unique in
      run-elim env task s unique fresh (UniqueKeys run_id) kept (λ r own. (
        subst (λ id. Fresh run_id id (recovered env task s.runs)) (sym own.same_id)
            (Fresh-recovered env.new_id fresh),
        kept,
      ))
