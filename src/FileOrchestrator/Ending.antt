-- ===== src/FileOrchestrator/Ending.antt =====
-- How a run of a folder backup leaves the tables that the repository lock reads.
use arkode.Prelude.{
  ◌≡◌, refl, ap, ◌∙◌, Bool, true, false, not, ◌&&◌, List, [], ◌∷◌, Option, none, some, is_some,
  if◌then◌else◌,
}
use Prim.Native.String.{String}
use arkode.Prelude.Results.{Result, ok, err}
use arkode.Tables.{Fresh, update_where-head}
use arkode.Types.{Client, BackupRunStatus, producing, success, warning, failed}
use arkode.FileTypes.{FileBackupRepository, FileBackupTask, FileBackupRun}
use arkode.FileRuns.{
  FileRuns, MaintenanceRuns, file_run_id, mark_file_producing, record_backup_summary,
  summarized_row, mark_file_finished, finished_file_row, get_latest_successful_file_run_by_task,
}
use arkode.Retention.{RetentionPolicy}
use arkode.Locking.{LockState}
use arkode.Orchestrator.Steps.{is_finished}
use arkode.FileOrchestrator.{
  FileEnv, FileState, FileOutcome, Thrown, ResticBackupSummary, after_forget, forget_with, text_of,
  resolve_file_backup_retention_policy, apply_file_retention_safely, handle_file_error,
  return_finished, all_file_warnings, files_deleted_since, finish_with, after_backup,
  after_password, password_for, attempt_file, set_runs,
}

module _ {W : Type 0} (env : FileEnv W) (task : FileBackupTask) where
  -- The runs are a finished row above `rest`, and the maintenance runs are `ms`.
  pub record FileEnds (rest : FileRuns) (ms : MaintenanceRuns) (result : FileOutcome × FileState W)
      : Type 0 where
    pub row : FileBackupRun
    pub own : row.id ≡ env.new_id
    pub stored : result.1.lock.runs ≡ row ∷ rest
    pub finished : is_finished row.status ≡ true
    pub kept : result.1.lock.maintenance ≡ ms

  module _ (client : Client) (repository : FileBackupRepository) (source : String) where
    after_forget-lock :
        (policy : RetentionPolicy) (s : FileState W) (answer : Result Thrown (List String) × W)
        → (after_forget env task client repository source policy s answer).lock ≡ s.lock
    after_forget-lock policy s (err error, restic) = refl
    after_forget-lock policy s (ok removed, restic) = refl

    forget_with-lock :
        (policy : RetentionPolicy) (password : Option String) (s : FileState W)
        → (forget_with env task client repository source policy password s).lock ≡ s.lock
    forget_with-lock policy none s = refl
    forget_with-lock policy (some password) s =
        after_forget-lock policy s (env.forget repository.repo_path password source policy s.restic)

    if-lock :
        (skip : Bool) (s t : FileState W) → t.lock ≡ s.lock → (if skip then s else t).lock ≡ s.lock
    if-lock true s t e = refl
    if-lock false s t e = e

    -- The retention of snapshots touches neither table of runs.
    retention-lock :
        (s : FileState W)
        → (apply_file_retention_safely env task client repository source s).lock ≡ s.lock
    unfolding apply_file_retention_safely
    retention-lock s =
        let policy = resolve_file_backup_retention_policy client task in
        if-lock (not (is_some policy.count) && not (is_some policy.days)) s _
          (forget_with-lock policy (text_of (env.get_secret repository.password_secret_ref)) s)

    module _ (rest : FileRuns) (ms : MaintenanceRuns)
        (fresh : Fresh file_run_id env.new_id rest) where
      finished-FileEnds :
          (r : FileBackupRun) (status : BackupRunStatus) (message stack : Option String)
          → (outcome : FileOutcome) (s : FileState W) → is_finished status ≡ true
          → r.id ≡ env.new_id
          → s.lock.runs
            ≡ mark_file_finished env.new_id env.finished_now status message stack (r ∷ rest)
          → s.lock.maintenance ≡ ms
          → FileEnds rest ms (outcome, s)
      unfolding mark_file_finished
      finished-FileEnds r status message stack outcome s done own e kept = record {
        row = finished_file_row env.finished_now status message stack r;
        own = own;
        stored =
            e
            ∙ update_where-head file_run_id env.new_id
                (finished_file_row env.finished_now status message stack) r rest own fresh;
        finished = done;
        kept = kept;
      }

      handle_file_error-FileEnds :
          (error : Thrown) (r : FileBackupRun) (s : FileState W)
          → r.id ≡ env.new_id
          → s.lock.runs ≡ r ∷ rest
          → s.lock.maintenance ≡ ms
          → FileEnds rest ms (handle_file_error env task client repository source error s)
      unfolding handle_file_error
      handle_file_error-FileEnds error r s own e kept =
          finished-FileEnds r failed (some error.message) error.stack _ _ refl own
            (ap (λ (l : LockState). l.runs) (retention-lock _)
              ∙ ap
                  (mark_file_finished env.new_id env.finished_now failed (some error.message)
                    error.stack)
                  e)
            (ap (λ (l : LockState). l.maintenance) (retention-lock _) ∙ kept)

      finish_with-cases :
          (warnings : List String) (runs : FileRuns)
          → (status : BackupRunStatus) × (message : Option String) × (is_finished status ≡ true)
            × (finish_with env task client repository source warnings runs
                ≡ mark_file_finished env.new_id env.finished_now status message none runs)
      unfolding finish_with
      finish_with-cases [] runs = (success, none, refl, refl)
      finish_with-cases (w ∷ ws) runs = (warning, _, refl, refl)

      -- Reading the row back succeeds, or it is marked a second time.
      return_finished-FileEnds :
          (r : FileBackupRun) (s : FileState W) (found : Option FileBackupRun)
          → r.id ≡ env.new_id
          → is_finished r.status ≡ true
          → s.lock.runs ≡ r ∷ rest
          → s.lock.maintenance ≡ ms
          → FileEnds rest ms (return_finished env task client repository source found s)
      return_finished-FileEnds r s (some row) own done e kept = record {
        row = r;
        own = own;
        stored = e;
        finished = done;
        kept = kept;
      }
      return_finished-FileEnds r s none own done e kept =
          handle_file_error-FileEnds _ r s own e kept

      after_backup-FileEnds :
          (password : String) (answer : Result Thrown ResticBackupSummary) (r : FileBackupRun)
          → (s : FileState W) → r.id ≡ env.new_id
          → s.lock.runs ≡ r ∷ rest
          → s.lock.maintenance ≡ ms
          → FileEnds rest ms (after_backup env task client repository source password answer s)
      unfolding mark_file_finished record_backup_summary
      after_backup-FileEnds password (err error) r s own e kept =
          handle_file_error-FileEnds error r s own e kept
      after_backup-FileEnds password (ok summary) r s own e kept =
          let deleted =
            files_deleted_since env task client repository source password summary.snapshot_id
              (get_latest_successful_file_run_by_task task.id s.lock.runs) in
          let change = summarized_row summary.snapshot_id summary.total_bytes_processed deleted in
          let (status, message, done, finishes) = finish_with-cases (all_file_warnings summary) (
            record_backup_summary env.new_id summary.snapshot_id summary.total_bytes_processed
              deleted s.lock.runs) in
          return_finished-FileEnds
            (finished_file_row env.finished_now status message none (change r)) _ _ own done
            (ap (λ (l : LockState). l.runs) (retention-lock _)
              ∙ finishes
              ∙ ap
                  (λ runs. mark_file_finished env.new_id env.finished_now status message none (
                    record_backup_summary env.new_id summary.snapshot_id
                      summary.total_bytes_processed deleted runs))
                  e
              ∙ ap (mark_file_finished env.new_id env.finished_now status message none)
                  (update_where-head file_run_id env.new_id change r rest own fresh)
              ∙ update_where-head file_run_id env.new_id
                  (finished_file_row env.finished_now status message none) (change r) rest own
                  fresh)
            (ap (λ (l : LockState). l.maintenance) (retention-lock _) ∙ kept)

      pub attempt_file-FileEnds :
          (r : FileBackupRun) (s : FileState W)
          → r.id ≡ env.new_id
          → s.lock.runs ≡ r ∷ rest
          → s.lock.maintenance ≡ ms
          → FileEnds rest ms (attempt_file env task client repository source s)
      unfolding attempt_file mark_file_producing
      attempt_file-FileEnds r s own e kept =
          by_password (password_for env task client repository source)
        where
          producing_runs : FileRuns
          producing_runs = mark_file_producing env.new_id s.lock.runs

          marked : FileBackupRun
          marked = record r { status = producing }

          produced : producing_runs ≡ marked ∷ rest
          produced =
              ap (mark_file_producing env.new_id) e
              ∙ update_where-head file_run_id env.new_id (λ x. record x { status = producing }) r
                  rest own fresh

          by_password :
              (p : Result Thrown String)
              → FileEnds rest ms (
                  after_password env task client repository source p
                    (set_runs env s producing_runs))
          by_password (err error) = handle_file_error-FileEnds error marked _ own produced kept
          by_password (ok password) = after_backup-FileEnds password _ marked _ own produced kept
