-- ===== src/Orchestrator/Verdict.antt =====
-- When a call reports Success for a dump that it fetched.
use arkode.Prelude.{
  ◌<◌, ◌≡◌, refl, ap, sym, ◌∙◌, ◌⊎◌, inl, inr, Bool, true, false, not, List, [], ◌∷◌, Option, none,
  some, arith, find,
}
use Prim.Native.String.{String}
use arkode.Prelude.Results.{Result, ok, err, >>=-eq-ok}
use arkode.Tables.{Fresh, UniqueKeys, update_where-head}
use arkode.Types.{
  BackupTask, BackupRun, Client, BackupRunStatus, producing, success, warning, failed,
}
use arkode.Runs
use arkode.Runs.{
  Runs, run_id, get_by_id, mark_finished, mark_producing, mark_validating, validating_row,
  finished_row, set_status,
}
use arkode.Orchestrator.{
  Env, State, Outcome, returned, threw, RunError, no_new_dump, other_error, handle_error,
  apply_retention_safely, finish_by, finish_validated, return_finished, attempt, after_validation,
  after_produce, validate_all, pick_validators, all_warnings, ProducedDump, ValidationResult,
  Executor, resolve_executor, check_and_rename, produce_file, run_backup_task,
}
use arkode.Orchestrator.Outcomes.{live_runs, recovered, fresh_recovered, created, attempt-eq}
use arkode.Orchestrator.Steps.{finish-outcome, mark_finished-row, get_by_id-row}

abbrev row_in : BackupRun → Outcome → BackupRun
row_in d (returned row skipped) = row
row_in d (threw error) = d

abbrev is_skipped : Outcome → Bool
is_skipped (returned row skipped) = skipped
is_skipped (threw error) = false

module _ {W : Type 0} (env : Env W) where
  -- The file of `p` is what an executor wrote, and it is not empty.
  pub record IsProduced (task : BackupTask) (p : Runs.Produced) : Type 0 where
    pub executor : Executor
    pub dump : ProducedDump
    pub resolved : resolve_executor env task ≡ ok executor
    pub written : env.produce executor ≡ ok dump
    pub not_empty : 0 < dump.size_bytes
    pub renamed : env.rename dump.local_temp_path p.local_path ≡ none
    pub same_size : p.size_bytes ≡ dump.size_bytes

  check_and_rename-ok :
      (dump : ProducedDump) (p : Runs.Produced)
      → check_and_rename env dump ≡ ok p
      → (0 < dump.size_bytes)
        × (env.rename dump.local_temp_path p.local_path ≡ none)
        × (p.size_bytes ≡ dump.size_bytes)
  check_and_rename-ok dump p h = ground arith

  produce_file-IsProduced :
      (task : BackupTask) (p : Runs.Produced) → produce_file env task ≡ ok p → IsProduced task p
  unfolding produce_file
  produce_file-IsProduced task p h =
      let (executor, resolved, h1) = >>=-eq-ok (resolve_executor env task) _ h in
      let (dump, written, h2) = >>=-eq-ok (env.produce executor) _ h1 in
      let (not_empty, renamed, same_size) = check_and_rename-ok dump p h2 in
      record {
        executor = executor;
        dump = dump;
        resolved = resolved;
        written = written;
        not_empty = not_empty;
        renamed = renamed;
        same_size = same_size;
      }

  -- All validators of the engine accept the file of `p` without a warning, and `run` records it.
  pub record IsValidated (task : BackupTask) (p : Runs.Produced) (run : BackupRun) : Type 0 where
    pub results : List ValidationResult
    pub validated : validate_all env (pick_validators task.db_engine) p.local_path ≡ ok results
    pub all_valid : find (λ (v : ValidationResult). not v.valid) results ≡ none
    pub no_warnings : all_warnings results ≡ []
    pub same_path : run.local_path ≡ some p.local_path
    pub same_size : run.size_bytes ≡ some p.size_bytes

  module _ (task : BackupTask) (client : Client) (rest : Runs)
      (fresh : Fresh run_id env.new_id rest) (run : BackupRun)
      (succeeded : run.status ≡ success) where
    not_success-absurd {ℓ} :
        {C : Type ℓ} (row : BackupRun) (s : BackupRunStatus)
        → row.status ≡ s
        → (s ≡ failed) ⊎ (s ≡ warning)
        → returned row false ≡ returned run false
        → C
    not_success-absurd row s is (inl e) h =
        let at : row.status ≡ run.status = ap (λ o. (row_in row o).status) h in cc
    not_success-absurd row s is (inr e) h =
        let at : row.status ≡ run.status = ap (λ o. (row_in row o).status) h in cc

    handled-absurd {ℓ} :
        {C : Type ℓ} (s : State W) (r : BackupRun) (error : RunError)
        → r.id ≡ env.new_id
        → s.runs ≡ r ∷ rest
        → (handle_error env task client error s).0 ≡ returned run false
        → C
    unfolding handle_error apply_retention_safely
    handled-absurd s r (no_new_dump message) own e h =
        let ended =
          finish-outcome env task client rest fresh r success none none true (no_new_dump message) _
            own (ap (mark_finished env.new_id env.finished_now success none none) e) in
        let skips : true ≡ false = ap is_skipped (sym ended ∙ h) in cc
    handled-absurd s r (other_error message stack) own e h =
        not_success-absurd (finished_row env.finished_now failed (some message) stack r) failed refl
          (inl refl)
          (sym (
              finish-outcome env task client rest fresh r failed (some message) stack false
                (other_error message stack) _ own
                (ap (mark_finished env.new_id env.finished_now failed (some message) stack) e))
            ∙ h)

    read_finished :
        (r : BackupRun) (s : BackupRunStatus) (message : Option String) (state : State W)
        → r.id ≡ env.new_id
        → state.runs ≡ mark_finished env.new_id env.finished_now s message none (r ∷ rest)
        → (return_finished env task client (get_by_id env.new_id state.runs) state).0
          ≡ returned (finished_row env.finished_now s message none r) false
    read_finished r s message state own e =
        rw
          (
            e ∙ mark_finished-row env task client rest fresh r s message none own,
            get_by_id-row env task client rest fresh
                (finished_row env.finished_now s message none r) own,
          )
          refl

    -- What the results must be for the row to be marked Success.
    finished_by-success :
        (bad : Option ValidationResult) (warnings : List String) (r : BackupRun) (state : State W)
        → r.id ≡ env.new_id
        → state.runs ≡ finish_by env bad warnings (r ∷ rest)
        → (return_finished env task client (get_by_id env.new_id state.runs) state).0
          ≡ returned run false
        → (bad ≡ none) × (warnings ≡ []) × (run ≡ finished_row env.finished_now success none none r)
    unfolding finish_by
    finished_by-success (some v) warnings r state own e h =
        not_success-absurd _ failed refl (inl refl) (sym (read_finished r failed _ state own e) ∙ h)
    finished_by-success none (w ∷ ws) r state own e h =
        not_success-absurd _ warning refl (inr refl)
          (sym (read_finished r warning _ state own e) ∙ h)
    finished_by-success none [] r state own e h =
        (refl, refl, ap (row_in run) (sym h ∙ read_finished r success none state own e))

    IsValidated-success :
        (p : Runs.Produced) (r : BackupRun) (state : State W)
        → (answer : Result RunError (List ValidationResult))
        → validate_all env (pick_validators task.db_engine) p.local_path ≡ answer
        → r.id ≡ env.new_id
        → state.runs ≡ validating_row env.validating_now p r ∷ rest
        → (after_validation env task client answer state).0 ≡ returned run false
        → IsValidated task p run
    unfolding apply_retention_safely
    IsValidated-success p r state (err error) answers own e h =
        handled-absurd state (validating_row env.validating_now p r) error own e h
    IsValidated-success p r state (ok results) answers own e h =
        let (valid, clean, row) =
          finished_by-success (find (λ v. not v.valid) results) (all_warnings results)
            (validating_row env.validating_now p r) _ own (ap (finish_validated env results) e) h in
        record {
          results = results;
          validated = answers;
          all_valid = valid;
          no_warnings = clean;
          same_path = ap (λ (b : BackupRun). b.local_path) row;
          same_size = ap (λ (b : BackupRun). b.size_bytes) row;
        }

    produced-success :
        (r : BackupRun) (state : State W) (answer : Result RunError Runs.Produced)
        → produce_file env task ≡ answer
        → r.id ≡ env.new_id
        → state.runs ≡ r ∷ rest
        → (after_produce env task client answer state).0 ≡ returned run false
        → (p : Runs.Produced) × IsProduced task p × IsValidated task p run
    unfolding mark_validating
    produced-success r state (err error) answers own e h = handled-absurd state r error own e h
    produced-success r state (ok p) answers own e h = (
      p,
      produce_file-IsProduced task p answers,
      IsValidated-success p r _ (validate_all env (pick_validators task.db_engine) p.local_path)
          refl own
          (ap (mark_validating env.new_id env.validating_now p) e
            ∙ update_where-head run_id env.new_id (validating_row env.validating_now p) r rest own
                fresh)
          h,
    )

    pub attempt-success :
        (r : BackupRun) (state : State W)
        → r.id ≡ env.new_id
        → state.runs ≡ r ∷ rest
        → (attempt env task client state).0 ≡ returned run false
        → (p : Runs.Produced) × IsProduced task p × IsValidated task p run
    unfolding attempt mark_producing
    attempt-success r state own e h =
        produced-success (set_status producing r) _ (produce_file env task) refl own
          (ap (mark_producing env.new_id) e
            ∙ update_where-head run_id env.new_id (set_status producing) r rest own fresh)
          h

-- A call that creates its row (its id unused, no living run of the task, the client known, the
-- folder ready) and returns it as Success without skipping has validated a file: an executor of
-- the task's strategy wrote it, it is not empty, it was renamed, every validator of the engine
-- accepted it and none warned, and the row holds its path and its size.
pub success-IsValidated :
    {W : Type 0} (env : Env W) (task : BackupTask) (s : State W) (client : Client) (run : BackupRun)
    → UniqueKeys run_id s.runs
    → Fresh run_id env.new_id s.runs
    → live_runs env task s.runs ≡ []
    → env.get_client task.client_id ≡ some client
    → env.make_target_dir ≡ none
    → env.clean_orphaned_part_files ≡ none
    → (run_backup_task env task s).0 ≡ returned run false
    → run.status ≡ success
    → (p : Runs.Produced) × IsProduced env task p × IsValidated env task p run
success-IsValidated env task s client run unique fresh idle known made cleaned result succeeded =
    attempt-success env task client (recovered env task s.runs)
      (fresh_recovered env task s client unique fresh idle known) run succeeded _
      (created env task s client unique fresh idle known) refl refl
      (sym (ap (λ o. o.0) (attempt-eq env task s client unique fresh idle known made cleaned))
        ∙ result)
