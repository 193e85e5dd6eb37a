-- ===== src/Orchestrator/Steps.antt =====
-- The steps of a run on its own row, which stands first in the table.
use Prim.Native.String.{String}
use arkode.Prelude.{
  ◌≡◌, refl, ap, ◌∙◌, Bool, true, false, not, List, [], ◌∷◌, Option, none, some, arith, find,
  or_default,
}
use arkode.Prelude.Results.{Result, ok, err}
use arkode.Tables.{Fresh, update_where-head, get_where}
use arkode.Types.{
  BackupTask, BackupRun, Client, BackupRunStatus, running, producing, success, warning, failed,
  manual,
}
use arkode.Runs
use arkode.Runs.{
  Runs, run_id, create, new_row, set_status, mark_producing, mark_validating, validating_row,
  mark_finished, finished_row, get_by_id,
}
use arkode.Orchestrator.{
  Env, State, Outcome, returned, RunError, no_new_dump, other_error, ValidationResult, all_warnings,
  read_back, finish_by, apply_retention_safely, handle_error, return_finished, after_validation,
  after_produce, validate_all, pick_validators, produce_file, attempt, create_input,
}

abbrev pub is_finished : BackupRunStatus → Bool
is_finished success = true
is_finished warning = true
is_finished failed = true
is_finished _ = false

module _ {W : Type 0} (env : Env W) (task : BackupTask) where
  -- The row of the run that this call created.
  pub record IsOwn (r : BackupRun) : Type 0 where
    pub same_id : r.id ≡ env.new_id
    pub same_task : r.task_id ≡ task.id
    pub same_trigger : r.trigger ≡ or_default env.run_trigger manual
    pub same_start : r.started_at ≡ env.created_now

  -- The call returns its own row, finished, and the table is that row above `rest`.
  pub record Ends (rest : Runs) (result : Outcome × State W) : Type 0 where
    pub run : BackupRun
    pub skipped : Bool
    pub outcome : result.0 ≡ returned run skipped
    pub stored : result.1.runs ≡ run ∷ rest
    pub finished : is_finished run.status ≡ true
    pub own : IsOwn run

module _ {W : Type 0} (env : Env W) (task : BackupTask) (client : Client) (rest : Runs)
    (fresh : Fresh run_id env.new_id rest) where
  pub create-row :
      create env.new_id env.created_now (create_input env task) rest
      ≡ set_status running (new_row env.new_id env.created_now (create_input env task)) ∷ rest
  unfolding create
  create-row = update_where-head run_id env.new_id (set_status running) _ rest refl fresh

  pub mark_finished-row :
      (r : BackupRun) (s : BackupRunStatus) (message stack : Option String)
      → r.id ≡ env.new_id
      → mark_finished env.new_id env.finished_now s message stack (r ∷ rest)
        ≡ finished_row env.finished_now s message stack r ∷ rest
  unfolding mark_finished
  mark_finished-row r s message stack e =
      update_where-head run_id env.new_id (finished_row env.finished_now s message stack) r rest e
        fresh

  pub get_by_id-row : (r : BackupRun) → r.id ≡ env.new_id → get_by_id env.new_id (r ∷ rest) ≡ some r
  unfolding get_by_id get_where
  get_by_id-row r e = ground arith

  -- `markFinished` on the own row, the retention pass and the read back.
  pub finish-outcome :
      (r : BackupRun) (s : BackupRunStatus) (message stack : Option String) (skipped : Bool)
      → (error : RunError) (runs : Runs) → r.id ≡ env.new_id
      → runs ≡ mark_finished env.new_id env.finished_now s message stack (r ∷ rest)
      → read_back env (get_by_id env.new_id runs) skipped error
        ≡ returned (finished_row env.finished_now s message stack r) skipped
  finish-outcome r s message stack skipped error runs own e =
      rw
        (
          e ∙ mark_finished-row r s message stack own,
          get_by_id-row (finished_row env.finished_now s message stack r) own,
        )
        refl

  finish-Ends :
      (r : BackupRun) (s : BackupRunStatus) (message stack : Option String) (skipped : Bool)
      → (error : RunError) (state : State W) → is_finished s ≡ true
      → IsOwn env task r
      → state.runs ≡ mark_finished env.new_id env.finished_now s message stack (r ∷ rest)
      → Ends env task rest (read_back env (get_by_id env.new_id state.runs) skipped error, state)
  finish-Ends r s message stack skipped error state done own e =
      let row = finished_row env.finished_now s message stack r in
      let stored = e ∙ mark_finished-row r s message stack own.same_id in
      record {
        run = row;
        skipped = skipped;
        outcome = finish-outcome r s message stack skipped error state.runs own.same_id e;
        stored = stored;
        finished = done;
        own = record {
          same_id = own.same_id;
          same_task = own.same_task;
          same_trigger = own.same_trigger;
          same_start = own.same_start;
        };
      }

  pub handle_error-Ends :
      (s : State W) (r : BackupRun) (error : RunError)
      → IsOwn env task r
      → s.runs ≡ r ∷ rest
      → Ends env task rest (handle_error env task client error s)
  unfolding handle_error apply_retention_safely
  handle_error-Ends s r (no_new_dump message) own e =
      finish-Ends r success none none true (no_new_dump message) _ refl own
        (ap (mark_finished env.new_id env.finished_now success none none) e)
  handle_error-Ends s r (other_error message stack) own e =
      finish-Ends r failed (some message) stack false (other_error message stack) _ refl own
        (ap (mark_finished env.new_id env.finished_now failed _ _) e)

  pub finish_by-cases :
      (bad : Option ValidationResult) (warnings : List String) (runs : Runs)
      → (s : BackupRunStatus) × (message : Option String) × (is_finished s ≡ true)
        × (finish_by env bad warnings runs
            ≡ mark_finished env.new_id env.finished_now s message none runs)
  unfolding finish_by
  finish_by-cases (some r) warnings runs = (failed, _, refl, refl)
  finish_by-cases none [] runs = (success, none, refl, refl)
  finish_by-cases none (w ∷ ws) runs = (warning, _, refl, refl)

  return_finished-Ends :
      (s : State W) (row : BackupRun)
      → is_finished row.status ≡ true
      → IsOwn env task row
      → s.runs ≡ row ∷ rest
      → Ends env task rest (return_finished env task client (get_by_id env.new_id s.runs) s)
  return_finished-Ends s row done own e = record {
    run = row;
    skipped = false;
    outcome = rw (e, get_by_id-row row own.same_id) refl;
    stored = rw (e, get_by_id-row row own.same_id) refl;
    finished = done;
    own = own;
  }

  pub after_validation-Ends :
      (s : State W) (r : BackupRun) (results : Result RunError (List ValidationResult))
      → IsOwn env task r
      → s.runs ≡ r ∷ rest
      → Ends env task rest (after_validation env task client results s)
  unfolding attempt apply_retention_safely
  after_validation-Ends s r (err error) own e = handle_error-Ends s r error own e
  after_validation-Ends s r (ok results) own e =
      let (status, message, done, finishes) =
        finish_by-cases (find (λ v. not v.valid) results) (all_warnings results) s.runs in
      return_finished-Ends _ (finished_row env.finished_now status message none r) done
        (record {
          same_id = own.same_id;
          same_task = own.same_task;
          same_trigger = own.same_trigger;
          same_start = own.same_start;
        })
        (finishes
          ∙ ap (mark_finished env.new_id env.finished_now status message none) e
          ∙ mark_finished-row r status message none own.same_id)

  pub after_produce-Ends :
      (s : State W) (r : BackupRun) (produced : Result RunError Runs.Produced)
      → IsOwn env task r
      → s.runs ≡ r ∷ rest
      → Ends env task rest (after_produce env task client produced s)
  unfolding attempt mark_validating
  after_produce-Ends s r (err error) own e = handle_error-Ends s r error own e
  after_produce-Ends s r (ok produced) own e =
      after_validation-Ends _ (validating_row env.validating_now produced r)
        (validate_all env (pick_validators task.db_engine) produced.local_path)
        (record {
          same_id = own.same_id;
          same_task = own.same_task;
          same_trigger = own.same_trigger;
          same_start = own.same_start;
        })
        (ap (mark_validating env.new_id env.validating_now produced) e
          ∙ update_where-head run_id env.new_id (validating_row env.validating_now produced) r rest
              own.same_id fresh)

  pub attempt-Ends :
      (s : State W) (r : BackupRun)
      → IsOwn env task r
      → s.runs ≡ r ∷ rest
      → Ends env task rest (attempt env task client s)
  unfolding attempt mark_producing
  attempt-Ends s r own e =
      after_produce-Ends _ (set_status producing r) (produce_file env task)
        (record {
          same_id = own.same_id;
          same_task = own.same_task;
          same_trigger = own.same_trigger;
          same_start = own.same_start;
        })
        (ap (mark_producing env.new_id) e
          ∙ update_where-head run_id env.new_id (set_status producing) r rest own.same_id fresh)
