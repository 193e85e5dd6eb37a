-- ===== src/Orchestrator.antt =====
-- packages/engine-core/src/orchestrator/runBackupTask.ts: one run of a database backup task. What
-- the file system, the strategy executors and the validators answer is a parameter; log lines and
-- progress reports are left out.
pub mod Environment
pub mod Steps
pub mod Outcomes
pub mod Daily
pub mod Verdict
pub mod Frame
pub mod Samples
mod Examples
use Prim.Native.String.{String, ◌++◌ as ◌<>◌}
use text.Mathlib.Text.{◌==◌ as str_eq}
use arkode.Prelude.{
  ℕ, Bool, true, false, not, ◌&&◌, List, [], ◌∷◌, ◌++◌, Option, none, some, ltb, keep, find,
  or_default, if◌then◌else◌,
}
use arkode.Prelude.Results.{Result, ok, err, ◌>>=◌, ◌>>◌, ensure, or_throw}
use arkode.Tables.Recover.{fail_stale}
use arkode.Types.{
  BackupTask, BackupRun, Client, BackupStrategyKind, fetch_existing, remote_dump, direct_dump,
  DbEngine, postgres, mysql, mariadb, unknown, BackupRunStatus, success, warning, failed,
  RunTrigger,
}
use arkode.ProcessIdentity.{StaleRunCheckDeps, is_stale_in_progress_run}
use arkode.Runs
use arkode.Runs.{
  Runs, run_id, create, mark_producing, mark_validating, mark_finished, finished_row, get_by_id,
  list_in_progress,
}
use arkode.Retention.{RetentionState, Unlinked, apply_retention, resolve_retention_policy}
pub use arkode.Orchestrator.Environment.{
  RunError, Executor, ProducedDump, Validator, ValidationResult, Env, State, Outcome, interrupted,
  is_stale_run, fail_run, pick_validators, look_up, all_warnings, no_new_dump, other_error,
  fetch_existing_executor, remote_dump_executor, direct_dump_executor, generic, postgres_custom,
  mysql_dump, returned, threw,
}
unfoldable pub use arkode.Orchestrator.Environment.{recover_stale_runs, strip_part, join}

module _ {W : Type 0} (env : Env W) where
  -- `new Error(message)`. The names and ids in a message are left out.
  abbrev pub new_error : String → RunError
  new_error message = other_error message (some (env.stack_of message))

  abbrev pub no_valid_transport : RunError
  no_valid_transport =
      new_error "Task has a strategy that needs one but no valid transport configured."

  abbrev pub no_valid_database_connection : RunError
  no_valid_database_connection =
      new_error "Task has strategy direct_dump but no valid database connection configured."

  unfoldable pub resolve_executor : BackupTask → Result RunError Executor
  resolve_executor task = by_strategy task.strategy
    where
      by_strategy : BackupStrategyKind → Result RunError Executor
      by_strategy fetch_existing = do
        id ← look_up task.transport_id env.has_transport no_valid_transport
        ok (fetch_existing_executor id)
      by_strategy remote_dump = do
        id ← look_up task.transport_id env.has_transport no_valid_transport
        ok (remote_dump_executor id)
      by_strategy direct_dump = do
        id ←
            look_up task.database_connection_id env.has_database_connection
              no_valid_database_connection
        ok (direct_dump_executor id)

  abbrev pub checksum_of : ProducedDump → Result RunError String
  checksum_of produced = elim produced.checksum_sha256 [
    | some checksum ↦ ok checksum
    | none ↦ env.hash_file produced.local_temp_path
  ]

  abbrev pub throw_some : Option RunError → Result RunError (Unit {0})
  throw_some none = ok tt
  throw_some (some e) = err e

  -- From the file that the executor wrote to the renamed file.
  abbrev pub check_and_rename : ProducedDump → Result RunError Runs.Produced
  check_and_rename produced = do
    ensure (ltb 0 produced.size_bytes) (new_error "Produced file is empty (0 bytes).")
    checksum ← checksum_of produced
    throw_some (env.rename produced.local_temp_path (strip_part produced.local_temp_path))
    ok (record {
      file_name = produced.file_name;
      size_bytes = produced.size_bytes;
      source_modified_at = produced.source_modified_at;
      checksum_sha256 = checksum;
      local_path = strip_part produced.local_temp_path;
    })

  unfoldable pub produce_file : BackupTask → Result RunError Runs.Produced
  unfolding resolve_executor strip_part
  produce_file task = do
    executor ← resolve_executor task
    produced ← env.produce executor
    check_and_rename produced

  -- `Promise.all(validators.map(v => v.validate(path)))`.
  unfoldable pub validate_all : List Validator → String → Result RunError (List ValidationResult)
  validate_all [] path = ok []
  validate_all (v ∷ vs) path = do
    result ← env.validate v path
    results ← validate_all vs path
    ok (result ∷ results)

  -- `markFinished` by the first result that is not valid and the warnings.
  unfoldable pub finish_by : Option ValidationResult → List String → Runs → Runs
  unfolding mark_finished join
  finish_by (some r) warnings runs =
      mark_finished env.new_id env.finished_now failed
        (some (or_default r.details "Validation failed.")) none runs
  finish_by none [] runs = mark_finished env.new_id env.finished_now success none none runs
  finish_by none (w ∷ ws) runs =
      mark_finished env.new_id env.finished_now warning (some (join (w ∷ ws))) none runs

  abbrev pub finish_validated : List ValidationResult → Runs → Runs
  finish_validated results runs =
      finish_by (find (λ r. not r.valid) results) (all_warnings results) runs

  unfoldable pub apply_retention_safely : BackupTask → Client → State W → State W
  unfolding apply_retention resolve_retention_policy
  apply_retention_safely task client s = record s {
    retention =
        apply_retention env.unlink task (resolve_retention_policy client task) env.finished_now
          (some env.new_id) s.runs s.retention;
  }

  abbrev pub read_back : Option BackupRun → Bool → RunError → Outcome
  read_back none skipped error = threw error
  read_back (some run) skipped error = returned run skipped

  -- The `catch` block.
  unfoldable pub handle_error : BackupTask → Client → RunError → State W → Outcome × State W
  unfolding mark_finished apply_retention_safely get_by_id
  handle_error task client (no_new_dump message) s =
      let runs = mark_finished env.new_id env.finished_now success none none s.runs in
      let s' = apply_retention_safely task client (record s { runs = runs }) in
      (read_back (get_by_id env.new_id s'.runs) true (no_new_dump message), s')
  handle_error task client (other_error message stack) s =
      let runs = mark_finished env.new_id env.finished_now failed (some message) stack s.runs in
      let s' = apply_retention_safely task client (record s { runs = runs }) in
      (read_back (get_by_id env.new_id s'.runs) false (other_error message stack), s')

  abbrev pub return_finished : BackupTask → Client → Option BackupRun → State W → Outcome × State W
  return_finished task client (some run) s = (returned run false, s)
  return_finished task client none s =
      handle_error task client
        (new_error "Run vanished after completion — this should never happen.") s

  abbrev pub after_validation :
      BackupTask → Client → Result RunError (List ValidationResult) → State W → Outcome × State W
  after_validation task client (err error) s = handle_error task client error s
  after_validation task client (ok results) s =
      let runs = finish_validated results s.runs in
      let s' = apply_retention_safely task client (record s { runs = runs }) in
      return_finished task client (get_by_id env.new_id s'.runs) s'

  abbrev pub after_produce :
      BackupTask → Client → Result RunError Runs.Produced → State W → Outcome × State W
  after_produce task client (err error) s = handle_error task client error s
  after_produce task client (ok produced) s =
      let s' = record s { runs = mark_validating env.new_id env.validating_now produced s.runs } in
      after_validation task client
        (validate_all (pick_validators task.db_engine) produced.local_path) s'

  -- The `try` block.
  unfoldable pub attempt : BackupTask → Client → State W → Outcome × State W
  unfolding mark_producing mark_validating finish_by validate_all produce_file handle_error
  attempt task client s =
      after_produce task client (produce_file task)
        (record s { runs = mark_producing env.new_id s.runs })

  -- Between the creation of the row and the `try` block.
  abbrev pub prepare : Option RunError → Option RunError → Result RunError (Unit {0})
  prepare (some e) _ = err e
  prepare none (some e) = err e
  prepare none none = ok tt

  abbrev pub after_prepare :
      BackupTask → Client → Result RunError (Unit {0}) → State W → Outcome × State W
  after_prepare task client (err error) s = (threw error, s)
  after_prepare task client (ok _) s = attempt task client s

  abbrev pub create_input : BackupTask → Runs.CreateRunInput
  create_input task = record {
    task_id = task.id;
    client_id = task.client_id;
    strategy = task.strategy;
    transport_id = task.transport_id;
    database_connection_id = task.database_connection_id;
    pid = env.pid;
    trigger = env.run_trigger;
  }

  abbrev pub start : BackupTask → Option Client → State W → Outcome × State W
  start task none s = (threw (new_error "Client not found for task."), s)
  start task (some client) s =
      after_prepare task client (prepare env.make_target_dir env.clean_orphaned_part_files)
        (record s { runs = create env.new_id env.created_now (create_input task) s.runs })

  abbrev pub skip_or_start : BackupTask → Runs → State W → Outcome × State W
  skip_or_start task (r ∷ _) s = (returned r true, s)
  skip_or_start task [] s = start task (env.get_client task.client_id) s

  unfoldable pub run_backup_task : BackupTask → State W → Outcome × State W
  unfolding recover_stale_runs list_in_progress create attempt
  run_backup_task task s =
      let runs = recover_stale_runs env.stale_deps task.id s.runs in
      skip_or_start task
        (keep (λ r. not (is_stale_run env.stale_deps r)) (list_in_progress task.id runs))
        (record s { runs = runs })
