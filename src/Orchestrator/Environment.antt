-- ===== src/Orchestrator/Environment.antt =====
-- What a run of a database backup meets and keeps, of
-- packages/engine-core/src/orchestrator/runBackupTask.ts.
use Prim.Native.String.{String, ◌++◌ as ◌<>◌}
use text.Mathlib.Text.{◌==◌ as str_eq}
use arkode.Prelude.{ℕ, Bool, List, [], ◌∷◌, ◌++◌, Option, none, some, if◌then◌else◌}
use arkode.Prelude.Results.{Result, ok, err}
use arkode.Tables.Recover.{fail_stale}
use arkode.Types.{
  BackupRun, Client, DbEngine, postgres, mysql, mariadb, unknown, failed, RunTrigger,
}
use arkode.ProcessIdentity.{StaleRunCheckDeps, is_stale_in_progress_run}
use arkode.Runs.{Runs, run_id, finished_row, list_in_progress}
use arkode.Retention.{RetentionState, Unlinked}

-- What is thrown: `no_new_dump` is `NoNewDumpAvailableError`.
pub data RunError : Type 0 where
  no_new_dump : String → RunError
  other_error : (message : String) (stack : Option String) → RunError

-- The executor that a task needs, with the transport or connection that it uses.
pub data Executor : Type 0 where
  fetch_existing_executor remote_dump_executor direct_dump_executor : ℕ → Executor

pub record ProducedDump : Type 0 where
  pub local_temp_path : String
  pub file_name : String
  pub size_bytes : ℕ
  pub source_modified_at : Option ℕ
  pub checksum_sha256 : Option String

pub data Validator : Type 0 where
  generic postgres_custom mysql_dump : Validator

pub record ValidationResult : Type 0 where
  pub valid : Bool
  pub warnings : List String
  pub details : Option String

-- Everything outside of this process that a run of one task meets: the process table and the
-- clock, the text of an error's stack, the new run's id, the repositories that are only read, the file system (`some` is the
-- error it throws), the executors, the hash and the validators.
pub record Env (W : Type 0) : Type 0 where
  pub stale_deps : StaleRunCheckDeps
  pub pid : ℕ
  pub stack_of : String → String
  pub new_id : ℕ
  pub created_now : ℕ
  pub validating_now : ℕ
  pub finished_now : ℕ
  pub run_trigger : Option RunTrigger
  pub get_client : ℕ → Option Client
  pub has_transport : ℕ → Bool
  pub has_database_connection : ℕ → Bool
  pub make_target_dir : Option RunError
  pub clean_orphaned_part_files : Option RunError
  pub produce : Executor → Result RunError ProducedDump
  pub hash_file : String → Result RunError String
  pub rename : String → String → Option RunError
  pub validate : Validator → String → Result RunError ValidationResult
  pub unlink : String → W → Unlinked × W

pub record State (W : Type 0) : Type 0 where
  pub runs : Runs
  pub retention : RetentionState W

pub data Outcome : Type 0 where
  returned : (run : BackupRun) (skipped : Bool) → Outcome
  threw : RunError → Outcome

abbrev pub interrupted : String
interrupted = "Run interrupted: owning process is no longer alive."

abbrev pub is_stale_run : StaleRunCheckDeps → BackupRun → Bool
is_stale_run deps r = is_stale_in_progress_run deps r.pid (some r.started_at)

abbrev pub fail_run : StaleRunCheckDeps → BackupRun → BackupRun
fail_run deps = finished_row deps.now failed (some interrupted) none

unfoldable pub recover_stale_runs : StaleRunCheckDeps → ℕ → Runs → Runs
unfolding fail_stale list_in_progress
recover_stale_runs deps task_id runs =
    fail_stale run_id (is_stale_run deps) (fail_run deps) (list_in_progress task_id runs) runs

abbrev pub pick_validators : DbEngine → List Validator
pick_validators postgres = generic ∷ postgres_custom ∷ []
pick_validators mysql = generic ∷ mysql_dump ∷ []
pick_validators mariadb = generic ∷ mysql_dump ∷ []
pick_validators unknown = generic ∷ []

-- `path.endsWith('.part') ? path.slice(0, -'.part'.length) : path`.
unfoldable pub strip_part : String → String
strip_part String.[] = String.[]
strip_part (String.◌∷◌ c s) =
    let rest = strip_part s in
    if str_eq (String.◌∷◌ c s) ".part" then String.[] else String.◌∷◌ c rest

-- `texts.join('; ')`.
unfoldable pub join : List String → String
join [] = ""
join (t ∷ []) = t
join (t ∷ u ∷ ts) = t <> "; " <> join (u ∷ ts)

-- `id ? repo.getById(id) : null`, and the error where there is none.
abbrev pub look_up : Option ℕ → (ℕ → Bool) → RunError → Result RunError ℕ
look_up none exists error = err error
look_up (some id) exists error = if exists id then ok id else err error

-- The warnings of all validators, and the first result that is not valid.
abbrev pub all_warnings : List ValidationResult → List String
all_warnings [] = []
all_warnings (r ∷ rs) = r.warnings ++ all_warnings rs
