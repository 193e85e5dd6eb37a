-- ===== src/FileOrchestrator/Environment.antt =====
-- What a run of a folder backup meets and keeps, of runFileBackupTask.ts and
-- applyFileBackupRetention.ts in packages/engine-core/src/fileBackup.
use Prim.Native.String.{String}
use text.Mathlib.Text.{◌==◌ as str_eq}
use arkode.Prelude.{ℕ, Bool, List, [], ◌∷◌, ◌++◌, Option, none, some, ◌==◌, or_else, if◌then◌else◌}
use arkode.Prelude.Results.{Result}
use arkode.Types.{Client}
use arkode.FileTypes.{FileBackupRepository, FileBackupTask, FileBackupRun}
use arkode.ProcessIdentity.{StaleRunCheckDeps}
use arkode.Locking.{LockState}
use arkode.Retention.{RetentionPolicy}

pub record Thrown : Type 0 where
  pub message : String
  pub stack : Option String

pub record ResticBackupSummary : Type 0 where
  pub snapshot_id : String
  pub total_files_processed : ℕ
  pub total_bytes_processed : ℕ
  pub warnings : List String

pub data ForgetReason : Type 0 where
  retention_count_and_days retention_count retention_days manual_delete : ForgetReason

-- A row of file_backup_retention_deletions, without its own id and time.
pub record FileRetentionDeletion : Type 0 where
  pub task_id : ℕ
  pub forgotten_snapshot_id : String
  pub triggered_by_run_id : Option ℕ
  pub reason : ForgetReason

-- `W` is the state of the restic repositories. A restic call answers, or throws, and may change
-- the repository in either case.
pub record FileEnv (W : Type 0) : Type 0 where
  pub stale_deps : StaleRunCheckDeps
  pub pid : ℕ
  pub stack_of : String → String
  pub new_id : ℕ
  pub created_now : ℕ
  pub finished_now : ℕ
  pub get_client : ℕ → Option Client
  pub get_repository : ℕ → Option FileBackupRepository
  pub has_transport : ℕ → Bool
  pub sync_remote_folder : ℕ → String → String → Option Thrown
  pub path_exists_as_directory : String → Bool
  pub staging_dir : String → ℕ → String
  pub get_secret : String → Option String
  pub run_backup : String → String → String → W → Result Thrown ResticBackupSummary × W
  pub diff_snapshots : String → String → String → String → Result Thrown ℕ
  pub forget : String → String → String → RetentionPolicy → W → Result Thrown (List String) × W

pub record FileState (W : Type 0) : Type 0 where
  pub lock : LockState
  pub forgotten : List FileRetentionDeletion
  pub restic : W

pub data FileOutcome : Type 0 where
  returned : (run : FileBackupRun) (skipped : Bool) → FileOutcome
  threw : Thrown → FileOutcome

abbrev pub resolve_file_backup_retention_policy : Client → FileBackupTask → RetentionPolicy
resolve_file_backup_retention_policy client task = record {
  count = or_else task.retention_count client.retention_count;
  days = or_else task.retention_days client.retention_days;
}

abbrev pub reason_of : RetentionPolicy → ForgetReason
reason_of policy = reason policy.count policy.days
  where
    reason : Option ℕ → Option ℕ → ForgetReason
    reason (some count) (some days) = retention_count_and_days
    reason (some count) none = retention_count
    reason none days = retention_days

-- The text, where there is one that is not empty.
abbrev pub text_of : Option String → Option String
text_of none = none
text_of (some text) = if str_eq text "" then none else some text

abbrev pub all_file_warnings : ResticBackupSummary → List String
all_file_warnings summary =
    if summary.total_files_processed == 0
    then summary.warnings ++ "The source folder was empty — the snapshot contains no files." ∷ []
    else summary.warnings

-- The rows that record the forgotten snapshots, the last one first.
abbrev pub record_forgotten :
    ℕ → ℕ → ForgetReason → List String → List FileRetentionDeletion → List FileRetentionDeletion
record_forgotten task_id run_id reason [] deletions = deletions
record_forgotten task_id run_id reason (snapshot ∷ more) deletions =
    record_forgotten task_id run_id reason more (
      record {
        task_id = task_id;
        forgotten_snapshot_id = snapshot;
        triggered_by_run_id = some run_id;
        reason = reason;
      }
      ∷ deletions)
