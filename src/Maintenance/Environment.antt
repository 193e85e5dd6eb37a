-- ===== src/Maintenance/Environment.antt =====
-- What a sweep is asked for, what it answers, and what it meets.
use Prim.Native.String.{String}
use arkode.Prelude.{ℕ, ◌-◌, ◌*◌, Bool, true, List, [], ◌∷◌, Option, none, some, leb}
use arkode.Prelude.Results.{Result}
use arkode.FileRepositories.{FileRepositories}
use arkode.FileTypes.{
  FileBackupRepository, FileBackupOperationKind, MaintenanceOperation, prune, check,
  check_read_data,
}
use arkode.ProcessIdentity.{StaleRunCheckDeps}
use arkode.Locking.{LockState}

-- Without an id the repositories of active clients are swept; `operation` is none for 'all' too.
pub record MaintenanceOpts : Type 0 where
  pub repository_id : Option ℕ
  pub operation : Option MaintenanceOperation

pub record MaintenanceOutcome : Type 0 where
  pub repository_id : ℕ
  pub operation : MaintenanceOperation
  pub ran : Bool
  pub skipped_reason : Option String
  pub error : Option String

pub record CheckResult : Type 0 where
  pub is_ok : Bool
  pub message : Option String

abbrev pub day_ms : ℕ
day_ms = 24 * 60 * 60 * 1000

abbrev pub prune_interval_ms : ℕ
prune_interval_ms = 7 * day_ms

abbrev pub check_interval_ms : ℕ
check_interval_ms = 30 * day_ms

abbrev pub prune_max_unused : String
prune_max_unused = "0"

-- What one operation of the sweep meets: the clock at each read and write, and the new row's id.
pub record Moment : Type 0 where
  pub deps : StaleRunCheckDeps
  pub due_now : ℕ
  pub new_id : ℕ
  pub created_now : ℕ
  pub finished_now : ℕ
  pub stamped_now : ℕ

-- `W` is the state of the restic repositories.
pub record MaintenanceEnv (W : Type 0) : Type 0 where
  pub pid : ℕ
  pub get_secret : String → Option String
  pub is_active_client : ℕ → Bool
  pub run_prune : String → String → String → W → Result String ℕ × W
  pub run_check : String → String → Bool → W → Result String CheckResult × W
  pub moment : ℕ → Moment

-- `step` counts the operations that were considered.
pub record MaintenanceState (W : Type 0) : Type 0 where
  pub lock : LockState
  pub repositories : FileRepositories
  pub restic : W
  pub step : ℕ

abbrev pub is_past : Option ℕ → ℕ → ℕ → Bool
is_past none interval now = true
is_past (some last) interval now = leb interval (now - last)

abbrev pub is_operation_due : FileBackupRepository → MaintenanceOperation → ℕ → Bool
is_operation_due repository prune now = is_past repository.last_pruned_at prune_interval_ms now
is_operation_due repository _ now = is_past repository.last_checked_at check_interval_ms now

abbrev pub lock_kind : MaintenanceOperation → FileBackupOperationKind
lock_kind prune = prune
lock_kind check = check
lock_kind check_read_data = check_read_data

abbrev pub operations_to_consider : Option MaintenanceOperation → List MaintenanceOperation
operations_to_consider none = prune ∷ check ∷ []
operations_to_consider (some operation) = operation ∷ []
