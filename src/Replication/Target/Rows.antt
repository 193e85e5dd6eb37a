-- ===== src/Replication/Target/Rows.antt =====
-- What a replication meets, and the tables that it writes, of
-- packages/engine-core/src/replication/replicateTarget.ts and db/repositories/replicationRunsRepo.ts.
use Prim.Native.String.{String}
use text.Mathlib.Text.{◌==◌ as str_eq}
use arkode.Prelude.{
  ℕ, Bool, true, false, ◌&&◌, List, [], ◌∷◌, Option, none, some, ◌==◌, keep, if◌then◌else◌,
}
use arkode.Prelude.Results.{Result}
use arkode.Tables.{update_where}
use arkode.Types.{Client, BackupRunStatus, running, RunTrigger}
use arkode.FileTypes.{FileBackupRepository}
use arkode.ProcessIdentity.{StaleRunCheckDeps}
use arkode.Locking.{LockState, HeldBy, run, maintenance}
use arkode.Orchestrator.{join}
use arkode.Replication.{ReplicationTarget, ReplicationLastStatus}

-- `ReplicationRunStatus` lists four of the statuses: running, success, warning, failed.
pub record ReplicationRun : Type 0 where
  pub id : ℕ
  pub target_id : ℕ
  pub client_id : ℕ
  pub trigger : RunTrigger
  pub status : BackupRunStatus
  pub started_at : ℕ
  pub finished_at : Option ℕ
  pub bytes_transferred : Option ℕ
  pub files_transferred : Option ℕ
  pub files_deleted : Option ℕ
  pub error_message : Option String
  pub pid : Option ℕ

pub record RcloneSyncResult : Type 0 where
  pub bytes_transferred : ℕ
  pub files_transferred : ℕ
  pub files_deleted : ℕ
  pub warnings : List String

pub data ReplicateStatus : Type 0 where
  replicated replicated_with_warnings replication_failed skipped : ReplicateStatus

-- The counts of a result repeat those of its row, and are left out.
pub record ReplicateTargetResult : Type 0 where
  pub ran : Bool
  pub status : ReplicateStatus
  pub run_id : Option ℕ
  pub message : Option String

pub record ReplicationState : Type 0 where
  pub lock : LockState
  pub targets : List ReplicationTarget
  pub runs : List ReplicationRun

-- An error is its message, the only part that the code reads.
pub record ReplicationEnv : Type 0 where
  pub stale_deps : StaleRunCheckDeps
  pub pid : ℕ
  pub new_id : ℕ
  pub trigger : RunTrigger
  pub created_now : ℕ
  pub finished_now : ℕ
  pub get_client : ℕ → Option Client
  pub get_repository_by_client : ℕ → Option FileBackupRepository
  pub get_secret : String → Option String
  pub resolve_rclone_remote : ReplicationTarget → Option String
  pub preflight : String → Option String
  pub rclone_sync : String → Result String RcloneSyncResult

abbrev pub target_id_of : ReplicationTarget → ℕ
target_id_of t = t.id

abbrev pub replication_run_id : ReplicationRun → ℕ
replication_run_id r = r.id

abbrev pub recorded_target :
    ℕ → ReplicationLastStatus → Option String → ReplicationTarget → ReplicationTarget
recorded_target now status error t = record t {
  last_replicated_at = some now;
  last_status = some status;
  last_error = error;
}

unfoldable pub record_result :
    ℕ → ℕ → ReplicationLastStatus → Option String → List ReplicationTarget → List ReplicationTarget
unfolding update_where
record_result id now status error targets =
    update_where target_id_of id (recorded_target now status error) targets

abbrev pub finished_replication :
    ℕ → BackupRunStatus → Option RcloneSyncResult → Option String → ReplicationRun → ReplicationRun
finished_replication now status none message r = record r {
  status = status;
  bytes_transferred = none;
  files_transferred = none;
  files_deleted = none;
  error_message = message;
  finished_at = some now;
}
finished_replication now status (some counts) message r = record r {
  status = status;
  bytes_transferred = some counts.bytes_transferred;
  files_transferred = some counts.files_transferred;
  files_deleted = some counts.files_deleted;
  error_message = message;
  finished_at = some now;
}

unfoldable pub mark_replication_finished :
    ℕ
    → ℕ
    → BackupRunStatus
    → Option RcloneSyncResult
    → Option String
    → List ReplicationRun
    → List ReplicationRun
unfolding update_where
mark_replication_finished id now status counts message runs =
    update_where replication_run_id id (finished_replication now status counts message) runs

abbrev pub is_replicating : BackupRunStatus → Bool
is_replicating running = true
is_replicating _ = false

unfoldable pub list_replications_in_progress : ℕ → List ReplicationRun → List ReplicationRun
list_replications_in_progress target_id runs =
    keep (λ r. r.target_id == target_id && is_replicating r.status) runs

abbrev pub holder_name : HeldBy → String
holder_name (run id) = "run"
holder_name (maintenance id) = "maintenance"

-- `warnings.join('; ')`, or nothing where there are none.
abbrev pub warning_text : List String → Option String
warning_text [] = none
warning_text (w ∷ ws) = some (join (w ∷ ws))

-- The text, where there is one that is not empty.
abbrev pub non_empty : Option String → Option String
non_empty none = none
non_empty (some text) = if str_eq text "" then none else some text

-- What comes before the row of the run: an end without a copy, or the copy of a source.
pub data Begun : Type 0 where
  ended : ReplicateTargetResult → Begun
  threw : String → Begun
  syncing : (source : String) → Begun
