-- ===== src/FileTypes.antt =====
-- fileBackup/types.ts of engine-core, with the fields that the modelled code reads or writes.
use Prim.Native.String.{String}
use arkode.Prelude.{ℕ, List, Option, Bool}
use arkode.Types.{ScheduleFrequency, BackupRunStatus}

pub data FileBackupOperationKind : Type 0 where
  backup forget prune check check_read_data replicate : FileBackupOperationKind

pub record FileBackupRepository : Type 0 where
  pub id : ℕ
  pub client_id : ℕ
  pub repo_path : String
  pub password_secret_ref : String
  pub last_pruned_at : Option ℕ
  pub last_checked_at : Option ℕ
  pub initialized_at : Option ℕ

pub data FileBackupSourceKind : Type 0 where
  local_folder remote_folder : FileBackupSourceKind

pub record FileBackupTask : Type 0 where
  pub id : ℕ
  pub client_id : ℕ
  pub repository_id : ℕ
  pub source_kind : FileBackupSourceKind
  pub source_path : Option String
  pub transport_id : Option ℕ
  pub remote_source_path : Option String
  pub retention_count : Option ℕ
  pub retention_days : Option ℕ
  pub schedule_time : Option (List ℕ)
  pub schedule_enabled : Bool
  pub schedule_frequency : ScheduleFrequency
  pub schedule_days_of_week : Option (List ℕ)
  pub schedule_day_of_month : Option ℕ
  pub is_active : Bool

-- `FileBackupRunStatus` lists the same seven statuses as `BackupRunStatus`.
pub record FileBackupRun : Type 0 where
  pub id : ℕ
  pub task_id : ℕ
  pub client_id : ℕ
  pub repository_id : ℕ
  pub status : BackupRunStatus
  pub snapshot_id : Option String
  pub total_bytes_processed : Option ℕ
  pub files_deleted : Option ℕ
  pub started_at : ℕ
  pub finished_at : Option ℕ
  pub error_message : Option String
  pub error_stack : Option String
  pub pid : Option ℕ
  pub progress : Option String

pub data MaintenanceOperation : Type 0 where
  prune check check_read_data : MaintenanceOperation

-- `FileBackupMaintenanceStatus` lists four of the statuses: running, success, warning, failed.
pub record FileBackupMaintenanceRun : Type 0 where
  pub id : ℕ
  pub repository_id : ℕ
  pub operation : MaintenanceOperation
  pub status : BackupRunStatus
  pub started_at : ℕ
  pub finished_at : Option ℕ
  pub bytes_reclaimed : Option ℕ
  pub error_message : Option String
  pub pid : Option ℕ
