-- ===== src/Types.antt =====
-- types.ts of engine-core: the entities, with the fields that the modelled code reads or writes.
-- Ids are UUIDs that are only compared, so numbers stand for them; a time is a number of
-- milliseconds; texts that are only passed on or compared are `String`.
use Prim.Native.String.{String}
use arkode.Prelude.{ℕ, List, Option, Bool}

pub data BackupStrategyKind : Type 0 where
  fetch_existing remote_dump direct_dump : BackupStrategyKind

pub data DbEngine : Type 0 where
  postgres mysql mariadb unknown : DbEngine

pub data RemoteDumpExecMode : Type 0 where
  host docker : RemoteDumpExecMode

pub data ScheduleFrequency : Type 0 where
  daily weekly monthly : ScheduleFrequency

pub data BackupRunStatus : Type 0 where
  pending running producing validating success warning failed : BackupRunStatus

pub data RunTrigger : Type 0 where
  manual scheduled : RunTrigger

pub record Client : Type 0 where
  pub id : ℕ
  pub is_active : Bool
  pub local_base_path : String
  pub retention_count : Option ℕ
  pub retention_days : Option ℕ

-- The columns of a task that say what is fetched or run on the remote side. A text that is trimmed or
-- matched is the list of its character codes, here and in `schedule_time`.
pub record TaskPipeline : Type 0 where
  pub remote_path : Option (List ℕ)
  pub remote_file_pattern : Option (List ℕ)
  pub remote_command : Option (List ℕ)
  pub remote_output_path_template : Option (List ℕ)
  pub remote_cleanup : Bool
  pub remote_dump_exec_mode : RemoteDumpExecMode
  pub docker_container : Option (List ℕ)
  pub remote_dump_database : Option (List ℕ)
  pub remote_dump_db_user : Option (List ℕ)
  pub remote_dump_db_password_secret_ref : Option (List ℕ)

pub record BackupTask : Type 0 where
  pub id : ℕ
  pub client_id : ℕ
  pub strategy : BackupStrategyKind
  pub transport_id : Option ℕ
  pub database_connection_id : Option ℕ
  pub name : String
  pub db_engine : DbEngine
  pub pipeline : TaskPipeline
  pub schedule_time : Option (List ℕ)
  pub schedule_enabled : Bool
  pub schedule_frequency : ScheduleFrequency
  pub schedule_days_of_week : Option (List ℕ)
  pub schedule_day_of_month : Option ℕ
  pub retention_count : Option ℕ
  pub retention_days : Option ℕ
  pub is_active : Bool
  pub backup_set_id : Option ℕ
  pub windows_task_name : Option String

pub record BackupRun : Type 0 where
  pub id : ℕ
  pub task_id : ℕ
  pub client_id : ℕ
  pub strategy : BackupStrategyKind
  pub trigger : RunTrigger
  pub transport_id : Option ℕ
  pub database_connection_id : Option ℕ
  pub status : BackupRunStatus
  pub remote_file_name : Option String
  pub remote_modified_at : Option ℕ
  pub started_at : ℕ
  pub finished_at : Option ℕ
  pub downloaded_at : Option ℕ
  pub local_path : Option String
  pub size_bytes : Option ℕ
  pub checksum_sha256 : Option String
  pub error_message : Option String
  pub error_stack : Option String
  pub pid : Option ℕ
  pub progress : Option String
