-- ===== src/Tasks/Create.antt =====
-- The three ways to create a task. The new id is an argument, and so is what the repositories of
-- transports and connections answer.
use Prim.Native.String.{String}
use arkode.Prelude.{ℕ, Bool, true, false, ◌&&◌, List, ◌∷◌, Option, none, some, or_default}
use arkode.Prelude.Results.{Result, ◌>>=◌, ◌>>◌, ensure, or_throw}
use arkode.Types.{
  BackupTask, TaskPipeline, BackupStrategyKind, DbEngine, RemoteDumpExecMode, fetch_existing,
  remote_dump, direct_dump, unknown, host, docker, daily,
}
use arkode.Tasks.{
  Tasks, TransportType, ssh, TaskError, transport_not_found, wrong_transport_type,
  connection_not_found, host_without_command, docker_without_target, docker_without_engine, Written,
  insert_row,
}

-- `undefined` and `null` are both none. The time of a schedule is accepted and never read.
pub record CreateFetchExistingTaskInput : Type 0 where
  pub client_id : ℕ
  pub transport_id : ℕ
  pub name : String
  pub db_engine : DbEngine
  pub remote_path : List ℕ
  pub remote_file_pattern : Option (List ℕ)
  pub schedule_time : Option (List ℕ)
  pub retention_count : Option ℕ
  pub retention_days : Option ℕ
  pub backup_set_id : Option ℕ

pub record CreateRemoteDumpTaskInput : Type 0 where
  pub client_id : ℕ
  pub transport_id : ℕ
  pub name : String
  pub db_engine : DbEngine
  pub remote_command : Option (List ℕ)
  pub remote_output_path_template : List ℕ
  pub remote_cleanup : Bool
  pub schedule_time : Option (List ℕ)
  pub retention_count : Option ℕ
  pub retention_days : Option ℕ
  pub backup_set_id : Option ℕ
  pub remote_dump_exec_mode : Option RemoteDumpExecMode
  pub docker_container : Option (List ℕ)
  pub remote_dump_database : Option (List ℕ)
  pub remote_dump_db_user : Option (List ℕ)
  pub remote_dump_db_password_secret_ref : Option (List ℕ)

pub record CreateDirectDumpTaskInput : Type 0 where
  pub client_id : ℕ
  pub database_connection_id : ℕ
  pub name : String
  pub db_engine : DbEngine
  pub schedule_time : Option (List ℕ)
  pub retention_count : Option ℕ
  pub retention_days : Option ℕ
  pub backup_set_id : Option ℕ

-- Neither null nor the empty text.
abbrev pub is_filled : Option (List ℕ) → Bool
is_filled (some (c ∷ cs)) = true
is_filled _ = false

abbrev pub is_known : DbEngine → Bool
is_known unknown = false
is_known _ = true

-- What `insertTask` writes where its input has no pipeline field.
abbrev pub no_columns : TaskPipeline
no_columns = record {
  remote_path = none;
  remote_file_pattern = none;
  remote_command = none;
  remote_output_path_template = none;
  remote_cleanup = false;
  remote_dump_exec_mode = host;
  docker_container = none;
  remote_dump_database = none;
  remote_dump_db_user = none;
  remote_dump_db_password_secret_ref = none;
}

abbrev pub fetch_columns : CreateFetchExistingTaskInput → TaskPipeline
fetch_columns input = record no_columns {
  remote_path = some input.remote_path;
  remote_file_pattern = input.remote_file_pattern;
}

abbrev pub dump_columns : CreateRemoteDumpTaskInput → TaskPipeline
dump_columns input = record {
  remote_path = none;
  remote_file_pattern = none;
  remote_command = input.remote_command;
  remote_output_path_template = some input.remote_output_path_template;
  remote_cleanup = input.remote_cleanup;
  remote_dump_exec_mode = or_default input.remote_dump_exec_mode host;
  docker_container = input.docker_container;
  remote_dump_database = input.remote_dump_database;
  remote_dump_db_user = input.remote_dump_db_user;
  remote_dump_db_password_secret_ref = input.remote_dump_db_password_secret_ref;
}

-- The row of the INSERT: a new task is active, and its schedule is enabled, daily and without a time.
abbrev pub new_task :
    ℕ → BackupStrategyKind → Option ℕ → Option ℕ → ℕ → String → DbEngine → TaskPipeline → BackupTask
new_task id strategy transport_id connection_id client_id name engine columns = record {
  id = id;
  client_id = client_id;
  strategy = strategy;
  transport_id = transport_id;
  database_connection_id = connection_id;
  name = name;
  db_engine = engine;
  pipeline = columns;
  schedule_time = none;
  schedule_enabled = true;
  schedule_frequency = daily;
  schedule_days_of_week = none;
  schedule_day_of_month = none;
  retention_count = none;
  retention_days = none;
  is_active = true;
  backup_set_id = none;
  windows_task_name = none;
}

abbrev pub with_retention : Option ℕ → Option ℕ → Option ℕ → BackupTask → BackupTask
with_retention count days set t = record t {
  retention_count = count;
  retention_days = days;
  backup_set_id = set;
}

abbrev pub validate_mode :
    RemoteDumpExecMode → CreateRemoteDumpTaskInput → Result TaskError (Unit {0})
validate_mode host input = ensure (is_filled input.remote_command) host_without_command
validate_mode docker input = do
  ensure
      (is_filled input.docker_container
        && is_filled input.remote_dump_database
        && is_filled input.remote_dump_db_user)
      docker_without_target
  ensure (is_known input.db_engine) docker_without_engine

abbrev pub validate_remote_dump_input : CreateRemoteDumpTaskInput → Result TaskError (Unit {0})
validate_remote_dump_input input = validate_mode (or_default input.remote_dump_exec_mode host) input

abbrev pub may_fetch : TransportType → Bool
may_fetch ssh = false
may_fetch _ = true

abbrev pub may_dump : TransportType → Bool
may_dump ssh = true
may_dump _ = false

abbrev pub fetch_row : ℕ → CreateFetchExistingTaskInput → BackupTask
fetch_row id input = with_retention input.retention_count input.retention_days input.backup_set_id (
    new_task id fetch_existing (some input.transport_id) none input.client_id input.name
      input.db_engine (fetch_columns input))

abbrev pub dump_row : ℕ → CreateRemoteDumpTaskInput → BackupTask
dump_row id input = with_retention input.retention_count input.retention_days input.backup_set_id (
    new_task id remote_dump (some input.transport_id) none input.client_id input.name
      input.db_engine (dump_columns input))

abbrev pub direct_row : ℕ → CreateDirectDumpTaskInput → BackupTask
direct_row id input =
    with_retention input.retention_count input.retention_days input.backup_set_id (
      new_task id direct_dump none (some input.database_connection_id) input.client_id input.name
        input.db_engine no_columns)

module _ (transports : ℕ → Option TransportType) (connections : ℕ → Bool) where
  unfoldable pub create_fetch_existing : ℕ → CreateFetchExistingTaskInput → Tasks → Written
  unfolding insert_row
  create_fetch_existing id input tasks = do
    transport ← or_throw (transports input.transport_id) transport_not_found
    ensure (may_fetch transport) wrong_transport_type
    insert_row (fetch_row id input) tasks

  unfoldable pub create_remote_dump : ℕ → CreateRemoteDumpTaskInput → Tasks → Written
  unfolding insert_row
  create_remote_dump id input tasks = do
    transport ← or_throw (transports input.transport_id) transport_not_found
    ensure (may_dump transport) wrong_transport_type
    validate_remote_dump_input input
    insert_row (dump_row id input) tasks

  unfoldable pub create_direct_dump : ℕ → CreateDirectDumpTaskInput → Tasks → Written
  unfolding insert_row
  create_direct_dump id input tasks = do
    ensure (connections input.database_connection_id) connection_not_found
    insert_row (direct_row id input) tasks
