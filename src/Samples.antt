-- ===== src/Samples.antt =====
-- Small inputs that the examples share.
use arkode.Prelude.{ℕ, ◌+◌, ◌*◌, true, false, List, [], ◌∷◌, none, some, ◌==◌}
use arkode.Types.{
  TaskPipeline, BackupTask, BackupRun, host, success, scheduled, daily, monthly, fetch_existing,
  postgres,
}
use arkode.ProcessIdentity.{ProcessTable}

-- "02:30".
abbrev pub half_past_two : List ℕ
half_past_two = b'0' ∷ b'2' ∷ b':' ∷ b'3' ∷ b'0' ∷ []

-- "/d".
abbrev pub dumps : TaskPipeline
dumps = record {
  remote_path = some (b'/' ∷ b'd' ∷ []);
  remote_file_pattern = none;
  remote_command = none;
  remote_output_path_template = none;
  remote_cleanup = false;
  remote_dump_exec_mode = host;
  docker_container = none;
  remote_dump_database = none;
  remote_dump_db_user = none;
  remote_dump_db_password_secret_ref = none;
}

abbrev pub nightly : BackupTask
nightly = record {
  id = 7;
  client_id = 1;
  strategy = fetch_existing;
  transport_id = some 3;
  database_connection_id = none;
  name = "nightly";
  db_engine = postgres;
  pipeline = dumps;
  schedule_time = some half_past_two;
  schedule_enabled = true;
  schedule_frequency = daily;
  schedule_days_of_week = none;
  schedule_day_of_month = none;
  retention_count = some 2;
  retention_days = none;
  is_active = true;
  backup_set_id = none;
  windows_task_name = none;
}

abbrev pub month_end : BackupTask
month_end = record nightly { schedule_frequency = monthly; schedule_day_of_month = some 31 }

-- A Success run with a file, by its id and its start.
abbrev pub stored_run : ℕ → ℕ → BackupRun
stored_run id start = record {
  id = id;
  task_id = 7;
  client_id = 1;
  strategy = fetch_existing;
  trigger = scheduled;
  transport_id = some 3;
  database_connection_id = none;
  status = success;
  remote_file_name = some "dump";
  remote_modified_at = none;
  started_at = start;
  finished_at = some start;
  downloaded_at = some start;
  local_path = some "dump";
  size_bytes = some 10;
  checksum_sha256 = some "sum";
  error_message = none;
  error_stack = none;
  pid = some 44;
  progress = none;
}

-- Process 44 runs, and started at time 5; no other process does.
abbrev pub one_process : ProcessTable
one_process = record { is_pid_in_use = λ pid. pid == 44; process_start_time_ms = λ pid. some 5 }

-- Noon of the day that many days after the start of 1970.
abbrev pub noon_of : ℕ → ℕ
noon_of day = day * 86400000 + 12 * 3600000
