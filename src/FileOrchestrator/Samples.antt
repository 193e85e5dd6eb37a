-- ===== src/FileOrchestrator/Samples.antt =====
-- A folder backup by process 44, on a repository whose last run has lost its process.
use arkode.Prelude.{true, false, [], ◌∷◌, none, some}
use arkode.Prelude.Results.{ok}
use arkode.Types.{running, daily}
use arkode.FileTypes.{FileBackupTask, FileBackupRun, FileBackupRepository, local_folder}
use arkode.ProcessIdentity.{default_deps}
use arkode.Orchestrator.Samples.{acme}
use arkode.FileOrchestrator.{FileEnv, FileState, ResticBackupSummary}
use arkode.Samples.{one_process, noon_of}

abbrev pub documents : FileBackupTask
documents = record {
  id = 2;
  client_id = 1;
  repository_id = 4;
  source_kind = local_folder;
  source_path = some "docs";
  transport_id = none;
  remote_source_path = none;
  retention_count = some 3;
  retention_days = none;
  schedule_time = none;
  schedule_enabled = false;
  schedule_frequency = daily;
  schedule_days_of_week = none;
  schedule_day_of_month = none;
  is_active = true;
}

abbrev pub repository : FileBackupRepository
repository = record {
  id = 4;
  client_id = 1;
  repo_path = "repo";
  password_secret_ref = "ref";
  last_pruned_at = none;
  last_checked_at = none;
  initialized_at = some 1;
}

abbrev pub dead_run : FileBackupRun
dead_run = record {
  id = 1;
  task_id = 2;
  client_id = 1;
  repository_id = 4;
  status = running;
  snapshot_id = none;
  total_bytes_processed = none;
  files_deleted = none;
  started_at = 3;
  finished_at = none;
  error_message = none;
  error_stack = none;
  pid = some 45;
  progress = none;
}

abbrev pub summary : ResticBackupSummary
summary = record {
  snapshot_id = "abcd";
  total_files_processed = 2;
  total_bytes_processed = 10;
  warnings = [];
}

abbrev pub file_env : FileEnv (Unit {0})
file_env = record {
  stale_deps = default_deps (noon_of 5) one_process;
  pid = 44;
  stack_of = λ m. m;
  new_id = 2;
  created_now = noon_of 5;
  finished_now = noon_of 5;
  get_client = λ id. some acme;
  get_repository = λ id. some repository;
  has_transport = λ id. false;
  sync_remote_folder = λ transport remote source. none;
  path_exists_as_directory = λ path. true;
  staging_dir = λ base id. base;
  get_secret = λ ref. some "secret";
  run_backup = λ repo password source w. (ok summary, w);
  diff_snapshots = λ repo password before after. ok 0;
  forget = λ repo password source policy w. (ok [], w);
}

abbrev pub interrupted_state : FileState (Unit {0})
interrupted_state = record {
  lock = record { runs = dead_run ∷ []; maintenance = [] };
  forgotten = [];
  restic = tt;
}
