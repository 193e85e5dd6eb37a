-- ===== src/Orchestrator/Samples.antt =====
-- A disk and an executor that answer the same each time, and a table of two stored backups.
use arkode.Prelude.{true, false, [], ◌∷◌, none, some}
use arkode.Prelude.Results.{ok}
use arkode.Types.{BackupRun, Client, running, scheduled}
use arkode.ProcessIdentity.{default_deps}
use arkode.Retention.{removed}
use arkode.Orchestrator.{Env, State, RunError, other_error, ProducedDump}
use arkode.Samples.{stored_run, one_process, noon_of}

abbrev pub acme : Client
acme = record {
  id = 1;
  is_active = true;
  local_base_path = "acme";
  retention_count = none;
  retention_days = none;
}

abbrev pub dump : ProducedDump
dump = record {
  local_temp_path = "db.dump.part";
  file_name = "db.dump";
  size_bytes = 10;
  source_modified_at = none;
  checksum_sha256 = some "sum";
}

-- Process 44 starts run 9 at noon of day 5.
abbrev pub good_env : Env (Unit {0})
good_env = record {
  stale_deps = default_deps (noon_of 5) one_process;
  pid = 44;
  stack_of = λ m. m;
  new_id = 9;
  created_now = noon_of 5;
  validating_now = noon_of 5;
  finished_now = noon_of 5;
  run_trigger = some scheduled;
  get_client = λ id. some acme;
  has_transport = λ id. true;
  has_database_connection = λ id. false;
  make_target_dir = none;
  clean_orphaned_part_files = none;
  produce = λ e. ok dump;
  hash_file = λ p. ok "sum";
  rename = λ from to. none;
  validate = λ v p. ok (record { valid = true; warnings = []; details = none });
  unlink = λ p w. (removed, w);
}

abbrev pub full_disk : RunError
full_disk = other_error "ENOSPC" none

abbrev pub stored : State (Unit {0})
stored = record {
  runs = stored_run 2 (noon_of 3) ∷ stored_run 1 (noon_of 2) ∷ [];
  retention = record { deletions = []; log = []; disk = tt };
}

-- A run that process 44 started ten minutes ago.
abbrev pub busy_row : BackupRun
busy_row = record (stored_run 3 (noon_of 5)) { status = running }

abbrev pub busy : State (Unit {0})
busy = record stored { runs = busy_row ∷ [] }
