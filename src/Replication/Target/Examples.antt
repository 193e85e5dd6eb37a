-- ===== src/Replication/Target/Examples.antt =====
-- A copy of an idle restic repository by process 44.
use arkode.Prelude.{◌≡◌, refl, true, false, [], ◌∷◌, none, some}
use arkode.Prelude.Results.{ok}
use arkode.Types.{scheduled}
use arkode.FileTypes.{FileBackupRepository, prune}
use arkode.ProcessIdentity.{default_deps}
use arkode.Locking.{recover_stale_repository_runs, check_repository_lock}
use arkode.Orchestrator.Samples.{acme}
use arkode.Replication.{ReplicationTarget, restic_repo}
use arkode.Replication.Target.{
  ReplicationEnv, ReplicationState, RcloneSyncResult, begin_replication, with_new_run, guard_target,
}
use arkode.Replication.Target.Sync.{syncing_repository-unlocked}
use arkode.Samples.{one_process, noon_of}

abbrev repository : FileBackupRepository
repository = record {
  id = 4;
  client_id = 1;
  repo_path = "repo";
  password_secret_ref = "ref";
  last_pruned_at = none;
  last_checked_at = none;
  initialized_at = some 1;
}

abbrev cloud : ReplicationTarget
cloud = record {
  id = 1;
  client_id = 1;
  content = restic_repo;
  encrypt_with_crypt = false;
  crypt_password_secret_ref = none;
  enabled = true;
  last_replicated_at = none;
  last_status = none;
  last_error = none;
}

abbrev no_changes : RcloneSyncResult
no_changes = record {
  bytes_transferred = 0;
  files_transferred = 0;
  files_deleted = 0;
  warnings = [];
}

abbrev online : ReplicationEnv
online = record {
  stale_deps = default_deps (noon_of 5) one_process;
  pid = 44;
  new_id = 7;
  trigger = scheduled;
  created_now = noon_of 5;
  finished_now = noon_of 5;
  get_client = λ id. some acme;
  get_repository_by_client = λ id. some repository;
  get_secret = λ ref. some "secret";
  resolve_rclone_remote = λ target. none;
  preflight = λ source. none;
  rclone_sync = λ source. ok no_changes;
}

abbrev idle : ReplicationState
idle = record { lock = record { runs = []; maintenance = [] }; targets = cloud ∷ []; runs = [] }

program : Unit {0}
unfolding begin_replication recover_stale_repository_runs check_repository_lock guard_target
program = tt

syncing_repository-unlocked_example :
    check_repository_lock online.stale_deps (with_new_run online cloud idle).lock 4 prune ≡ none
unfolding program
syncing_repository-unlocked_example =
    syncing_repository-unlocked online cloud acme repository "repo" idle
      (with_new_run online cloud idle) refl refl refl refl refl prune
