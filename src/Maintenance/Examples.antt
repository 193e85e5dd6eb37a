-- ===== src/Maintenance/Examples.antt =====
-- A sweep over two repositories, of which one is busy, and the theorems at concrete inputs.
use arkode.Prelude.{ℕ, ◌+◌, ◌≡◌, refl, Bool, true, false, [], ◌∷◌, map, none, some}
use arkode.Prelude.Results.{err}
use arkode.Tables.{update_where}
use arkode.Types.{running}
use arkode.FileTypes.{FileBackupRepository, FileBackupMaintenanceRun, prune, check}
use arkode.ProcessIdentity.{default_deps, is_stale_in_progress_run}
use arkode.Locking.{check_repository_lock, recover_stale_repository_runs}
use arkode.Locking.Exclusion.{IsIdle}
use arkode.FileRuns.{
  list_file_in_progress, list_maintenance_in_progress, create_maintenance_run,
  mark_maintenance_finished,
}
use arkode.FileRepositories.{mark_pruned, mark_checked, create_repository, client_has_repository}
use arkode.Maintenance.{
  MaintenanceOpts, MaintenanceEnv, MaintenanceState, run_file_backup_maintenance,
}
use arkode.Maintenance.Release.{sweep-IsIdle}
use arkode.Maintenance.Sweep.{subject, sweep-subjects}
use arkode.Samples.{one_process}

abbrev repository : ℕ → FileBackupRepository
repository id = record {
  id = id;
  client_id = id;
  repo_path = "R:/repo";
  password_secret_ref = "secret";
  last_pruned_at = none;
  last_checked_at = some 1999000;
  initialized_at = some 5;
}

-- A check of repository 9 by the living process 44.
abbrev checking : FileBackupMaintenanceRun
checking = record {
  id = 1;
  repository_id = 9;
  operation = check;
  status = running;
  started_at = 1999000;
  finished_at = none;
  bytes_reclaimed = none;
  error_message = none;
  pid = some 44;
}

-- restic always throws.
abbrev broken : MaintenanceEnv (Unit {0})
broken = record {
  pid = 44;
  get_secret = λ ref. some "pw";
  is_active_client = λ id. true;
  run_prune = λ path password unused w. (err "exit code 1", w);
  run_check = λ path password data_too w. (err "exit code 1", w);
  moment = λ k. record {
    deps = default_deps 2000000 one_process;
    due_now = 2000000;
    new_id = 10 + k;
    created_now = 2000000;
    finished_now = 2000001;
    stamped_now = 2000001;
  };
}

abbrev before : MaintenanceState (Unit {0})
before = record {
  lock = record { runs = []; maintenance = checking ∷ [] };
  repositories = repository 4 ∷ repository 9 ∷ [];
  restic = tt;
  step = 0;
}

abbrev everything : MaintenanceOpts
everything = record { repository_id = none; operation = none }

-- Repository 9 is busy, and the prune of repository 4 is tried after it.
sweep :
    map {B = ℕ × Bool}
      (λ o. (o.repository_id, o.ran))
      (run_file_backup_maintenance broken everything before).0
    ≡ (9, false) ∷ (9, false) ∷ (4, true) ∷ (4, false) ∷ []
unfolding run_file_backup_maintenance check_repository_lock recover_stale_repository_runs
    is_stale_in_progress_run update_where create_maintenance_run mark_maintenance_finished
    mark_pruned mark_checked
sweep = refl

second_repository :
    create_repository 5
      (record { client_id = 4; repo_path = "R:/b"; password_secret_ref = "secret" })
      before.repositories
    ≡ err client_has_repository
unfolding create_repository
second_repository = refl

sweep-IsIdle_example : IsIdle 4 (run_file_backup_maintenance broken everything before).1.lock
unfolding list_file_in_progress list_maintenance_in_progress
sweep-IsIdle_example = sweep-IsIdle broken everything before 4 (refl, refl)

sweep-subjects_example :
    map subject (run_file_backup_maintenance broken everything before).0
    ≡ (9, prune) ∷ (9, check) ∷ (4, prune) ∷ (4, check) ∷ []
sweep-subjects_example = sweep-subjects broken everything before
