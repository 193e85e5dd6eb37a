-- ===== src/SchedulerTick.antt =====
-- packages/engine-core/src/scheduler/runSchedulerTick.ts: one cycle of the scheduler, the four passes
-- one after another on the tables that they share, and the heartbeat.
pub mod Summaries
pub mod Idle
pub mod Phases
mod Examples
use Prim.Native.String.{String, ◌++◌ as ◌<>◌}
use arkode.Prelude.{
  ℕ, suc, Bool, true, false, ◌||◌, ◌&&◌, List, [], ◌∷◌, ◌++◌, Option, none, some, is_some, keep,
  or_default, reverse, if◌then◌else◌,
}
use arkode.Prelude.Results.{Result, ok, err}
use arkode.Types.{BackupTask, BackupRun, BackupRunStatus, failed}
use arkode.FileTypes.{
  FileBackupTask, FileBackupRun, MaintenanceOperation, prune, check, check_read_data,
}
use arkode.Locking.{LockState}
use arkode.FileRepositories.{FileRepositories, get_repository_by_id, get_repository_by_client}
use arkode.Settings.{Settings, set_setting}
use arkode.Orchestrator.{Env, State}
use arkode.RunDue.{RunDueResult, run_due_tasks}
use arkode.FileOrchestrator.{FileEnv, FileState, FileRetentionDeletion, text_of}
use arkode.FileRunDue.{FileBackupRunDueResult, run_file_backup_due_tasks}
use arkode.Maintenance.{
  MaintenanceEnv, MaintenanceState, MaintenanceOutcome, run_file_backup_maintenance,
}
use arkode.Replication.{
  ReplicationTarget, ReplicationContent, restic_repo, db_dumps, default_min_interval_ms,
}
use arkode.Replication.Target.{
  ReplicationEnv, ReplicationState, ReplicationRun, ReplicateTargetResult, ReplicateStatus,
  replication_failed,
}
use arkode.Replication.Pass.{ReplicationRunDueResult, run_due_replications}
pub use arkode.SchedulerTick.Summaries.{
  scheduler_heartbeat_key, TickEnv, TickState, PhaseSummary, SchedulerTickResult, empty_summary,
  count_where, errors_of, is_failed, is_replication_failed, failed_db_result, failed_file_result,
  failure_of, replication_error, replication_errors, operation_text, content_text, list_enabled,
  isolated,
}

module _ {D W : Type 0} (env : TickEnv D W) (now : ℕ) where
  abbrev pub db_summary : List RunDueResult → PhaseSummary
  db_summary results = record {
    ran = count_where (λ r. r.ran) results;
    failed = count_where failed_db_result results;
    errors = errors_of (λ r. env.task_name r.task_id) (λ r. r.error) results;
  }

  abbrev pub db_phase :
      Result String (List BackupTask) → TickState D W → Result String PhaseSummary × TickState D W
  db_phase (err message) s = (err message, s)
  db_phase (ok tasks) s =
      let (results, db) = run_due_tasks env.db_envs now tasks s.db in
      (ok (db_summary results), record s { db = db })

  abbrev pub file_summary : List FileBackupRunDueResult → PhaseSummary
  file_summary results = record {
    ran = count_where (λ r. r.ran) results;
    failed = count_where failed_file_result results;
    errors = errors_of (λ r. env.file_task_name r.task_id) (λ r. r.error) results;
  }

  -- A run reads the repositories as they stand.
  abbrev pub file_env_on : FileRepositories → ℕ → FileEnv W
  file_env_on repositories k = record (env.file_envs k) {
    get_repository = λ id. get_repository_by_id id repositories;
  }

  abbrev pub file_state : TickState D W → FileState W
  file_state s = record { lock = s.lock; forgotten = s.forgotten; restic = s.restic }

  abbrev pub file_phase :
      Result String (List FileBackupTask)
      → TickState D W
      → Result String PhaseSummary × TickState D W
  file_phase (err message) s = (err message, s)
  file_phase (ok tasks) s =
      let (results, f) =
        run_file_backup_due_tasks (file_env_on s.repositories) now tasks (file_state s) in
      (
        ok (file_summary results),
        record s { lock = f.lock; forgotten = f.forgotten; restic = f.restic },
      )

  abbrev pub maintenance_summary : List MaintenanceOutcome → PhaseSummary
  maintenance_summary outcomes = record {
    ran = count_where (λ o. o.ran) outcomes;
    failed = count_where (λ o. is_some (text_of o.error)) outcomes;
    errors =
        errors_of (λ o. env.id_text o.repository_id <> "/" <> operation_text o.operation)
          (λ o. o.error) outcomes;
  }

  abbrev pub maintenance_state : TickState D W → MaintenanceState W
  maintenance_state s = record {
    lock = s.lock;
    repositories = s.repositories;
    restic = s.restic;
    step = 0;
  }

  abbrev pub maintenance_phase :
      Result String (Unit {0}) → TickState D W → Result String PhaseSummary × TickState D W
  maintenance_phase (err message) s = (err message, s)
  maintenance_phase (ok answer) s =
      let (outcomes, m) =
        run_file_backup_maintenance env.maintenance_env
          (record { repository_id = none; operation = none }) (maintenance_state s) in
      (
        ok (maintenance_summary outcomes),
        record s { lock = m.lock; repositories = m.repositories; restic = m.restic },
      )

  abbrev pub replication_summary : List ReplicationRunDueResult → PhaseSummary
  replication_summary outcomes = record {
    ran = count_where (λ o. o.ran) outcomes;
    failed = count_where (λ o. is_some (replication_error o)) outcomes;
    errors =
        replication_errors (λ o. env.id_text o.client_id <> "/" <> content_text o.content) outcomes;
  }

  abbrev pub replication_env_on : (ℕ → ReplicationEnv) → FileRepositories → ℕ → ReplicationEnv
  replication_env_on envs repositories k = record (envs k) {
    get_repository_by_client = λ id. get_repository_by_client id repositories;
  }

  abbrev pub replication_state : TickState D W → ReplicationState
  replication_state s = record { lock = s.lock; targets = s.targets; runs = s.replications }

  abbrev pub replication_phase :
      Option (ℕ → ReplicationEnv)
      → Result String (Unit {0})
      → TickState D W
      → Result String PhaseSummary × TickState D W
  replication_phase none query s = (ok empty_summary, s)
  replication_phase (some envs) (err message) s = (err message, s)
  replication_phase (some envs) (ok answer) s =
      let (outcomes, r) =
        run_due_replications (replication_env_on envs s.repositories) now default_min_interval_ms
          s.db.runs (list_enabled env.is_active_client s.targets) (replication_state s) in
      (
        ok (replication_summary outcomes),
        record s { lock = r.lock; targets = r.targets; replications = r.runs },
      )

  abbrev pub stamp_heartbeat : TickState D W → TickState D W
  stamp_heartbeat s = record s {
    settings = set_setting scheduler_heartbeat_key (env.iso_text now) s.settings;
  }

  unfoldable pub run_scheduler_tick : TickState D W → SchedulerTickResult × TickState D W
  unfolding run_due_tasks run_file_backup_due_tasks run_file_backup_maintenance run_due_replications
      set_setting get_repository_by_id get_repository_by_client
  run_scheduler_tick s =
      let (db, e1, s1) = isolated "db-backup" [] (db_phase env.list_scheduled s) in
      let (file, e2, s2) = isolated "file-backup" e1 (file_phase env.list_scheduled_files s1) in
      let (maintenance, e3, s3) =
        isolated "maintenance" e2 (maintenance_phase env.maintenance_query s2) in
      let (replication, e4, s4) =
        isolated "replication" e3 (replication_phase env.replication env.targets_query s3) in
      (
        record {
          at = env.iso_text now;
          db = db;
          file = file;
          maintenance = maintenance;
          replication = replication;
          phase_errors = e4;
        },
        stamp_heartbeat s4,
      )
