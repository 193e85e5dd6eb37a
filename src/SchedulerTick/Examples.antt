-- ===== src/SchedulerTick/Examples.antt =====
-- A cycle at noon of day 5: one task is due, the listing of the folder backups throws, and restic fails
-- in the maintenance.
use arkode.Prelude.{ℕ, ◌+◌, ◌≡◌, refl, true, [], ◌∷◌, none, some, arith}
use arkode.Prelude.Results.{ok, err}
use arkode.Locking.Exclusion.{IsIdle}
use arkode.FileOrchestrator.{FileEnv}
use arkode.FileOrchestrator.Samples.{file_env, repository, interrupted_state}
use arkode.FileRuns.{list_file_in_progress, list_maintenance_in_progress}
use arkode.Maintenance.{MaintenanceEnv}
use arkode.Orchestrator.Samples.{stored}
use arkode.ProcessIdentity.{default_deps}
use arkode.RunDue.Samples.{envs, paused}
use arkode.Settings.{get_setting}
use arkode.Samples.{nightly, noon_of, one_process}
use arkode.SchedulerTick.{
  TickEnv, TickState, count_where, run_scheduler_tick, scheduler_heartbeat_key,
}
use arkode.RunDue.{is_due_in}
use arkode.SchedulerTick.Idle.{tick-IsIdle}
use arkode.SchedulerTick.Phases.{tick-ran_due, thrown_phase-isolated, before_phase_errors}

abbrev numbered_file_env : ℕ → FileEnv (Unit {0})
numbered_file_env k = record file_env { new_id = 100 + k }

abbrev sweeping : MaintenanceEnv (Unit {0})
sweeping = record {
  pid = 44;
  get_secret = λ ref. some "pw";
  is_active_client = λ id. true;
  run_prune = λ path password unused w. (err "exit code 1", w);
  run_check = λ path password data_too w. (err "exit code 1", w);
  moment = λ k. record {
    deps = default_deps (noon_of 5) one_process;
    due_now = noon_of 5;
    new_id = 10 + k;
    created_now = noon_of 5;
    finished_now = noon_of 5;
    stamped_now = noon_of 5;
  };
}

abbrev tick_env : TickEnv (Unit {0}) (Unit {0})
tick_env = record {
  db_envs = envs;
  file_envs = numbered_file_env;
  maintenance_env = sweeping;
  replication = none;
  list_scheduled = ok (nightly ∷ paused ∷ []);
  list_scheduled_files = err "database is locked";
  maintenance_query = ok tt;
  targets_query = ok tt;
  is_active_client = λ id. true;
  task_name = λ id. "task";
  file_task_name = λ id. "folder";
  id_text = λ id. "id";
  iso_text = λ now. "noon";
}

abbrev tick_state : TickState (Unit {0}) (Unit {0})
tick_state = record {
  db = stored;
  lock = interrupted_state.lock;
  forgotten = [];
  restic = tt;
  repositories = repository ∷ [];
  targets = [];
  replications = [];
  settings = [];
}

-- Repository 9 is idle; the dead run is of repository 4.
tick-IsIdle_example : IsIdle 9 (run_scheduler_tick tick_env (noon_of 5) tick_state).1.lock
unfolding list_file_in_progress list_maintenance_in_progress
tick-IsIdle_example =
    tick-IsIdle 9 tick_env (noon_of 5) tick_state (λ i j differ e. differ (omega arith))
      (λ i. (λ e. omega arith, tt)) (refl, refl)

tick-ran_due_example :
    (run_scheduler_tick tick_env (noon_of 5) tick_state).0.db.ran
    ≡ count_where (λ task. is_due_in envs (noon_of 5) task stored) (nightly ∷ paused ∷ [])
tick-ran_due_example =
    tick-ran_due tick_env (noon_of 5) tick_state (nightly ∷ paused ∷ []) refl
      (λ i j differ e. differ (omega arith)) ((λ e. omega arith, tt), (tt, tt))
      (λ i. (λ e. omega arith, (λ e. omega arith, tt))) ((λ e. omega arith, tt), (tt, tt))

thrown_phase-isolated_example :
    (run_scheduler_tick (record tick_env { list_scheduled = err "locked" }) (noon_of 5) tick_state
      ≡ before_phase_errors "db-backup phase: locked"
          (run_scheduler_tick (record tick_env { list_scheduled = ok [] }) (noon_of 5) tick_state))
    × (get_setting scheduler_heartbeat_key
          (run_scheduler_tick
            (record tick_env { list_scheduled = err "locked" })
            (noon_of 5)
            tick_state).1.settings
        ≡ some "noon")
thrown_phase-isolated_example = thrown_phase-isolated tick_env (noon_of 5) tick_state "locked"
