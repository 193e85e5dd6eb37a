-- ===== src/SchedulerTick/Phases.antt =====
-- What a cycle counts, and what a phase that throws leaves of it.
use arkode.Prelude.{ℕ, suc, ◌≡◌, ◌≢◌, refl, ap, ◌∙◌, Bool, List, [], ◌∷◌, some, if◌then◌else◌}
use Prim.Native.String.{String, ◌++◌ as ◌<>◌}
use arkode.Prelude.Results.{Result, ok, err}
use arkode.Tables.{Fresh, UniqueKeys}
use arkode.Types.{BackupTask}
use arkode.Runs.{run_id}
use arkode.Settings.{get_setting, get_setting-set_setting}
use arkode.Orchestrator.{Env, State}
use arkode.RunDue.{RunDueResult, is_due_in, run_due_tasks, run_due_from}
use arkode.RunDue.Pass.{task_key, decisions, due_list, run_due-decisions}
use arkode.SchedulerTick.{
  TickEnv, TickState, PhaseSummary, SchedulerTickResult, empty_summary, count_where, isolated,
  db_phase, file_phase, maintenance_phase, replication_phase, stamp_heartbeat,
  scheduler_heartbeat_key, run_scheduler_tick,
}

count_where-decisions :
    (results : List RunDueResult)
    → count_where (λ r. r.ran) results ≡ count_where (λ (d : ℕ × Bool). d.1) (decisions results)
count_where-decisions [] = refl
count_where-decisions (r ∷ rs) = ap (λ n. if r.ran then suc n else n) (count_where-decisions rs)

count_where-due_list :
    {D : Type 0} (envs : ℕ → Env D) (now : ℕ) (tasks : List BackupTask) (s : State D)
    → count_where (λ (d : ℕ × Bool). d.1) (due_list envs now tasks s)
      ≡ count_where (λ task. is_due_in envs now task s) tasks
count_where-due_list envs now [] s = refl
count_where-due_list envs now (task ∷ tasks) s =
    ap (λ n. if is_due_in envs now task s then suc n else n) (count_where-due_list envs now tasks s)

module _ {D W : Type 0} (env : TickEnv D W) (now : ℕ) (s : TickState D W) where
  db_phase-ran :
      (tasks : List BackupTask) (listed : Result String (List BackupTask))
      → listed ≡ ok tasks
      → (isolated "db-backup" [] (db_phase env now listed s)).0.ran
        ≡ count_where (λ r. r.ran) (run_due_tasks env.db_envs now tasks s.db).0
  db_phase-ran tasks listed e = rw e refl

-- The number of database backups that a cycle reports as run is the number of its scheduled tasks that
-- are due when it starts, whatever the backups answer and whatever the other phases do. The tasks
-- have distinct ids, run ids are unique, and those given out are unused and differ from each other.
pub tick-ran_due :
    {D W : Type 0} (env : TickEnv D W) (now : ℕ) (s : TickState D W) (tasks : List BackupTask)
    → env.list_scheduled ≡ ok tasks
    → ((i j : ℕ) → i ≢ j → (env.db_envs i).new_id ≢ (env.db_envs j).new_id)
    → UniqueKeys run_id s.db.runs
    → ((i : ℕ) → Fresh run_id (env.db_envs i).new_id s.db.runs)
    → UniqueKeys task_key tasks
    → (run_scheduler_tick env now s).0.db.ran
      ≡ count_where (λ task. is_due_in env.db_envs now task s.db) tasks
unfolding run_scheduler_tick
tick-ran_due env now s tasks listed distinct unique unused tasks_unique =
    db_phase-ran env now s tasks env.list_scheduled listed
    ∙ count_where-decisions (run_due_tasks env.db_envs now tasks s.db).0
    ∙ ap (count_where (λ (d : ℕ × Bool). d.1))
        (run_due-decisions env.db_envs now tasks s.db distinct unique unused tasks_unique)
    ∙ count_where-due_list env.db_envs now tasks s.db

-- The answer of a phase, or of a cycle, with one message more before the others.
abbrev before_errors :
    {S : Type 0} → String → PhaseSummary × List String × S → PhaseSummary × List String × S
before_errors first (summary, errors, s) = (summary, first ∷ errors, s)

abbrev pub before_phase_errors :
    {S : Type 0} → String → SchedulerTickResult × S → SchedulerTickResult × S
before_phase_errors first (result, s) =
    (record result { phase_errors = first ∷ result.phase_errors }, s)

isolated-before_errors :
    {S : Type 0} (name first : String) (errors : List String)
    (result : Result String PhaseSummary × S)
    → isolated name (first ∷ errors) result ≡ before_errors first (isolated name errors result)
isolated-before_errors name first errors (ok summary, s) = refl
isolated-before_errors name first errors (err message, s) = refl

module _ {D W : Type 0} (env : TickEnv D W) (now : ℕ) (db : PhaseSummary) where
  abbrev Answer : Type 0
  Answer = PhaseSummary × List String × TickState D W

  -- The rest of a cycle, after the replication, after the maintenance, and after the file backups.
  abbrev after_replication :
      PhaseSummary → PhaseSummary → Answer → SchedulerTickResult × TickState D W
  after_replication file maintenance (replication, errors, s) = (
    record {
      at = env.iso_text now;
      db = db;
      file = file;
      maintenance = maintenance;
      replication = replication;
      phase_errors = errors;
    },
    stamp_heartbeat env now s,
  )

  abbrev after_maintenance : PhaseSummary → Answer → SchedulerTickResult × TickState D W
  after_maintenance file (maintenance, errors, s) = after_replication file maintenance (
      isolated "replication" errors (replication_phase env now env.replication env.targets_query s))

  abbrev after_file : Answer → SchedulerTickResult × TickState D W
  after_file (file, errors, s) =
      after_maintenance file
        (isolated "maintenance" errors (maintenance_phase env now env.maintenance_query s))

  after_maintenance-before_errors :
      (first : String) (file : PhaseSummary) (x : Answer)
      → after_maintenance file (before_errors first x)
        ≡ before_phase_errors first (after_maintenance file x)
  after_maintenance-before_errors first file (maintenance, errors, s) =
      ap (after_replication file maintenance) (
        isolated-before_errors "replication" first errors
          (replication_phase env now env.replication env.targets_query s))

  after_file-before_errors :
      (first : String) (x : Answer)
      → after_file (before_errors first x) ≡ before_phase_errors first (after_file x)
  after_file-before_errors first (file, errors, s) =
      let swept = maintenance_phase env now env.maintenance_query s in
      ap (after_maintenance file) (isolated-before_errors "maintenance" first errors swept)
      ∙ after_maintenance-before_errors first file (isolated "maintenance" errors swept)

  after_replication-heartbeat :
      (file maintenance : PhaseSummary) (x : Answer)
      → get_setting scheduler_heartbeat_key (after_replication file maintenance x).1.settings
        ≡ some (env.iso_text now)
  after_replication-heartbeat file maintenance (replication, errors, s) =
      get_setting-set_setting scheduler_heartbeat_key (env.iso_text now) scheduler_heartbeat_key
        s.settings

  after_file-heartbeat :
      (x : Answer)
      → get_setting scheduler_heartbeat_key (after_file x).1.settings ≡ some (env.iso_text now)
  after_file-heartbeat (file, errors, s) =
      let swept =
        isolated "maintenance" errors (maintenance_phase env now env.maintenance_query s) in
      after_replication-heartbeat file swept.0 (
        isolated "replication" swept.1
          (replication_phase env now env.replication env.targets_query swept.2))

-- A cycle whose first phase throws is a cycle without scheduled database backups, with one message
-- more: every other phase answers the same, the tables end the same, and the heartbeat is stamped.
pub thrown_phase-isolated :
    {D W : Type 0} (env : TickEnv D W) (now : ℕ) (s : TickState D W) (message : String)
    → (run_scheduler_tick (record env { list_scheduled = err message }) now s
        ≡ before_phase_errors
            ("db-backup" <> " phase: " <> message)
            (run_scheduler_tick (record env { list_scheduled = ok [] }) now s))
      × (get_setting scheduler_heartbeat_key
            (run_scheduler_tick (record env { list_scheduled = err message }) now s).1.settings
          ≡ some (env.iso_text now))
unfolding run_scheduler_tick run_due_tasks run_due_from
thrown_phase-isolated env now s message =
    let first = "db-backup" <> " phase: " <> message in
    let files = file_phase env now env.list_scheduled_files s in
    (
      ap (after_file env now empty_summary) (isolated-before_errors "file-backup" first [] files)
          ∙ after_file-before_errors env now empty_summary first (isolated "file-backup" [] files),
      after_file-heartbeat env now empty_summary (isolated "file-backup" (first ∷ []) files),
    )
