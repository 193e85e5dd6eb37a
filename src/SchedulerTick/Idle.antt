-- ===== src/SchedulerTick/Idle.antt =====
-- A cycle of the scheduler leaves no repository locked.
use arkode.Prelude.{ℕ, ◌≡◌, ◌≢◌, refl, sym, subst, List, [], Option, none, some}
use Prim.Native.String.{String}
use arkode.Prelude.Results.{Result, ok, err}
use arkode.Tables.{Fresh}
use arkode.FileTypes.{FileBackupTask}
use arkode.FileRuns.{file_run_id}
use arkode.Types.{BackupTask}
use arkode.Locking.{LockState}
use arkode.Locking.Exclusion.{IsIdle}
use arkode.Replication.{default_min_interval_ms}
use arkode.Replication.Target.{ReplicationEnv}
use arkode.FileRunDue.Release.{file_pass-IsIdle}
use arkode.Maintenance.Release.{sweep-IsIdle}
use arkode.Replication.Idle.{replications-IsIdle}
use arkode.SchedulerTick.{
  TickEnv, TickState, PhaseSummary, isolated, db_phase, file_phase, file_env_on, file_state,
  maintenance_phase, maintenance_state, replication_phase, replication_env_on, replication_state,
  list_enabled, run_scheduler_tick,
}

module _ {D W : Type 0} (id : ℕ) (env : TickEnv D W) (now : ℕ) where
  abbrev KeepsIdle : Result String PhaseSummary × TickState D W → Type 0
  KeepsIdle result = IsIdle id result.1.lock

  isolated-IsIdle :
      (name : String) (errors : List String) (result : Result String PhaseSummary × TickState D W)
      → KeepsIdle result
      → IsIdle id (isolated name errors result).2.lock
  isolated-IsIdle name errors (ok summary, s) idle = idle
  isolated-IsIdle name errors (err message, s) idle = idle

  module _ (s : TickState D W) where
    -- The database backups take no repository lock.
    db_phase-lock :
        (listed : Result String (List BackupTask))
        → (isolated "db-backup" [] (db_phase env now listed s)).2.lock ≡ s.lock
    db_phase-lock (err message) = refl
    db_phase-lock (ok tasks) = refl

    module _ (idle : IsIdle id s.lock) where
      file_phase-KeepsIdle :
          ((i j : ℕ) → i ≢ j → (env.file_envs i).new_id ≢ (env.file_envs j).new_id)
          → ((i : ℕ) → Fresh file_run_id (env.file_envs i).new_id s.lock.runs)
          → (listed : Result String (List FileBackupTask)) → KeepsIdle (file_phase env now listed s)
      file_phase-KeepsIdle distinct unused (err message) = idle
      file_phase-KeepsIdle distinct unused (ok tasks) =
          file_pass-IsIdle (file_env_on env now s.repositories) now distinct id tasks
            (file_state env now s) unused idle

      maintenance_phase-KeepsIdle :
          (query : Result String (Unit {0})) → KeepsIdle (maintenance_phase env now query s)
      maintenance_phase-KeepsIdle (err message) = idle
      maintenance_phase-KeepsIdle (ok answer) =
          sweep-IsIdle env.maintenance_env (record { repository_id = none; operation = none })
            (maintenance_state env now s) id idle

      replication_phase-KeepsIdle :
          (envs : Option (ℕ → ReplicationEnv)) (query : Result String (Unit {0}))
          → KeepsIdle (replication_phase env now envs query s)
      replication_phase-KeepsIdle none query = idle
      replication_phase-KeepsIdle (some envs) (err message) = idle
      replication_phase-KeepsIdle (some envs) (ok answer) =
          replications-IsIdle id (replication_env_on env now envs s.repositories) now
            default_min_interval_ms s.db.runs (list_enabled env.is_active_client s.targets)
            (replication_state env now s) idle

-- A cycle of the scheduler leaves every repository unlocked that it found unlocked: when nothing of
-- a repository is in progress before `runSchedulerTick`, nothing is after the four passes, whatever
-- tasks are due, whatever restic and rclone answer, and whichever phases throw. The ids that the
-- file backups give out are unused and differ from each other.
pub tick-IsIdle :
    {D W : Type 0} (id : ℕ) (env : TickEnv D W) (now : ℕ) (s : TickState D W)
    → ((i j : ℕ) → i ≢ j → (env.file_envs i).new_id ≢ (env.file_envs j).new_id)
    → ((i : ℕ) → Fresh file_run_id (env.file_envs i).new_id s.lock.runs)
    → IsIdle id s.lock
    → IsIdle id (run_scheduler_tick env now s).1.lock
unfolding run_scheduler_tick
tick-IsIdle id env now s distinct unused idle =
    let (db, e1, s1) = isolated "db-backup" [] (db_phase env now env.list_scheduled s) in
    let same = db_phase-lock id env now s env.list_scheduled in
    let file = file_phase env now env.list_scheduled_files s1 in
    let file_idle = isolated-IsIdle id env now "file-backup" e1 file (
      file_phase-KeepsIdle id env now s1 (subst (IsIdle id) (sym same) idle) distinct
        (subst (λ (l : LockState). (i : ℕ) → Fresh file_run_id (env.file_envs i).new_id l.runs)
          (sym same) unused)
        env.list_scheduled_files) in
    let maintenance_idle =
      isolated-IsIdle id env now "maintenance" _ _
        (maintenance_phase-KeepsIdle id env now _ file_idle env.maintenance_query) in
    isolated-IsIdle id env now "replication" _ _
      (replication_phase-KeepsIdle id env now _ maintenance_idle env.replication env.targets_query)
