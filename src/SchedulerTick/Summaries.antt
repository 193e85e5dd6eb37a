-- ===== src/SchedulerTick/Summaries.antt =====
-- What a cycle meets, keeps and reports, of
-- packages/engine-core/src/scheduler/runSchedulerTick.ts.
use Prim.Native.String.{String, ◌++◌ as ◌<>◌}
use arkode.Prelude.{
  ℕ, suc, Bool, true, false, ◌||◌, ◌&&◌, List, [], ◌∷◌, ◌++◌, Option, none, some, is_some, keep,
  or_default, reverse, if◌then◌else◌,
}
use arkode.Prelude.Results.{Result, ok, err}
use arkode.Types.{BackupTask, BackupRun, BackupRunStatus, failed}
use arkode.FileTypes.{
  FileBackupTask, FileBackupRun, MaintenanceOperation, prune, check, check_read_data,
}
use arkode.Locking.{LockState}
use arkode.FileRepositories.{FileRepositories}
use arkode.Settings.{Settings}
use arkode.Orchestrator.{Env, State}
use arkode.RunDue.{RunDueResult}
use arkode.FileOrchestrator.{FileEnv, FileRetentionDeletion, text_of}
use arkode.FileRunDue.{FileBackupRunDueResult}
use arkode.Maintenance.{MaintenanceEnv}
use arkode.Replication.{ReplicationTarget, ReplicationContent, restic_repo, db_dumps}
use arkode.Replication.Target.{
  ReplicationEnv, ReplicationRun, ReplicateTargetResult, ReplicateStatus, replication_failed,
}
use arkode.Replication.Pass.{ReplicationRunDueResult}

abbrev pub scheduler_heartbeat_key : String
scheduler_heartbeat_key = "schedulerHeartbeatAt"

-- What a cycle meets. The query that opens a phase answers, or throws; `replication` is none where
-- the optional dependencies are absent. Names and ids are turned into text by parameters.
pub record TickEnv (D W : Type 0) : Type 0 where
  pub db_envs : ℕ → Env D
  pub file_envs : ℕ → FileEnv W
  pub maintenance_env : MaintenanceEnv W
  pub replication : Option (ℕ → ReplicationEnv)
  pub list_scheduled : Result String (List BackupTask)
  pub list_scheduled_files : Result String (List FileBackupTask)
  pub maintenance_query : Result String (Unit {0})
  pub targets_query : Result String (Unit {0})
  pub is_active_client : ℕ → Bool
  pub task_name : ℕ → String
  pub file_task_name : ℕ → String
  pub id_text : ℕ → String
  pub iso_text : ℕ → String

-- The tables, and the state of the disks.
pub record TickState (D W : Type 0) : Type 0 where
  pub db : State D
  pub lock : LockState
  pub forgotten : List FileRetentionDeletion
  pub restic : W
  pub repositories : FileRepositories
  pub targets : List ReplicationTarget
  pub replications : List ReplicationRun
  pub settings : Settings

pub record PhaseSummary : Type 0 where
  pub ran : ℕ
  pub failed : ℕ
  pub errors : List String

pub record SchedulerTickResult : Type 0 where
  pub at : String
  pub db : PhaseSummary
  pub file : PhaseSummary
  pub maintenance : PhaseSummary
  pub replication : PhaseSummary
  pub phase_errors : List String

abbrev pub empty_summary : PhaseSummary
empty_summary = record { ran = 0; failed = 0; errors = [] }

-- `results.filter(test).length`.
abbrev pub count_where : {A : Type 0} → (A → Bool) → List A → ℕ
count_where test [] = 0
count_where test (x ∷ xs) = let rest = count_where test xs in if test x then suc rest else rest

-- `results.flatMap(r => r.error ? [label + error] : [])`, an empty text being false.
abbrev pub errors_of : {A : Type 0} → (A → String) → (A → Option String) → List A → List String
errors_of label error [] = []
errors_of label error (x ∷ xs) =
    let rest = errors_of label error xs in
    elim (text_of (error x)) [ none ↦ rest | some text ↦ (label x <> ": " <> text) ∷ rest ]

abbrev pub is_failed : BackupRunStatus → Bool
is_failed failed = true
is_failed _ = false

abbrev pub is_replication_failed : ReplicateStatus → Bool
is_replication_failed replication_failed = true
is_replication_failed _ = false

abbrev pub failed_db_result : RunDueResult → Bool
failed_db_result r = is_some (text_of r.error) || has_failed r.result
  where
    has_failed : Option (BackupRun × Bool) → Bool
    has_failed none = false
    has_failed (some (run, skipped)) = is_failed run.status

abbrev pub failed_file_result : FileBackupRunDueResult → Bool
failed_file_result r = is_some (text_of r.error) || has_failed r.result
  where
    has_failed : Option (FileBackupRun × Bool) → Bool
    has_failed none = false
    has_failed (some (run, skipped)) = is_failed run.status

abbrev pub failure_of : ReplicateTargetResult → Option String
failure_of result =
    if is_replication_failed result.status
    then some (or_default result.message "replication failed")
    else none

abbrev pub replication_error : ReplicationRunDueResult → Option String
replication_error r = elim (text_of r.error) [
  | some text ↦ some text
  | none ↦ elim r.result [ none ↦ none | some result ↦ failure_of result ]
]

-- In the source the failure's own text is written even where it is empty.
abbrev pub replication_errors :
    (ReplicationRunDueResult → String) → List ReplicationRunDueResult → List String
replication_errors label [] = []
replication_errors label (x ∷ xs) =
    let rest = replication_errors label xs in
    elim (replication_error x) [ none ↦ rest | some text ↦ (label x <> ": " <> text) ∷ rest ]

abbrev pub operation_text : MaintenanceOperation → String
operation_text prune = "prune"
operation_text check = "check"
operation_text check_read_data = "check_read_data"

abbrev pub content_text : ReplicationContent → String
content_text restic_repo = "restic_repo"
content_text db_dumps = "db_dumps"

-- `ORDER BY created_at`: the rows are newest first.
abbrev pub list_enabled : (ℕ → Bool) → List ReplicationTarget → List ReplicationTarget
list_enabled is_active targets =
    reverse (keep (λ (t : ReplicationTarget). t.enabled && is_active t.client_id) targets)

-- The `try` and the `catch` around a phase, with the messages that the phases before it left.
abbrev pub isolated :
    {S : Type 0}
    → String
    → List String
    → Result String PhaseSummary × S
    → PhaseSummary × List String × S
isolated name errors (ok summary, s) = (summary, errors, s)
isolated name errors (err message, s) =
    (empty_summary, errors ++ (name <> " phase: " <> message) ∷ [], s)
