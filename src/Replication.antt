-- ===== src/Replication.antt =====
-- packages/engine-core/src/replication/replicationDue.ts: when a copy to a remote is due. A time
-- that does not parse is left out: the column holds what the engine wrote.
pub mod Due
pub mod Target
pub mod Pass
pub mod Idle
mod Examples
use Prim.Native.String.{String}
use arkode.Prelude.{
  ℕ, ◌+◌, ◌*◌, Bool, true, false, not, List, [], ◌∷◌, Option, none, some, ltb, leb, keep, is_some,
  if◌then◌else◌,
}
use arkode.Types.{BackupRunStatus, success, warning}
use arkode.Runs
use arkode.Runs.{Runs, list_recent, is_success_or_warning}
use arkode.FileRuns.{FileRuns, list_recent_file_runs}

pub data ReplicationContent : Type 0 where
  restic_repo db_dumps : ReplicationContent

pub data ReplicationLastStatus : Type 0 where
  last_success last_warning last_failed : ReplicationLastStatus

pub record ReplicationTarget : Type 0 where
  pub id : ℕ
  pub client_id : ℕ
  pub content : ReplicationContent
  pub encrypt_with_crypt : Bool
  pub crypt_password_secret_ref : Option String
  pub enabled : Bool
  pub last_replicated_at : Option ℕ
  pub last_status : Option ReplicationLastStatus
  pub last_error : Option String

abbrev pub default_min_interval_ms : ℕ
default_min_interval_ms = 5 * 60 * 1000

-- `(r.status === 'Success' || r.status === 'Warning') && r.finishedAt`, and the finish.
abbrev pub good_finish : BackupRunStatus → Option ℕ → Option ℕ
good_finish status none = none
good_finish status (some at) = if is_success_or_warning status then some at else none

-- The loop over the rows, on each row's status and finish: the first finish that counts.
abbrev pub first_good : List (BackupRunStatus × Option ℕ) → Option ℕ
first_good [] = none
first_good ((status, finish) ∷ rows) = elim (good_finish status finish) [
  | some at ↦ some at
  | none ↦ first_good rows
]

abbrev pub outcomes_of : Runs → List (BackupRunStatus × Option ℕ)
outcomes_of [] = []
outcomes_of (r ∷ rs) = (r.status, r.finished_at) ∷ outcomes_of rs

abbrev pub file_outcomes_of : FileRuns → List (BackupRunStatus × Option ℕ)
file_outcomes_of [] = []
file_outcomes_of (r ∷ rs) = (r.status, r.finished_at) ∷ file_outcomes_of rs

-- The rows that the target's content asks for.
unfoldable pub rows_for : ReplicationTarget → Runs → FileRuns → List (BackupRunStatus × Option ℕ)
unfolding list_recent list_recent_file_runs
rows_for target runs file_runs = by_content target.content
  where
    by_content : ReplicationContent → List (BackupRunStatus × Option ℕ)
    by_content restic_repo =
        file_outcomes_of (list_recent_file_runs none (some target.client_id) (some 50) file_runs)
    by_content db_dumps = outcomes_of (list_recent none (some target.client_id) (some 50) runs)

unfoldable pub latest_successful_backup_at : ReplicationTarget → Runs → FileRuns → Option ℕ
unfolding rows_for
latest_successful_backup_at target runs file_runs = first_good (rows_for target runs file_runs)

abbrev pub is_last_failed : Option ReplicationLastStatus → Bool
is_last_failed (some last_failed) = true
is_last_failed _ = false

-- `sinceLast >= minInterval`, as a sum.
abbrev pub is_past_interval : ℕ → ℕ → ℕ → Bool
is_past_interval now interval last = leb (last + interval) now

abbrev pub is_backup_newer : Option ℕ → ℕ → Bool
is_backup_newer none last = false
is_backup_newer (some at) last = ltb last at

unfoldable pub is_replication_due : ℕ → ℕ → ReplicationTarget → Runs → FileRuns → Bool
unfolding latest_successful_backup_at
is_replication_due now interval target runs file_runs =
    if not target.enabled then false else elim target.last_replicated_at [
      | none ↦ true
      | some last ↦
          if is_last_failed target.last_status
          then is_past_interval now interval last
          else if is_backup_newer (latest_successful_backup_at target runs file_runs) last
          then is_past_interval now interval last
          else false
    ]

unfoldable pub list_due_replications :
    ℕ → ℕ → List ReplicationTarget → Runs → FileRuns → List ReplicationTarget
unfolding is_replication_due
list_due_replications now interval targets runs file_runs =
    keep (λ t. is_replication_due now interval t runs file_runs) targets
