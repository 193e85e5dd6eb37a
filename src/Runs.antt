-- ===== src/Runs.antt =====
-- packages/engine-core/src/db/repositories/runsRepo.ts: the table backup_runs. A table is the list
-- of its rows, the row inserted last first, so that its order is that of `rowid DESC`.
pub mod Pages
mod Examples
use Prim.Native.String.{String}
use arkode.Prelude.{
  ℕ, Bool, true, false, ◌&&◌, List, [], ◌∷◌, ◌++◌, Option, none, some, ◌==◌, or_default, is_some,
  length, take, drop, keep, head?, if◌then◌else◌,
}
use arkode.Tables.{update_where, get_where}
use arkode.Tables.Newest.{newest_first}
use arkode.Types.{
  BackupStrategyKind, BackupRunStatus, pending, running, producing, validating, success, warning,
  RunTrigger, manual, scheduled, BackupRun,
}

abbrev pub Runs : Type 0
Runs = List BackupRun

pub record CreateRunInput : Type 0 where
  pub task_id : ℕ
  pub client_id : ℕ
  pub strategy : BackupStrategyKind
  pub transport_id : Option ℕ
  pub database_connection_id : Option ℕ
  pub pid : ℕ
  pub trigger : Option RunTrigger

pub record Produced : Type 0 where
  pub file_name : String
  pub size_bytes : ℕ
  pub source_modified_at : Option ℕ
  pub checksum_sha256 : String
  pub local_path : String

abbrev pub is_running : BackupRunStatus → Bool
is_running running = true
is_running producing = true
is_running validating = true
is_running _ = false

abbrev pub is_success : BackupRunStatus → Bool
is_success success = true
is_success _ = false

abbrev pub is_success_or_warning : BackupRunStatus → Bool
is_success_or_warning success = true
is_success_or_warning warning = true
is_success_or_warning _ = false

abbrev pub is_scheduled : RunTrigger → Bool
is_scheduled scheduled = true
is_scheduled manual = false

abbrev pub run_id : BackupRun → ℕ
run_id r = r.id

abbrev pub set_status : BackupRunStatus → BackupRun → BackupRun
set_status s r = record r { status = s }

-- The new row's id and its start are given: `randomUUID()` and the clock of SQLite.
abbrev pub new_row : ℕ → ℕ → CreateRunInput → BackupRun
new_row id now input = record {
  id = id;
  task_id = input.task_id;
  client_id = input.client_id;
  strategy = input.strategy;
  trigger = or_default input.trigger manual;
  transport_id = input.transport_id;
  database_connection_id = input.database_connection_id;
  status = pending;
  remote_file_name = none;
  remote_modified_at = none;
  started_at = now;
  finished_at = none;
  downloaded_at = none;
  local_path = none;
  size_bytes = none;
  checksum_sha256 = none;
  error_message = none;
  error_stack = none;
  pid = some input.pid;
  progress = none;
}

unfoldable pub create : ℕ → ℕ → CreateRunInput → Runs → Runs
unfolding update_where
create id now input runs = update_where run_id id (set_status running) (new_row id now input ∷ runs)

unfoldable pub mark_producing : ℕ → Runs → Runs
unfolding update_where
mark_producing id runs = update_where run_id id (set_status producing) runs

-- The progress is JSON text, or NULL.
unfoldable pub update_progress : ℕ → Option String → Runs → Runs
unfolding update_where
update_progress id progress runs =
    update_where run_id id (λ r. record r { progress = progress }) runs

abbrev pub validating_row : ℕ → Produced → BackupRun → BackupRun
validating_row now produced r = record r {
  status = validating;
  remote_file_name = some produced.file_name;
  size_bytes = some produced.size_bytes;
  remote_modified_at = produced.source_modified_at;
  checksum_sha256 = some produced.checksum_sha256;
  local_path = some produced.local_path;
  downloaded_at = some now;
}

unfoldable pub mark_validating : ℕ → ℕ → Produced → Runs → Runs
unfolding update_where
mark_validating id now produced runs = update_where run_id id (validating_row now produced) runs

abbrev pub finished_row :
    ℕ → BackupRunStatus → Option String → Option String → BackupRun → BackupRun
finished_row now s message stack r = record r {
  status = s;
  error_message = message;
  error_stack = stack;
  finished_at = some now;
}

unfoldable pub mark_finished : ℕ → ℕ → BackupRunStatus → Option String → Option String → Runs → Runs
unfolding update_where
mark_finished id now s message stack runs =
    update_where run_id id (finished_row now s message stack) runs

unfoldable pub get_by_id : ℕ → Runs → Option BackupRun
unfolding get_where
get_by_id id runs = get_where run_id id runs

-- `ORDER BY started_at DESC, rowid DESC`.
abbrev pub start_of : BackupRun → ℕ
start_of r = r.started_at

abbrev pub select : (BackupRun → Bool) → Runs → Runs
select test runs = newest_first start_of (keep test runs)

unfoldable pub get_latest_by_task : ℕ → Runs → Option BackupRun
unfolding newest_first
get_latest_by_task task_id runs = head? (select (λ r. r.task_id == task_id) runs)

unfoldable pub get_latest_with_file_by_task : ℕ → Runs → Option BackupRun
unfolding newest_first
get_latest_with_file_by_task task_id runs =
    head? (select (λ r. r.task_id == task_id && is_some r.local_path) runs)

unfoldable pub get_latest_scheduled_by_task : ℕ → Runs → Option BackupRun
unfolding newest_first
get_latest_scheduled_by_task task_id runs =
    head? (select (λ r. r.task_id == task_id && is_scheduled r.trigger) runs)

unfoldable pub list_successful_runs : ℕ → Runs → Runs
unfolding newest_first
list_successful_runs task_id runs =
    select (λ r. r.task_id == task_id && is_success r.status && is_some r.local_path) runs

unfoldable pub list_in_progress : ℕ → Runs → Runs
list_in_progress task_id runs = keep (λ r. r.task_id == task_id && is_running r.status) runs

-- `listInProgress()` without a task.
unfoldable pub list_all_in_progress : Runs → Runs
list_all_in_progress runs = keep (λ r. is_running r.status) runs

-- `@x IS NULL OR column = @x`.
abbrev pub matches_filter : Option ℕ → ℕ → Bool
matches_filter none column = true
matches_filter (some x) column = column == x

unfoldable pub list_recent : Option ℕ → Option ℕ → Option ℕ → Runs → Runs
unfolding newest_first
list_recent task_id client_id limit runs =
    take (or_default limit 200)
      (select (λ r. matches_filter task_id r.task_id && matches_filter client_id r.client_id) runs)

pub record FileSignature : Type 0 where
  pub remote_file_name : String
  pub size_bytes : Option ℕ

-- `remote_file_name IS NOT NULL`.
abbrev pub signature_of : BackupRun → List FileSignature
signature_of r = elim r.remote_file_name [
  | none ↦ []
  | some name ↦ record { remote_file_name = name; size_bytes = r.size_bytes } ∷ []
]

unfoldable pub list_successful_file_signatures : ℕ → Runs → List FileSignature
list_successful_file_signatures task_id [] = []
list_successful_file_signatures task_id (r ∷ rs) =
    let rest = list_successful_file_signatures task_id rs in
    if r.task_id == task_id && is_success r.status then signature_of r ++ rest else rest

abbrev pub is_backup : Option ℕ → Option ℕ → BackupRun → Bool
is_backup client_id task_id r =
    matches_filter client_id r.client_id
    && matches_filter task_id r.task_id
    && is_success_or_warning r.status
    && is_some r.local_path

-- A page of backups and how many there are in all.
unfoldable pub list_backups : Option ℕ → Option ℕ → Option ℕ → Option ℕ → Runs → Runs × ℕ
unfolding newest_first
list_backups client_id task_id limit offset runs = (
  take (or_default limit 50)
      (drop (or_default offset 0) (select (is_backup client_id task_id) runs)),
  length (keep (is_backup client_id task_id) runs),
)
