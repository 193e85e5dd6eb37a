-- ===== src/Retention.antt =====
-- packages/engine-core/src/retention/applyRetention.ts and deleteBackupRun.ts, with the repository
-- of db/repositories/retentionDeletionsRepo.ts. The clock and what `unlink` answers are arguments.
pub mod Plan
pub mod Bounds
pub mod Apply
mod Examples
use Prim.Native.String.{String}
use arkode.Prelude.{
  ℕ, ◌+◌, ◌-◌, ◌*◌, Bool, true, false, not, ◌&&◌, List, [], ◌∷◌, reverse, Option, none, some, ltb,
  leb, ◌==◌, or_else, or_default, length, take, keep, includes, is_some, if◌then◌else◌,
}
use arkode.Types.{BackupRun, BackupTask, Client}
use arkode.Runs.{Runs, list_successful_runs, get_by_id, is_running}
use arkode.Prelude.Results.{Result, ok, err, ◌>>=◌, ◌>>◌, ensure, or_throw}
use text.Mathlib.Text.{◌==◌ as str_eq}

pub record RetentionPolicy : Type 0 where
  pub count : Option ℕ
  pub days : Option ℕ

unfoldable pub resolve_retention_policy : Client → BackupTask → RetentionPolicy
resolve_retention_policy client task = record {
  count = or_else task.retention_count client.retention_count;
  days = or_else task.retention_days client.retention_days;
}

pub data Reason : Type 0 where
  retention_count_and_days_exceeded retention_count_exceeded : Reason
  retention_days_exceeded manual_delete : Reason

pub record Candidate : Type 0 where
  pub run : BackupRun
  pub reason : Reason

-- `rank >= policy.count`.
abbrev pub violates_count : Option ℕ → ℕ → Bool
violates_count none rank = false
violates_count (some count) rank = leb count rank

-- `age < now - days * 24 * 60 * 60 * 1000`, without the difference.
abbrev pub violates_days : Option ℕ → ℕ → BackupRun → Bool
violates_days none now run = false
violates_days (some days) now run =
    ltb (or_default run.downloaded_at run.started_at + days * (24 * 60 * 60 * 1000)) now

-- `shouldDelete` and `reason` by which of the two policies are set.
abbrev pub judge : Option ℕ → Option ℕ → ℕ → ℕ → BackupRun → Bool × Reason
judge (some count) (some days) now rank run = (
  violates_count (some count) rank && violates_days (some days) now run,
  retention_count_and_days_exceeded,
)
judge (some count) none now rank run = (violates_count (some count) rank, retention_count_exceeded)
judge none days now rank run = (violates_days days now run, retention_days_exceeded)

module _ (policy : RetentionPolicy) (now : ℕ) where
  -- The `forEach` loop, from a rank on; the run of rank 0 is never a candidate.
  unfoldable pub candidates_from : ℕ → Runs → List Candidate
  candidates_from rank [] = []
  candidates_from rank (run ∷ older) =
      let rest = candidates_from (rank + 1) older in
      let (should_delete, reason) = judge policy.count policy.days now rank run in
      if rank == 0
      then rest
      else if should_delete
      then record { run = run; reason = reason } ∷ rest
      else rest

  -- Oldest first, and one fewer than there are runs at most.
  unfoldable pub to_delete : Runs → List Candidate
  unfolding candidates_from
  to_delete successful_runs =
      take (length successful_runs - 1) (reverse (candidates_from 0 successful_runs))

-- A row of retention_deletions, without its own id and time.
pub record RetentionDeletion : Type 0 where
  pub task_id : ℕ
  pub deleted_backup_run_id : ℕ
  pub triggered_by_run_id : Option ℕ
  pub local_path : String
  pub size_bytes : Option ℕ
  pub reason : Reason

pub data LogLine : Type 0 where
  failed_to_delete : String → String → LogLine
  deleted_old_backup : String → Reason → LogLine

-- What `unlink` answers: done, ENOENT, or another error with its message.
pub data Unlinked : Type 0 where
  removed no_entry : Unlinked
  refused : String → Unlinked

-- `W` is the state of the disk.
pub record RetentionState (W : Type 0) : Type 0 where
  pub deletions : List RetentionDeletion
  pub log : List LogLine
  pub disk : W

unfoldable pub list_deleted_run_ids : ℕ → List RetentionDeletion → List ℕ
list_deleted_run_ids task_id [] = []
list_deleted_run_ids task_id (d ∷ ds) =
    let rest = list_deleted_run_ids task_id ds in
    if d.task_id == task_id then d.deleted_backup_run_id ∷ rest else rest

-- `!run.localPath` is true of null and of the empty text.
abbrev pub real_path : Option String → Option String
real_path none = none
real_path (some path) = if str_eq path "" then none else some path

-- The runs that still have their backup: Success, with a file, and not recorded as deleted.
unfoldable pub kept_runs : ℕ → Runs → List RetentionDeletion → Runs
unfolding list_successful_runs list_deleted_run_ids
kept_runs task_id runs deletions =
    keep (λ r. not (includes (list_deleted_run_ids task_id deletions) r.id))
      (list_successful_runs task_id runs)

pub data DeleteError : Type 0 where
  run_not_found run_in_progress no_local_file : DeleteError
  unlink_failed : String → DeleteError

module _ {W : Type 0} (unlink : String → W → Unlinked × W) where
  module _ (task_id : ℕ) (triggered_by : Option ℕ) where
    abbrev pub deletion_of : BackupRun → String → Reason → RetentionDeletion
    deletion_of run path reason = record {
      task_id = task_id;
      deleted_backup_run_id = run.id;
      triggered_by_run_id = triggered_by;
      local_path = path;
      size_bytes = run.size_bytes;
      reason = reason;
    }

    abbrev pub record_deletion :
        Candidate → String → RetentionState W → Unlinked × W → RetentionState W
    record_deletion c path s (refused message, disk) = record s {
      log = failed_to_delete path message ∷ s.log;
      disk = disk;
    }
    record_deletion c path s (_, disk) = record {
      deletions = deletion_of c.run path c.reason ∷ s.deletions;
      log = deleted_old_backup path c.reason ∷ s.log;
      disk = disk;
    }

    unfoldable pub delete_candidate : Candidate → RetentionState W → RetentionState W
    delete_candidate c s = elim (real_path c.run.local_path) [
      | none ↦ s
      | some path ↦ record_deletion c path s (unlink path s.disk)
    ]

    unfoldable pub delete_all : List Candidate → RetentionState W → RetentionState W
    unfolding delete_candidate
    delete_all [] s = s
    delete_all (c ∷ cs) s = delete_all cs (delete_candidate c s)

  unfoldable pub apply_retention :
      BackupTask → RetentionPolicy → ℕ → Option ℕ → Runs → RetentionState W → RetentionState W
  unfolding kept_runs to_delete delete_all
  apply_retention task policy now triggered_by runs s =
      if not (is_some policy.count) && not (is_some policy.days)
      then s
      else let successful_runs = kept_runs task.id runs s.deletions in
        if leb (length successful_runs) 1
        then s
        else delete_all task.id triggered_by (to_delete policy now successful_runs) s

  abbrev pub record_manual :
      BackupRun → String → RetentionState W → Unlinked × W → Result DeleteError (RetentionState W)
  record_manual run path s (refused message, disk) = err (unlink_failed message)
  record_manual run path s (_, disk) = ok (record s {
    deletions = deletion_of run.task_id none run path manual_delete ∷ s.deletions;
    disk = disk;
  })

  unfoldable pub delete_backup_run :
      ℕ → Runs → RetentionState W → Result DeleteError (RetentionState W)
  unfolding get_by_id
  delete_backup_run run_id runs s = do
    run ← or_throw (get_by_id run_id runs) run_not_found
    ensure (not (is_running run.status)) run_in_progress
    path ← or_throw (real_path run.local_path) no_local_file
    record_manual run path s (unlink path s.disk)
