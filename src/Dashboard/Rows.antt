-- ===== src/Dashboard/Rows.antt =====
-- What a row of the dashboard tells of a database task.
use arkode.Prelude.{
  ℕ, ◌≤◌, ◌<◌, ◌≡◌, refl, ap, Bool, true, ◌&&◌, List, ◌∷◌, some, arith, ◌==◌, keep, head?, is_some,
  All, All-keep_of,
}
use Prim.Native.String.{String}
use arkode.Tables.Newest.{newest_first, All-newest_first, insert_newest-top}
use arkode.Types.{BackupTask, BackupRun, failed}
use arkode.Schedule.TimeText.{matches_time_format}
use arkode.Schedule.IsDue.{is_task_due}
use arkode.Schedule.Due.{next_misses_nothing}
use arkode.Runs.{
  Runs, start_of, get_latest_by_task, get_latest_with_file_by_task, get_latest_scheduled_by_task,
}
use arkode.Dashboard.{db_row}

-- The next run that a row shows, for a task whose time is in the accepted format, is after `now`,
-- and while the table stays as it is, the scheduler finds the task due at no moment in between,
-- unless it is due at `now` already.
pub db_row-next :
    (task : BackupTask) (runs : Runs) (now d : ℕ) (text : List ℕ)
    → task.schedule_time ≡ some text
    → matches_time_format text ≡ true
    → (db_row now runs task).next_run_at ≡ some d
    → (now < d)
      × ((u : ℕ)
          → now < u
          → u < d
          → is_task_due task u (get_latest_scheduled_by_task task.id runs) ≡ true
          → is_task_due task now (get_latest_scheduled_by_task task.id runs) ≡ true)
unfolding db_row
db_row-next task runs now d text timed format next =
    next_misses_nothing task now d (get_latest_scheduled_by_task task.id runs) text timed format
      next

top_of_kept :
    (test : BackupRun → Bool) (r : BackupRun) (rest : Runs)
    → test r ≡ true
    → All (λ (x : BackupRun). x.started_at ≤ r.started_at) rest
    → head? (newest_first start_of (keep test (r ∷ rest))) ≡ some r
unfolding newest_first
top_of_kept test r rest hit older = rw hit (
    insert_newest-top start_of r (newest_first start_of (keep test rest)) (
      All-newest_first start_of (λ (x : BackupRun). x.started_at ≤ r.started_at) (keep test rest)
        (All-keep_of (λ (x : BackupRun). x.started_at ≤ r.started_at) test rest older)))

-- A run whose validation failed keeps its file, so that the row shows it as the last good backup:
-- with no run started later, the row's status is Failed, and its size, its checksum and the time
-- of its last good backup are those of the failed run.
pub failed_run-shown_good :
    (task : BackupTask) (now : ℕ) (r : BackupRun) (rest : Runs) (path : String)
    → r.task_id ≡ task.id
    → r.status ≡ failed
    → r.local_path ≡ some path
    → All (λ (x : BackupRun). x.started_at ≤ r.started_at) rest
    → ((db_row now (r ∷ rest) task).status ≡ some failed)
      × ((db_row now (r ∷ rest) task).last_good_backup_at ≡ r.downloaded_at)
      × ((db_row now (r ∷ rest) task).size_bytes ≡ r.size_bytes)
      × ((db_row now (r ∷ rest) task).checksum_sha256 ≡ r.checksum_sha256)
unfolding db_row get_latest_by_task get_latest_with_file_by_task
failed_run-shown_good task now r rest path own status stored older =
    let latest : head? (newest_first start_of (keep (λ x. x.task_id == task.id) (r ∷ rest)))
        ≡ some r =
      top_of_kept (λ x. x.task_id == task.id) r rest (ground arith) older in
    let good : head? (
          newest_first start_of
            (keep (λ x. x.task_id == task.id && is_some x.local_path) (r ∷ rest)))
        ≡ some r =
      top_of_kept (λ x. x.task_id == task.id && is_some x.local_path) r rest (ground arith) older in
    (rw latest (ap some status), rw good refl, rw good refl, rw good refl)
