-- ===== src/Schedule/Twins.antt =====
-- The two hand-made copies of the due test.
use arkode.Prelude.{ℕ, ◌≡◌, refl, Option, none, some, arith}
use arkode.Types.{BackupTask, BackupRun}
use arkode.FileTypes.{FileBackupTask, FileBackupRun}
use arkode.Schedule.IsDue.{is_task_due, is_file_backup_task_due}

-- The schedule fields and the active flag of a database task, on a file task.
abbrev pub with_schedule_of : BackupTask → FileBackupTask → FileBackupTask
with_schedule_of task file_task = record file_task {
  schedule_time = task.schedule_time;
  schedule_enabled = task.schedule_enabled;
  schedule_frequency = task.schedule_frequency;
  schedule_days_of_week = task.schedule_days_of_week;
  schedule_day_of_month = task.schedule_day_of_month;
  is_active = task.is_active;
}

abbrev pub SameStart : Option BackupRun → Option FileBackupRun → Type 0
SameStart none none = Unit {0}
SameStart (some run) (some file_run) = run.started_at ≡ file_run.started_at
SameStart _ _ = ⊥

-- On the same schedule, and with latest runs that started at the same moment (or none on either
-- side), `isFileBackupTaskDue` and `isTaskDue` decide alike at every moment.
pub file_due-eq-due :
    (task : BackupTask) (file_task : FileBackupTask) (now : ℕ) (run : Option BackupRun)
    (file_run : Option FileBackupRun)
    → SameStart run file_run
    → is_file_backup_task_due (with_schedule_of task file_task) now file_run
      ≡ is_task_due task now run
unfolding is_task_due is_file_backup_task_due
file_due-eq-due task file_task now none none same = refl
file_due-eq-due task file_task now (some run) (some file_run) same = ground arith
file_due-eq-due task file_task now none (some file_run) same = absurd same
file_due-eq-due task file_task now (some run) none same = absurd same
