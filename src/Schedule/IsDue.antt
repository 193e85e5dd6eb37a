-- ===== src/Schedule/IsDue.antt =====
-- scheduler/isTaskDue.ts and its hand-made copy fileBackup/scheduler/isFileBackupTaskDue.ts.
use arkode.Prelude.{
  ℕ, Bool, true, false, not, ◌&&◌, ◌||◌, List, Option, none, some, leb, ◌==◌, includes, min,
  if◌then◌else◌,
}
use arkode.Types.{BackupTask, BackupRun, ScheduleFrequency, daily, weekly, monthly}
use arkode.FileTypes.{FileBackupTask, FileBackupRun}
use arkode.Calendar.{Civil, civil, day_of, get_date, get_day, last_day_of_month, at_time}
use arkode.Schedule.TimeText.{hours_minutes, is_set}

unfoldable pub is_same_civil : Civil → Civil → Bool
is_same_civil a b = a.year == b.year && a.month == b.month && a.date == b.date

unfoldable pub is_same_local_date : ℕ → ℕ → Bool
unfolding is_same_civil
is_same_local_date a b = is_same_civil (civil (day_of a)) (civil (day_of b))

unfoldable pub matches_day_of_month : ℕ → ℕ → Bool
matches_day_of_month day now = get_date now == min day (last_day_of_month now)

-- The frequency test: true where the source returns false.
abbrev pub is_wrong_day : ScheduleFrequency → Option (List ℕ) → Option ℕ → ℕ → Bool
is_wrong_day daily days day now = false
is_wrong_day weekly none day now = true
is_wrong_day weekly (some days) day now = not (includes days (get_day now))
is_wrong_day monthly days none now = true
is_wrong_day monthly days (some day) now = not (matches_day_of_month day now)

-- `now.getTime() >= scheduledToday.getTime()`, which NaN fails.
abbrev pub is_time_reached : Option ℕ × Option ℕ → ℕ → Bool
is_time_reached (some hours, some minutes) now = leb (at_time now 0 hours minutes) now
is_time_reached (some _, none) now = false
is_time_reached (none, _) now = false

abbrev pub started_today : Option BackupRun → ℕ → Bool
started_today none now = false
started_today (some run) now = is_same_local_date run.started_at now

unfoldable pub is_task_due : BackupTask → ℕ → Option BackupRun → Bool
is_task_due task now latest_scheduled_run =
    if not task.is_active || not task.schedule_enabled
    then false
    else elim (is_set task.schedule_time) [
      | none ↦ false
      | some time ↦
          if started_today latest_scheduled_run now
          then false
          else if is_wrong_day task.schedule_frequency task.schedule_days_of_week
              task.schedule_day_of_month now
          then false
          else is_time_reached (hours_minutes time) now
    ]

abbrev pub file_started_today : Option FileBackupRun → ℕ → Bool
file_started_today none now = false
file_started_today (some run) now = is_same_local_date run.started_at now

unfoldable pub is_file_backup_task_due : FileBackupTask → ℕ → Option FileBackupRun → Bool
is_file_backup_task_due task now latest_run =
    if not task.is_active || not task.schedule_enabled
    then false
    else elim (is_set task.schedule_time) [
      | none ↦ false
      | some time ↦
          if file_started_today latest_run now
          then false
          else if is_wrong_day task.schedule_frequency task.schedule_days_of_week
              task.schedule_day_of_month now
          then false
          else is_time_reached (hours_minutes time) now
    ]
