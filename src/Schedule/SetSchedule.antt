-- ===== src/Schedule/SetSchedule.antt =====
-- `setSchedule` of db/repositories/tasksRepo.ts, over the table of tasks.
use arkode.Prelude.{
  ℕ, Bool, ◌&&◌, List, [], ◌∷◌, map, Option, none, some, leb, or_default, if◌then◌else◌,
}
use arkode.Prelude.Results.{Result, ok, err, ◌>>=◌, ◌>>◌, ensure, or_throw}
use arkode.Types.{BackupTask, ScheduleFrequency, daily, weekly, monthly}
use arkode.Tables.{update_where, get_where}
use arkode.Schedule.TimeText.{matches_time_format}

-- A JavaScript number: an integer from 0 up, or any other (negative, fractional, NaN).
pub data Number : Type 0 where
  nat : ℕ → Number
  other : Number

-- `undefined` is the outer `none`, and `null` is `some none`.
pub record SetScheduleInput : Type 0 where
  pub schedule_time : Option (List ℕ)
  pub schedule_enabled : Bool
  pub schedule_frequency : Option ScheduleFrequency
  pub schedule_days_of_week : Option (Option (List Number))
  pub schedule_day_of_month : Option (Option Number)

pub data ScheduleError : Type 0 where
  invalid_schedule_time task_not_found weekly_without_days bad_day_of_week : ScheduleError
  bad_day_of_month : ScheduleError

abbrev pub is_valid_time : Option (List ℕ) → Bool
is_valid_time none = Bool.true
is_valid_time (some text) = matches_time_format text

-- The days as integers from 0 to 6; one that is none of those is refused.
unfoldable pub check_days : List Number → Result ScheduleError (List ℕ)
check_days [] = ok []
check_days (other ∷ days) = err bad_day_of_week
check_days (nat d ∷ days) =
    let rest = check_days days in
    if leb d 6 then (do checked ← rest; ok (d ∷ checked)) else err bad_day_of_week

unfoldable pub weekly_days : Option (List Number) → Result ScheduleError (List ℕ)
unfolding check_days
weekly_days none = err weekly_without_days
weekly_days (some []) = err weekly_without_days
weekly_days (some (d ∷ days)) = check_days (d ∷ days)

unfoldable pub monthly_day : Option Number → Result ScheduleError ℕ
monthly_day none = err bad_day_of_month
monthly_day (some other) = err bad_day_of_month
monthly_day (some (nat day)) = if leb 1 day && leb day 31 then ok day else err bad_day_of_month

-- The columns as the stored row has them, as numbers again.
abbrev pub stored_days : Option (List ℕ) → Option (List Number)
stored_days none = none
stored_days (some days) = some (map nat days)

abbrev pub stored_day : Option ℕ → Option Number
stored_day none = none
stored_day (some day) = some (nat day)

-- `daysOfWeek` and `dayOfMonth`: each is null unless the frequency uses it.
unfoldable pub choose_days :
    ScheduleFrequency
    → SetScheduleInput
    → BackupTask
    → Result ScheduleError (Option (List ℕ) × Option ℕ)
unfolding weekly_days monthly_day
choose_days daily input existing = ok (none, none)
choose_days weekly input existing = do
  days ←
      weekly_days
        (or_default input.schedule_days_of_week (stored_days existing.schedule_days_of_week))
  ok (some days, none)
choose_days monthly input existing = do
  day ←
      monthly_day
        (or_default input.schedule_day_of_month (stored_day existing.schedule_day_of_month))
  ok (none, some day)

abbrev pub task_key : BackupTask → ℕ
task_key t = t.id

-- The UPDATE statement.
abbrev pub update_row : BackupTask → List BackupTask → List BackupTask
update_row row tasks = update_where task_key row.id (λ t. row) tasks

-- The row that the UPDATE writes.
unfoldable pub planned_row : BackupTask → SetScheduleInput → Result ScheduleError BackupTask
unfolding choose_days
planned_row existing input = do
  let frequency = or_default input.schedule_frequency existing.schedule_frequency
  chosen ← choose_days frequency input existing
  ok (record existing {
    schedule_time = input.schedule_time;
    schedule_enabled = input.schedule_enabled;
    schedule_frequency = frequency;
    schedule_days_of_week = chosen.0;
    schedule_day_of_month = chosen.1;
  })

unfoldable pub set_schedule :
    List BackupTask → ℕ → SetScheduleInput → Result ScheduleError (List BackupTask × BackupTask)
unfolding update_where get_where planned_row
set_schedule tasks task_id input = do
  ensure (is_valid_time input.schedule_time) invalid_schedule_time
  existing ← or_throw (get_where task_key task_id tasks) task_not_found
  row ← planned_row existing input
  ok (update_row row tasks, row)
