-- ===== src/Schedule/Written.antt =====
-- What a call of `setSchedule` that succeeds has written.
use arkode.Prelude.{ℕ, ◌≡◌, true, List, Option, some, or_default}
use arkode.Prelude.Results.{
  ok, ensure, ensure-passed, or_throw, or_throw-eq-ok, then_bound, then_done,
}
use arkode.Types.{BackupTask}
use arkode.Tables.{get_where}
use arkode.Schedule.SetSchedule.{
  SetScheduleInput, choose_days, planned_row, set_schedule, update_row, task_key, task_not_found,
  is_valid_time, invalid_schedule_time,
}

abbrev pub with_days : SetScheduleInput → BackupTask → Option (List ℕ) × Option ℕ → BackupTask
with_days input existing chosen = record existing {
  schedule_time = input.schedule_time;
  schedule_enabled = input.schedule_enabled;
  schedule_frequency = or_default input.schedule_frequency existing.schedule_frequency;
  schedule_days_of_week = chosen.0;
  schedule_day_of_month = chosen.1;
}

pub planned_row-with_days :
    (existing : BackupTask) (input : SetScheduleInput) {row : BackupTask}
    → planned_row existing input ≡ ok row
    → (chosen : Option (List ℕ) × Option ℕ) × (choose_days
          (or_default input.schedule_frequency existing.schedule_frequency)
          input
          existing
        ≡ ok chosen)
      × (with_days input existing chosen ≡ row)
unfolding planned_row
planned_row-with_days existing input {row} h =
    then_bound
      (choose_days (or_default input.schedule_frequency existing.schedule_frequency) input existing)
      h (λ chosen found e. (chosen, found, cc))

pub set_schedule-written :
    (tasks : List BackupTask) (id : ℕ) (input : SetScheduleInput) {tasks' : List BackupTask}
    {row : BackupTask}
    → set_schedule tasks id input ≡ ok (tasks', row)
    → (is_valid_time input.schedule_time ≡ true)
      × (existing : BackupTask) × (get_where task_key id tasks ≡ some existing)
      × (planned_row existing input ≡ ok row)
      × (update_row row tasks ≡ tasks')
unfolding set_schedule
set_schedule-written tasks id input h =
    then_done (ensure (is_valid_time input.schedule_time) invalid_schedule_time) h (λ valid h1.
      then_bound (or_throw (get_where task_key id tasks) task_not_found) h1 (λ existing found h2.
        then_bound (planned_row existing input) h2 (λ row' planned e.
          (ensure-passed _ _ valid, existing, or_throw-eq-ok _ _ found, cc, cc))))
