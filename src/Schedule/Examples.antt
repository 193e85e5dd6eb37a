-- ===== src/Schedule/Examples.antt =====
-- The schedule theorems at concrete tasks and moments, and some runs.
use arkode.Prelude.{ℕ, ◌+◌, ◌*◌, ◌<◌, ◌≡◌, refl, true, false, [], ◌∷◌, none, some}
use arkode.Types.{monthly}
use arkode.Calendar.{civil, days_in_month, next_day, get_date, last_day_of_month}
use arkode.Schedule.TimeText.{hours_minutes, matches_time_format}
use arkode.Schedule.IsDue.{
  is_task_due, is_file_backup_task_due, is_same_local_date, matches_day_of_month,
}
use arkode.Schedule.Next.{shape_of, next_scheduled_run_at, walk}
use arkode.Schedule.SetSchedule.{nat, SetScheduleInput, set_schedule}
use arkode.Schedule.Due.{next-is_task_due, next_misses_nothing}
use arkode.Schedule.Planned.{set_schedule-next}
use arkode.Samples.{nightly, month_end, half_past_two, stored_run, noon_of}

program : Unit {0}
unfolding civil days_in_month next_day get_date last_day_of_month hours_minutes matches_time_format
    is_task_due is_file_backup_task_due is_same_local_date matches_day_of_month
    next_scheduled_run_at walk set_schedule
program = tt

-- 2000-02-29 is day 11016.
leap_day : civil 11016 ≡ record { year = 2000; month = 1; date = 29 }
unfolding program
leap_day = refl

-- On the 31st, from the first of February 1970: the 28th at half past two.
month_end-next :
    next_scheduled_run_at (shape_of month_end) (noon_of 31) false ≡ some (58 * 86400000 + 9000000)
unfolding program
month_end-next = refl

nightly-next :
    next_scheduled_run_at (shape_of nightly) (noon_of 5) false ≡ some (6 * 86400000 + 9000000)
unfolding program
nightly-next = refl

next-is_task_due_example :
    is_task_due month_end (58 * 86400000 + 9000000) (some (stored_run 1 (noon_of 57))) ≡ true
unfolding program
next-is_task_due_example =
    next-is_task_due month_end (noon_of 31) (58 * 86400000 + 9000000) false
      (some (stored_run 1 (noon_of 57))) half_past_two refl refl refl refl refl

next_misses_nothing_example :
    (noon_of 5 < 6 * 86400000 + 9000000)
    × ((u : ℕ)
        → noon_of 5 < u
        → u < 6 * 86400000 + 9000000
        → is_task_due nightly u none ≡ true
        → is_task_due nightly (noon_of 5) none ≡ true)
unfolding program
next_misses_nothing_example =
    next_misses_nothing nightly (noon_of 5) (6 * 86400000 + 9000000) none half_past_two refl refl
      refl

abbrev on_the_31st : SetScheduleInput
on_the_31st = record {
  schedule_time = some half_past_two;
  schedule_enabled = true;
  schedule_frequency = some monthly;
  schedule_days_of_week = none;
  schedule_day_of_month = some (some (nat 31));
}

set_schedule-next_example :
    (d : ℕ) × (next_scheduled_run_at (shape_of month_end) (noon_of 31) false ≡ some d)
unfolding program
set_schedule-next_example =
    set_schedule-next (nightly ∷ []) (month_end ∷ []) 7 on_the_31st month_end half_past_two refl
      refl refl (noon_of 31) false
