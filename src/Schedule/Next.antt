-- ===== src/Schedule/Next.antt =====
-- scheduler/nextOccurrence.ts: the next moment at which a schedule fires.
use arkode.Prelude.{
  ℕ, zero, suc, ◌+◌, Bool, true, false, not, ◌&&◌, ◌||◌, List, [], ◌∷◌, Option, none, some, leb,
  ◌==◌, includes, if◌then◌else◌,
}
use arkode.Types.{BackupTask, ScheduleFrequency, daily, weekly, monthly}
use arkode.Calendar.{get_day, at_time}
use arkode.Schedule.TimeText.{hours_minutes, is_set}
use arkode.Schedule.IsDue.{matches_day_of_month}

pub record ScheduleShape : Type 0 where
  pub schedule_enabled : Bool
  pub schedule_time : Option (List ℕ)
  pub schedule_frequency : ScheduleFrequency
  pub schedule_days_of_week : Option (List ℕ)
  pub schedule_day_of_month : Option ℕ

-- A task passed as a `ScheduleShape`.
abbrev pub shape_of : BackupTask → ScheduleShape
shape_of task = record {
  schedule_enabled = task.schedule_enabled;
  schedule_time = task.schedule_time;
  schedule_frequency = task.schedule_frequency;
  schedule_days_of_week = task.schedule_days_of_week;
  schedule_day_of_month = task.schedule_day_of_month;
}

abbrev pub matches_frequency : ScheduleFrequency → Option (List ℕ) → Option ℕ → ℕ → Bool
matches_frequency weekly none day d = false
matches_frequency weekly (some days) day d = includes days (get_day d)
matches_frequency monthly days none d = false
matches_frequency monthly days (some day) d = matches_day_of_month day d
matches_frequency daily days day d = true

abbrev pub day_matches_frequency : ScheduleShape → ℕ → Bool
day_matches_frequency s d =
    matches_frequency s.schedule_frequency s.schedule_days_of_week s.schedule_day_of_month d

-- The two early returns on a frequency that names no day.
abbrev pub names_no_day : ScheduleFrequency → Option (List ℕ) → Option ℕ → Bool
names_no_day weekly none day = true
names_no_day weekly (some []) day = true
names_no_day weekly (some (_ ∷ _)) day = false
names_no_day monthly days none = true
names_no_day monthly days (some _) = false
names_no_day daily days day = false

module _ (s : ScheduleShape) (now : ℕ) (already_ran_today : Bool) (hours minutes : ℕ) where
  -- The `for` loop, by recursion on the rounds left.
  unfoldable pub walk : ℕ → ℕ → Option ℕ
  walk zero offset = none
  walk (suc rounds) offset =
      let day = at_time now offset hours minutes in
      let rest = walk rounds (offset + 1) in
      if not (day_matches_frequency s day)
      then rest
      else if offset == 0 && (already_ran_today || leb day now)
      then rest
      else some day

abbrev pub max_days : ℕ
max_days = 400

abbrev pub walk_from_today : ScheduleShape → ℕ → Bool → Option ℕ × Option ℕ → Option ℕ
walk_from_today s now ran (some hours, some minutes) =
    if names_no_day s.schedule_frequency s.schedule_days_of_week s.schedule_day_of_month
    then none
    else walk s now ran hours minutes max_days 0
walk_from_today s now ran (some _, none) = none
walk_from_today s now ran (none, _) = none

unfoldable pub next_scheduled_run_at : ScheduleShape → ℕ → Bool → Option ℕ
next_scheduled_run_at s now already_ran_today =
    if not s.schedule_enabled then none else elim (is_set s.schedule_time) [
      | none ↦ none
      | some time ↦ walk_from_today s now already_ran_today (hours_minutes time)
    ]
