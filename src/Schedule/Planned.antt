-- ===== src/Schedule/Planned.antt =====
-- What `setSchedule` accepts, `nextScheduledRunAt` can always place.
use arkode.Prelude.{
  ℕ, ◌+◌, ◌-◌, ◌%◌, ◌≤◌, ◌<◌, ◌≡◌, refl, ◌∙◌, subst, inl, inr, Bool, true, false, List, [], ◌∷◌,
  Option, none, some, arith, leb, or_default, Bool-cases,
}
use arkode.Prelude.Results.{ok, >>=-eq-ok}
use native.Mathlib.Decide.{dec_lt}
use arkode.Types.{BackupTask, ScheduleFrequency, daily, weekly, monthly}
use arkode.Calendar.{day_of, get_date, last_day_of_month, at_time}
use arkode.Schedule.IsDue.{matches_day_of_month}
use arkode.Schedule.Next.{
  ScheduleShape, shape_of, matches_frequency, day_matches_frequency, names_no_day,
  next_scheduled_run_at,
}
use arkode.Schedule.SetSchedule.{
  Number, nat, other, SetScheduleInput, check_days, weekly_days, monthly_day, choose_days,
  planned_row, set_schedule, stored_days, stored_day,
}
use arkode.Schedule.Written.{planned_row-with_days, set_schedule-written}
use arkode.Schedule.Days.{day_of_month_comes}
use arkode.Schedule.Search.{accepts, walk_finds}
use arkode.Schedule.Laws.{IsTime, matches_time_format-IsTime, day_of-at_time}

-- The frequency names a day that comes up.
abbrev NamesDay : ScheduleFrequency → Option (List ℕ) → Option ℕ → Type 0
NamesDay daily days day = Unit
NamesDay weekly days day = (x : ℕ) × (xs : List ℕ) × (days ≡ some (x ∷ xs)) × (x ≤ 6)
NamesDay monthly days day = (k : ℕ) × (day ≡ some k) × (1 ≤ k)

weekday_comes : (n x : ℕ) → x ≤ 6 → (k : ℕ) × (1 ≤ k) × (k ≤ 62) × ((n + k + 4) % 7 ≡ x)
weekday_comes n x h = elim (dec_lt ((n + 4) % 7) x) [
  | yes later ↦ (x - (n + 4) % 7, omega arith, omega arith, omega arith)
  | no earlier ↦ (x + 7 - (n + 4) % 7, omega arith, omega arith, omega arith)
]

module _ (now h m : ℕ) (h_lt : h < 24) (m_lt : m < 60) where
  abbrev Comes : ScheduleFrequency → Option (List ℕ) → Option ℕ → Type 0
  Comes f days day =
      (k : ℕ) × (1 ≤ k) × (k ≤ 62) × (matches_frequency f days day (at_time now k h m) ≡ true)

  weekly-Comes : (x : ℕ) (xs : List ℕ) → x ≤ 6 → Comes weekly (some (x ∷ xs)) none
  weekly-Comes x xs small =
      let (k, low, high, e) = weekday_comes (day_of now) x small in
      (k, low, high, ground (arith, day_of-at_time now k h m))

  monthly-Comes : (day : ℕ) → 1 ≤ day → Comes monthly none (some day)
  unfolding matches_day_of_month get_date last_day_of_month
  monthly-Comes day pos =
      let (k, low, high, e) = day_of_month_comes day (day_of now) pos in
      (k, low, high, rw (day_of-at_time now k h m h_lt m_lt) (ground arith))

  NamesDay-Comes :
      (f : ScheduleFrequency) (days : Option (List ℕ)) (day : Option ℕ)
      → NamesDay f days day
      → Comes f days day
  NamesDay-Comes daily days day _ = (1, omega arith, omega arith, refl)
  NamesDay-Comes weekly days day (x, xs, e, small) =
      let (k, low, high, hit) = weekly-Comes x xs small in (k, low, high, rw e hit)
  NamesDay-Comes monthly days day (x, e, pos) =
      let (k, low, high, hit) = monthly-Comes x pos in (k, low, high, rw e hit)

names_some_day :
    (f : ScheduleFrequency) (days : Option (List ℕ)) (day : Option ℕ)
    → NamesDay f days day
    → names_no_day f days day ≡ false
names_some_day daily days day _ = refl
names_some_day weekly days day (x, xs, e, small) = rw e
names_some_day monthly days day (x, e, pos) = rw e

accepts_later :
    (s : ScheduleShape) (now : ℕ) (ran : Bool) (h m k : ℕ)
    → 1 ≤ k
    → day_matches_frequency s (at_time now k h m) ≡ true
    → accepts s now ran h m k ≡ true
accepts_later s now ran h m k pos hit = ground arith

NamesDay-next :
    (s : ScheduleShape) (now : ℕ) (ran : Bool) {text : List ℕ}
    → s.schedule_enabled ≡ true
    → s.schedule_time ≡ some text
    → IsTime text
    → NamesDay s.schedule_frequency s.schedule_days_of_week s.schedule_day_of_month
    → (d : ℕ) × (next_scheduled_run_at s now ran ≡ some d)
unfolding next_scheduled_run_at
NamesDay-next s now ran on e t named =
    let (k, low, high, hit) =
      NamesDay-Comes now t.hours t.minutes t.hours_lt t.minutes_lt s.schedule_frequency
        s.schedule_days_of_week s.schedule_day_of_month named in
    let (d, found) =
      walk_finds s now ran t.hours t.minutes 400 0 k (omega arith) (omega arith)
        (accepts_later s now ran t.hours t.minutes k low hit) in
    (
      d,
      ground (
        arith,
        names_some_day s.schedule_frequency s.schedule_days_of_week s.schedule_day_of_month named,
      ),
    )

check_days-cons :
    (d : Number) (ds : List Number) {days : List ℕ}
    → check_days (d ∷ ds) ≡ ok days
    → (x : ℕ) × (xs : List ℕ) × (days ≡ x ∷ xs) × (x ≤ 6)
unfolding check_days
check_days-cons other ds h = cc
check_days-cons (nat d) ds {days} h = elim (Bool-cases (leb d 6)) [
  | inl small ↦
      let (xs, e, done) =
        >>=-eq-ok (check_days ds) (λ (checked : List ℕ). ok (d ∷ checked)) (rw small at h) in
      (d, xs, cc, ground arith)
  | inr large ↦ ground arith
]

weekly_days-cons :
    (o : Option (List Number)) {days : List ℕ}
    → weekly_days o ≡ ok days
    → (x : ℕ) × (xs : List ℕ) × (days ≡ x ∷ xs) × (x ≤ 6)
unfolding weekly_days
weekly_days-cons none h = cc
weekly_days-cons (some []) h = cc
weekly_days-cons (some (d ∷ ds)) h = check_days-cons d ds h

monthly_day-pos : (o : Option Number) {day : ℕ} → monthly_day o ≡ ok day → 1 ≤ day
unfolding monthly_day
monthly_day-pos none h = cc
monthly_day-pos (some other) h = cc
monthly_day-pos (some (nat d)) h = ground arith

choose_days-NamesDay :
    (f : ScheduleFrequency) (input : SetScheduleInput) (existing : BackupTask)
    (chosen : Option (List ℕ) × Option ℕ)
    → choose_days f input existing ≡ ok chosen
    → NamesDay f chosen.0 chosen.1
unfolding choose_days
choose_days-NamesDay daily input existing chosen h = tt
choose_days-NamesDay weekly input existing chosen h =
    let (days, found, e) =
      >>=-eq-ok
        (weekly_days
          (or_default input.schedule_days_of_week (stored_days existing.schedule_days_of_week)))
        (λ (days : List ℕ). ok (some days, none)) h in
    let (x, xs, split, small) =
      weekly_days-cons
        (or_default input.schedule_days_of_week (stored_days existing.schedule_days_of_week))
        found in
    (x, xs, ground arith, small)
choose_days-NamesDay monthly input existing chosen h =
    let (day, found, e) =
      >>=-eq-ok
        (monthly_day
          (or_default input.schedule_day_of_month (stored_day existing.schedule_day_of_month)))
        (λ (day : ℕ). ok (none, some day)) h in
    (
      day,
      ground arith,
      monthly_day-pos
          (or_default input.schedule_day_of_month (stored_day existing.schedule_day_of_month))
          found,
    )

record IsPlanned (input : SetScheduleInput) (row : BackupTask) : Type 0 where
  time : row.schedule_time ≡ input.schedule_time
  enabled : row.schedule_enabled ≡ input.schedule_enabled
  named : NamesDay row.schedule_frequency row.schedule_days_of_week row.schedule_day_of_month

planned_row-IsPlanned :
    (existing : BackupTask) (input : SetScheduleInput) {row : BackupTask}
    → planned_row existing input ≡ ok row
    → IsPlanned input row
planned_row-IsPlanned existing input {row} h =
    let (chosen, found, same) = planned_row-with_days existing input h in
    subst (IsPlanned input) same (record {
      time = refl;
      enabled = refl;
      named = choose_days-NamesDay _ input existing chosen found;
    })

-- Once `setSchedule` has accepted an enabled schedule with a time, whatever its frequency,
-- `nextScheduledRunAt` finds a next run from every moment on: 400 days are enough, also for the
-- 31st of a month and for a leap year's end of February.
pub set_schedule-next :
    (tasks tasks' : List BackupTask) (id : ℕ) (input : SetScheduleInput) (row : BackupTask)
    (text : List ℕ)
    → input.schedule_time ≡ some text
    → input.schedule_enabled ≡ true
    → set_schedule tasks id input ≡ ok (tasks', row)
    → (now : ℕ) (ran : Bool) → (d : ℕ) × (next_scheduled_run_at (shape_of row) now ran ≡ some d)
set_schedule-next tasks tasks' id input row text timed on accepted now ran =
    let (format, existing, found, written, stored) = set_schedule-written tasks id input accepted in
    let planned = planned_row-IsPlanned existing input written in
    NamesDay-next (shape_of row) now ran (planned.enabled ∙ on) (planned.time ∙ timed)
      (matches_time_format-IsTime text (rw timed at format)) planned.named
