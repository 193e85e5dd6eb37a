-- ===== src/Schedule/Laws.antt =====
-- What the due test and the projection to the next run have in common.
use arkode.Prelude.{
  ℕ, ◌+◌, ◌-◌, ◌*◌, ◌<◌, ◌≡◌, refl, ap, inl, inr, Bool, true, not, ◌&&◌, List, [], ◌∷◌, Option,
  none, some, arith, leb, Bool-cases,
}
use arkode.Types.{BackupTask, BackupRun, ScheduleFrequency, daily, weekly, monthly}
use arkode.Calendar.{civil, days_in_month, day_of, get_date, last_day_of_month, at_time}
use arkode.Schedule.TimeText.{hours_minutes, is_set, matches_time_format}
use arkode.Schedule.IsDue.{
  is_same_civil, is_same_local_date, matches_day_of_month, is_wrong_day, started_today, is_task_due,
}
use arkode.Schedule.Next.{
  ScheduleShape, shape_of, matches_frequency, day_matches_frequency, next_scheduled_run_at,
}
use arkode.Schedule.Search.{Found, walk-Found}

pub record IsTime (text : List ℕ) : Type 0 where
  pub hours : ℕ
  pub minutes : ℕ
  pub parsed : hours_minutes text ≡ (some hours, some minutes)
  pub set : is_set (some text) ≡ some text
  pub hours_lt : hours < 24
  pub minutes_lt : minutes < 60

-- A text in the accepted format is read as an hour below 24 and a minute below 60.
pub matches_time_format-IsTime : (text : List ℕ) → matches_time_format text ≡ true → IsTime text
unfolding matches_time_format hours_minutes
matches_time_format-IsTime (a ∷ b ∷ c ∷ d ∷ e ∷ []) h = record {
  hours = (a - b'0') * 10 + (b - b'0');
  minutes = (d - b'0') * 10 + (e - b'0');
  parsed = ground arith;
  set = refl;
  hours_lt = ground arith;
  minutes_lt = ground arith;
}
matches_time_format-IsTime _ h = cc

pub day_of-at_time : (now k h m : ℕ) → h < 24 → m < 60 → day_of (at_time now k h m) ≡ day_of now + k
day_of-at_time now k h m p q = omega arith

same_day-get_date : (a b : ℕ) → day_of a ≡ day_of b → get_date a ≡ get_date b
unfolding get_date
same_day-get_date a b e = ap (λ n. (civil n).date) e

same_day-last_day : (a b : ℕ) → day_of a ≡ day_of b → last_day_of_month a ≡ last_day_of_month b
unfolding last_day_of_month
same_day-last_day a b e = ap (λ n. days_in_month (civil n).year (civil n).month) e

same_day-matches :
    (f : ScheduleFrequency) (days : Option (List ℕ)) (day : Option ℕ) (a b : ℕ)
    → day_of a ≡ day_of b
    → matches_frequency f days day a ≡ matches_frequency f days day b
unfolding matches_day_of_month
same_day-matches daily days day a b e = refl
same_day-matches weekly none day a b e = refl
same_day-matches weekly (some days) day a b e = rw e
same_day-matches monthly days none a b e = refl
same_day-matches monthly days (some day) a b e =
    rw (same_day-get_date a b e, same_day-last_day a b e)

wrong_day-not_matches :
    (f : ScheduleFrequency) (days : Option (List ℕ)) (day : Option ℕ) (now : ℕ)
    → is_wrong_day f days day now ≡ not (matches_frequency f days day now)
wrong_day-not_matches daily days day now = refl
wrong_day-not_matches weekly none day now = refl
wrong_day-not_matches weekly (some days) day now = refl
wrong_day-not_matches monthly days none now = refl
wrong_day-not_matches monthly days (some day) now = refl

-- For a readable time, the due test is the conjunction of its conditions.
pub is_task_due-and :
    (task : BackupTask) (now : ℕ) (latest : Option BackupRun) {text : List ℕ}
    → task.schedule_time ≡ some text
    → (t : IsTime text)
    → is_task_due task now latest ≡ (
        task.is_active
        && task.schedule_enabled
        && not (started_today latest now)
        && day_matches_frequency (shape_of task) now
        && leb (at_time now 0 t.hours t.minutes) now)
unfolding is_task_due
is_task_due-and task now latest e t = ground (
  arith,
  wrong_day-not_matches task.schedule_frequency task.schedule_days_of_week
      task.schedule_day_of_month now,
)

pub day_matches-same_day :
    (s : ScheduleShape) (a b : ℕ)
    → day_of a ≡ day_of b
    → day_matches_frequency s a ≡ day_matches_frequency s b
day_matches-same_day s a b e =
    same_day-matches s.schedule_frequency s.schedule_days_of_week s.schedule_day_of_month a b e

pub next-Found :
    (s : ScheduleShape) (now : ℕ) (ran : Bool) {text : List ℕ} {d : ℕ}
    → s.schedule_time ≡ some text
    → (t : IsTime text) → next_scheduled_run_at s now ran ≡ some d
    → Found s now ran t.hours t.minutes 0 400 d
unfolding next_scheduled_run_at
next-Found s now ran {d} e t h = walk-Found s now ran t.hours t.minutes 400 0 d (ground arith)

pub next-enabled :
    (s : ScheduleShape) (now : ℕ) (ran : Bool) {d : ℕ}
    → next_scheduled_run_at s now ran ≡ some d
    → s.schedule_enabled ≡ true
unfolding next_scheduled_run_at
next-enabled s now ran h = elim (Bool-cases s.schedule_enabled) [
  | inl on ↦ on
  | inr off ↦ ground arith
]

pub started_today-same_day :
    (latest : Option BackupRun) (a b : ℕ)
    → day_of a ≡ day_of b
    → started_today latest a ≡ started_today latest b
unfolding is_same_local_date
started_today-same_day none a b e = refl
started_today-same_day (some run) a b e =
    ap (λ n. is_same_civil (civil (day_of run.started_at)) (civil n)) e
