-- ===== src/Schedule/Due.antt =====
-- The projection to the next run (nextOccurrence.ts) against the due test (isTaskDue.ts).
use arkode.Prelude.{
  ℕ, zero, suc, ◌+◌, ◌-◌, ◌≤◌, ◌<◌, ◌≡◌, Bool, true, false, List, Option, some, arith,
}
use arkode.Types.{BackupTask, BackupRun}
use arkode.Calendar.{day_of, at_time}
use arkode.Schedule.TimeText.{matches_time_format}
use arkode.Schedule.IsDue.{started_today, is_task_due}
use arkode.Schedule.Next.{shape_of, day_matches_frequency, next_scheduled_run_at}
use arkode.Schedule.Search.{accepts, Found}
use arkode.Schedule.Laws.{
  IsTime, matches_time_format-IsTime, day_of-at_time, day_matches-same_day, is_task_due-and,
  next-Found, next-enabled, started_today-same_day,
}

at_time_self :
    (now k h m : ℕ) → h < 24 → m < 60 → at_time (at_time now k h m) 0 h m ≡ at_time now k h m
at_time_self now k h m p q = omega arith

module _ (task : BackupTask) {text : List ℕ} (e : task.schedule_time ≡ some text)
    (t : IsTime text) where
  open t use {hours, minutes, hours_lt, minutes_lt}

  is_task_due-parts :
      (now u offset : ℕ) (latest : Option BackupRun)
      → day_of u ≡ day_of now + offset
      → is_task_due task u latest ≡ true
      → (day_matches_frequency (shape_of task) (at_time now offset hours minutes) ≡ true)
        × (at_time now offset hours minutes ≤ u)
        × (started_today latest u ≡ false)
  is_task_due-parts now u offset latest same due = ground (
    arith,
    is_task_due-and task u latest e t,
    day_matches-same_day (shape_of task) u (at_time now offset hours minutes),
    day_of-at_time now offset hours minutes,
  )

  Found-after :
      (now d : ℕ) (ran : Bool) → Found (shape_of task) now ran hours minutes 0 400 d → now < d
  Found-after now d ran f = after_offset f.offset f.accepted f.at_offset
    where
      after_offset :
          (k : ℕ)
          → accepts (shape_of task) now ran hours minutes k ≡ true
          → d ≡ at_time now k hours minutes
          → now < d
      after_offset zero hit at = ground arith
      after_offset (suc k) hit at = omega arith

  Found-is_task_due :
      (now d : ℕ) (ran : Bool) (latest : Option BackupRun)
      → task.is_active ≡ true
      → task.schedule_enabled ≡ true
      → started_today latest d ≡ false
      → Found (shape_of task) now ran hours minutes 0 400 d
      → is_task_due task d latest ≡ true
  Found-is_task_due now d ran latest active on free f = ground (
    arith,
    f.accepted,
    f.at_offset,
    is_task_due-and task d latest e t,
    at_time_self now f.offset hours minutes,
  )

  -- A day of the schedule that the loop skips is today, with its slot behind: then today is due.
  skipped_today :
      (now u j : ℕ) (latest : Option BackupRun)
      → day_of u ≡ day_of now + j
      → day_matches_frequency (shape_of task) (at_time now j hours minutes) ≡ true
      → is_task_due task u latest ≡ true
      → accepts (shape_of task) now (started_today latest now) hours minutes j ≡ false
      → is_task_due task now latest ≡ true
  skipped_today now u zero latest same on_day due skip = ground (
    arith,
    is_task_due-and task u latest e t,
    is_task_due-and task now latest e t,
    started_today-same_day latest u now,
    day_matches-same_day (shape_of task) now (at_time now 0 hours minutes),
    day_of-at_time now 0 hours minutes,
  )
  skipped_today now u (suc j) latest same on_day due skip = ground arith

  -- A due moment before the day found is on this day, and the slot of today was behind already.
  due_before :
      (now d u : ℕ) (latest : Option BackupRun)
      → Found (shape_of task) now (started_today latest now) hours minutes 0 400 d
      → now < u
      → u < d
      → is_task_due task u latest ≡ true
      → is_task_due task now latest ≡ true
  due_before now d u latest f after before due =
      let j : ℕ = day_of u - day_of now in
      let (on_day, slot, free) = is_task_due-parts now u j latest (omega arith) due in
      skipped_today now u j latest (omega arith) on_day due
        (f.first j (omega arith) (omega (arith, f.at_offset)))

-- The moment that `nextScheduledRunAt` announces for an active task, whose time is in the format
-- that `setSchedule` accepts, is one at which `isTaskDue` lets the task run, unless a scheduled
-- run has started on that day.
pub next-is_task_due :
    (task : BackupTask) (now d : ℕ) (ran : Bool) (latest : Option BackupRun) (text : List ℕ)
    → task.is_active ≡ true
    → task.schedule_time ≡ some text
    → matches_time_format text ≡ true
    → next_scheduled_run_at (shape_of task) now ran ≡ some d
    → started_today latest d ≡ false
    → is_task_due task d latest ≡ true
next-is_task_due task now d ran latest text active e format next free =
    let t = matches_time_format-IsTime text format in
    Found-is_task_due task e t now d ran latest active (next-enabled (shape_of task) now ran next)
      free (next-Found (shape_of task) now ran e t next)

-- `nextScheduledRunAt` leaves out no run: with the flag that the dashboard passes (a scheduled run
-- has started today), its answer is after `now`, and if `isTaskDue` lets the task run at some
-- moment in between, the task was due at `now` already. The time is in the accepted format.
pub next_misses_nothing :
    (task : BackupTask) (now d : ℕ) (latest : Option BackupRun) (text : List ℕ)
    → task.schedule_time ≡ some text
    → matches_time_format text ≡ true
    → next_scheduled_run_at (shape_of task) now (started_today latest now) ≡ some d
    → (now < d)
      × ((u : ℕ)
          → now < u
          → u < d
          → is_task_due task u latest ≡ true
          → is_task_due task now latest ≡ true)
next_misses_nothing task now d latest text e format next =
    let t = matches_time_format-IsTime text format in
    let f = next-Found (shape_of task) now (started_today latest now) e t next in
    (
      Found-after task e t now d (started_today latest now) f,
      λ u after before due. due_before task e t now d u latest f after before due,
    )
