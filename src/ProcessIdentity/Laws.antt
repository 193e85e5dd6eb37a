-- ===== src/ProcessIdentity/Laws.antt =====
-- When a row counts as dead.
use arkode.Prelude.{
  ℕ, ◌+◌, ◌≤◌, ◌<◌, ◌≡◌, refl, ◌↔◌, ◌⊎◌, inl, inr, true, false, Option, none, some, arith,
}
use arkode.ProcessIdentity.{StaleRunCheckDeps, is_stale_in_progress_run}

-- A row whose process is alive and started no later than the row is kept until the ceiling on its
-- age, whatever the age at which scrutiny starts, and is dead past both ages.
pub live_owner-stale_iff :
    (deps : StaleRunCheckDeps) (pid started holder : ℕ)
    → deps.is_pid_in_use pid ≡ true
    → deps.process_start_time_ms pid ≡ some holder
    → holder ≤ started
    → (is_stale_in_progress_run deps (some pid) (some started) ≡ true)
      ↔ ((started + deps.scrutiny_after_ms < deps.now) × (started + deps.max_run_ms < deps.now))
unfolding is_stale_in_progress_run
live_owner-stale_iff deps pid started holder alive starts before = ground arith

-- A row whose process has died is dead at once, and one whose pid went to a process that started
-- after the row is dead once the row is older than the age of scrutiny.
pub lost_owner-stale :
    (deps : StaleRunCheckDeps) (pid started : ℕ)
    → (deps.is_pid_in_use pid ≡ false)
      ⊎ ((holder : ℕ) × (deps.process_start_time_ms pid ≡ some holder)
          × (started < holder)
          × (started + deps.scrutiny_after_ms < deps.now))
    → is_stale_in_progress_run deps (some pid) (some started) ≡ true
unfolding is_stale_in_progress_run
lost_owner-stale deps pid started (inl dead) = ground arith
lost_owner-stale deps pid started (inr (holder, starts, after, old)) = ground arith

-- Time alone never revives a row: while the process table stays as it is, a dead row stays dead.
pub stale-later :
    (deps : StaleRunCheckDeps) (later : ℕ) (pid started : Option ℕ)
    → deps.now ≤ later
    → is_stale_in_progress_run deps pid started ≡ true
    → is_stale_in_progress_run (record deps { now = later }) pid started ≡ true
unfolding is_stale_in_progress_run
stale-later deps later none started h e = refl
stale-later deps later (some pid) started h e = ground arith
