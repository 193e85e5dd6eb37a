-- ===== src/ProcessIdentity.antt =====
-- packages/engine-core/src/util/processIdentity.ts: is a row that says "in progress" dead? The
-- process table is a parameter; a time that cannot be parsed (NaN) is `none`.
pub mod Laws
use arkode.Prelude.{
  ℕ, ◌+◌, ◌*◌, Bool, true, false, not, ◌&&◌, Option, none, some, ltb, leb, if◌then◌else◌,
}

abbrev pub max_in_progress_run_ms : ℕ
max_in_progress_run_ms = 24 * 60 * 60 * 1000

abbrev pub in_progress_scrutiny_after_ms : ℕ
in_progress_scrutiny_after_ms = 30 * 60 * 1000

-- What the operating system answers: `process.kill(pid, 0)`, and when the holder of a pid started.
pub record ProcessTable : Type 0 where
  pub is_pid_in_use : ℕ → Bool
  pub process_start_time_ms : ℕ → Option ℕ

pub record StaleRunCheckDeps : Type 0 where
  pub now : ℕ
  pub max_run_ms : ℕ
  pub scrutiny_after_ms : ℕ
  pub processes : ProcessTable
  pub open processes use *

abbrev pub default_deps : ℕ → ProcessTable → StaleRunCheckDeps
default_deps now processes = record {
  now = now;
  max_run_ms = max_in_progress_run_ms;
  scrutiny_after_ms = in_progress_scrutiny_after_ms;
  processes = processes;
}

-- The differences of times are compared as sums, since a row may be younger than 0.
abbrev pub is_young : StaleRunCheckDeps → Option ℕ → Bool
is_young deps none = false
is_young deps (some started) = leb deps.now (started + deps.scrutiny_after_ms)

abbrev pub is_recycled : Option ℕ → Option ℕ → Bool
is_recycled (some holder) (some started) = ltb started holder
is_recycled (some holder) none = false
is_recycled none started = false

abbrev pub is_too_old : StaleRunCheckDeps → Option ℕ → Bool
is_too_old deps none = false
is_too_old deps (some started) = ltb (started + deps.max_run_ms) deps.now

unfoldable pub is_stale_in_progress_run : StaleRunCheckDeps → Option ℕ → Option ℕ → Bool
is_stale_in_progress_run deps none started_at = true
is_stale_in_progress_run deps (some pid) started_at =
    if not (deps.is_pid_in_use pid)
    then true
    else if is_young deps started_at
    then false
    else if is_recycled (deps.process_start_time_ms pid) started_at
    then true
    else is_too_old deps started_at
