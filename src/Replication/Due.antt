-- ===== src/Replication/Due.antt =====
-- What makes a replication due, and what settles it.
use arkode.Prelude.{
  ℕ, ◌+◌, ◌≤◌, ◌<◌, ◌≡◌, refl, ◌↔◌, inl, inr, Bool, true, false, List, [], ◌∷◌, Option, some, arith,
  any, All, Option-cases,
}
use arkode.Types.{BackupRunStatus, BackupRun, success}
use arkode.Tables.Newest.{newest_first, insert_newest}
use arkode.Runs.{Runs, list_recent}
use arkode.FileRuns.{FileRuns}
use arkode.Replication.{
  ReplicationTarget, db_dumps, last_success, is_last_failed, good_finish, first_good, rows_for,
  latest_successful_backup_at, is_backup_newer, is_replication_due,
}

abbrev pub Row : Type 0
Row = BackupRunStatus × Option ℕ

-- Some row is a good backup that finished after `last`.
abbrev pub has_newer : ℕ → List Row → Bool
has_newer last rows = any (λ r. is_backup_newer (good_finish r.0 r.1) last) rows

-- No good backup finished after `bound`.
abbrev pub FinishBy : ℕ → List Row → Type 0
FinishBy bound rows = All (λ r. is_backup_newer (good_finish r.0 r.1) bound ≡ false) rows

-- Good backups finished in the order in which they are listed, the last one first.
abbrev pub IsFinishOrdered : List Row → Type 0
IsFinishOrdered [] = Unit {0}
IsFinishOrdered ((status, finish) ∷ rows) =
    ((at : ℕ) → good_finish status finish ≡ some at → FinishBy at rows) × IsFinishOrdered rows

FinishBy-has_newer :
    (last bound : ℕ) (rows : List Row)
    → bound ≤ last
    → FinishBy bound rows
    → has_newer last rows ≡ false
FinishBy-has_newer last bound [] le h = refl
FinishBy-has_newer last bound ((status, finish) ∷ rows) le h =
    ground (arith, h.0, FinishBy-has_newer last bound rows le h.1)

first_good-FinishBy :
    (bound : ℕ) (rows : List Row)
    → FinishBy bound rows
    → is_backup_newer (first_good rows) bound ≡ false
first_good-FinishBy bound [] h = refl
first_good-FinishBy bound ((status, finish) ∷ rows) h =
    ground (arith, h.0, first_good-FinishBy bound rows h.1)

first_good-has_newer :
    (last : ℕ) (rows : List Row)
    → IsFinishOrdered rows
    → is_backup_newer (first_good rows) last ≡ has_newer last rows
first_good-has_newer last [] h = refl
first_good-has_newer last ((status, finish) ∷ rows) h =
    elim (Option-cases (good_finish status finish)) [
      | inl none_good ↦ ground (arith, none_good, first_good-has_newer last rows h.1)
      | inr (at, good) ↦
          let older : (at ≤ last → has_newer last rows ≡ false) =
            λ le. FinishBy-has_newer last at rows le (h.0 at good) in
          ground (arith, good, older)
    ]

-- With good backups finishing in the order in which they are listed, an enabled target that was
-- replicated at `last`, and not as a failure, is due exactly when one of its listed runs is a good
-- backup that finished after `last`, and the interval has passed since.
pub due_iff :
    (now interval last : ℕ) (target : ReplicationTarget) (runs : Runs) (file_runs : FileRuns)
    → target.enabled ≡ true
    → target.last_replicated_at ≡ some last
    → is_last_failed target.last_status ≡ false
    → IsFinishOrdered (rows_for target runs file_runs)
    → (is_replication_due now interval target runs file_runs ≡ true)
      ↔ ((has_newer last (rows_for target runs file_runs) ≡ true) × (last + interval ≤ now))
unfolding is_replication_due latest_successful_backup_at
due_iff now interval last target runs file_runs on at ok ordered =
    ground (arith, first_good-has_newer last (rows_for target runs file_runs) ordered)

-- Once a target is marked as replicated successfully at `now`, it is not due again, at any later
-- time, while none of its listed runs finishes after `now` as a good backup.
pub replicated-not_due :
    (now later interval : ℕ) (target : ReplicationTarget) (runs : Runs) (file_runs : FileRuns)
    → FinishBy now (rows_for target runs file_runs)
    → is_replication_due later interval
        (record target { last_replicated_at = some now; last_status = some last_success })
        runs
        file_runs
      ≡ false
unfolding is_replication_due latest_successful_backup_at rows_for
replicated-not_due now later interval target runs file_runs settled =
    ground (arith, first_good-FinishBy now (rows_for target runs file_runs) settled)

-- A due target stays due as time passes, while the tables stay as they are.
pub due-later :
    (now later interval : ℕ) (target : ReplicationTarget) (runs : Runs) (file_runs : FileRuns)
    → now ≤ later
    → is_replication_due now interval target runs file_runs ≡ true
    → is_replication_due later interval target runs file_runs ≡ true
unfolding is_replication_due
due-later now later interval target runs file_runs le due = ground arith

-- Of two good backups of the client, `long` started first and finished after the last replication,
-- `short` started later and finished before it: the target is not due at any time, though a
-- backup is newer than the copy.
pub overlapping_backup-not_due :
    (now interval last : ℕ) (target : ReplicationTarget) (long short : BackupRun)
    → target.content ≡ db_dumps
    → target.last_replicated_at ≡ some last
    → is_last_failed target.last_status ≡ false
    → (long.client_id ≡ target.client_id) × (short.client_id ≡ target.client_id)
    → (long.status ≡ success) × (short.status ≡ success)
    → long.started_at < short.started_at
    → (a : ℕ) → (b : ℕ) → long.finished_at ≡ some a
    → short.finished_at ≡ some b
    → b ≤ last
    → last < a
    → (has_newer last (rows_for target (short ∷ long ∷ []) []) ≡ true)
      × (is_replication_due now interval target (short ∷ long ∷ []) [] ≡ false)
unfolding is_replication_due latest_successful_backup_at rows_for list_recent newest_first
    insert_newest
overlapping_backup-not_due now interval last target long short content at ok clients good order a b
      fa fb before after =
    ground arith
