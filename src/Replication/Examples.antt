-- ===== src/Replication/Examples.antt =====
-- A target of the client whose runs are stored, copied at time 5.
use arkode.Prelude.{none, ◌+◌, ◌≤◌, ◌≡◌, refl, ◌↔◌, true, false, [], ◌∷◌, some, arith}
use arkode.Types.{BackupRun}
use arkode.Runs.{Runs, list_recent}
use arkode.Tables.Newest.{newest_first}
use arkode.Replication.{ReplicationTarget, db_dumps, last_success, rows_for, is_replication_due}
use arkode.Replication.Due.{has_newer, due_iff, replicated-not_due, overlapping_backup-not_due}
use arkode.Samples.{stored_run}

abbrev offsite : ReplicationTarget
offsite = record {
  id = 1;
  client_id = 1;
  content = db_dumps;
  encrypt_with_crypt = false;
  crypt_password_secret_ref = none;
  enabled = true;
  last_replicated_at = some 5;
  last_status = some last_success;
  last_error = none;
}

abbrev two_runs : Runs
two_runs = stored_run 2 7 ∷ stored_run 1 3 ∷ []

-- Started at 1 and finished at 9.
abbrev long_run : BackupRun
long_run = record (stored_run 1 1) { finished_at = some 9 }

program : Unit {0}
unfolding rows_for list_recent newest_first is_replication_due
program = tt

due_iff_example :
    (is_replication_due 30 20 offsite two_runs [] ≡ true)
    ↔ ((has_newer 5 (rows_for offsite two_runs []) ≡ true) × (5 + 20 ≤ 30))
unfolding program
due_iff_example =
    due_iff 30 20 5 offsite two_runs [] refl refl refl
      (λ at e. (ground arith, tt), (λ at e. tt, tt))

replicated-not_due_example :
    is_replication_due 100 20
      (record offsite { last_replicated_at = some 8; last_status = some last_success })
      two_runs
      []
    ≡ false
unfolding program
replicated-not_due_example = replicated-not_due 8 100 20 offsite two_runs [] (refl, (refl, tt))

overlapping_backup-not_due_example :
    (has_newer 5 (rows_for offsite (stored_run 2 3 ∷ long_run ∷ []) []) ≡ true)
    × (is_replication_due 1000000 20 offsite (stored_run 2 3 ∷ long_run ∷ []) [] ≡ false)
unfolding program
overlapping_backup-not_due_example =
    overlapping_backup-not_due 1000000 20 5 offsite long_run (stored_run 2 3) refl refl refl
      (refl, refl) (refl, refl) (omega arith) 9 3 refl refl (omega arith) (omega arith)
