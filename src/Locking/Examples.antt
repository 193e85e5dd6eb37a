-- ===== src/Locking/Examples.antt =====
-- A repository with one dead run, of a process that is gone, and a row of another repository.
use arkode.Prelude.{arith, ℕ, ◌≡◌, refl, [], ◌∷◌, some}
use arkode.Types.{running}
use arkode.FileTypes.{FileBackupRun, backup, prune}
use arkode.ProcessIdentity.{StaleRunCheckDeps, default_deps, is_stale_in_progress_run}
use arkode.Tables.{update_where}
use arkode.FileRuns.{CreateFileBackupRunInput, new_file_row, create_file_run}
use arkode.Locking.{LockState, run, recover_stale_repository_runs, check_repository_lock}
use arkode.Locking.Exclusion.{IsIdle, free-IsIdle, create-holds_lock}
use arkode.Samples.{one_process}

abbrev deps : StaleRunCheckDeps
deps = default_deps 2000000 one_process

-- The row of a run in progress.
abbrev in_progress : ℕ → ℕ → ℕ → FileBackupRun
in_progress id repository_id pid =
    record (new_file_row id 10
      (record { task_id = 1; client_id = 1; repository_id = repository_id; pid = pid })) {
        status = running;
      }

abbrev crashed : LockState
crashed = record { runs = in_progress 2 4 45 ∷ in_progress 1 9 45 ∷ []; maintenance = [] }

abbrev input : CreateFileBackupRunInput
input = record { task_id = 1; client_id = 1; repository_id = 4; pid = 44 }

program : Unit {0}
unfolding recover_stale_repository_runs check_repository_lock is_stale_in_progress_run update_where
    create_file_run
program = tt

free-IsIdle_example : IsIdle 4 (recover_stale_repository_runs deps 4 crashed)
unfolding program
free-IsIdle_example = free-IsIdle deps 4 crashed backup (omega arith) tt refl

create-holds_lock_example :
    check_repository_lock
      (default_deps 2500000 one_process)
      (record (recover_stale_repository_runs deps 4 crashed) {
        runs = create_file_run 3 2000000 input (recover_stale_repository_runs deps 4 crashed).runs;
      })
      4
      prune
    ≡ some (run 3)
unfolding program
create-holds_lock_example =
    (create-holds_lock deps 4 crashed backup 3 input refl (omega arith) tt (omega arith) refl
      (default_deps 2500000 one_process) prune refl).1
