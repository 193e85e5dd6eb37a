-- ===== src/FileOrchestrator/Examples.antt =====
-- A call that recovers the dead run of its repository and leaves the repository unlocked.
use arkode.Prelude.{refl, arith}
use arkode.Tables.{update_where}
use arkode.ProcessIdentity.{is_stale_in_progress_run}
use arkode.Locking.{recover_stale_repository_runs, check_repository_lock}
use arkode.Locking.Exclusion.{IsIdle}
use arkode.FileOrchestrator.{run_file_backup_task}
use arkode.FileOrchestrator.Samples.{documents, file_env, interrupted_state}
use arkode.FileOrchestrator.Release.{free_call-IsIdle}

program : Unit {0}
unfolding check_repository_lock recover_stale_repository_runs is_stale_in_progress_run update_where
program = tt

free_call-IsIdle_example :
    IsIdle 4 (run_file_backup_task file_env documents interrupted_state).1.lock
unfolding program
free_call-IsIdle_example =
    free_call-IsIdle file_env documents interrupted_state (tt, tt) tt (λ e. omega arith, tt) refl
