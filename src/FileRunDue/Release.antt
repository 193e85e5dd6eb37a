-- ===== src/FileRunDue/Release.antt =====
-- What a pass over the folder backups leaves of the repository locks.
use arkode.Prelude.{ℕ, suc, ◌≤◌, ◌≢◌, Bool, true, false, List, [], ◌∷◌, arith}
use arkode.Tables.{Fresh}
use arkode.FileTypes.{FileBackupTask}
use arkode.FileRuns.{FileRuns, file_run_id}
use arkode.Locking.Exclusion.{IsIdle}
use arkode.FileOrchestrator.{FileEnv, FileState}
use arkode.FileOrchestrator.Release.{run-IsIdle, run_file-Fresh}
use arkode.FileRunDue.{is_file_due_in, run_file_if, run_file_due_from, run_file_backup_due_tasks}

module _ {W : Type 0} (envs : ℕ → FileEnv W) (now : ℕ)
    (distinct : (i j : ℕ) → i ≢ j → (envs i).new_id ≢ (envs j).new_id) (id : ℕ) where
  -- The ids of the runs from the k-th on are unused.
  abbrev FileUnusedFrom : ℕ → FileRuns → Type 0
  FileUnusedFrom k runs = (i : ℕ) → k ≤ i → Fresh file_run_id (envs i).new_id runs

  module _ (k : ℕ) (task : FileBackupTask) (s : FileState W)
      (unused : FileUnusedFrom k s.lock.runs) where
    run_file_if-IsIdle :
        (due : Bool) → IsIdle id s.lock → IsIdle id (run_file_if envs now due k task s).1.lock
    run_file_if-IsIdle false idle = idle
    run_file_if-IsIdle true idle = run-IsIdle (envs k) task s (unused k (omega arith)) id idle

    run_file_if-FileUnusedFrom :
        (due : Bool) → FileUnusedFrom (suc k) (run_file_if envs now due k task s).1.lock.runs
    run_file_if-FileUnusedFrom false i le = unused i (omega arith)
    run_file_if-FileUnusedFrom true i le =
        run_file-Fresh (envs k) task s (unused k (omega arith)) (envs i).new_id
          (distinct k i (λ e. omega arith)) (unused i (omega arith))

  run_file_due_from-IsIdle :
      (k : ℕ) (tasks : List FileBackupTask) (s : FileState W)
      → FileUnusedFrom k s.lock.runs
      → IsIdle id s.lock
      → IsIdle id (run_file_due_from envs now k tasks s).1.lock
  unfolding run_file_due_from
  run_file_due_from-IsIdle k [] s unused idle = idle
  run_file_due_from-IsIdle k (task ∷ tasks) s unused idle =
      let due = is_file_due_in envs now task s in
      run_file_due_from-IsIdle (suc k) tasks (run_file_if envs now due k task s).1
        (run_file_if-FileUnusedFrom k task s unused due)
        (run_file_if-IsIdle k task s unused due idle)

  -- A pass leaves every repository unlocked that it found unlocked.
  pub file_pass-IsIdle :
      (tasks : List FileBackupTask) (s : FileState W)
      → ((i : ℕ) → Fresh file_run_id (envs i).new_id s.lock.runs)
      → IsIdle id s.lock
      → IsIdle id (run_file_backup_due_tasks envs now tasks s).1.lock
  unfolding run_file_backup_due_tasks
  file_pass-IsIdle tasks s unused idle = run_file_due_from-IsIdle 0 tasks s (λ i le. unused i) idle
