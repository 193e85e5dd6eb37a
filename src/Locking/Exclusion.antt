-- ===== src/Locking/Exclusion.antt =====
-- Why the lock excludes: it is free only when nothing is in progress, and a run that is created
-- then holds it.
use arkode.Prelude.{
  ℕ, ◌≡◌, refl, subst, sym, Bool, true, false, ◌&&◌, ◌==◌, [], ◌∷◌, none, some, arith,
}
use arkode.Tables.{UniqueKeys, Fresh, update_where-head}
use arkode.Tables.Recover.{idle_after}
use arkode.Types.{running}
use arkode.FileTypes.{FileBackupOperationKind}
use arkode.ProcessIdentity.{StaleRunCheckDeps, is_stale_in_progress_run}
use arkode.FileRuns.{
  FileRuns, MaintenanceRuns, CreateFileBackupRunInput, new_file_row, create_file_run,
  is_file_in_progress, is_maintenance_in_progress, list_file_in_progress,
  list_maintenance_in_progress, file_run_id, maintenance_run_id,
}
use arkode.Locking.{
  LockState, run, is_stale_file_run, is_stale_maintenance_run, fail_file_run, fail_maintenance_run,
  holder_of_runs, holder_of_maintenance, recover_stale_repository_runs, check_repository_lock,
}
use arkode.Locking.Recovery.{recovered, recover-exact}

-- Nothing of this repository is in progress.
abbrev pub IsIdle : ℕ → LockState → Type 0
IsIdle repository_id s =
    (list_file_in_progress repository_id s.runs ≡ [])
    × (list_maintenance_in_progress repository_id s.maintenance ≡ [])

no_holder :
    (rs : FileRuns) (ms : MaintenanceRuns)
    → holder_of_runs rs (holder_of_maintenance ms) ≡ none
    → (rs ≡ []) × (ms ≡ [])
no_holder [] [] e = (refl, refl)
no_holder [] (m ∷ ms) e = cc
no_holder (r ∷ rs) ms e = cc

pub not_listed : (b : Bool) → (b && false) ≡ false
not_listed true = refl
not_listed false = refl

module _ (deps : StaleRunCheckDeps) (repository_id : ℕ) where
  recovered-IsIdle :
      (s : LockState) (kind : FileBackupOperationKind)
      → check_repository_lock deps (recovered deps repository_id s) repository_id kind ≡ none
      → IsIdle repository_id (recovered deps repository_id s)
  unfolding check_repository_lock
  recovered-IsIdle s kind e =
      let (no_runs, no_maintenance) = no_holder _ _ e in
      (
        idle_after file_run_id (is_stale_file_run deps) (fail_file_run deps) (λ r. refl)
            (is_file_in_progress repository_id) (λ r. not_listed (r.repository_id == repository_id))
            s.runs no_runs,
        idle_after maintenance_run_id (is_stale_maintenance_run deps) (fail_maintenance_run deps)
            (λ r. refl) (is_maintenance_in_progress repository_id)
            (λ r. not_listed (r.repository_id == repository_id)) s.maintenance no_maintenance,
      )

  -- After recovery, the lock is free only if no run and no maintenance of this repository is in
  -- progress, dead or alive. Ids are unique in each table.
  pub free-IsIdle :
      (s : LockState) (kind : FileBackupOperationKind)
      → UniqueKeys file_run_id s.runs
      → UniqueKeys maintenance_run_id s.maintenance
      → check_repository_lock deps
          (recover_stale_repository_runs deps repository_id s)
          repository_id
          kind
        ≡ none
      → IsIdle repository_id (recover_stale_repository_runs deps repository_id s)
  free-IsIdle s kind u v free =
      subst (IsIdle repository_id) (sym (recover-exact deps repository_id s u v))
        (recovered-IsIdle s kind (rw (recover-exact deps repository_id s u v) at free))

  abbrev with_run : ℕ → CreateFileBackupRunInput → LockState → LockState
  with_run id input s = record s { runs = create_file_run id deps.now input s.runs }

  create-alone :
      (s : LockState) (id : ℕ) (input : CreateFileBackupRunInput)
      → input.repository_id ≡ repository_id
      → Fresh file_run_id id s.runs
      → list_file_in_progress repository_id s.runs ≡ []
      → list_file_in_progress repository_id (create_file_run id deps.now input s.runs)
        ≡ record (new_file_row id deps.now input) { status = running } ∷ []
  unfolding list_file_in_progress create_file_run
  create-alone s id input e fresh idle =
      rw
        (update_where-head file_run_id id (λ r. record r { status = running })
          (new_file_row id deps.now input) s.runs refl fresh)
        (ground arith)

  -- Once a run has been created under a free lock, it is the only run in progress on the
  -- repository, and it holds the lock: at any later check, by any process and for any kind of
  -- operation, at which the run's row does not count as dead, the check reports that run as the
  -- holder.
  pub create-holds_lock :
      (s : LockState) (kind : FileBackupOperationKind) (id : ℕ) (input : CreateFileBackupRunInput)
      → input.repository_id ≡ repository_id
      → UniqueKeys file_run_id s.runs
      → UniqueKeys maintenance_run_id s.maintenance
      → Fresh file_run_id id (recover_stale_repository_runs deps repository_id s).runs
      → check_repository_lock deps
          (recover_stale_repository_runs deps repository_id s)
          repository_id
          kind
        ≡ none
      → (later : StaleRunCheckDeps) (other : FileBackupOperationKind)
      → is_stale_in_progress_run later (some input.pid) (some deps.now) ≡ false
      → (list_file_in_progress repository_id
            (with_run id input (recover_stale_repository_runs deps repository_id s)).runs
          ≡ record (new_file_row id deps.now input) { status = running } ∷ [])
        × (check_repository_lock later
              (with_run id input (recover_stale_repository_runs deps repository_id s))
              repository_id
              other
            ≡ some (run id))
  unfolding check_repository_lock
  create-holds_lock s kind id input e u v fresh free later other alive =
      let idle = free-IsIdle s kind u v free in
      let alone =
        create-alone (recover_stale_repository_runs deps repository_id s) id input e fresh idle.0 in
      (alone, rw (alone, alive))
