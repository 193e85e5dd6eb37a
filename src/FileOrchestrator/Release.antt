-- ===== src/FileOrchestrator/Release.antt =====
-- What a call does to the repository lock: one that finds it free leaves it free, and a repository
-- with nothing in progress keeps nothing in progress.
use arkode.Prelude.{ℕ, ◌≡◌, ◌≢◌, refl, sym, subst, Option, none, some, arith}
use Prim.Native.String.{String}
use arkode.Prelude.Results.{Result, ok, err}
use arkode.Tables.{Fresh, UniqueKeys, update_where-head}
use arkode.Types.{Client, running}
use arkode.FileTypes.{FileBackupRepository, FileBackupTask, backup}
use arkode.FileRuns.{
  file_run_id, maintenance_run_id, new_file_row, create_file_run, list_file_in_progress,
  get_file_run_by_id,
}
use arkode.Locking.{
  LockState, HeldBy, run, maintenance, recover_stale_repository_runs, check_repository_lock,
}
use arkode.Locking.Exclusion.{IsIdle, free-IsIdle}
use arkode.Locking.Idle.{recover-IsIdle, recover-Fresh}
use arkode.Orchestrator.Outcomes.{finished-running}
use arkode.FileOrchestrator.{
  FileEnv, FileState, FileOutcome, Thrown, create_and_attempt, create_file_input, with_source,
  if_initialized, with_repository, with_client, skip_run, by_holder, resolve_source_path,
  run_file_backup_task,
}
use arkode.FileOrchestrator.Ending.{FileEnds, attempt_file-FileEnds}

module _ {W : Type 0} (env : FileEnv W) (task : FileBackupTask) where
  -- A call leaves the tables that the lock reads as they are, or adds one finished run.
  data Leaves (lock : LockState) (result : FileOutcome × FileState W) : Type 0 where
    untouched : result.1.lock ≡ lock → Leaves lock result
    added : FileEnds env task lock.runs lock.maintenance result → Leaves lock result

  Leaves-IsIdle :
      (id : ℕ) (lock : LockState) (result : FileOutcome × FileState W)
      → IsIdle id lock
      → Leaves lock result
      → IsIdle id result.1.lock
  unfolding list_file_in_progress
  Leaves-IsIdle id lock result idle (untouched same) = subst (IsIdle id) (sym same) idle
  Leaves-IsIdle id lock result idle (added e) = (
    rw e.stored (ground (arith, finished-running e.row.status e.finished, idle.0)),
    rw e.kept idle.1,
  )

  Leaves-Fresh :
      (j : ℕ) (lock : LockState) (result : FileOutcome × FileState W)
      → env.new_id ≢ j
      → Fresh file_run_id j lock.runs
      → Leaves lock result
      → Fresh file_run_id j result.1.lock.runs
  Leaves-Fresh j lock result differ unused (untouched same) =
      subst (λ (l : LockState). Fresh file_run_id j l.runs) (sym same) unused
  Leaves-Fresh j lock result differ unused (added e) =
      subst (Fresh file_run_id j) (sym e.stored) (λ same. differ (rw⁻¹ e.own same), unused)

  module _ (s : FileState W) (fresh : Fresh file_run_id env.new_id s.lock.runs) where
    created-Leaves :
        (client : Client) (repository : FileBackupRepository) (source : String)
        → Leaves s.lock (create_and_attempt env task client repository source s)
    unfolding create_file_run
    created-Leaves client repository source =
        let row =
          new_file_row env.new_id env.created_now
            (create_file_input env task client repository source) in
        added (
          attempt_file-FileEnds env task client repository source s.lock.runs s.lock.maintenance
            fresh (record row { status = running }) _ refl
            (update_where-head file_run_id env.new_id (λ r. record r { status = running }) row
              s.lock.runs refl fresh)
            refl)

    with_source-Leaves :
        (client : Client) (repository : FileBackupRepository) (source : Result Thrown String)
        → Leaves s.lock (with_source env task client repository source s)
    with_source-Leaves client repository (err error) = untouched refl
    with_source-Leaves client repository (ok source) = created-Leaves client repository source

    if_initialized-Leaves :
        (client : Client) (repository : FileBackupRepository) (at : Option ℕ)
        → Leaves s.lock (if_initialized env task client repository at s)
    if_initialized-Leaves client repository none = untouched refl
    if_initialized-Leaves client repository (some at) =
        with_source-Leaves client repository (resolve_source_path env task client)

    with_repository-Leaves :
        (client : Client) (found : Option FileBackupRepository)
        → Leaves s.lock (with_repository env task client found s)
    with_repository-Leaves client none = untouched refl
    with_repository-Leaves client (some repository) =
        if_initialized-Leaves client repository repository.initialized_at

    with_client-Leaves : (found : Option Client) → Leaves s.lock (with_client env task found s)
    with_client-Leaves none = untouched refl
    with_client-Leaves (some client) =
        with_repository-Leaves client (env.get_repository task.repository_id)

    by_holder-Leaves : (holder : Option HeldBy) → Leaves s.lock (by_holder env task holder s)
    by_holder-Leaves none = with_client-Leaves (env.get_client task.client_id)
    by_holder-Leaves (some (maintenance id)) = untouched refl
    by_holder-Leaves (some (run id)) = skipped (get_file_run_by_id id s.lock.runs)
      where
        skipped : (found : Option _) → Leaves s.lock (skip_run env task found s)
        skipped none = untouched refl
        skipped (some row) = untouched refl

  module _ (s : FileState W) (fresh : Fresh file_run_id env.new_id s.lock.runs) where
    abbrev after_recovery : FileState W
    after_recovery = record s {
      lock = recover_stale_repository_runs env.stale_deps task.repository_id s.lock;
    }

    run-Leaves : Leaves after_recovery.lock (run_file_backup_task env task s)
    unfolding run_file_backup_task
    run-Leaves =
        by_holder-Leaves after_recovery
          (recover-Fresh env.stale_deps task.repository_id env.new_id s.lock fresh) _

    -- A repository with nothing in progress keeps nothing in progress.
    pub run-IsIdle :
        (id : ℕ) → IsIdle id s.lock → IsIdle id (run_file_backup_task env task s).1.lock
    run-IsIdle id idle =
        Leaves-IsIdle id after_recovery.lock _
          (recover-IsIdle id env.stale_deps task.repository_id s.lock idle) run-Leaves

    -- No id but the new one is given out.
    pub run_file-Fresh :
        (j : ℕ)
        → env.new_id ≢ j
        → Fresh file_run_id j s.lock.runs
        → Fresh file_run_id j (run_file_backup_task env task s).1.lock.runs
    run_file-Fresh j differ unused =
        Leaves-Fresh j after_recovery.lock _ differ
          (recover-Fresh env.stale_deps task.repository_id j s.lock unused) run-Leaves

-- A call of `runFileBackupTask` that finds the lock free (after the recovery of dead runs) leaves
-- nothing of the repository in progress, however it ends: an error before the row is created, an
-- error of the source, of the password or of restic, warnings, or success. Ids are unique in each
-- table, and the new one is unused.
pub free_call-IsIdle :
    {W : Type 0} (env : FileEnv W) (task : FileBackupTask) (s : FileState W)
    → UniqueKeys file_run_id s.lock.runs
    → UniqueKeys maintenance_run_id s.lock.maintenance
    → Fresh file_run_id env.new_id s.lock.runs
    → check_repository_lock env.stale_deps
        (recover_stale_repository_runs env.stale_deps task.repository_id s.lock)
        task.repository_id
        backup
      ≡ none
    → IsIdle task.repository_id (run_file_backup_task env task s).1.lock
free_call-IsIdle env task s u v fresh free =
    Leaves-IsIdle env task task.repository_id (after_recovery env task s fresh).lock _
      (free-IsIdle env.stale_deps task.repository_id s.lock backup u v free)
      (run-Leaves env task s fresh)
