-- ===== src/FileDeletion/Laws.antt =====
-- When a manual deletion forgets a snapshot.
use Prim.Native.String.{String}
use arkode.Prelude.{◌≡◌, List, ◌∷◌}
use arkode.Tables.{UniqueKeys}
use arkode.FileRuns.{file_run_id, maintenance_run_id}
use arkode.Locking.{LockState, recover_stale_repository_runs}
use arkode.Locking.Exclusion.{IsIdle}
use arkode.FileOrchestrator.{FileRetentionDeletion}
use arkode.FileDeletion.{DeletionEnv, DeletionState, Subject, manual_deletion}

-- The answer of a call that has forgotten the snapshot of `subject`, on tables that were `lock` once
-- dead runs were recovered.
pub record Forgot {W : Type 0} (env : DeletionEnv W) (before : List FileRetentionDeletion)
    (lock : LockState) (subject : Subject) (after : DeletionState W) : Type 0 where
  pub tables : after.lock ≡ lock
  pub recorded : after.forgotten ≡ manual_deletion env subject ∷ before
  pub idle : IsIdle subject.repository.id after.lock

module _ {W : Type 0} (env : DeletionEnv W) (s : DeletionState W)
    (u : UniqueKeys file_run_id s.lock.runs)
    (v : UniqueKeys maintenance_run_id s.lock.maintenance) where
  module _ (subject : Subject) where
    abbrev locked : DeletionState W
    locked = record s {
      lock = recover_stale_repository_runs env.stale_deps subject.repository.id s.lock;
    }

    abbrev Forgets : DeletionState W → Type 0
    Forgets after = Forgot env s.forgotten locked.lock subject after
