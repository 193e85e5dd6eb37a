-- ===== src/FileDeletion.antt =====
-- packages/engine-core/src/fileBackup/retention/deleteFileBackupRun.ts: forgetting one snapshot on
-- request. restic and the secrets are parameters.
pub mod Laws
mod Examples
use Prim.Native.String.{String}
use arkode.Prelude.{ℕ, List, ◌∷◌, Option, none, some}
use arkode.Prelude.Results.{Result, ok, err, ◌>>=◌, or_throw}
use arkode.FileTypes.{FileBackupRepository, FileBackupRun, forget}
use arkode.FileRepositories.{FileRepositories, get_repository_by_id}
use arkode.FileRuns.{get_file_run_by_id}
use arkode.ProcessIdentity.{StaleRunCheckDeps}
use arkode.Locking.{LockState, HeldBy, recover_stale_repository_runs, check_repository_lock}
use arkode.FileOrchestrator.{FileRetentionDeletion, manual_delete, text_of}

-- What a call meets; `W` is the state of the restic repositories.
pub record DeletionEnv (W : Type 0) : Type 0 where
  pub stale_deps : StaleRunCheckDeps
  pub repositories : FileRepositories
  pub get_secret : String → Option String
  pub forget_snapshot : String → String → String → W → Result String (Unit {0}) × W

pub record DeletionState (W : Type 0) : Type 0 where
  pub lock : LockState
  pub forgotten : List FileRetentionDeletion
  pub restic : W

-- The run, its snapshot and its repository, from the three tests before the lock.
pub record Subject : Type 0 where
  pub run : FileBackupRun
  pub snapshot : String
  pub repository : FileBackupRepository

module _ {W : Type 0} (env : DeletionEnv W) where
  unfoldable pub deletion_subject : ℕ → DeletionState W → Result String Subject
  unfolding get_file_run_by_id get_repository_by_id
  deletion_subject run_id s = do
    run ← or_throw (get_file_run_by_id run_id s.lock.runs) "File-backup run not found."
    snapshot ← or_throw (text_of run.snapshot_id) "Run has no snapshot to delete."
    repository ←
        or_throw (get_repository_by_id run.repository_id env.repositories) "Repository not found."
    ok (record { run = run; snapshot = snapshot; repository = repository })

  abbrev pub manual_deletion : Subject → FileRetentionDeletion
  manual_deletion subject = record {
    task_id = subject.run.task_id;
    forgotten_snapshot_id = subject.snapshot;
    triggered_by_run_id = none;
    reason = manual_delete;
  }

  abbrev pub after_forget_snapshot :
      Subject
      → Result String (Unit {0}) × W
      → DeletionState W
      → Result String (Unit {0}) × DeletionState W
  after_forget_snapshot subject (err message, restic) s =
      (err message, record s { restic = restic })
  after_forget_snapshot subject (ok done, restic) s =
      (ok tt, record s { forgotten = manual_deletion subject ∷ s.forgotten; restic = restic })

  abbrev pub forget_one :
      Subject → Option String → DeletionState W → Result String (Unit {0}) × DeletionState W
  forget_one subject none s = (err "Could not resolve the repository password.", s)
  forget_one subject (some password) s =
      after_forget_snapshot subject
        (env.forget_snapshot subject.repository.repo_path password subject.snapshot s.restic) s

  abbrev pub if_unlocked :
      Subject → Option HeldBy → DeletionState W → Result String (Unit {0}) × DeletionState W
  if_unlocked subject (some holder) s = (
    err
        "This repository is currently busy with another backup or maintenance operation — try again shortly.",
    s,
  )
  if_unlocked subject none s =
      forget_one subject (text_of (env.get_secret subject.repository.password_secret_ref)) s

  abbrev pub delete_subject :
      Result String Subject → DeletionState W → Result String (Unit {0}) × DeletionState W
  delete_subject (err message) s = (err message, s)
  delete_subject (ok subject) s =
      let id = subject.repository.id in
      let locked = recover_stale_repository_runs env.stale_deps id s.lock in
      if_unlocked subject (check_repository_lock env.stale_deps locked id forget)
        (record s { lock = locked })

  -- `{ deleted: true }` is the only answer.
  unfoldable pub delete_file_backup_run :
      ℕ → DeletionState W → Result String (Unit {0}) × DeletionState W
  unfolding deletion_subject recover_stale_repository_runs check_repository_lock
  delete_file_backup_run run_id s = delete_subject (deletion_subject run_id s) s
