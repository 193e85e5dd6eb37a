-- ===== src/Replication/Target.antt =====
-- packages/engine-core/src/replication/replicateTarget.ts: one replication of a target, in two
-- steps around the call of rclone, with the operations of db/repositories/replicationRunsRepo.ts
-- and recordResult of replicationTargetsRepo.ts. The connection to the remote, the test before the
-- copy and rclone itself are parameters.
pub mod Rows
pub mod Sync
pub mod Record
mod Examples
use Prim.Native.String.{String, ◌++◌ as ◌<>◌}
use text.Mathlib.Text.{◌==◌ as str_eq}
use arkode.Prelude.{
  ℕ, Bool, true, false, not, ◌&&◌, List, [], ◌∷◌, Option, none, some, ◌==◌, keep, if◌then◌else◌,
}
use arkode.Prelude.Results.{Result, ok, err}
use arkode.Tables.{update_where, get_where}
use arkode.Types.{Client, BackupRunStatus, running, success, warning, failed, RunTrigger}
use arkode.FileTypes.{FileBackupRepository, replicate}
use arkode.ProcessIdentity.{StaleRunCheckDeps, is_stale_in_progress_run}
use arkode.Locking.{
  LockState, HeldBy, run, maintenance, recover_stale_repository_runs, check_repository_lock,
}
use arkode.Orchestrator.{join}
use arkode.Replication.{
  ReplicationTarget, ReplicationContent, restic_repo, db_dumps, ReplicationLastStatus, last_success,
  last_warning, last_failed,
}
pub use arkode.Replication.Target.Rows.{
  ReplicationRun, RcloneSyncResult, ReplicateStatus, ReplicateTargetResult, ReplicationState,
  ReplicationEnv, target_id_of, replication_run_id, recorded_target, finished_replication,
  is_replicating, holder_name, warning_text, non_empty, Begun, replicated, replicated_with_warnings,
  replication_failed, skipped, ended, threw, syncing,
}
unfoldable pub use arkode.Replication.Target.Rows.{
  record_result, mark_replication_finished, list_replications_in_progress,
}

module _ (env : ReplicationEnv) where
  unfoldable pub create_replication : ReplicationTarget → List ReplicationRun → List ReplicationRun
  create_replication target runs =
      record {
        id = env.new_id;
        target_id = target.id;
        client_id = target.client_id;
        trigger = env.trigger;
        status = running;
        started_at = env.created_now;
        finished_at = none;
        bytes_transferred = none;
        files_transferred = none;
        files_deleted = none;
        error_message = none;
        pid = some env.pid;
      }
      ∷ runs

  abbrev pub skip : String → ReplicationState → Begun × ReplicationState
  skip message s =
      (ended (record { ran = false; status = skipped; run_id = none; message = some message }), s)

  -- `markFinished` and `recordResult` of a failure, and its result.
  unfoldable pub fail_replication :
      ReplicationTarget → String → ReplicationState → ReplicateTargetResult × ReplicationState
  unfolding mark_replication_finished record_result
  fail_replication target message s = (
    record {
      ran = true;
      status = replication_failed;
      run_id = some env.new_id;
      message = some message;
    },
    record s {
      runs =
          mark_replication_finished env.new_id env.finished_now failed none (some message) s.runs;
      targets = record_result target.id env.finished_now last_failed (some message) s.targets;
    },
  )

  abbrev pub with_new_run : ReplicationTarget → ReplicationState → ReplicationState
  with_new_run target s = record s { runs = create_replication target s.runs }

  unfoldable pub record_immediate_failure :
      ReplicationTarget → String → ReplicationState → Begun × ReplicationState
  unfolding create_replication fail_replication
  record_immediate_failure target message s =
      let (result, s') = fail_replication target message (with_new_run target s) in
      (ended result, s')

  -- The loop over the runs of the target that are in progress: true where one is alive.
  unfoldable pub fail_stale_replications :
      List ReplicationRun → List ReplicationRun → Bool × List ReplicationRun
  unfolding mark_replication_finished
  fail_stale_replications [] runs = (false, runs)
  fail_stale_replications (r ∷ rs) runs =
      elim (is_stale_in_progress_run env.stale_deps r.pid (some r.started_at)) [
        | true ↦ fail_stale_replications rs (
            mark_replication_finished r.id env.stale_deps.now failed none
              (some "Replication interrupted: owning process is no longer alive.") runs)
        | false ↦ (true, runs)
      ]

  module _ (target : ReplicationTarget) (source : String) where
    abbrev pub after_remote :
        Option String → Option String → ReplicationState → Begun × ReplicationState
    after_remote (some message) password s = record_immediate_failure target message s
    after_remote none none s =
        if target.encrypt_with_crypt
        then record_immediate_failure target
            "The encryption password for this target could not be read." s
        else (syncing source, with_new_run target s)
    after_remote none (some password) s = (syncing source, with_new_run target s)

    abbrev pub crypt_password : Option String
    crypt_password = elim target.crypt_password_secret_ref [
      | none ↦ none
      | some ref ↦ non_empty (env.get_secret ref)
    ]

    abbrev pub after_runs : Bool × List ReplicationRun → ReplicationState → Begun × ReplicationState
    after_runs (true, runs) s =
        skip "A replication for this target is already running." (record s { runs = runs })
    after_runs (false, runs) s =
        after_remote (env.resolve_rclone_remote target) crypt_password (record s { runs = runs })

    unfoldable pub guard_target : ReplicationState → Begun × ReplicationState
    unfolding list_replications_in_progress fail_stale_replications create_replication
        record_immediate_failure
    guard_target s =
        after_runs (fail_stale_replications (list_replications_in_progress target.id s.runs) s.runs)
          s

    abbrev pub after_lock : Option HeldBy → ReplicationState → Begun × ReplicationState
    after_lock none s = guard_target s
    after_lock (some holder) s = skip ("Repository busy (" <> holder_name holder <> ").") s

    abbrev pub guard_repository : Option ℕ → ReplicationState → Begun × ReplicationState
    guard_repository none s = guard_target s
    guard_repository (some repository_id) s =
        let locked = recover_stale_repository_runs env.stale_deps repository_id s.lock in
        after_lock (check_repository_lock env.stale_deps locked repository_id replicate)
          (record s { lock = locked })

  abbrev pub id_of : Option FileBackupRepository → Option ℕ
  id_of none = none
  id_of (some repository) = some repository.id

  abbrev pub with_password :
      ReplicationTarget
      → FileBackupRepository
      → Option String
      → ReplicationState
      → Begun × ReplicationState
  with_password target repository none s =
      record_immediate_failure target
        "The restic repository password could not be read from secret storage." s
  with_password target repository (some password) s =
      guard_repository target repository.repo_path (some repository.id) s

  abbrev pub with_initialized :
      ReplicationTarget
      → FileBackupRepository
      → Option ℕ
      → ReplicationState
      → Begun × ReplicationState
  with_initialized target repository none s =
      record_immediate_failure target
        "This client has no initialized restic repository to replicate." s
  with_initialized target repository (some at) s =
      with_password target repository (non_empty (env.get_secret repository.password_secret_ref)) s

  abbrev pub by_content :
      ReplicationContent
      → ReplicationTarget
      → Client
      → Option FileBackupRepository
      → ReplicationState
      → Begun × ReplicationState
  by_content restic_repo target client none s =
      record_immediate_failure target
        "This client has no initialized restic repository to replicate." s
  by_content restic_repo target client (some repository) s =
      with_initialized target repository repository.initialized_at s
  by_content db_dumps target client repository s =
      guard_repository target client.local_base_path (id_of repository) s

  abbrev pub with_client :
      ReplicationTarget → Option Client → ReplicationState → Begun × ReplicationState
  with_client target none s = (threw "Client for replication target not found.", s)
  with_client target (some client) s =
      by_content target.content target client (env.get_repository_by_client target.client_id) s

  abbrev pub if_enabled : Bool → ReplicationTarget → ReplicationState → Begun × ReplicationState
  if_enabled false target s = skip "Target is disabled." s
  if_enabled true target s = with_client target (env.get_client target.client_id) s

  -- Up to the call of the test before the copy.
  unfoldable pub begin_replication : ReplicationTarget → ReplicationState → Begun × ReplicationState
  unfolding record_immediate_failure recover_stale_repository_runs check_repository_lock
      guard_target
  begin_replication target s = if_enabled target.enabled target s

  abbrev pub status_of : List String → BackupRunStatus × ReplicationLastStatus × ReplicateStatus
  status_of [] = (success, last_success, replicated)
  status_of (w ∷ ws) = (warning, last_warning, replicated_with_warnings)

  -- The `try` block and the `catch` block, by what the test and rclone answer.
  unfoldable pub finish_replication :
      ReplicationTarget
      → Option String
      → Result String RcloneSyncResult
      → ReplicationState
      → ReplicateTargetResult × ReplicationState
  unfolding mark_replication_finished record_result fail_replication join
  finish_replication target (some message) answer s = fail_replication target message s
  finish_replication target none (err message) s = fail_replication target message s
  finish_replication target none (ok counts) s =
      let (status, last, result) = status_of counts.warnings in
      (
        record {
          ran = true;
          status = result;
          run_id = some env.new_id;
          message = warning_text counts.warnings;
        },
        record s {
          runs =
              mark_replication_finished env.new_id env.finished_now status (some counts)
                (warning_text counts.warnings) s.runs;
          targets =
              record_result target.id env.finished_now last (warning_text counts.warnings)
                s.targets;
        },
      )

  abbrev pub after_begin :
      ReplicationTarget
      → Begun × ReplicationState
      → Result String ReplicateTargetResult × ReplicationState
  after_begin target (ended result, s) = (ok result, s)
  after_begin target (threw message, s) = (err message, s)
  after_begin target (syncing source, s) =
      let (result, s') =
        finish_replication target (env.preflight source) (env.rclone_sync source) s in
      (ok result, s')

  abbrev pub with_target :
      Option ReplicationTarget
      → ReplicationState
      → Result String ReplicateTargetResult × ReplicationState
  with_target none s = (err "Replication target not found.", s)
  with_target (some target) s = after_begin target (begin_replication target s)

  unfoldable pub replicate_target :
      ℕ → ReplicationState → Result String ReplicateTargetResult × ReplicationState
  unfolding begin_replication finish_replication get_where
  replicate_target id s = with_target (get_where target_id_of id s.targets) s
