-- ===== src/FileOrchestrator.antt =====
-- packages/engine-core/src/fileBackup/orchestrator/runFileBackupTask.ts, with the retention of
-- fileBackup/retention/applyFileBackupRetention.ts: one run of a folder backup. The restic program,
-- the transports and the secrets are parameters; log lines and progress are left out.
pub mod Environment
pub mod Ending
pub mod Release
pub mod Samples
mod Examples
use Prim.Native.String.{String, ◌++◌ as ◌<>◌}
use text.Mathlib.Text.{◌==◌ as str_eq}
use arkode.Prelude.{
  ℕ, Bool, true, false, not, ◌&&◌, List, [], ◌∷◌, ◌++◌, Option, none, some, ◌==◌, or_else, is_some,
  if◌then◌else◌,
}
use arkode.Prelude.Results.{Result, ok, err, ◌>>=◌, ◌>>◌, ensure, or_throw}
use arkode.Types.{Client, success, warning, failed}
use arkode.FileTypes.{
  FileBackupRepository, FileBackupSourceKind, local_folder, remote_folder, FileBackupTask,
  FileBackupRun, backup,
}
use arkode.ProcessIdentity.{StaleRunCheckDeps}
use arkode.FileRuns.{
  FileRuns, CreateFileBackupRunInput, create_file_run, mark_file_producing, record_backup_summary,
  mark_file_finished, get_file_run_by_id, get_latest_successful_file_run_by_task,
}
use arkode.Locking.{
  LockState, HeldBy, run, maintenance, recover_stale_repository_runs, check_repository_lock,
}
use arkode.Retention.{RetentionPolicy}
use arkode.Orchestrator.{join}
pub use arkode.FileOrchestrator.Environment.{
  Thrown, ResticBackupSummary, ForgetReason, FileRetentionDeletion, FileEnv, FileState, FileOutcome,
  resolve_file_backup_retention_policy, reason_of, text_of, all_file_warnings, record_forgotten,
  retention_count_and_days, retention_count, retention_days, manual_delete, returned, threw,
}

module _ {W : Type 0} (env : FileEnv W) where
  abbrev pub new_error : String → Thrown
  new_error message = record { message = message; stack = some (env.stack_of message) }

  abbrev pub set_runs : FileState W → FileRuns → FileState W
  set_runs s runs = record s { lock = record s.lock { runs = runs } }

  module _ (task : FileBackupTask) where
    unfoldable pub resolve_source_path : Client → Result Thrown String
    resolve_source_path client = by_kind task.source_kind
      where
        by_kind : FileBackupSourceKind → Result Thrown String
        by_kind local_folder =
            or_throw (text_of task.source_path)
              (new_error "local_folder task has no sourcePath — this should never happen.")
        by_kind remote_folder = ok (env.staging_dir client.local_base_path task.id)

    abbrev pub throw_thrown : Option Thrown → Result Thrown (Unit {0})
    throw_thrown none = ok tt
    throw_thrown (some error) = err error

    -- `syncRemoteSourceIfNeeded` for a remote folder, the test of the folder for a local one.
    unfoldable pub prepare_source : String → Result Thrown (Unit {0})
    prepare_source source = by_kind task.source_kind
      where
        by_kind : FileBackupSourceKind → Result Thrown (Unit {0})
        by_kind local_folder =
            ensure (env.path_exists_as_directory source)
              (new_error "Source folder does not exist or is not a directory.")
        by_kind remote_folder = do
          transport ←
              or_throw task.transport_id
                (new_error "remote_folder task is missing transportId/remoteSourcePath.")
          remote ←
              or_throw (text_of task.remote_source_path)
                (new_error "remote_folder task is missing transportId/remoteSourcePath.")
          ensure (env.has_transport transport)
              (new_error "Transport not found for file-backup task.")
          throw_thrown (env.sync_remote_folder transport remote source)

    module _ (client : Client) (repository : FileBackupRepository) (source : String) where
      abbrev pub after_forget :
          RetentionPolicy → FileState W → Result Thrown (List String) × W → FileState W
      after_forget policy s (err error, restic) = record s { restic = restic }
      after_forget policy s (ok removed, restic) = record s {
        forgotten = record_forgotten task.id env.new_id (reason_of policy) removed s.forgotten;
        restic = restic;
      }

      abbrev pub forget_with : RetentionPolicy → Option String → FileState W → FileState W
      forget_with policy none s = s
      forget_with policy (some password) s =
          after_forget policy s (env.forget repository.repo_path password source policy s.restic)

      -- `applyRetentionSafely`: errors end in the log.
      unfoldable pub apply_file_retention_safely : FileState W → FileState W
      apply_file_retention_safely s =
          let policy = resolve_file_backup_retention_policy client task in
          if not (is_some policy.count) && not (is_some policy.days)
          then s
          else forget_with policy (text_of (env.get_secret repository.password_secret_ref)) s

      abbrev pub read_back : Option FileBackupRun → Thrown → FileOutcome
      read_back none error = threw error
      read_back (some row) error = returned row false

      -- The `catch` block.
      unfoldable pub handle_file_error : Thrown → FileState W → FileOutcome × FileState W
      unfolding mark_file_finished apply_file_retention_safely get_file_run_by_id
      handle_file_error error s =
          let runs =
            mark_file_finished env.new_id env.finished_now failed (some error.message) error.stack
              s.lock.runs in
          let s' = apply_file_retention_safely (set_runs s runs) in
          (read_back (get_file_run_by_id env.new_id s'.lock.runs) error, s')

      abbrev pub return_finished : Option FileBackupRun → FileState W → FileOutcome × FileState W
      return_finished (some row) s = (returned row false, s)
      return_finished none s =
          handle_file_error
            (new_error "File-backup run vanished after completion — this should never happen.") s

      unfoldable pub finish_with : List String → FileRuns → FileRuns
      unfolding mark_file_finished join
      finish_with [] runs = mark_file_finished env.new_id env.finished_now success none none runs
      finish_with (w ∷ ws) runs =
          mark_file_finished env.new_id env.finished_now warning (some (join (w ∷ ws))) none runs

      -- `filesDeleted`: 0 without a previous snapshot, and where the diff throws.
      abbrev pub files_deleted_since : String → String → Option FileBackupRun → ℕ
      files_deleted_since password snapshot none = 0
      files_deleted_since password snapshot (some previous) = elim previous.snapshot_id [
        | none ↦ 0
        | some before ↦ elim (env.diff_snapshots repository.repo_path password before snapshot) [
          | ok removed ↦ removed
          | err error ↦ 0
        ]
      ]

      abbrev pub after_backup :
          String → Result Thrown ResticBackupSummary → FileState W → FileOutcome × FileState W
      after_backup password (err error) s = handle_file_error error s
      after_backup password (ok summary) s =
          let deleted =
            files_deleted_since password summary.snapshot_id
              (get_latest_successful_file_run_by_task task.id s.lock.runs) in
          let recorded =
            record_backup_summary env.new_id summary.snapshot_id summary.total_bytes_processed
              deleted s.lock.runs in
          let runs = finish_with (all_file_warnings summary) recorded in
          let s' = apply_file_retention_safely (set_runs s runs) in
          return_finished (get_file_run_by_id env.new_id s'.lock.runs) s'

      abbrev pub after_password : Result Thrown String → FileState W → FileOutcome × FileState W
      after_password (err error) s = handle_file_error error s
      after_password (ok password) s =
          let (answer, restic) = env.run_backup repository.repo_path password source s.restic in
          after_backup password answer (record s { restic = restic })

      abbrev pub password_for : Result Thrown String
      password_for = do
        prepare_source source
        or_throw (text_of (env.get_secret repository.password_secret_ref))
            (new_error "Could not resolve the password for file-backup repository.")

      -- The `try` block.
      unfoldable pub attempt_file : FileState W → FileOutcome × FileState W
      unfolding mark_file_producing prepare_source record_backup_summary finish_with
          handle_file_error get_latest_successful_file_run_by_task
      attempt_file s =
          after_password password_for (set_runs s (mark_file_producing env.new_id s.lock.runs))

      abbrev pub create_file_input : CreateFileBackupRunInput
      create_file_input = record {
        task_id = task.id;
        client_id = task.client_id;
        repository_id = task.repository_id;
        pid = env.pid;
      }

      abbrev pub create_and_attempt : FileState W → FileOutcome × FileState W
      create_and_attempt s =
          attempt_file
            (set_runs s (create_file_run env.new_id env.created_now create_file_input s.lock.runs))

    abbrev pub with_source :
        Client
        → FileBackupRepository
        → Result Thrown String
        → FileState W
        → FileOutcome × FileState W
    with_source client repository (err error) s = (threw error, s)
    with_source client repository (ok source) s = create_and_attempt client repository source s

    abbrev pub if_initialized :
        Client → FileBackupRepository → Option ℕ → FileState W → FileOutcome × FileState W
    if_initialized client repository none s =
        (threw (new_error "File-backup repository has not been initialized yet."), s)
    if_initialized client repository (some at) s =
        with_source client repository (resolve_source_path client) s

    abbrev pub with_repository :
        Client → Option FileBackupRepository → FileState W → FileOutcome × FileState W
    with_repository client none s =
        (threw (new_error "File-backup repository not found for task."), s)
    with_repository client (some repository) s =
        if_initialized client repository repository.initialized_at s

    abbrev pub with_client : Option Client → FileState W → FileOutcome × FileState W
    with_client none s = (threw (new_error "Client not found for file-backup task."), s)
    with_client (some client) s = with_repository client (env.get_repository task.repository_id) s

    abbrev pub busy : Thrown
    busy = new_error "File-backup repository is busy with maintenance — try again shortly."

    abbrev pub skip_run : Option FileBackupRun → FileState W → FileOutcome × FileState W
    skip_run none s = (threw busy, s)
    skip_run (some row) s = (returned row true, s)

    abbrev pub by_holder : Option HeldBy → FileState W → FileOutcome × FileState W
    by_holder none s = with_client (env.get_client task.client_id) s
    by_holder (some (run id)) s = skip_run (get_file_run_by_id id s.lock.runs) s
    by_holder (some (maintenance id)) s = (threw busy, s)

    unfoldable pub run_file_backup_task : FileState W → FileOutcome × FileState W
    unfolding recover_stale_repository_runs check_repository_lock resolve_source_path
        create_file_run attempt_file get_file_run_by_id
    run_file_backup_task s =
        let locked = recover_stale_repository_runs env.stale_deps task.repository_id s.lock in
        by_holder (check_repository_lock env.stale_deps locked task.repository_id backup)
          (record s { lock = locked })
