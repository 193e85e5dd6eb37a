-- ===== src/Tasks/Guards.antt =====
-- What the guards of creation and update let through passes the CHECK.
use arkode.Prelude.{
  ℕ, ◌≡◌, ◌≢◌, refl, ap₂, ◌∙◌, Bool, true, false, not, ◌&&◌, List, Option, none, some, arith,
  or_default, is_some,
}
use arkode.Prelude.Results.{ok, err, ensure, ensure-passed, >>-eq-ok}
use arkode.Types.{
  BackupTask, TaskPipeline, BackupStrategyKind, RemoteDumpExecMode, fetch_existing, remote_dump,
  direct_dump, host, docker,
}
use arkode.Tasks.{check_failed, satisfies_check, passes_check, has_real_backups}
use arkode.Tasks.Create.{is_filled, CreateRemoteDumpTaskInput, validate_mode}
use arkode.Tasks.Update.{
  UpdateTaskInput, resolve_text, resolved, touches_pipeline, check_fetch, check_command, check_dump,
  check_pipeline, check_patch, patched_row,
}

abbrev pub IsChecked : BackupTask → Type 0
IsChecked t = passes_check t ≡ true

is_filled-is_some : (o : Option (List ℕ)) → is_filled o ≡ true → is_some o ≡ true
is_filled-is_some none h = cc
is_filled-is_some (some text) h = refl

-- A validated dump has the columns of its mode.
pub dump_columns-checked :
    (mode : RemoteDumpExecMode) (input : CreateRemoteDumpTaskInput)
    → validate_mode mode input ≡ ok tt
    → (elim mode [
      | host ↦ is_some input.remote_command
      | docker ↦
          is_some input.docker_container
          && is_some input.remote_dump_database
          && is_some input.remote_dump_db_user
    ])
      ≡ true
dump_columns-checked host input h = is_filled-is_some _ (ensure-passed _ _ h)
dump_columns-checked docker input h =
    let named = ensure-passed _ _ (>>-eq-ok (ensure _ _) (ensure _ _) h).0 in
    ground (
      arith,
      is_filled-is_some input.docker_container,
      is_filled-is_some input.remote_dump_database,
      is_filled-is_some input.remote_dump_db_user,
    )

pub validate_mode-spares :
    (mode : RemoteDumpExecMode) (input : CreateRemoteDumpTaskInput)
    → validate_mode mode input ≢ err check_failed
validate_mode-spares host input = ground arith
validate_mode-spares docker input = ground arith

pub resolve_text-absent :
    (o : Option (Option (List ℕ))) (current : Option (List ℕ))
    → is_some o ≡ false
    → resolve_text o current ≡ current
resolve_text-absent none current h = refl
resolve_text-absent (some patched) current h = cc

or_default-absent :
    {A : Type 0} (o : Option A) (current : A) → is_some o ≡ false → or_default o current ≡ current
or_default-absent none current h = refl
or_default-absent (some patched) current h = cc

-- A patch without a pipeline key leaves the pipeline as it is.
pub resolved-untouched :
    (patch : UpdateTaskInput) (current : TaskPipeline)
    → touches_pipeline patch ≡ false
    → resolved patch current ≡ current
resolved-untouched patch current h = rw (
  resolve_text-absent patch.remote_path current.remote_path (ground arith),
  resolve_text-absent patch.remote_file_pattern current.remote_file_pattern (ground arith),
  resolve_text-absent patch.remote_command current.remote_command (ground arith),
  resolve_text-absent patch.remote_output_path_template current.remote_output_path_template
      (ground arith),
  or_default-absent patch.remote_cleanup current.remote_cleanup (ground arith),
)

-- The CHECK reads these columns only.
pub record HasColumnsOf (t t' : BackupTask) : Type 0 where
  pub strategy : t'.strategy ≡ t.strategy
  pub transport_id : t'.transport_id ≡ t.transport_id
  pub database_connection_id : t'.database_connection_id ≡ t.database_connection_id
  pub pipeline : t'.pipeline ≡ t.pipeline

pub same-IsChecked : (t t' : BackupTask) → HasColumnsOf t t' → IsChecked t → IsChecked t'
unfolding passes_check
same-IsChecked t t' same h =
    ap₂ (λ a b. satisfies_check a b t'.database_connection_id t'.pipeline) same.strategy
      same.transport_id
    ∙ ap₂ (satisfies_check t.strategy t.transport_id) same.database_connection_id same.pipeline
    ∙ h

-- The guards of a patch.
module _ (patch : UpdateTaskInput) where
  check_command-spares :
      (mode : RemoteDumpExecMode) (new : TaskPipeline)
      → check_command mode patch new ≢ err check_failed
  check_command-spares host new = ground arith
  check_command-spares docker new = ground arith

  pub check_patch-spares :
      (touched : Bool) (strategy : BackupStrategyKind) (backed : Bool) (new : TaskPipeline)
      → check_patch touched strategy backed patch new ≢ err check_failed
  check_patch-spares false strategy backed new = λ e. cc
  check_patch-spares true direct_dump backed new = λ e. cc
  check_patch-spares true fetch_existing backed new = ground arith
  check_patch-spares true remote_dump backed new =
      ground (arith, check_command-spares new.remote_dump_exec_mode new)

  module _ (transport_id connection_id : Option ℕ) (p : TaskPipeline) where
    check_fetch-checked :
        satisfies_check fetch_existing transport_id connection_id p ≡ true
        → check_fetch patch (resolved patch p) ≡ ok tt
        → satisfies_check fetch_existing transport_id connection_id (resolved patch p) ≡ true
    check_fetch-checked checked h = ground (
      arith,
      resolve_text-absent patch.remote_command p.remote_command,
      resolve_text-absent patch.remote_output_path_template p.remote_output_path_template,
      is_filled-is_some (resolve_text patch.remote_path p.remote_path),
    )

    check_dump-checked :
        (mode : RemoteDumpExecMode)
        → p.remote_dump_exec_mode ≡ mode
        → satisfies_check remote_dump transport_id connection_id p ≡ true
        → check_dump patch (resolved patch p) ≡ ok tt
        → satisfies_check remote_dump transport_id connection_id (resolved patch p) ≡ true
    check_dump-checked host is checked h = ground (
      arith,
      is,
      resolve_text-absent patch.remote_path p.remote_path,
      is_filled-is_some (resolve_text patch.remote_command p.remote_command),
      is_filled-is_some
          (resolve_text patch.remote_output_path_template p.remote_output_path_template),
    )
    check_dump-checked docker is checked h = ground (
      arith,
      is,
      resolve_text-absent patch.remote_path p.remote_path,
      is_filled-is_some
          (resolve_text patch.remote_output_path_template p.remote_output_path_template),
    )

    check_pipeline-checked :
        (strategy : BackupStrategyKind) (backed : Bool)
        → satisfies_check strategy transport_id connection_id p ≡ true
        → check_pipeline strategy backed patch (resolved patch p) ≡ ok tt
        → satisfies_check strategy transport_id connection_id (resolved patch p) ≡ true
    check_pipeline-checked direct_dump backed checked h = cc
    check_pipeline-checked fetch_existing backed checked h =
        check_fetch-checked checked (>>-eq-ok (ensure (not backed) has_real_backups) _ h).1
    check_pipeline-checked remote_dump backed checked h =
        check_dump-checked p.remote_dump_exec_mode refl checked
          (>>-eq-ok (ensure (not backed) has_real_backups) _ h).1

  -- A row that passes the CHECK, under a patch that passes the guards.
  pub patched_row-IsChecked :
      (touched : Bool) (backed : Bool) (t : BackupTask)
      → touches_pipeline patch ≡ touched
      → IsChecked t
      → check_patch touched t.strategy backed patch (resolved patch t.pipeline) ≡ ok tt
      → IsChecked (patched_row patch t)
  unfolding passes_check
  patched_row-IsChecked true backed t touches checked h =
      check_pipeline-checked t.transport_id t.database_connection_id t.pipeline t.strategy backed
        checked h
  patched_row-IsChecked false backed t touches checked h =
      same-IsChecked t (patched_row patch t)
        (record {
          strategy = refl;
          transport_id = refl;
          database_connection_id = refl;
          pipeline = resolved-untouched patch t.pipeline touches;
        })
        checked
