-- ===== src/Tasks/Update.antt =====
-- `update`. Of a field of the patch, `undefined` is the outer `none`, and `null` is `some none`.
use Prim.Native.String.{String}
use arkode.Prelude.{
  ℕ, Bool, true, false, not, ◌&&◌, ◌||◌, List, [], ◌∷◌, reverse, Option, none, some, leb, ◌==◌, any,
  or_default, is_some, if◌then◌else◌,
}
use arkode.Prelude.Results.{Result, ok, err, ◌>>=◌, ◌>>◌, ensure, or_throw}
use arkode.Types.{
  BackupTask, TaskPipeline, BackupStrategyKind, RemoteDumpExecMode, fetch_existing, remote_dump,
  direct_dump, host, docker,
}
use arkode.Runs.{Runs}
use arkode.Tasks.{
  Tasks, TaskError, no_task, no_pipeline, has_real_backups, fetch_without_command_fields,
  fetch_without_path, dump_without_path_fields, dump_without_template, docker_builds_command,
  host_without_command, Written, get_task, write_row, has_real_backup,
}
use arkode.Tasks.Create.{is_filled}

pub record UpdateTaskInput : Type 0 where
  pub name : Option String
  pub retention_count : Option (Option ℕ)
  pub retention_days : Option (Option ℕ)
  pub backup_set_id : Option (Option ℕ)
  pub remote_path : Option (Option (List ℕ))
  pub remote_file_pattern : Option (Option (List ℕ))
  pub remote_command : Option (Option (List ℕ))
  pub remote_output_path_template : Option (Option (List ℕ))
  pub remote_cleanup : Option Bool

-- The characters that `trim` removes: white space and line terminators, as UTF-16 code units.
abbrev pub is_space : ℕ → Bool
is_space c =
    (leb 9 c && leb c 13)
    || (leb 8192 c && leb c 8202)
    || any (λ s. s == c) (32 ∷ 160 ∷ 5760 ∷ 8232 ∷ 8233 ∷ 8239 ∷ 8287 ∷ 12288 ∷ 65279 ∷ [])

unfoldable pub trim_start : List ℕ → List ℕ
trim_start [] = []
trim_start (c ∷ cs) = let rest = trim_start cs in if is_space c then rest else c ∷ cs

abbrev pub trim : List ℕ → List ℕ
trim text = reverse (trim_start (reverse (trim_start text)))

-- An emptied text becomes NULL.
abbrev pub null_if_empty : List ℕ → Option (List ℕ)
null_if_empty [] = none
null_if_empty (c ∷ cs) = some (c ∷ cs)

abbrev pub resolve_text : Option (Option (List ℕ)) → Option (List ℕ) → Option (List ℕ)
resolve_text none current = current
resolve_text (some patched) current = null_if_empty (trim (or_default patched []))

-- Whether the patch has one of the keys of the pipeline.
abbrev pub touches_pipeline : UpdateTaskInput → Bool
touches_pipeline patch =
    is_some patch.remote_path
    || is_some patch.remote_file_pattern
    || is_some patch.remote_command
    || is_some patch.remote_output_path_template
    || is_some patch.remote_cleanup

abbrev pub resolved : UpdateTaskInput → TaskPipeline → TaskPipeline
resolved patch current = record current {
  remote_path = resolve_text patch.remote_path current.remote_path;
  remote_file_pattern = resolve_text patch.remote_file_pattern current.remote_file_pattern;
  remote_command = resolve_text patch.remote_command current.remote_command;
  remote_output_path_template =
      resolve_text patch.remote_output_path_template current.remote_output_path_template;
  remote_cleanup = or_default patch.remote_cleanup current.remote_cleanup;
}

abbrev pub check_fetch : UpdateTaskInput → TaskPipeline → Result TaskError (Unit {0})
check_fetch patch new = do
  ensure (not (is_some patch.remote_command || is_some patch.remote_output_path_template))
      fetch_without_command_fields
  ensure (is_filled new.remote_path) fetch_without_path

abbrev pub check_command :
    RemoteDumpExecMode → UpdateTaskInput → TaskPipeline → Result TaskError (Unit {0})
check_command host patch new = ensure (is_filled new.remote_command) host_without_command
check_command docker patch new =
    ensure (not (is_filled (resolve_text patch.remote_command none))) docker_builds_command

abbrev pub check_dump : UpdateTaskInput → TaskPipeline → Result TaskError (Unit {0})
check_dump patch new = do
  ensure (not (is_some patch.remote_path || is_some patch.remote_file_pattern))
      dump_without_path_fields
  ensure (is_filled new.remote_output_path_template) dump_without_template
  check_command new.remote_dump_exec_mode patch new

-- The tests on a patch that touches the pipeline.
abbrev pub check_pipeline :
    BackupStrategyKind → Bool → UpdateTaskInput → TaskPipeline → Result TaskError (Unit {0})
check_pipeline direct_dump backed patch new = err no_pipeline
check_pipeline fetch_existing backed patch new = do
  ensure (not backed) has_real_backups
  check_fetch patch new
check_pipeline remote_dump backed patch new = do
  ensure (not backed) has_real_backups
  check_dump patch new

abbrev pub check_patch :
    Bool → BackupStrategyKind → Bool → UpdateTaskInput → TaskPipeline → Result TaskError (Unit {0})
check_patch false strategy backed patch new = ok tt
check_patch true strategy backed patch new = check_pipeline strategy backed patch new

-- The row of the UPDATE.
abbrev pub patched_row : UpdateTaskInput → BackupTask → BackupTask
patched_row patch current = record current {
  name = or_default patch.name current.name;
  retention_count = or_default patch.retention_count current.retention_count;
  retention_days = or_default patch.retention_days current.retention_days;
  backup_set_id = or_default patch.backup_set_id current.backup_set_id;
  pipeline = resolved patch current.pipeline;
}

unfoldable pub update_task : ℕ → UpdateTaskInput → Runs → Tasks → Written
unfolding get_task write_row has_real_backup trim_start
update_task id patch runs tasks = do
  current ← or_throw (get_task id tasks) no_task
  check_patch (touches_pipeline patch) current.strategy (has_real_backup id runs) patch
      (resolved patch current.pipeline)
  write_row (patched_row patch current) tasks
