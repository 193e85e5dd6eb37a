-- ===== src/Tasks/Examples.antt =====
-- A task that fetches dumps, with a stored run; a command that is emptied, and a docker dump.
use arkode.Prelude.{ℕ, ◌≡◌, refl, Bool, true, List, [], ◌∷◌, Option, none, some}
use arkode.Prelude.Results.{ok, err}
use arkode.Types.{BackupTask, docker, mysql, unknown}
use arkode.Runs.{Runs}
use arkode.Tables.{update_where, get_where}
use arkode.Samples.{dumps, nightly, stored_run}
use arkode.Tasks.{
  TransportType, ssh, has_real_backup, get_task, passes_check, insert_row, write_row, change_row,
  docker_without_engine, has_real_backups, fetch_without_path,
}
use arkode.Tasks.Create.{CreateRemoteDumpTaskInput, create_remote_dump, dump_row}
use arkode.Tasks.Update.{UpdateTaskInput, update_task, trim_start}
use arkode.Tasks.Operations.{
  Operation, new_remote_dump, patched, deactivated, perform_task, perform_all,
}
use arkode.Tasks.Check.{IsAccepted, perform_task-IsAccepted}
use arkode.Tasks.Kept.{source_of}
use arkode.Tasks.Frozen.{perform_all-frozen}

abbrev one_server : ℕ → Option TransportType
one_server id = some ssh

abbrev no_connection : ℕ → Bool
no_connection id = Bool.false

-- The command "d", which writes to "x".
abbrev dump_input : CreateRemoteDumpTaskInput
dump_input = record {
  client_id = 1;
  transport_id = 3;
  name = "dump";
  db_engine = mysql;
  remote_command = some (b'd' ∷ []);
  remote_output_path_template = b'x' ∷ [];
  remote_cleanup = true;
  schedule_time = none;
  retention_count = none;
  retention_days = none;
  backup_set_id = none;
  remote_dump_exec_mode = none;
  docker_container = none;
  remote_dump_database = none;
  remote_dump_db_user = none;
  remote_dump_db_password_secret_ref = none;
}

abbrev empty_patch : UpdateTaskInput
empty_patch = record {
  name = none;
  retention_count = none;
  retention_days = none;
  backup_set_id = none;
  remote_path = none;
  remote_file_pattern = none;
  remote_command = none;
  remote_output_path_template = none;
  remote_cleanup = none;
}

-- " /e ", which is trimmed.
abbrev move_path : UpdateTaskInput
move_path = record empty_patch {
  name = some "renamed";
  remote_path = some (some (b' ' ∷ b'/' ∷ b'e' ∷ b' ' ∷ []));
}

abbrev stored : Runs
stored = stored_run 1 10 ∷ []

abbrev steps : List (Operation × Runs)
steps =
    (patched 7 move_path, stored)
    ∷ (patched 7 empty_patch, stored)
    ∷ (new_remote_dump 8 dump_input, stored)
    ∷ (deactivated 7, stored)
    ∷ []

program : Unit {0}
unfolding perform_all perform_task get_task get_where update_where passes_check insert_row write_row
    change_row has_real_backup update_task create_remote_dump trim_start
program = tt

perform_task-IsAccepted_example :
    IsAccepted
      (perform_task one_server no_connection (new_remote_dump 8 dump_input) stored (nightly ∷ []))
unfolding program
perform_task-IsAccepted_example =
    perform_task-IsAccepted one_server no_connection (nightly ∷ []) (refl, tt)
      (new_remote_dump 8 dump_input) stored

perform_all-frozen_example :
    (t' : BackupTask) × (get_task 7 (perform_all one_server no_connection steps (nightly ∷ []))
      ≡ some t')
    × (source_of t' ≡ source_of nightly)
unfolding program
perform_all-frozen_example =
    perform_all-frozen one_server no_connection 7 steps (nightly ∷ []) nightly refl
      (refl, (refl, (refl, (refl, tt))))

abbrev moved : BackupTask
moved = record nightly {
  name = "renamed";
  pipeline = record dumps { remote_path = some (b'/' ∷ b'e' ∷ []) };
}

-- Without a backup the path is replaced, trimmed; with one the call throws; an emptied path does too.
move_path-tried :
    (update_task 7 move_path [] (nightly ∷ []) ≡ ok (moved ∷ [], moved))
    × (update_task 7 move_path stored (nightly ∷ []) ≡ err has_real_backups)
    × (update_task 7 (record empty_patch { remote_path = some none }) [] (nightly ∷ [])
        ≡ err fetch_without_path)
unfolding program
move_path-tried = (refl, refl, refl)

-- A docker dump needs its target and a known engine; its command, which the comment calls ignored, is
-- stored.
abbrev docker_input : CreateRemoteDumpTaskInput
docker_input = record dump_input {
  remote_dump_exec_mode = some docker;
  docker_container = some (b'c' ∷ []);
  remote_dump_database = some (b'd' ∷ []);
  remote_dump_db_user = some (b'u' ∷ []);
}

docker_dumps :
    (create_remote_dump one_server no_connection 8 (record docker_input { db_engine = unknown }) []
      ≡ err docker_without_engine)
    × ((dump_row 8 docker_input).pipeline.remote_command ≡ some (b'd' ∷ []))
    × (create_remote_dump one_server no_connection 8 docker_input []
        ≡ ok (dump_row 8 docker_input ∷ [], dump_row 8 docker_input))
unfolding program
docker_dumps = (refl, refl, refl)
