-- ===== src/Orchestrator/Examples.antt =====
-- Runs of one task against a disk and an executor that answer the same each time.
use arkode.Prelude.{◌+◌, ◌≡◌, refl, true, false, [], some, arith}
use arkode.Tables.{Fresh, UniqueKeys}
use arkode.Types.{BackupRun}
use arkode.ProcessIdentity.{is_stale_in_progress_run}
use arkode.Calendar.{civil, next_day, days_in_month}
use arkode.Schedule.IsDue.{is_task_due, is_same_local_date}
use arkode.Runs
use arkode.Runs.{run_id, get_latest_scheduled_by_task, list_in_progress}
use arkode.Orchestrator.{Env, Outcome, returned, threw, run_backup_task}
use arkode.Orchestrator.Steps.{Ends}
use arkode.Orchestrator.Outcomes.{recovered, first_row, fresh_run-finishes, unprepared_run-blocks}
use arkode.Orchestrator.Daily.{scheduled_run-settles_day}
use arkode.Orchestrator.Verdict.{IsProduced, IsValidated, success-IsValidated}
use arkode.Orchestrator.Samples.{acme, good_env, full_disk, stored, busy_row}
use arkode.Samples.{nightly, noon_of}

program : Unit {0}
unfolding run_backup_task is_stale_in_progress_run is_same_local_date civil next_day days_in_month
program = tt

unique_ids : UniqueKeys run_id stored.runs
unique_ids = ((λ e. omega arith, tt), (tt, tt))

unused_id : Fresh run_id 9 stored.runs
unused_id = (λ e. omega arith, (λ e. omega arith, tt))

fresh_run-finishes_example :
    Ends good_env nightly
      (recovered good_env nightly stored.runs)
      (run_backup_task good_env nightly stored)
    × (list_in_progress 7 (run_backup_task good_env nightly stored).1.runs ≡ [])
fresh_run-finishes_example =
    fresh_run-finishes good_env nightly stored acme unique_ids unused_id refl refl refl refl

-- The folder cannot be made; a minute later process 44 still runs.
abbrev no_folder : Env (Unit {0})
no_folder = record good_env { make_target_dir = some full_disk }

unprepared_run-blocks_example :
    ((run_backup_task no_folder nightly stored).0 ≡ threw full_disk)
    × ((run_backup_task good_env nightly (run_backup_task no_folder nightly stored).1).0
        ≡ returned (first_row no_folder nightly stored acme unique_ids unused_id refl refl) true)
unfolding program
unprepared_run-blocks_example =
    unprepared_run-blocks no_folder nightly stored acme unique_ids unused_id refl refl full_disk
      good_env refl refl

scheduled_run-settles_day_example :
    is_task_due nightly
      (noon_of 5 + 3600000)
      (get_latest_scheduled_by_task 7 (run_backup_task good_env nightly stored).1.runs)
    ≡ false
unfolding program
scheduled_run-settles_day_example =
    scheduled_run-settles_day good_env nightly stored acme (noon_of 5 + 3600000) unique_ids
      unused_id refl refl refl refl refl (omega arith, (omega arith, tt)) refl

abbrev row_of : Outcome → BackupRun
row_of (returned run skipped) = run
row_of (threw error) = busy_row

success-IsValidated_example :
    (p : Runs.Produced) × IsProduced good_env nightly p
    × IsValidated good_env nightly p (row_of (run_backup_task good_env nightly stored).0)
unfolding program
success-IsValidated_example =
    success-IsValidated good_env nightly stored acme
      (row_of (run_backup_task good_env nightly stored).0) unique_ids unused_id refl refl refl refl
      refl refl
