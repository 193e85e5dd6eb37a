-- ===== src/Dashboard/Examples.antt =====
-- The nightly task, with two stored runs and then one whose validation failed.
use arkode.Prelude.{◌≡◌, refl, [], ◌∷◌, some, arith}
use arkode.Types.{BackupRun, failed}
use arkode.Calendar.{civil, next_day, days_in_month}
use arkode.Schedule.IsDue.{is_same_local_date}
use arkode.Schedule.TimeText.{matches_time_format, hours_minutes}
use arkode.Schedule.Next.{next_scheduled_run_at, walk}
use arkode.Tables.Newest.{newest_first}
use arkode.Runs.{Runs, get_latest_scheduled_by_task}
use arkode.Dashboard.{db_row}
use arkode.Dashboard.Rows.{failed_run-shown_good}
use arkode.Samples.{nightly, stored_run, noon_of}

abbrev stored_runs : Runs
stored_runs = stored_run 2 (noon_of 5) ∷ stored_run 1 (noon_of 4) ∷ []

abbrev bad_dump : BackupRun
bad_dump = record (stored_run 3 (noon_of 6)) { status = failed }

program : Unit {0}
unfolding db_row next_scheduled_run_at hours_minutes walk matches_time_format
    get_latest_scheduled_by_task newest_first is_same_local_date civil next_day days_in_month
program = tt

failed_run-shown_good_example :
    ((db_row (noon_of 6) (bad_dump ∷ stored_runs) nightly).status ≡ some failed)
    × ((db_row (noon_of 6) (bad_dump ∷ stored_runs) nightly).last_good_backup_at ≡ some (noon_of 6))
    × ((db_row (noon_of 6) (bad_dump ∷ stored_runs) nightly).size_bytes ≡ some 10)
    × ((db_row (noon_of 6) (bad_dump ∷ stored_runs) nightly).checksum_sha256 ≡ some "sum")
failed_run-shown_good_example =
    failed_run-shown_good nightly (noon_of 6) bad_dump stored_runs "dump" refl refl refl
      (omega arith, (omega arith, tt))
