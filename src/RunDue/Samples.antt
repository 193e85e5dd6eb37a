-- ===== src/RunDue/Samples.antt =====
-- A paused task, and a pass whose runs have the ids from 100 on.
use arkode.Prelude.{ℕ, ◌+◌, false}
use arkode.Types.{BackupTask}
use arkode.Orchestrator.{Env}
use arkode.Orchestrator.Samples.{good_env}
use arkode.Samples.{nightly}

abbrev pub paused : BackupTask
paused = record nightly { id = 8; schedule_enabled = false }

abbrev pub envs : ℕ → Env (Unit {0})
envs k = record good_env { new_id = 100 + k }
