-- ===== src/FileDeletion/Examples.antt =====
-- Run 1 has a snapshot, and the repository is locked until run 2 is found dead.
use arkode.Prelude.{[], ◌∷◌, some}
use arkode.Prelude.Results.{ok}
use arkode.Types.{success}
use arkode.FileTypes.{FileBackupRun}
use arkode.ProcessIdentity.{default_deps}
use arkode.FileOrchestrator.Samples.{repository, dead_run}
use arkode.FileDeletion.{DeletionEnv, DeletionState}
use arkode.Samples.{one_process, noon_of}

abbrev stored_snapshot : FileBackupRun
stored_snapshot = record dead_run { status = success; snapshot_id = some "abcd" }

abbrev deletion_env : DeletionEnv (Unit {0})
deletion_env = record {
  stale_deps = default_deps (noon_of 5) one_process;
  repositories = repository ∷ [];
  get_secret = λ ref. some "secret";
  forget_snapshot = λ path password snapshot w. (ok tt, w);
}

abbrev with_snapshot : DeletionState (Unit {0})
with_snapshot = record {
  lock = record { runs = record dead_run { id = 2 } ∷ stored_snapshot ∷ []; maintenance = [] };
  forgotten = [];
  restic = tt;
}
