-- ===== src/Replication/Target/Record.antt =====
-- What a replication writes on its target.
use arkode.Prelude.{◌≡◌, Bool, true, false, List, Option}
use Prim.Native.String.{String}
use arkode.Prelude.Results.{Result, ok, err}
use arkode.Replication.{ReplicationTarget, ReplicationLastStatus}
use arkode.Replication.Target.{
  ReplicationEnv, ReplicationState, ReplicateTargetResult, Begun, ended, threw, syncing,
  record_result,
}

module _ (env : ReplicationEnv) (target : ReplicationTarget) where
  -- A call that ran has recorded its outcome on the target, one that did not has written nothing.
  abbrev pub IsRecorded : List ReplicationTarget → Bool → List ReplicationTarget → Type 0
  IsRecorded before true after =
      (status : ReplicationLastStatus) × (error : Option String) × (after
        ≡ record_result target.id env.finished_now status error before)
  IsRecorded before false after = after ≡ before

  abbrev pub has_run : Result String ReplicateTargetResult → Bool
  has_run (ok result) = result.ran
  has_run (err message) = false

  abbrev Begins : List ReplicationTarget → Begun × ReplicationState → Type 0
  Begins before (ended result, s) = IsRecorded before result.ran s.targets
  Begins before (threw message, s) = s.targets ≡ before
  Begins before (syncing source, s) = s.targets ≡ before
