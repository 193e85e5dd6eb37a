-- ===== src/Replication/Pass.antt =====
-- packages/engine-core/src/replication/runDueReplications.ts: one pass over the enabled targets. What
-- the k-th target of the pass meets is the k-th environment.
use arkode.Prelude.{ℕ, suc, Bool, true, false, List, [], ◌∷◌, Option, none, some}
use Prim.Native.String.{String}
use arkode.Prelude.Results.{Result, ok, err}
use arkode.Types.{scheduled}
use arkode.Runs.{Runs}
use arkode.Replication.{ReplicationContent, ReplicationTarget, is_replication_due}
use arkode.Replication.Target.{
  ReplicationEnv, ReplicationState, ReplicateTargetResult, replicate_target,
}

pub record ReplicationRunDueResult : Type 0 where
  pub target_id : ℕ
  pub client_id : ℕ
  pub content : ReplicationContent
  pub ran : Bool
  pub result : Option ReplicateTargetResult
  pub error : Option String

abbrev pub target_not_due : ReplicationTarget → ReplicationRunDueResult
target_not_due target = record {
  target_id = target.id;
  client_id = target.client_id;
  content = target.content;
  ran = false;
  result = none;
  error = none;
}

-- The `try` and the `catch` around `replicateTarget`.
abbrev pub target_result_of :
    ReplicationTarget → Result String ReplicateTargetResult → ReplicationRunDueResult
target_result_of target (ok result) = record {
  target_id = target.id;
  client_id = target.client_id;
  content = target.content;
  ran = result.ran;
  result = some result;
  error = none;
}
target_result_of target (err message) = record {
  target_id = target.id;
  client_id = target.client_id;
  content = target.content;
  ran = true;
  result = none;
  error = some message;
}

-- `runs` is the table of the database backups, which a replication only reads.
module _ (envs : ℕ → ReplicationEnv) (now interval : ℕ) (runs : Runs) where
  abbrev pub replicate_if :
      Bool → ℕ → ReplicationTarget → ReplicationState → ReplicationRunDueResult × ReplicationState
  replicate_if false k target s = (target_not_due target, s)
  replicate_if true k target s =
      let (answer, s') = replicate_target (record (envs k) { trigger = scheduled }) target.id s in
      (target_result_of target answer, s')

  unfoldable pub replicate_due_from :
      ℕ
      → List ReplicationTarget
      → ReplicationState
      → List ReplicationRunDueResult × ReplicationState
  unfolding replicate_target is_replication_due
  replicate_due_from k [] s = ([], s)
  replicate_due_from k (target ∷ targets) s =
      let due = is_replication_due now interval target runs s.lock.runs in
      let (result, s1) = replicate_if due k target s in
      let (results, s2) = replicate_due_from (suc k) targets s1 in (result ∷ results, s2)

  unfoldable pub run_due_replications :
      List ReplicationTarget → ReplicationState → List ReplicationRunDueResult × ReplicationState
  unfolding replicate_due_from
  run_due_replications targets s = replicate_due_from 0 targets s
