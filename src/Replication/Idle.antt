-- ===== src/Replication/Idle.antt =====
-- What replications leave of the repository locks.
use arkode.Prelude.{
  ℕ, suc, ◌≡◌, refl, sym, subst, inl, inr, Bool, true, false, List, [], ◌∷◌, Option, none, some,
  Bool-cases,
}
use Prim.Native.String.{String}
use arkode.Prelude.Results.{Result, ok, err}
use arkode.Tables.{get_where}
use arkode.Types.{Client, scheduled}
use arkode.FileTypes.{FileBackupRepository, replicate}
use arkode.Runs.{Runs}
use arkode.Locking.{HeldBy, recover_stale_repository_runs, check_repository_lock}
use arkode.Locking.Exclusion.{IsIdle}
use arkode.Locking.Idle.{recover-IsIdle}
use arkode.Replication.{
  ReplicationTarget, ReplicationContent, restic_repo, db_dumps, is_replication_due,
}
use arkode.Replication.Target.{
  ReplicationEnv, ReplicationState, ReplicationRun, RcloneSyncResult, Begun, ended, threw, syncing,
  target_id_of, record_immediate_failure, fail_replication, fail_stale_replications,
  list_replications_in_progress, after_remote, crypt_password, after_runs, guard_target, after_lock,
  guard_repository, id_of, non_empty, with_password, with_initialized, by_content, with_client,
  if_enabled, begin_replication, finish_replication, after_begin, with_target, replicate_target,
}
use arkode.Replication.Pass.{replicate_if, replicate_due_from, run_due_replications}

module _ (id : ℕ) (env : ReplicationEnv) (target : ReplicationTarget) where
  failure-lock :
      (message : String) (s : ReplicationState)
      → (record_immediate_failure env target message s).1.lock ≡ s.lock
  unfolding record_immediate_failure fail_replication
  failure-lock message s = refl

  module _ (source : String) where
    after_remote-lock :
        (failure password : Option String) (s : ReplicationState)
        → (after_remote env target source failure password s).1.lock ≡ s.lock
    unfolding record_immediate_failure fail_replication
    after_remote-lock (some message) password s = failure-lock message s
    after_remote-lock none (some password) s = refl
    after_remote-lock none none s = elim (Bool-cases target.encrypt_with_crypt) [
      | inl on ↦ rw on refl
      | inr off ↦ rw off refl
    ]

    after_runs-lock :
        (guarded : Bool × List ReplicationRun) (s : ReplicationState)
        → (after_runs env target source guarded s).1.lock ≡ s.lock
    after_runs-lock (true, runs) s = refl
    after_runs-lock (false, runs) s =
        after_remote-lock (env.resolve_rclone_remote target) (crypt_password env target source)
          (record s { runs = runs })

    after_lock-lock :
        (holder : Option HeldBy) (s : ReplicationState)
        → (after_lock env target source holder s).1.lock ≡ s.lock
    unfolding guard_target
    after_lock-lock (some holder) s = refl
    after_lock-lock none s =
        after_runs-lock
          (fail_stale_replications env (list_replications_in_progress target.id s.runs) s.runs) s

  module _ (s : ReplicationState) (idle : IsIdle id s.lock) where
    abbrev KeepsIdle : {A : Type 0} → A × ReplicationState → Type 0
    KeepsIdle result = IsIdle id result.1.lock

    failure-KeepsIdle :
        (message : String) → KeepsIdle (record_immediate_failure env target message s)
    failure-KeepsIdle message = subst (IsIdle id) (sym (failure-lock message s)) idle

    guard_repository-KeepsIdle :
        (source : String) (repository_id : Option ℕ)
        → KeepsIdle (guard_repository env target source repository_id s)
    guard_repository-KeepsIdle source none =
        subst (IsIdle id) (sym (after_lock-lock source none s)) idle
    guard_repository-KeepsIdle source (some repository_id) =
        let locked = recover_stale_repository_runs env.stale_deps repository_id s.lock in
        subst (IsIdle id)
          (sym (
            after_lock-lock source
              (check_repository_lock env.stale_deps locked repository_id replicate)
              (record s { lock = locked })))
          (recover-IsIdle id env.stale_deps repository_id s.lock idle)

    with_password-KeepsIdle :
        (repository : FileBackupRepository) (password : Option String)
        → KeepsIdle (with_password env target repository password s)
    with_password-KeepsIdle repository none = failure-KeepsIdle _
    with_password-KeepsIdle repository (some password) =
        guard_repository-KeepsIdle repository.repo_path (some repository.id)

    by_content-KeepsIdle :
        (content : ReplicationContent) (client : Client) (found : Option FileBackupRepository)
        → KeepsIdle (by_content env content target client found s)
    by_content-KeepsIdle restic_repo client none = failure-KeepsIdle _
    by_content-KeepsIdle restic_repo client (some repository) =
        initialized repository.initialized_at
      where
        initialized : (at : Option ℕ) → KeepsIdle (with_initialized env target repository at s)
        initialized none = failure-KeepsIdle _
        initialized (some at) =
            with_password-KeepsIdle repository
              (non_empty (env.get_secret repository.password_secret_ref))
    by_content-KeepsIdle db_dumps client repository =
        guard_repository-KeepsIdle client.local_base_path (id_of env repository)

    begin_replication-KeepsIdle : KeepsIdle (begin_replication env target s)
    unfolding begin_replication
    begin_replication-KeepsIdle = if_enabled-KeepsIdle target.enabled
      where
        with_client-KeepsIdle : (found : Option Client) → KeepsIdle (with_client env target found s)
        with_client-KeepsIdle none = idle
        with_client-KeepsIdle (some client) =
            by_content-KeepsIdle target.content client
              (env.get_repository_by_client target.client_id)

        if_enabled-KeepsIdle : (enabled : Bool) → KeepsIdle (if_enabled env enabled target s)
        if_enabled-KeepsIdle false = idle
        if_enabled-KeepsIdle true = with_client-KeepsIdle (env.get_client target.client_id)

  finish_replication-lock :
      (failure : Option String) (answer : Result String RcloneSyncResult) (s : ReplicationState)
      → (finish_replication env target failure answer s).1.lock ≡ s.lock
  unfolding finish_replication fail_replication
  finish_replication-lock (some message) answer s = refl
  finish_replication-lock none (err message) s = refl
  finish_replication-lock none (ok counts) s = refl

  after_begin-IsIdle :
      (begun : Begun × ReplicationState)
      → IsIdle id begun.1.lock
      → IsIdle id (after_begin env target begun).1.lock
  after_begin-IsIdle (ended result, s) idle = idle
  after_begin-IsIdle (threw message, s) idle = idle
  after_begin-IsIdle (syncing source, s) idle =
      subst (IsIdle id)
        (sym (finish_replication-lock (env.preflight source) (env.rclone_sync source) s)) idle

replicate_target-IsIdle :
    (id : ℕ) (env : ReplicationEnv) (target_id : ℕ) (s : ReplicationState)
    → IsIdle id s.lock
    → IsIdle id (replicate_target env target_id s).1.lock
unfolding replicate_target
replicate_target-IsIdle id env target_id s idle =
    with_target-IsIdle (get_where target_id_of target_id s.targets)
  where
    with_target-IsIdle :
        (found : Option ReplicationTarget) → IsIdle id (with_target env found s).1.lock
    with_target-IsIdle none = idle
    with_target-IsIdle (some target) =
        after_begin-IsIdle id env target (begin_replication env target s)
          (begin_replication-KeepsIdle id env target s idle)

module _ (id : ℕ) (envs : ℕ → ReplicationEnv) (now interval : ℕ) (runs : Runs) where
  replicate_if-IsIdle :
      (due : Bool) (k : ℕ) (target : ReplicationTarget) (s : ReplicationState)
      → IsIdle id s.lock
      → IsIdle id (replicate_if envs now interval runs due k target s).1.lock
  replicate_if-IsIdle false k target s idle = idle
  replicate_if-IsIdle true k target s idle =
      replicate_target-IsIdle id (record (envs k) { trigger = scheduled }) target.id s idle

  replicate_due_from-IsIdle :
      (k : ℕ) (targets : List ReplicationTarget) (s : ReplicationState)
      → IsIdle id s.lock
      → IsIdle id (replicate_due_from envs now interval runs k targets s).1.lock
  unfolding replicate_due_from
  replicate_due_from-IsIdle k [] s idle = idle
  replicate_due_from-IsIdle k (target ∷ targets) s idle =
      replicate_due_from-IsIdle (suc k) targets _ (
        replicate_if-IsIdle (is_replication_due now interval target runs s.lock.runs) k target s
          idle)

  -- A pass leaves every repository unlocked that it found unlocked.
  pub replications-IsIdle :
      (targets : List ReplicationTarget) (s : ReplicationState)
      → IsIdle id s.lock
      → IsIdle id (run_due_replications envs now interval runs targets s).1.lock
  unfolding run_due_replications
  replications-IsIdle targets s idle = replicate_due_from-IsIdle 0 targets s idle
