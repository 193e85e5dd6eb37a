-- ===== src/Replication/Target/Sync.antt =====
-- A replication that copies, and the lock of the repository that it copies.
use arkode.Prelude.{
  ℕ, ◌≡◌, refl, ap, sym, subst, ◌∙◌, inl, inr, Bool, true, false, List, Option, none, some,
  Bool-cases,
}
use Prim.Native.String.{String}
use arkode.Types.{Client}
use arkode.FileTypes.{FileBackupRepository, FileBackupOperationKind, replicate}
use arkode.Locking.{LockState, HeldBy, recover_stale_repository_runs, check_repository_lock}
use arkode.Replication.{ReplicationTarget, restic_repo}
use arkode.Replication.Target.{
  ReplicationEnv, ReplicationState, ReplicationRun, Begun, ended, threw, syncing,
  record_immediate_failure, fail_replication, fail_stale_replications, after_remote, crypt_password,
  after_runs, guard_target, after_lock, non_empty, with_password, with_initialized,
  begin_replication, if_enabled, with_client, by_content, list_replications_in_progress,
}

abbrev is_syncing : Begun → Bool
is_syncing (syncing source) = true
is_syncing (ended result) = false
is_syncing (threw message) = false

module _ (env : ReplicationEnv) (target : ReplicationTarget) (source : String) where
  after_remote-lock :
      (failure password : Option String) (s : ReplicationState)
      → (after_remote env target source failure password s).1.lock ≡ s.lock
  unfolding record_immediate_failure fail_replication
  after_remote-lock (some message) password s = refl
  after_remote-lock none (some password) s = refl
  after_remote-lock none none s = elim (Bool-cases target.encrypt_with_crypt) [
    | inl on ↦ rw on refl
    | inr off ↦ rw off refl
  ]

  after_runs-lock :
      (guarded : Bool × List ReplicationRun) (s : ReplicationState)
      → (after_runs env target source guarded s).1.lock ≡ s.lock
  after_runs-lock (true, runs) s = refl
  after_runs-lock (false, runs) s =
      after_remote-lock (env.resolve_rclone_remote target) (crypt_password env target source)
        (record s { runs = runs })

  -- Nothing after the check writes what the lock reads.
  guard_target-lock : (s : ReplicationState) → (guard_target env target source s).1.lock ≡ s.lock
  unfolding guard_target
  guard_target-lock s =
      after_runs-lock
        (fail_stale_replications env (list_replications_in_progress target.id s.runs) s.runs) s

  abbrev Free : ℕ → LockState → Type 0
  Free repository_id lock =
      (kind : FileBackupOperationKind)
      → check_repository_lock env.stale_deps lock repository_id kind ≡ none

  after_lock-Free :
      (repository_id : ℕ) (s s' : ReplicationState) (holder : Option HeldBy) (from : String)
      → check_repository_lock env.stale_deps s.lock repository_id replicate ≡ holder
      → after_lock env target source holder s ≡ (syncing from, s')
      → Free repository_id s'.lock
  unfolding check_repository_lock
  after_lock-Free repository_id s s' none from free begun kind =
      subst (λ (l : LockState). check_repository_lock env.stale_deps l repository_id kind ≡ none)
        (sym (guard_target-lock s) ∙ ap (λ p. p.1.lock) begun) free
  after_lock-Free repository_id s s' (some holder) from held begun kind =
      let copies : false ≡ true = ap (λ p. is_syncing p.0) begun in cc

module _ (env : ReplicationEnv) (target : ReplicationTarget) (repository : FileBackupRepository)
    (from : String) (s s' : ReplicationState) where
  with_password-Free :
      (password : Option String)
      → with_password env target repository password s ≡ (syncing from, s')
      → Free env target from repository.id s'.lock
  unfolding record_immediate_failure
  with_password-Free none begun = let copies : false ≡ true = ap (λ p. is_syncing p.0) begun in cc
  with_password-Free (some password) begun =
      after_lock-Free env target repository.repo_path repository.id
        (record s { lock = recover_stale_repository_runs env.stale_deps repository.id s.lock }) s' _
        from refl begun

  with_initialized-Free :
      (at : Option ℕ)
      → with_initialized env target repository at s ≡ (syncing from, s')
      → Free env target from repository.id s'.lock
  unfolding record_immediate_failure
  with_initialized-Free none begun =
      let copies : false ≡ true = ap (λ p. is_syncing p.0) begun in cc
  with_initialized-Free (some at) begun =
      with_password-Free (non_empty (env.get_secret repository.password_secret_ref)) begun

-- While rclone copies a restic repository, its lock is free: in the state in which the copy of an
-- enabled target starts, the lock check of the repository lets every kind of operation begin, a
-- backup or a prune too.
pub syncing_repository-unlocked :
    (env : ReplicationEnv) (target : ReplicationTarget) (client : Client)
    (repository : FileBackupRepository) (from : String) (s s' : ReplicationState)
    → target.enabled ≡ true
    → env.get_client target.client_id ≡ some client
    → target.content ≡ restic_repo
    → env.get_repository_by_client target.client_id ≡ some repository
    → begin_replication env target s ≡ (syncing from, s')
    → (kind : FileBackupOperationKind)
    → check_repository_lock env.stale_deps s'.lock repository.id kind ≡ none
unfolding begin_replication
syncing_repository-unlocked env target client repository from s s' on known content found begun =
    let steps =
      ap (λ b. if_enabled env b target s) on
      ∙ ap (λ c. with_client env target c s) known
      ∙ ap (λ k. by_content env k target client (env.get_repository_by_client target.client_id) s)
          content
      ∙ ap (λ r. by_content env restic_repo target client r s) found in
    with_initialized-Free env target repository from s s' repository.initialized_at
      (sym steps ∙ begun)
