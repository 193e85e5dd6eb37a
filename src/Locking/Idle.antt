-- ===== src/Locking/Idle.antt =====
-- Nothing that a repository lock reads comes back into progress by a recovery.
use arkode.Prelude.{
  ℕ, ◌≡◌, refl, Bool, true, false, List, [], ◌∷◌, keep, arith, ◌==◌, if◌then◌else◌,
}
use arkode.Tables.{update_where, Fresh}
use arkode.Tables.Recover.{fail_stale}
use arkode.ProcessIdentity.{StaleRunCheckDeps}
use arkode.FileRuns.{
  file_run_id, maintenance_run_id, list_file_in_progress, list_maintenance_in_progress,
  is_file_in_progress, is_maintenance_in_progress,
}
use arkode.Locking.{
  LockState, recover_stale_repository_runs, is_stale_file_run, is_stale_maintenance_run,
  fail_file_run, fail_maintenance_run,
}
use arkode.Locking.Exclusion.{IsIdle, not_listed}

module _ {A : Type 0} (key : A → ℕ) (listed : A → Bool) (change : A → A)
    (done : (r : A) → listed (change r) ≡ false) where
  -- An UPDATE that takes rows off the listing adds none to it.
  pub update_where-unlisted :
      (id : ℕ) (rows : List A)
      → keep listed rows ≡ []
      → keep listed (update_where key id change rows) ≡ []
  unfolding update_where
  update_where-unlisted id [] h = refl
  update_where-unlisted id (r ∷ rs) h = ground (arith, done r, update_where-unlisted id rs)

  fail_stale-unlisted :
      (is_stale : A → Bool) (ls rows : List A)
      → keep listed rows ≡ []
      → keep listed (fail_stale key is_stale change ls rows) ≡ []
  unfolding fail_stale
  fail_stale-unlisted is_stale [] rows h = h
  fail_stale-unlisted is_stale (l ∷ ls) rows h =
      fail_stale-unlisted is_stale ls _ (if_unlisted (is_stale l))
    where
      if_unlisted :
          (b : Bool) → keep listed (if b then update_where key (key l) change rows else rows) ≡ []
      if_unlisted true = update_where-unlisted (key l) rows h
      if_unlisted false = h

  -- So does an INSERT that such an UPDATE follows.
  pub inserted-unlisted :
      (r : A) (rows : List A)
      → keep listed rows ≡ []
      → keep listed (update_where key (key r) change (r ∷ rows)) ≡ []
  unfolding update_where
  inserted-unlisted r rows h = ground (arith, done r, update_where-unlisted (key r) rows h)

module _ {A : Type 0} (key : A → ℕ) (change : A → A) (same : (r : A) → key (change r) ≡ key r) where
  update_where-keeps_fresh :
      (id j : ℕ) (rows : List A) → Fresh key j rows → Fresh key j (update_where key id change rows)
  unfolding update_where
  update_where-keeps_fresh id j [] h = tt
  update_where-keeps_fresh id j (r ∷ rs) h =
      ground (arith, same r, update_where-keeps_fresh id j rs h.1)

  -- An id that no row has stays free through a recovery.
  pub fail_stale-keeps_fresh :
      (is_stale : A → Bool) (j : ℕ) (ls rows : List A)
      → Fresh key j rows
      → Fresh key j (fail_stale key is_stale change ls rows)
  unfolding fail_stale
  fail_stale-keeps_fresh is_stale j [] rows h = h
  fail_stale-keeps_fresh is_stale j (l ∷ ls) rows h =
      fail_stale-keeps_fresh is_stale j ls _ (if_stale (is_stale l))
    where
      if_stale : (b : Bool) → Fresh key j (if b then update_where key (key l) change rows else rows)
      if_stale true = update_where-keeps_fresh (key l) j rows h
      if_stale false = h

pub recover-IsIdle :
    (id : ℕ) (deps : StaleRunCheckDeps) (repository_id : ℕ) (lock : LockState)
    → IsIdle id lock
    → IsIdle id (recover_stale_repository_runs deps repository_id lock)
unfolding recover_stale_repository_runs
recover-IsIdle id deps repository_id lock (no_runs, no_maintenance) = (
  fail_stale-unlisted file_run_id (is_file_in_progress id) (fail_file_run deps)
      (λ r. not_listed (r.repository_id == id)) (is_stale_file_run deps)
      (list_file_in_progress repository_id lock.runs) lock.runs no_runs,
  fail_stale-unlisted maintenance_run_id (is_maintenance_in_progress id) (fail_maintenance_run deps)
      (λ r. not_listed (r.repository_id == id)) (is_stale_maintenance_run deps)
      (list_maintenance_in_progress repository_id lock.maintenance) lock.maintenance no_maintenance,
)

pub recover-Fresh :
    (deps : StaleRunCheckDeps) (repository_id j : ℕ) (lock : LockState)
    → Fresh file_run_id j lock.runs
    → Fresh file_run_id j (recover_stale_repository_runs deps repository_id lock).runs
unfolding recover_stale_repository_runs
recover-Fresh deps repository_id j lock h =
    fail_stale-keeps_fresh file_run_id (fail_file_run deps) (λ r. refl) (is_stale_file_run deps) j
      (list_file_in_progress repository_id lock.runs) lock.runs h
