-- ===== src/Vault/State/Frame.antt =====
-- The operations that leave the metadata row alone.
use arkode.Prelude.{
  ℕ, ◌≡◌, refl, ◌∙◌, Bool, true, false, not, ◌||◌, List, Option, none, some, if◌then◌else◌, arith,
}
use arkode.Prelude.Results.{Result, ok, err}
use arkode.Vault.Crypto.{ScryptParams, NodeCrypto}
use arkode.Vault.AutoUnlock.{AutoUnlockDeps, EnableError}
use arkode.Vault.Session.{
  VaultMeta, VaultState, Call, VaultError, lock, is_unlocked, auto_unlock_on, apply_dek,
}
use arkode.Vault.State.{
  enable_quietly, init, adopt, unlock, with_dek, touch, set_auto_lock_ms, status_with,
  auto_unlock_status, enabled_with, enable_checked, enable_for, enable_auto_unlock,
  without_key_file, disable_auto_unlock, adopt_kek, is_ok, unlock_from_file, unlock_with_windows,
  attempt_startup_auto_unlock, timer_fires,
}

-- One operation of the vault, without what it returns.
pub data Operation : Type 0 where
  init_again : List ℕ → ScryptParams → Operation
  unlock_by : List ℕ → Bool → Operation
  lock_now use_dek touch_now read_status : Operation
  set_idle : Option ℕ → Operation
  enable_auto : List ℕ → Operation
  disable_auto unlock_windows startup timer : Operation

module _ (crypto : NodeCrypto) (auto_unlock : Option AutoUnlockDeps) where
  unfoldable pub perform : Call → Operation → VaultState → VaultState
  perform call (init_again password params) s = (init crypto auto_unlock call password params s).1
  perform call (unlock_by password enable) s = (unlock crypto auto_unlock call password enable s).1
  perform call lock_now s = lock s
  perform call use_dek s = (with_dek crypto auto_unlock call s).1
  perform call touch_now s = touch crypto auto_unlock call s
  perform call read_status s = (auto_unlock_status crypto auto_unlock s).1
  perform call (set_idle ms) s = set_auto_lock_ms crypto auto_unlock call ms s
  perform call (enable_auto password) s = (enable_auto_unlock crypto auto_unlock call password s).1
  perform call disable_auto s = disable_auto_unlock crypto auto_unlock call s
  perform call unlock_windows s = (unlock_with_windows crypto auto_unlock call s).1
  perform call startup s = (attempt_startup_auto_unlock crypto auto_unlock call s).1
  perform call timer s = timer_fires crypto auto_unlock call.now s

  module _ (call : Call) where
    enable_quietly-meta :
        (o : Option AutoUnlockDeps) (kek salt : List ℕ) (s : VaultState)
        → (enable_quietly crypto auto_unlock call o kek salt s).vault_meta ≡ s.vault_meta
    enable_quietly-meta none kek salt s = refl
    enable_quietly-meta (some deps) kek salt s = refl

    pub quiet-meta :
        (kek salt : List ℕ) (s : VaultState) (b : Bool)
        → (if b
            then enable_quietly crypto auto_unlock call auto_unlock kek salt s
            else s).vault_meta
          ≡ s.vault_meta
    quiet-meta kek salt s true = enable_quietly-meta auto_unlock kek salt s
    quiet-meta kek salt s false = refl

    adopt-meta :
        (enable : Bool) (kek : List ℕ) (row : VaultMeta) (r : Result VaultError (List ℕ))
        (s : VaultState)
        → (adopt crypto auto_unlock call enable kek row r s).1.vault_meta ≡ s.vault_meta
    unfolding apply_dek
    adopt-meta enable kek row (err error) s = refl
    adopt-meta enable kek row (ok candidate) s = quiet-meta kek row.kek_salt s enable

    enabled_with-meta :
        (r : Result EnableError (Unit {0}) × Option (List ℕ)) (s : VaultState)
        → (enabled_with crypto auto_unlock r s).1.vault_meta ≡ s.vault_meta
    enabled_with-meta (err error, file) s = refl
    enabled_with-meta (ok done, file) s = refl

    enable_checked-meta :
        (deps : AutoUnlockDeps) (kek : List ℕ) (row : VaultMeta) (r : Result VaultError (List ℕ))
        (s : VaultState)
        → (enable_checked crypto auto_unlock call deps kek row r s).1.vault_meta ≡ s.vault_meta
    enable_checked-meta deps kek row (err error) s = refl
    enable_checked-meta deps kek row (ok dek) s = enabled_with-meta _ s

    enable_for-meta :
        (password : List ℕ) (o : Option AutoUnlockDeps) (row : VaultMeta) (s : VaultState)
        → (enable_for crypto auto_unlock call password o row s).1.vault_meta ≡ s.vault_meta
    enable_for-meta password none row s = refl
    enable_for-meta password (some deps) row s = enable_checked-meta deps _ row _ s

    adopt_kek-meta :
        (row : VaultMeta) (kek : Option (List ℕ)) (s : VaultState)
        → (adopt_kek crypto auto_unlock call row kek s).1.vault_meta ≡ s.vault_meta
    adopt_kek-meta row none s = refl
    adopt_kek-meta row (some kek) s = adopt-meta false kek row _ s

    unlock_from_file-meta :
        (row : VaultMeta) (o : Option AutoUnlockDeps) (s : VaultState)
        → (unlock_from_file crypto auto_unlock call row o s).1.vault_meta ≡ s.vault_meta
    unlock_from_file-meta row none s = refl
    unlock_from_file-meta row (some deps) s = adopt_kek-meta row _ (record s { key_file = _ })

    touch-meta : (s : VaultState) → (touch crypto auto_unlock call s).vault_meta ≡ s.vault_meta
    unfolding touch
    touch-meta s = ground arith

    status_with-meta :
        (o : Option AutoUnlockDeps) (row : Option VaultMeta) (s : VaultState)
        → (status_with crypto auto_unlock o row s).1.vault_meta ≡ s.vault_meta
    status_with-meta none row s = refl
    status_with-meta (some deps) none s = refl
    status_with-meta (some deps) (some row) s = refl

    without_key_file-meta :
        (o : Option AutoUnlockDeps) (s : VaultState)
        → (without_key_file crypto auto_unlock o s).vault_meta ≡ s.vault_meta
    without_key_file-meta none s = refl
    without_key_file-meta (some deps) s = refl

    startup_branches :
        (unlocked kept : Bool) (s : VaultState) (attempt : Bool × VaultState)
        → attempt.1.vault_meta ≡ s.vault_meta
        → (if unlocked then (true, s) else if kept then (false, s) else attempt).1.vault_meta
          ≡ s.vault_meta
    startup_branches true kept s attempt same = refl
    startup_branches false true s attempt same = refl
    startup_branches false false s attempt same = same

    unlock_with_windows-meta :
        (s : VaultState) {row : VaultMeta}
        → s.vault_meta ≡ some row
        → (unlock_with_windows crypto auto_unlock call s).1.vault_meta ≡ s.vault_meta
    unfolding unlock_with_windows
    unlock_with_windows-meta s {row} stored =
        rw stored (unlock_from_file-meta row auto_unlock (record s { vault_meta = some row }))

    use_dek-meta :
        (s : VaultState) → (with_dek crypto auto_unlock call s).1.vault_meta ≡ s.vault_meta
    unfolding with_dek
    use_dek-meta s = ground arith

    timer-meta :
        (s : VaultState) → (timer_fires crypto auto_unlock call.now s).vault_meta ≡ s.vault_meta
    unfolding timer_fires
    timer-meta s = ground arith

    -- An operation on an initialised vault keeps the metadata row.
    pub perform-meta :
        (operation : Operation) (s : VaultState) {row : VaultMeta}
        → s.vault_meta ≡ some row
        → (perform call operation s).vault_meta ≡ s.vault_meta
    unfolding perform init unlock lock auto_unlock_status set_auto_lock_ms enable_auto_unlock
        disable_auto_unlock attempt_startup_auto_unlock
    perform-meta (init_again password params) s stored = rw stored refl
    perform-meta (unlock_by password enable) s {row} stored =
        rw stored (adopt-meta enable _ row _ (record s { vault_meta = some row }))
    perform-meta lock_now s stored = refl
    perform-meta use_dek s stored = use_dek-meta s
    perform-meta touch_now s stored = touch-meta s
    perform-meta read_status s stored = status_with-meta auto_unlock s.vault_meta s
    perform-meta (set_idle ms) s stored = touch-meta (record s { auto_lock_ms = ms })
    perform-meta (enable_auto password) s {row} stored =
        rw stored (enable_for-meta password auto_unlock row (record s { vault_meta = some row }))
    perform-meta disable_auto s stored =
        touch-meta (without_key_file crypto auto_unlock auto_unlock s)
        ∙ without_key_file-meta auto_unlock s
    perform-meta unlock_windows s stored = unlock_with_windows-meta s stored
    perform-meta startup s stored =
        startup_branches (is_unlocked s) (s.manually_locked || not (auto_unlock_on auto_unlock s)) s
          (
            is_ok crypto auto_unlock (unlock_with_windows crypto auto_unlock call s).0,
            (unlock_with_windows crypto auto_unlock call s).1,
          )
          (unlock_with_windows-meta s stored)
    perform-meta timer s stored = timer-meta s
