-- ===== src/Vault/State.antt =====
-- packages/engine-core/src/vault/vaultState.ts: one function per operation on the session.
pub mod Frame
pub mod Passwords
pub mod History
pub mod Locked
mod Examples
use arkode.Prelude.{
  ℕ, Bool, true, false, not, ◌||◌, List, Option, none, some, ◌==◌, leb, if◌then◌else◌, length,
}
use arkode.Prelude.Results.{Result, ok, err, ◌>>=◌}
use arkode.Vault.Crypto.{
  ScryptParams, VaultCryptoError, NodeCrypto, derive_kek, wrap_dek, unwrap_dek, build_verifier,
  verifier_matches,
}
use arkode.Vault.AutoUnlock.{
  AutoUnlockDeps, AutoUnlockStatus, unsupported, disabled, EnableError, file_status, enable_file,
  load_kek,
}
use arkode.Vault.Session.{
  VaultMeta, VaultState, Call, VaultError, vault_locked, not_initialized, already_initialized,
  wrong_master_password, auto_unlock_unavailable, empty_password, crypto_error, enable_error, Done,
  clear_timer, lock, is_unlocked, auto_unlock_on, arm_timer, apply_dek,
}

module _ (crypto : NodeCrypto) (auto_unlock : Option AutoUnlockDeps) where
  -- The unwrapped key, if the verifier says that it is the vault's.
  abbrev pub checked :
      VaultError → VaultMeta → Result VaultCryptoError (List ℕ) → Result VaultError (List ℕ)
  checked wrong row (err error) = err wrong
  checked wrong row (ok candidate) =
      if verifier_matches crypto row.verifier candidate then ok candidate else err wrong

  abbrev pub checked_dek : VaultError → VaultMeta → List ℕ → Result VaultError (List ℕ)
  checked_dek wrong row kek = checked wrong row (unwrap_dek crypto row.wrapped_dek kek)

  abbrev pub crypto_result {ℓ} : {A : Type ℓ} → Result VaultCryptoError A → Result VaultError A
  crypto_result (ok a) = ok a
  crypto_result (err error) = err (crypto_error error)

  -- The columns that `create` and `updateCrypto` write.
  abbrev pub new_row : Call → List ℕ → ScryptParams → List ℕ → Result VaultError VaultMeta
  new_row call password params dek = do
    wrapped ←
        crypto_result
          (wrap_dek crypto call.wrap_nonce dek (derive_kek crypto password call.salt params))
    verifier ← crypto_result (build_verifier crypto call.verifier_nonce dek)
    ok (record {
      kdf_params = params;
      kek_salt = call.salt;
      wrapped_dek = wrapped;
      verifier = verifier;
    })

  abbrev pub create_and_apply : Call → Result VaultError VaultMeta → VaultState → Done × VaultState
  create_and_apply call (err error) s = (err error, s)
  create_and_apply call (ok row) s =
      (ok tt, apply_dek auto_unlock call.now call.fresh_dek (record s { vault_meta = some row }))

  unfoldable pub init : Call → List ℕ → ScryptParams → VaultState → Done × VaultState
  unfolding apply_dek
  init call password params s = elim s.vault_meta [
    | some _ ↦ (err already_initialized, s)
    | none ↦
        if length password == 0
        then (err empty_password, s)
        else create_and_apply call (new_row call password params call.fresh_dek) s
  ]

  -- `autoUnlock.enable(kek, salt)` where a failure is ignored.
  abbrev pub enable_quietly :
      Call → Option AutoUnlockDeps → List ℕ → List ℕ → VaultState → VaultState
  enable_quietly call none kek salt s = s
  enable_quietly call (some deps) kek salt s = record s {
    key_file = (enable_file deps call.can_write call.now kek salt s.key_file).1;
  }

  abbrev pub adopt :
      Call → Bool → List ℕ → VaultMeta → Result VaultError (List ℕ) → VaultState → Done × VaultState
  adopt call enable kek row (err error) s = (err error, s)
  adopt call enable kek row (ok candidate) s = (
    ok tt,
    apply_dek auto_unlock call.now candidate
        (if enable then enable_quietly call auto_unlock kek row.kek_salt s else s),
  )

  unfoldable pub unlock : Call → List ℕ → Bool → VaultState → Done × VaultState
  unfolding apply_dek
  unlock call password enable s = elim s.vault_meta [
    | none ↦ (err not_initialized, s)
    | some row ↦
        let kek = derive_kek crypto password row.kek_salt row.kdf_params in
        adopt call enable kek row (checked_dek wrong_master_password row kek) s
  ]

  abbrev pub store_new_row :
      Call
      → List ℕ
      → ScryptParams
      → List ℕ
      → Result VaultError VaultMeta
      → VaultState
      → Done × VaultState
  store_new_row call password params dek (err error) s = (err error, s)
  store_new_row call password params dek (ok row) s =
      let stored = record s { vault_meta = some row } in
      let kek = derive_kek crypto password call.salt params in
      (
        ok tt,
        apply_dek auto_unlock call.now dek (
            if auto_unlock_on auto_unlock stored
            then enable_quietly call auto_unlock kek call.salt stored
            else stored),
      )

  abbrev pub rewrap :
      Call → List ℕ → ScryptParams → Result VaultError (List ℕ) → VaultState → Done × VaultState
  rewrap call password params (err error) s = (err error, s)
  rewrap call password params (ok dek) s =
      store_new_row call password params dek (new_row call password params dek) s

  unfoldable pub change_password :
      Call → List ℕ → List ℕ → ScryptParams → VaultState → Done × VaultState
  unfolding apply_dek
  change_password call current_password new_password params s = elim s.vault_meta [
    | none ↦ (err not_initialized, s)
    | some row ↦
        let kek = derive_kek crypto current_password row.kek_salt row.kdf_params in
        if length new_password == 0
        then (err empty_password, s)
        else rewrap call new_password params (checked_dek wrong_master_password row kek) s
  ]

  -- The key that the caller's function is run with.
  unfoldable pub with_dek : Call → VaultState → Result VaultError (List ℕ) × VaultState
  unfolding arm_timer
  with_dek call s = elim s.dek [
    | none ↦ (err vault_locked, s)
    | some dek ↦ (ok dek, arm_timer auto_unlock call.now s)
  ]

  unfoldable pub touch : Call → VaultState → VaultState
  unfolding arm_timer
  touch call s = if is_unlocked s then arm_timer auto_unlock call.now s else s

  unfoldable pub set_auto_lock_ms : Call → Option ℕ → VaultState → VaultState
  unfolding touch
  set_auto_lock_ms call ms s = touch call (record s { auto_lock_ms = ms })

  abbrev pub status_with :
      Option AutoUnlockDeps → Option VaultMeta → VaultState → AutoUnlockStatus × VaultState
  status_with none row s = (unsupported, s)
  status_with (some deps) none s = (disabled, s)
  status_with (some deps) (some row) s =
      let (status, file) = file_status deps row.kek_salt s.key_file in
      (status, record s { key_file = file })

  unfoldable pub auto_unlock_status : VaultState → AutoUnlockStatus × VaultState
  auto_unlock_status s = status_with auto_unlock s.vault_meta s

  abbrev pub enabled_with :
      Result EnableError (Unit {0}) × Option (List ℕ) → VaultState → Done × VaultState
  enabled_with (err error, file) s = (err (enable_error error), record s { key_file = file })
  enabled_with (ok done, file) s = (ok tt, clear_timer (record s { key_file = file }))

  abbrev pub enable_checked :
      Call
      → AutoUnlockDeps
      → List ℕ
      → VaultMeta
      → Result VaultError (List ℕ)
      → VaultState
      → Done × VaultState
  enable_checked call deps kek row (err error) s = (err error, s)
  enable_checked call deps kek row (ok dek) s =
      enabled_with (enable_file deps call.can_write call.now kek row.kek_salt s.key_file) s

  abbrev pub enable_for :
      Call → List ℕ → Option AutoUnlockDeps → VaultMeta → VaultState → Done × VaultState
  enable_for call password none row s = (err auto_unlock_unavailable, s)
  enable_for call password (some deps) row s =
      let kek = derive_kek crypto password row.kek_salt row.kdf_params in
      enable_checked call deps kek row (checked_dek wrong_master_password row kek) s

  unfoldable pub enable_auto_unlock : Call → List ℕ → VaultState → Done × VaultState
  enable_auto_unlock call password s = elim s.vault_meta [
    | none ↦ (err not_initialized, s)
    | some row ↦ enable_for call password auto_unlock row s
  ]

  abbrev pub without_key_file : Option AutoUnlockDeps → VaultState → VaultState
  without_key_file none s = s
  without_key_file (some deps) s = record s { key_file = none }

  unfoldable pub disable_auto_unlock : Call → VaultState → VaultState
  unfolding touch
  disable_auto_unlock call s = touch call (without_key_file auto_unlock s)

  abbrev pub adopt_kek : Call → VaultMeta → Option (List ℕ) → VaultState → Done × VaultState
  adopt_kek call row none s = (err auto_unlock_unavailable, s)
  adopt_kek call row (some kek) s =
      adopt call false kek row (checked_dek auto_unlock_unavailable row kek) s

  abbrev pub unlock_from_file :
      Call → VaultMeta → Option AutoUnlockDeps → VaultState → Done × VaultState
  unlock_from_file call row none s = (err auto_unlock_unavailable, s)
  unlock_from_file call row (some deps) s =
      let (kek, file) = load_kek deps row.kek_salt s.key_file in
      adopt_kek call row kek (record s { key_file = file })

  unfoldable pub unlock_with_windows : Call → VaultState → Done × VaultState
  unfolding apply_dek
  unlock_with_windows call s = elim s.vault_meta [
    | none ↦ (err not_initialized, s)
    | some row ↦ unlock_from_file call row auto_unlock s
  ]

  abbrev pub is_ok : Done → Bool
  is_ok (ok done) = true
  is_ok (err error) = false

  unfoldable pub attempt_startup_auto_unlock : Call → VaultState → Bool × VaultState
  unfolding unlock_with_windows
  attempt_startup_auto_unlock call s =
      if is_unlocked s
      then (true, s)
      else if s.manually_locked || not (auto_unlock_on auto_unlock s)
      then (false, s)
      else let (done, s') = unlock_with_windows call s in (is_ok done, s')

  -- The timer's callback, at the time that it was set for.
  unfoldable pub timer_fires : ℕ → VaultState → VaultState
  unfolding lock
  timer_fires now s = elim s.auto_lock_due_at [
    | none ↦ s
    | some due ↦ if leb due now then lock s else s
  ]
