-- ===== src/Vault/Session.antt =====
-- packages/engine-core/src/vault/vaultState.ts: the closure's variables with the metadata row of
-- vaultMetaRepo.ts and the key file of the machine, locking, and the idle timer.
use arkode.Prelude.{ℕ, ◌+◌, Bool, true, false, List, Option, none, some, ◌==◌, if◌then◌else◌}
use arkode.Prelude.Results.{Result}
use arkode.Vault.Crypto.{ScryptParams, VaultCryptoError}
use arkode.Vault.AutoUnlock.{AutoUnlockDeps, EnableError, is_enabled}

pub record VaultMeta : Type 0 where
  pub kdf_params : ScryptParams
  pub kek_salt : List ℕ
  pub wrapped_dek : List ℕ
  pub verifier : List ℕ

-- The timer is set exactly when `auto_lock_due_at` is.
pub record VaultState : Type 0 where
  pub vault_meta : Option VaultMeta
  pub dek : Option (List ℕ)
  pub auto_lock_ms : Option ℕ
  pub auto_lock_due_at : Option ℕ
  pub manually_locked : Bool
  pub key_file : Option (List ℕ)

-- What one call meets: the clock, the disk, and what it draws at random.
pub record Call : Type 0 where
  pub now : ℕ
  pub can_write : Bool
  pub salt : List ℕ
  pub fresh_dek : List ℕ
  pub wrap_nonce : List ℕ
  pub verifier_nonce : List ℕ

pub data VaultError : Type 0 where
  vault_locked not_initialized already_initialized wrong_master_password : VaultError
  auto_unlock_unavailable empty_password : VaultError
  crypto_error : VaultCryptoError → VaultError
  enable_error : EnableError → VaultError

abbrev pub Done : Type 0
Done = Result VaultError (Unit {0})

abbrev pub clear_timer : VaultState → VaultState
clear_timer s = record s { auto_lock_due_at = none }

unfoldable pub lock : VaultState → VaultState
lock s = record (clear_timer s) { dek = none; manually_locked = true }

abbrev pub is_unlocked : VaultState → Bool
is_unlocked s = elim s.dek [ none ↦ false | some _ ↦ true ]

module _ (auto_unlock : Option AutoUnlockDeps) where
  abbrev pub auto_unlock_on : VaultState → Bool
  auto_unlock_on s = elim auto_unlock [ none ↦ false | some deps ↦ is_enabled deps s.key_file ]

  abbrev pub due_at : ℕ → Option (List ℕ) → Option ℕ → Option ℕ
  due_at now (some dek) (some ms) = if ms == 0 then none else some (now + ms)
  due_at now _ _ = none

  unfoldable pub arm_timer : ℕ → VaultState → VaultState
  arm_timer now s = record s {
    auto_lock_due_at = if auto_unlock_on s then none else due_at now s.dek s.auto_lock_ms;
  }

  unfoldable pub apply_dek : ℕ → List ℕ → VaultState → VaultState
  unfolding arm_timer
  apply_dek now candidate s =
      arm_timer now (record s { dek = some candidate; manually_locked = false })
