-- ===== src/Vault/State/Examples.antt =====
-- Runs of a vault whose cipher hides nothing, and the theorems at concrete inputs.
use arkode.Prelude.{◌≡◌, refl, false, none, some}
use arkode.Prelude.Results.{ok}
use arkode.Pocket.Bytes.{codes, zeros}
use arkode.Vault.Crypto.{default_scrypt_params, encrypt_bytes, decrypt_bytes}
use arkode.Vault.AutoUnlock.{
  AutoUnlockStatus, stale, parse_key_file, is_enabled, file_status, enable_file,
}
use arkode.Vault.Session.{VaultState, arm_timer, apply_dek}
use arkode.Vault.State.{init, unlock, change_password, auto_unlock_status, enable_auto_unlock}
use arkode.Vault.State.Frame.{enable_auto, perform}
use arkode.Vault.State.History.{unlock-History}
use arkode.Vault.Samples.{
  plain, plain-IsCipher, windows, first, second, new_vault, renamed, renamed-History,
}

unlock-History_example :
    ((unlock plain windows second (codes "new") false renamed).0 ≡ ok tt)
    × ((unlock plain windows second (codes "new") false renamed).1.dek ≡ some (zeros 32))
unlock-History_example =
    unlock-History plain windows (codes "new") (zeros 32) renamed plain-IsCipher renamed-History
      second false

-- The password is changed while the key file cannot be written, and then the status is read: the
-- stale file is removed, and the vault stays unlocked with no idle timer.
abbrev polled : AutoUnlockStatus × VaultState
polled =
    auto_unlock_status plain windows
      (change_password plain windows second (codes "old") (codes "new") default_scrypt_params
        (perform plain windows first (enable_auto (codes "old")) new_vault)).1

stale_poll :
    (polled.0 ≡ stale)
    × (polled.1.key_file ≡ none)
    × (polled.1.auto_lock_due_at ≡ none)
    × (polled.1.dek ≡ some (zeros 32))
unfolding init apply_dek arm_timer encrypt_bytes decrypt_bytes is_enabled parse_key_file file_status
    enable_file enable_auto_unlock change_password auto_unlock_status perform
stale_poll = (refl, refl, refl, refl)
