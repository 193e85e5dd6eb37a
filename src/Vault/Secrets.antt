-- ===== src/Vault/Secrets.antt =====
-- packages/engine-core/src/vault/vaultSecretStore.ts: the encrypted texts of the vault, by an opaque
-- reference. A text is the list of its UTF-8 bytes; the nonce that an encryption draws is an argument.
pub mod Refines
mod Examples
use Prim.Native.String.{String}
use arkode.Prelude.{ℕ, Bool, List, Option, none, some, is_some}
use arkode.Prelude.Results.{Result, ok, err}
use arkode.Tables.Keyed.{get_value, put_value, delete_value}
use arkode.Vault.Crypto.{VaultCryptoError, NodeCrypto, encrypt_bytes, decrypt_bytes}
use arkode.Vault.AutoUnlock.{AutoUnlockDeps}
use arkode.Vault.Session.{VaultState, Call, VaultError, crypto_error, Done}
use arkode.Vault.State.{crypto_result, with_dek}

abbrev pub SecretTable : Type 0
SecretTable = List (String × List ℕ)

module _ (crypto : NodeCrypto) (auto_unlock : Option AutoUnlockDeps) where
  -- A text, or none for null.
  abbrev pub Read : Type 0
  Read = Result VaultError (Option (List ℕ))

  abbrev pub found_text : Result VaultCryptoError (List ℕ) → Read
  found_text (ok text) = ok (some text)
  found_text (err error) = err (crypto_error error)

  abbrev pub decrypted : List ℕ → Result VaultError (List ℕ) × VaultState → Read × VaultState
  decrypted blob (err error, s) = (err error, s)
  decrypted blob (ok dek, s) = (found_text (decrypt_bytes crypto blob dek), s)

  abbrev pub read_row : Call → Option (List ℕ) → VaultState → Read × VaultState
  read_row call none s = (ok none, s)
  read_row call (some blob) s = decrypted blob (with_dek crypto auto_unlock call s)

  unfoldable pub get_secret : Call → String → VaultState → SecretTable → Read × VaultState
  unfolding get_value with_dek
  get_secret call ref s table = read_row call (get_value ref table) s

  abbrev pub store_blob :
      String
      → Result VaultError (List ℕ)
      → VaultState
      → SecretTable
      → Done × VaultState × SecretTable
  store_blob ref (err error) s table = (err error, s, table)
  store_blob ref (ok blob) s table = (ok tt, s, put_value ref blob table)

  abbrev pub encrypted :
      List ℕ
      → String
      → List ℕ
      → Result VaultError (List ℕ) × VaultState
      → SecretTable
      → Done × VaultState × SecretTable
  encrypted nonce ref value (err error, s) table = (err error, s, table)
  encrypted nonce ref value (ok dek, s) table =
      store_blob ref (crypto_result crypto auto_unlock (encrypt_bytes crypto nonce value dek)) s
        table

  unfoldable pub set_secret :
      Call → List ℕ → String → List ℕ → VaultState → SecretTable → Done × VaultState × SecretTable
  unfolding put_value with_dek
  set_secret call nonce ref value s table =
      encrypted nonce ref value (with_dek crypto auto_unlock call s) table

-- Neither reads the key.
abbrev pub delete_secret : String → SecretTable → SecretTable
delete_secret ref table = delete_value ref table

abbrev pub has_secret : String → SecretTable → Bool
has_secret ref table = is_some (get_value ref table)
