-- ===== src/Vault/Secrets/Refines.antt =====
-- The encrypted table implements a function from references to texts.
use Prim.Native.String.{String}
use text.Mathlib.Text.{◌==◌ as str_eq}
use arkode.Prelude.{
  ℕ, ◌≡◌, refl, ◌∙◌, Bool, true, false, List, [], Option, none, some, if◌then◌else◌, length,
}
use arkode.Prelude.Results.{ok}
use arkode.Tables.Keyed.{update, get_value, put_value, get_value-put_value, get_value-delete_value}
use arkode.Vault.Crypto.{vault_nonce_len, vault_key_len, NodeCrypto, decrypt_bytes}
use arkode.Vault.Crypto.Wrapping.{IsCipher, blob_of, encrypt_bytes-blob_of, decrypt_bytes-blob_of}
use arkode.Vault.AutoUnlock.{AutoUnlockDeps}
use arkode.Vault.Session.{VaultState, Call}
use arkode.Vault.State.{with_dek, unlock}
use arkode.Vault.State.History.{History, History-Holds, unlock-History}
use arkode.Vault.Secrets.{
  SecretTable, Read, found_text, read_row, get_secret, set_secret, delete_secret,
}

-- The tables that a vault with the key `dek` reaches, each with what it should hold: writes by
-- sessions that have the key, and deletions by any.
pub data Stored (crypto : NodeCrypto) (auto_unlock : Option AutoUnlockDeps) (dek : List ℕ)
    : SecretTable → (String → Option (List ℕ)) → Type 0 where
  nothing : Stored crypto auto_unlock dek [] (λ ref. none)
  written :
      (call : Call) (nonce : List ℕ) (ref : String) (value : List ℕ) (s : VaultState)
      (table : SecretTable) (spec : String → Option (List ℕ))
      → Stored crypto auto_unlock dek table spec
      → s.dek ≡ some dek
      → length nonce ≡ vault_nonce_len
      → Stored crypto auto_unlock dek
          (set_secret crypto auto_unlock call nonce ref value s table).2
          (update spec ref (some value))
  deleted :
      (ref : String) (table : SecretTable) (spec : String → Option (List ℕ))
      → Stored crypto auto_unlock dek table spec
      → Stored crypto auto_unlock dek (delete_secret ref table) (update spec ref none)

module _ (crypto : NodeCrypto) (cipher : IsCipher crypto) (auto_unlock : Option AutoUnlockDeps)
    (dek : List ℕ) (long : length dek ≡ vault_key_len) where
  -- What a row stands for.
  abbrev meaning : Option (List ℕ) → Read crypto auto_unlock
  meaning none = ok none
  meaning (some blob) = found_text crypto auto_unlock (decrypt_bytes crypto blob dek)

  meaning-if :
      (b : Bool) (row rest : Option (List ℕ)) (value later : Option (List ℕ))
      → meaning row ≡ ok value
      → meaning rest ≡ ok later
      → meaning (if b then row else rest) ≡ ok (if b then value else later)
  meaning-if true row rest value later e f = e
  meaning-if false row rest value later e f = f

  set_secret-table :
      (call : Call) (nonce : List ℕ) (ref : String) (value : List ℕ) (s : VaultState)
      (table : SecretTable)
      → s.dek ≡ some dek
      → length nonce ≡ vault_nonce_len
      → (set_secret crypto auto_unlock call nonce ref value s table).2
        ≡ put_value ref (blob_of crypto cipher nonce value dek) table
  unfolding set_secret with_dek
  set_secret-table call nonce ref value s table opened hn =
      rw (opened, encrypt_bytes-blob_of crypto cipher nonce value dek hn long) refl

  -- Every reference reads as the function says.
  Stored-meaning :
      (table : SecretTable) (spec : String → Option (List ℕ))
      → Stored crypto auto_unlock dek table spec
      → (ref : String) → meaning (get_value ref table) ≡ ok (spec ref)
  unfolding get_value
  Stored-meaning table spec nothing ref = refl
  Stored-meaning table spec (written call nonce key value s before f h opened hn) ref =
      rw
        (
          set_secret-table call nonce key value s before opened hn,
          get_value-put_value key (blob_of crypto cipher nonce value dek) ref before,
        )
        (meaning-if (str_eq key ref) _ _ _ _
          (rw (decrypt_bytes-blob_of crypto cipher nonce value dek hn long) refl)
          (Stored-meaning before f h ref))
  Stored-meaning table spec (deleted key before f h) ref =
      rw (get_value-delete_value key ref before)
        (meaning-if (str_eq key ref) none _ none _ refl (Stored-meaning before f h ref))

  read_row-meaning :
      (call : Call) (row : Option (List ℕ)) (s : VaultState)
      → s.dek ≡ some dek
      → (read_row crypto auto_unlock call row s).0 ≡ meaning row
  unfolding with_dek
  read_row-meaning call none s opened = refl
  read_row-meaning call (some blob) s opened = rw opened refl

-- The encrypted table implements a function from references to texts: after any writes and deletions
-- it reads as that function with the same updates, and still does when the vault has been locked,
-- its password changed any number of times, and unlocked with the last one. A reference that was
-- never written, or was deleted, reads as null. Writes are by sessions that hold the vault's key,
-- with nonces of the right length; scrypt and AES-256-GCM do what `IsCipher` says.
pub get_secret-refines :
    (crypto : NodeCrypto) (auto_unlock : Option AutoUnlockDeps) (password dek : List ℕ)
    (s : VaultState) (table : SecretTable) (spec : String → Option (List ℕ))
    (cipher : IsCipher crypto)
    → History crypto auto_unlock password dek s
    → Stored crypto auto_unlock dek table spec
    → (call later : Call) (enable : Bool) (ref : String)
    → (get_secret crypto auto_unlock later ref
        (unlock crypto auto_unlock call password enable s).1
        table).0
      ≡ ok (spec ref)
unfolding get_secret
get_secret-refines crypto auto_unlock password dek s table spec cipher h stored call later enable
      ref =
    let (row, _, held) = History-Holds crypto cipher auto_unlock password dek s h in
    let open_now = unlock-History crypto auto_unlock password dek s cipher h call enable in
    read_row-meaning crypto cipher auto_unlock dek held.long later (get_value ref table) _
      open_now.1
    ∙ Stored-meaning crypto cipher auto_unlock dek held.long table spec stored ref
