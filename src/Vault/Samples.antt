-- ===== src/Vault/Samples.antt =====
-- A vault whose cipher hides nothing, created, locked, and given another password.
use arkode.Prelude.{ℕ, refl, Bool, true, false, List, ◌∷◌, Option, none, some, arith}
use arkode.Prelude.Results.{ok}
use arkode.Pocket.Bytes.{codes, zeros}
use arkode.Pocket.Samples.{length-zeros}
use arkode.Vault.Crypto.{default_scrypt_params, NodeCrypto}
use arkode.Vault.Crypto.Wrapping.{IsCipher}
use arkode.Vault.AutoUnlock.{AutoUnlockDeps}
use arkode.Vault.Session.{VaultState, Call}
use arkode.Vault.State.{init, change_password}
use arkode.Vault.State.Frame.{lock_now, perform}
use arkode.Vault.State.Passwords.{IsDrawn}
use arkode.Vault.State.History.{History, created, changed, performed}

abbrev pub plain : NodeCrypto
plain = record {
  scrypt = λ password salt params. zeros params.keylen;
  seal = λ key nonce plaintext. record { ciphertext = plaintext; auth_tag = zeros 16 };
  open_sealed = λ key nonce ciphertext tag. ok ciphertext;
}

pub plain-IsCipher : IsCipher plain
plain-IsCipher = record {
  kdf_length = λ password salt params. length-zeros params.keylen;
  tag_length = λ key nonce plaintext. refl;
  opens = λ key nonce plaintext. refl;
}

-- The digest of a salt is the salt.
abbrev pub windows : Option AutoUnlockDeps
windows = some (record {
  is_supported = true;
  protect = λ plaintext. some plaintext;
  unprotect = λ blob. some blob;
  sha256 = λ salt. salt;
})

abbrev pub call_at : ℕ → Bool → List ℕ → Call
call_at now can_write salt = record {
  now = now;
  can_write = can_write;
  salt = salt;
  fresh_dek = zeros 32;
  wrap_nonce = zeros 12;
  verifier_nonce = zeros 12;
}

pub call-IsDrawn :
    (now : ℕ) (can_write : Bool) (salt : List ℕ) → IsDrawn (call_at now can_write salt)
call-IsDrawn now can_write salt = record {
  wrap_nonce = refl;
  verifier_nonce = refl;
  fresh_dek = refl;
}

abbrev pub first : Call
first = call_at 10 true (zeros 16)

abbrev pub second : Call
second = call_at 20 false (7 ∷ zeros 15)

abbrev pub empty_vault : VaultState
empty_vault = record {
  vault_meta = none;
  dek = none;
  auto_lock_ms = some 900000;
  auto_lock_due_at = none;
  manually_locked = false;
  key_file = none;
}

abbrev pub new_vault : VaultState
new_vault = (init plain windows first (codes "old") default_scrypt_params empty_vault).1

abbrev pub renamed : VaultState
renamed =
    (change_password plain windows second (codes "old") (codes "new") default_scrypt_params
      (perform plain windows second lock_now new_vault)).1

pub renamed-History : History plain windows (codes "new") (zeros 32) renamed
renamed-History =
    changed second (codes "old") (codes "new") (zeros 32) default_scrypt_params _
      (performed second lock_now (codes "old") (zeros 32) _ (
        created first (codes "old") default_scrypt_params empty_vault refl (omega arith)
          (call-IsDrawn 10 true (zeros 16)) refl))
      (omega arith) (call-IsDrawn 20 false (7 ∷ zeros 15)) refl
