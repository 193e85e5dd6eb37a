-- ===== src/Vault/State/Passwords.antt =====
-- The master password that was set last opens the vault, with the key that it was created with.
use arkode.Prelude.{ℕ, ◌<◌, ◌≡◌, refl, ◌∙◌, false, List, Option, none, some, ◌==◌, length, arith}
use arkode.Prelude.Results.{ok}
use arkode.Vault.Crypto.{
  vault_nonce_len, vault_key_len, verifier_plaintext, ScryptParams, NodeCrypto, derive_kek,
}
use arkode.Vault.Crypto.Wrapping.{
  IsCipher, blob_of, encrypt_bytes-blob_of, decrypt_bytes-blob_of, verifier_matches-blob_of,
}
use arkode.Vault.AutoUnlock.{AutoUnlockDeps}
use arkode.Vault.Session.{
  VaultMeta, VaultState, Call, VaultError, wrong_master_password, auto_unlock_on,
}
use arkode.Vault.State.Frame.{quiet-meta}
use arkode.Vault.State.{checked_dek, new_row, init, change_password}

-- The random values of a call have the lengths that are asked for.
pub record IsDrawn (call : Call) : Type 0 where
  pub wrap_nonce : length call.wrap_nonce ≡ vault_nonce_len
  pub verifier_nonce : length call.verifier_nonce ≡ vault_nonce_len
  pub fresh_dek : length call.fresh_dek ≡ vault_key_len

module _ (crypto : NodeCrypto) (cipher : IsCipher crypto) where
  -- The row holds `dek` wrapped under the key of `password`, and its verifier.
  pub record IsRowFor (password dek : List ℕ) (row : VaultMeta) : Type 0 where
    pub keylen : row.kdf_params.keylen ≡ vault_key_len
    pub long : length dek ≡ vault_key_len
    pub wrap_nonce : List ℕ
    pub verifier_nonce : List ℕ
    pub wrap_nonce_len : length wrap_nonce ≡ vault_nonce_len
    pub verifier_nonce_len : length verifier_nonce ≡ vault_nonce_len
    pub wrapped :
        row.wrapped_dek
        ≡ blob_of crypto cipher wrap_nonce dek
            (derive_kek crypto password row.kek_salt row.kdf_params)
    pub verified : row.verifier ≡ blob_of crypto cipher verifier_nonce verifier_plaintext dek

  pub checked_dek-IsRowFor :
      (auto_unlock : Option AutoUnlockDeps) (password dek : List ℕ) (row : VaultMeta)
      (wrong : VaultError)
      → IsRowFor password dek row
      → checked_dek crypto auto_unlock wrong row
          (derive_kek crypto password row.kek_salt row.kdf_params)
        ≡ ok dek
  checked_dek-IsRowFor auto_unlock password dek row wrong h =
      rw
        (
          h.wrapped,
          h.verified,
          decrypt_bytes-blob_of crypto cipher h.wrap_nonce dek _ h.wrap_nonce_len
              (cipher.kdf_length password row.kek_salt row.kdf_params ∙ h.keylen),
          verifier_matches-blob_of crypto cipher h.verifier_nonce dek h.verifier_nonce_len h.long,
        )
        refl

  module _ (auto_unlock : Option AutoUnlockDeps) where
    new_row-IsRowFor :
        (call : Call) (password dek : List ℕ) (params : ScryptParams)
        → IsDrawn call
        → params.keylen ≡ vault_key_len
        → length dek ≡ vault_key_len
        → (row : VaultMeta) × (new_row crypto auto_unlock call password params dek ≡ ok row)
          × IsRowFor password dek row
    new_row-IsRowFor call password dek params drawn keylen long =
        let kek = derive_kek crypto password call.salt params in
        (
          record {
            kdf_params = params;
            kek_salt = call.salt;
            wrapped_dek = blob_of crypto cipher call.wrap_nonce dek kek;
            verifier = blob_of crypto cipher call.verifier_nonce verifier_plaintext dek;
          },
          rw
              (
                encrypt_bytes-blob_of crypto cipher call.wrap_nonce dek kek drawn.wrap_nonce
                    (cipher.kdf_length password call.salt params ∙ keylen),
                encrypt_bytes-blob_of crypto cipher call.verifier_nonce verifier_plaintext dek
                    drawn.verifier_nonce long,
              )
              refl,
          record {
            keylen = keylen;
            long = long;
            wrap_nonce = call.wrap_nonce;
            verifier_nonce = call.verifier_nonce;
            wrap_nonce_len = drawn.wrap_nonce;
            verifier_nonce_len = drawn.verifier_nonce;
            wrapped = refl;
            verified = refl;
          },
        )

    -- The stored row is one for this password and key.
    abbrev pub Holds : List ℕ → List ℕ → VaultState → Type 0
    Holds password dek s = (row : VaultMeta) × (s.vault_meta ≡ some row) × IsRowFor password dek row

    pub Holds-same :
        {password dek : List ℕ} (s s' : VaultState)
        → s'.vault_meta ≡ s.vault_meta
        → Holds password dek s
        → Holds password dek s'
    Holds-same s s' same (row, stored, h) = (row, same ∙ stored, h)

    nonempty : (password : List ℕ) → 0 < length password → (length password == 0) ≡ false
    nonempty password h = ground arith

    pub init-Holds :
        (call : Call) (password : List ℕ) (params : ScryptParams) (s : VaultState)
        → s.vault_meta ≡ none
        → 0 < length password
        → IsDrawn call
        → params.keylen ≡ vault_key_len
        → Holds password call.fresh_dek (init crypto auto_unlock call password params s).1
    unfolding init
    init-Holds call password params s empty filled drawn keylen =
        let (row, built, h) =
          new_row-IsRowFor call password call.fresh_dek params drawn keylen drawn.fresh_dek in
        (row, rw (empty, nonempty password filled, built) refl, h)

    pub change_password-Holds :
        (call : Call) (current new dek : List ℕ) (params : ScryptParams) (s : VaultState)
        → Holds current dek s
        → 0 < length new
        → IsDrawn call
        → params.keylen ≡ vault_key_len
        → Holds new dek (change_password crypto auto_unlock call current new params s).1
    unfolding change_password
    change_password-Holds call current new dek params s (old, stored, h) filled drawn keylen =
        let (row, built, h') = new_row-IsRowFor call new dek params drawn keylen h.long in
        (
          row,
          rw
              (
                stored,
                nonempty new filled,
                checked_dek-IsRowFor auto_unlock current dek old wrong_master_password h,
                built,
              )
              (quiet-meta crypto auto_unlock call _ call.salt (record s { vault_meta = some row })
                (auto_unlock_on auto_unlock (record s { vault_meta = some row }))),
          h',
        )
