-- ===== src/Vault/Crypto.antt =====
-- packages/engine-core/src/vault/crypto.ts. scrypt and AES-256-GCM are Node's, parameters; a nonce,
-- a salt or a key that the source draws at random is an argument.
pub mod Wrapping
use arkode.Prelude.{
  ℕ, ◌+◌, ◌-◌, ◌≡◌, Bool, false, not, List, [], ◌∷◌, ◌++◌, ◌==◌, ltb, length, take, drop,
}
use arkode.Prelude.Results.{Result, ok, err, ◌>>=◌, ◌>>◌, ensure}
use arkode.Ciphertext.{Sealed}
use arkode.Pocket.Bytes.{codes, char_at, zeros}
use arkode.Pocket.Json.{same_text}

abbrev pub vault_format_version : ℕ
vault_format_version = 1

abbrev pub vault_magic : List ℕ
vault_magic = codes "ARKV"

abbrev pub alg_aes : ℕ
alg_aes = 1

abbrev pub vault_nonce_len : ℕ
vault_nonce_len = 12

abbrev pub vault_tag_len : ℕ
vault_tag_len = 16

abbrev pub vault_key_len : ℕ
vault_key_len = 32

abbrev pub vault_header_len : ℕ
vault_header_len = length vault_magic + 2

abbrev pub vault_min_blob_len : ℕ
vault_min_blob_len = vault_header_len + vault_nonce_len + vault_tag_len

abbrev pub verifier_plaintext : List ℕ
verifier_plaintext = codes "arkode-vault-verifier-v1"

pub record ScryptParams : Type 0 where
  pub cost : ℕ
  pub block_size : ℕ
  pub parallelization : ℕ
  pub keylen : ℕ

-- N = 2 ^ 17, r = 8, p = 1.
abbrev pub default_scrypt_params : ScryptParams
default_scrypt_params = record {
  cost = 131072;
  block_size = 8;
  parallelization = 1;
  keylen = vault_key_len;
}

-- The messages of `VaultCryptoError`, one constructor for each throw.
pub data VaultCryptoError : Type 0 where
  bad_key_length truncated bad_magic unsupported_version unsupported_algorithm : VaultCryptoError
  decryption_failed : VaultCryptoError

-- `scryptSync` of the normalised password, and the cipher. A decryption that throws is an error.
pub record NodeCrypto : Type 0 where
  pub scrypt : List ℕ → List ℕ → ScryptParams → List ℕ
  pub seal : List ℕ → List ℕ → List ℕ → Sealed
  pub open_sealed : List ℕ → List ℕ → List ℕ → List ℕ → Result (Unit {0}) (List ℕ)

abbrev pub or_failed : Result (Unit {0}) (List ℕ) → Result VaultCryptoError (List ℕ)
or_failed (ok plaintext) = ok plaintext
or_failed (err thrown) = err decryption_failed

module _ (crypto : NodeCrypto) where
  abbrev pub derive_kek : List ℕ → List ℕ → ScryptParams → List ℕ
  derive_kek password salt params = crypto.scrypt password salt params

  unfoldable pub encrypt_bytes : List ℕ → List ℕ → List ℕ → Result VaultCryptoError (List ℕ)
  encrypt_bytes nonce plaintext key = do
    ensure (length key == vault_key_len) bad_key_length
    let sealed = crypto.seal key nonce plaintext
    ok (
        vault_magic
        ++ ((vault_format_version ∷ alg_aes ∷ [])
            ++ (nonce ++ (sealed.ciphertext ++ sealed.auth_tag))))

  unfoldable pub decrypt_bytes : List ℕ → List ℕ → Result VaultCryptoError (List ℕ)
  decrypt_bytes blob key = do
    ensure (length key == vault_key_len) bad_key_length
    ensure (not (ltb (length blob) vault_min_blob_len)) truncated
    ensure (same_text (take (length vault_magic) blob) vault_magic) bad_magic
    ensure (char_at blob (length vault_magic) == vault_format_version) unsupported_version
    ensure (char_at blob (length vault_magic + 1) == alg_aes) unsupported_algorithm
    let nonce = take vault_nonce_len (drop vault_header_len blob)
    let tag = drop (length blob - vault_tag_len) blob
    let ciphertext =
        take (length blob - vault_tag_len - (vault_header_len + vault_nonce_len))
          (drop (vault_header_len + vault_nonce_len) blob)
    or_failed (crypto.open_sealed key nonce ciphertext tag)

  abbrev pub wrap_dek : List ℕ → List ℕ → List ℕ → Result VaultCryptoError (List ℕ)
  wrap_dek nonce dek kek = encrypt_bytes nonce dek kek

  abbrev pub unwrap_dek : List ℕ → List ℕ → Result VaultCryptoError (List ℕ)
  unwrap_dek wrapped kek = decrypt_bytes wrapped kek

  abbrev pub build_verifier : List ℕ → List ℕ → Result VaultCryptoError (List ℕ)
  build_verifier nonce dek = encrypt_bytes nonce verifier_plaintext dek

  abbrev pub is_verifier : Result VaultCryptoError (List ℕ) → Bool
  is_verifier (ok plain) = same_text plain verifier_plaintext
  is_verifier (err error) = false

  abbrev pub verifier_matches : List ℕ → List ℕ → Bool
  verifier_matches verifier dek = is_verifier (decrypt_bytes verifier dek)
