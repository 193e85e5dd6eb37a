-- ===== src/Pocket/Blob.antt =====
-- packages/pocket-shared/src/crypto.ts: the ciphertext's layout. AES-256-GCM and the random bytes
-- are the platform's, a parameter.
pub mod Layout
mod Examples
use arkode.Prelude.{ℕ, ◌+◌, ◌-◌, ◌≡◌, Bool, not, List, [], ◌∷◌, ◌==◌, ltb, length, take, drop, All}
use arkode.Prelude.Results.{Result, ok, err, ◌>>=◌, ◌>>◌, ensure}
use arkode.Ciphertext.{Sealed}
use arkode.Pocket.Bytes.{codes, char_at, concat_bytes, bytes_equal, zeros}
use arkode.Ciphertext.{IsByte}

abbrev pub magic : List ℕ
magic = codes "ARKB"

abbrev pub blob_format_version : ℕ
blob_format_version = 1

abbrev pub alg_aes_256_gcm : ℕ
alg_aes_256_gcm = 1

abbrev pub nonce_len : ℕ
nonce_len = 12

abbrev pub tag_len : ℕ
tag_len = 16

abbrev pub key_len : ℕ
key_len = 32

abbrev pub header_len : ℕ
header_len = length magic + 2

abbrev pub min_blob_len : ℕ
min_blob_len = header_len + nonce_len + tag_len

-- The messages of `PocketCryptoError`, one constructor for each throw.
pub data PocketCryptoError : Type 0 where
  bad_key_length truncated bad_magic decryption_failed : PocketCryptoError
  bad_tag_length unsupported_version unsupported_algorithm : ℕ → PocketCryptoError

-- `aesGcmDecrypt` throws on a tag that does not fit: the throw's value is not looked at.
pub record PocketCryptoAdapter : Type 0 where
  pub random_bytes : ℕ → List ℕ
  pub aes_gcm_encrypt : List ℕ → List ℕ → List ℕ → Sealed
  pub aes_gcm_decrypt : List ℕ → List ℕ → List ℕ → List ℕ → Result (Unit {0}) (List ℕ)

module _ (adapter : PocketCryptoAdapter) where
  abbrev pub generate_pocket_dek : List ℕ
  generate_pocket_dek = adapter.random_bytes key_len

  abbrev pub seal_parts : List ℕ → Sealed → List (List ℕ)
  seal_parts nonce sealed =
      magic
      ∷ (blob_format_version ∷ alg_aes_256_gcm ∷ [])
      ∷ nonce
      ∷ sealed.ciphertext
      ∷ sealed.auth_tag
      ∷ []

  unfoldable pub encrypt_pocket_blob : List ℕ → List ℕ → Result PocketCryptoError (List ℕ)
  encrypt_pocket_blob plaintext key = do
    ensure (length key == key_len) bad_key_length
    let nonce = adapter.random_bytes nonce_len
    let sealed = adapter.aes_gcm_encrypt key nonce plaintext
    ensure (length sealed.auth_tag == tag_len) (bad_tag_length (length sealed.auth_tag))
    ok (concat_bytes (seal_parts nonce sealed))

  abbrev pub or_decryption_failed : Result (Unit {0}) (List ℕ) → Result PocketCryptoError (List ℕ)
  or_decryption_failed (ok plaintext) = ok plaintext
  or_decryption_failed (err thrown) = err decryption_failed

  abbrev pub open_parts : List ℕ → List ℕ → Result PocketCryptoError (List ℕ)
  open_parts blob key =
      let nonce = take nonce_len (drop header_len blob) in
      let auth_tag = drop (length blob - tag_len) blob in
      let ciphertext =
        take (length blob - tag_len - (header_len + nonce_len))
          (drop (header_len + nonce_len) blob) in
      or_decryption_failed (adapter.aes_gcm_decrypt key nonce ciphertext auth_tag)

  unfoldable pub decrypt_pocket_blob : List ℕ → List ℕ → Result PocketCryptoError (List ℕ)
  unfolding bytes_equal
  decrypt_pocket_blob blob key = do
    ensure (length key == key_len) bad_key_length
    ensure (not (ltb (length blob) min_blob_len)) truncated
    ensure (bytes_equal (take (length magic) blob) magic) bad_magic
    let version = char_at blob (length magic)
    let alg = char_at blob (length magic + 1)
    ensure (version == blob_format_version) (unsupported_version version)
    ensure (alg == alg_aes_256_gcm) (unsupported_algorithm alg)
    open_parts blob key

-- `buf.fill(0)`.
abbrev pub wipe : List ℕ → List ℕ
wipe buffer = zeros (length buffer)
