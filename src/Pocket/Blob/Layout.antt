-- ===== src/Pocket/Blob/Layout.antt =====
-- The layout that `encryptPocketBlob` writes is the one that `decryptPocketBlob` reads.
use mathlib.Core.List.{append-nil}
use arkode.Prelude.{ℕ, ◌≡◌, refl, ap, ◌∙◌, false, List, ltb, length, All, arith}
use arkode.Prelude.Results.{ok}
use arkode.Pocket.Bytes.{concat_bytes}
use arkode.Ciphertext.{IsByte}
use arkode.Pocket.Bytes.Arrays.{concat_bytes-eq-flatten}
use arkode.Ciphertext.{
  IsByte, Sealed, layout, length-layout, nonce-layout, tag-layout, ciphertext-layout, layout-IsByte,
}
use arkode.Pocket.Blob.{
  magic, nonce_len, tag_len, key_len, min_blob_len, Sealed, PocketCryptoAdapter, seal_parts,
  encrypt_pocket_blob, or_decryption_failed, decrypt_pocket_blob,
}

-- What the platform's AES-256-GCM promises: `randomBytes(n)` are n bytes, the tag has 16 bytes, the
-- output is bytes, and what was sealed under a key and a nonce opens under the same.
pub record IsAesGcm (adapter : PocketCryptoAdapter) : Type 0 where
  pub random_length : (n : ℕ) → length (adapter.random_bytes n) ≡ n
  pub random_bytes : (n : ℕ) → All IsByte (adapter.random_bytes n)
  pub tag_length :
      (key nonce plaintext : List ℕ)
      → length (adapter.aes_gcm_encrypt key nonce plaintext).auth_tag ≡ tag_len
  pub sealed_bytes :
      (key nonce plaintext : List ℕ)
      → All IsByte plaintext
      → All IsByte (adapter.aes_gcm_encrypt key nonce plaintext).ciphertext
        × All IsByte (adapter.aes_gcm_encrypt key nonce plaintext).auth_tag
  pub opens :
      (key nonce plaintext : List ℕ)
      → All IsByte plaintext
      → adapter.aes_gcm_decrypt key nonce
          (adapter.aes_gcm_encrypt key nonce plaintext).ciphertext
          (adapter.aes_gcm_encrypt key nonce plaintext).auth_tag
        ≡ ok plaintext

concat_bytes-seal_parts :
    (adapter : PocketCryptoAdapter) (nonce : List ℕ) (sealed : Sealed)
    → concat_bytes (seal_parts adapter nonce sealed) ≡ layout magic nonce sealed
concat_bytes-seal_parts adapter nonce sealed = rw (concat_bytes-eq-flatten, append-nil) refl

module _ (nonce : List ℕ) (sealed : Sealed) (hn : length nonce ≡ nonce_len)
    (ht : length sealed.auth_tag ≡ tag_len) where
  long_enough : ltb (length (layout magic nonce sealed)) min_blob_len ≡ false
  long_enough = ground (arith, length-layout magic nonce sealed refl hn ht)

  decrypt-layout :
      (adapter : PocketCryptoAdapter) (key : List ℕ)
      → length key ≡ key_len
      → decrypt_pocket_blob adapter (layout magic nonce sealed) key
        ≡ or_decryption_failed adapter
            (adapter.aes_gcm_decrypt key nonce sealed.ciphertext sealed.auth_tag)
  unfolding decrypt_pocket_blob
  decrypt-layout adapter key hk =
      rw
        (
          hk,
          long_enough,
          tag-layout magic nonce sealed refl hn ht,
          ciphertext-layout magic nonce sealed refl hn ht,
          nonce-layout magic nonce sealed refl hn ht,
        )
        refl

-- The blob that is written for a plaintext.
abbrev pub sealed_blob : PocketCryptoAdapter → List ℕ → List ℕ → List ℕ
sealed_blob adapter plaintext key =
    layout magic (adapter.random_bytes nonce_len)
      (adapter.aes_gcm_encrypt key (adapter.random_bytes nonce_len) plaintext)

module _ (adapter : PocketCryptoAdapter) (aes : IsAesGcm adapter) where
  encrypt-eq-layout :
      (plaintext key : List ℕ)
      → length key ≡ key_len
      → encrypt_pocket_blob adapter plaintext key ≡ ok (sealed_blob adapter plaintext key)
  unfolding encrypt_pocket_blob
  encrypt-eq-layout plaintext key hk =
      rw (hk, aes.tag_length key (adapter.random_bytes nonce_len) plaintext)
        (ap ok (
          concat_bytes-seal_parts adapter (adapter.random_bytes nonce_len)
            (adapter.aes_gcm_encrypt key (adapter.random_bytes nonce_len) plaintext)))

  -- Bytes sealed under a key of 32 bytes give a blob of bytes, and opening that blob under the same
  -- key gives them back. AES-256-GCM does what `IsAesGcm` says.
  pub decrypt-encrypt :
      (plaintext key : List ℕ)
      → All IsByte plaintext
      → length key ≡ key_len
      → (encrypt_pocket_blob adapter plaintext key ≡ ok (sealed_blob adapter plaintext key))
        × All IsByte (sealed_blob adapter plaintext key)
        × (decrypt_pocket_blob adapter (sealed_blob adapter plaintext key) key ≡ ok plaintext)
  decrypt-encrypt plaintext key hp hk =
      let nonce = adapter.random_bytes nonce_len in
      let sealed = adapter.aes_gcm_encrypt key nonce plaintext in
      let (ciphertext_bytes, tag_bytes) = aes.sealed_bytes key nonce plaintext hp in
      let tag = aes.tag_length key nonce plaintext in
      let fresh = aes.random_length nonce_len in
      (
        encrypt-eq-layout plaintext key hk,
        layout-IsByte magic nonce sealed refl fresh tag (omega arith) (aes.random_bytes nonce_len)
            ciphertext_bytes tag_bytes,
        decrypt-layout nonce sealed fresh tag adapter key hk
            ∙ ap (or_decryption_failed adapter) (aes.opens key nonce plaintext hp),
      )
