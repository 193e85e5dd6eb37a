-- ===== src/Vault/Crypto/Wrapping.antt =====
-- What is encrypted under a key is decrypted under the same key.
use arkode.Prelude.{ℕ, ◌≡◌, refl, true, false, List, ltb, length, arith}
use arkode.Prelude.Results.{ok}
use arkode.Ciphertext.{layout, length-layout, nonce-layout, tag-layout, ciphertext-layout}
use arkode.Vault.Crypto.{
  vault_magic, vault_nonce_len, vault_tag_len, vault_key_len, vault_min_blob_len,
  verifier_plaintext, ScryptParams, NodeCrypto, encrypt_bytes, decrypt_bytes, verifier_matches,
}

-- What Node's primitives promise: scrypt answers `keylen` bytes, a tag has 16 bytes, and what was sealed under a key and a nonce opens
-- under the same.
pub record IsCipher (crypto : NodeCrypto) : Type 0 where
  pub tag_length :
      (key nonce plaintext : List ℕ)
      → length (crypto.seal key nonce plaintext).auth_tag ≡ vault_tag_len
  pub kdf_length :
      (password salt : List ℕ) (params : ScryptParams)
      → length (crypto.scrypt password salt params) ≡ params.keylen
  pub opens :
      (key nonce plaintext : List ℕ)
      → crypto.open_sealed key nonce
          (crypto.seal key nonce plaintext).ciphertext
          (crypto.seal key nonce plaintext).auth_tag
        ≡ ok plaintext

module _ (crypto : NodeCrypto) (cipher : IsCipher crypto) where
  abbrev pub blob_of : List ℕ → List ℕ → List ℕ → List ℕ
  blob_of nonce plaintext key = layout vault_magic nonce (crypto.seal key nonce plaintext)

  module _ (nonce plaintext key : List ℕ) (hn : length nonce ≡ vault_nonce_len)
      (hk : length key ≡ vault_key_len) where
    pub encrypt_bytes-blob_of :
        encrypt_bytes crypto nonce plaintext key ≡ ok (blob_of nonce plaintext key)
    unfolding encrypt_bytes
    encrypt_bytes-blob_of = rw hk refl

    pub decrypt_bytes-blob_of :
        decrypt_bytes crypto (blob_of nonce plaintext key) key ≡ ok plaintext
    unfolding decrypt_bytes
    decrypt_bytes-blob_of =
        let sealed = crypto.seal key nonce plaintext in
        let tag = cipher.tag_length key nonce plaintext in
        let long_enough : ltb (length (layout vault_magic nonce sealed)) vault_min_blob_len
            ≡ false =
          ground (arith, length-layout vault_magic nonce sealed refl hn tag) in
        rw
          (
            hk,
            long_enough,
            tag-layout vault_magic nonce sealed refl hn tag,
            ciphertext-layout vault_magic nonce sealed refl hn tag,
            nonce-layout vault_magic nonce sealed refl hn tag,
            cipher.opens key nonce plaintext,
          )
          refl

  pub verifier_matches-blob_of :
      (nonce dek : List ℕ)
      → length nonce ≡ vault_nonce_len
      → length dek ≡ vault_key_len
      → verifier_matches crypto (blob_of nonce verifier_plaintext dek) dek ≡ true
  verifier_matches-blob_of nonce dek hn hk =
      rw (decrypt_bytes-blob_of nonce verifier_plaintext dek hn hk) refl
