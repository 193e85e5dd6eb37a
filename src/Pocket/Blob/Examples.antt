-- ===== src/Pocket/Blob/Examples.antt =====
-- Tests and the theorem at a concrete input.
use arkode.Prelude.{◌≡◌, refl, [], ◌∷◌, All, arith}
use arkode.Prelude.Results.{ok, err}
use arkode.Pocket.Bytes.{codes, zeros}
use arkode.Ciphertext.{IsByte}
use arkode.Pocket.Blob.{truncated, bad_magic, encrypt_pocket_blob, decrypt_pocket_blob}
use arkode.Pocket.Blob.Layout.{sealed_blob, decrypt-encrypt}
use arkode.Pocket.Samples.{plain_cipher, plain_cipher-IsAesGcm, dek}

too_short : decrypt_pocket_blob plain_cipher (codes "ARKB") dek ≡ err truncated
unfolding decrypt_pocket_blob
too_short = refl

wrong_magic : decrypt_pocket_blob plain_cipher (zeros 40) dek ≡ err bad_magic
unfolding decrypt_pocket_blob
wrong_magic = refl

decrypt-encrypt_example :
    (encrypt_pocket_blob plain_cipher (1 ∷ 2 ∷ []) dek
      ≡ ok (sealed_blob plain_cipher (1 ∷ 2 ∷ []) dek))
    × All IsByte (sealed_blob plain_cipher (1 ∷ 2 ∷ []) dek)
    × (decrypt_pocket_blob plain_cipher (sealed_blob plain_cipher (1 ∷ 2 ∷ []) dek) dek
        ≡ ok (1 ∷ 2 ∷ []))
decrypt-encrypt_example =
    decrypt-encrypt plain_cipher plain_cipher-IsAesGcm (1 ∷ 2 ∷ []) dek
      (omega arith, (omega arith, tt)) refl
