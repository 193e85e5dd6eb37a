-- ===== src/Pocket/Bytes/Base64.antt =====
-- What `bytesToBase64` writes, and that it is read back.
use Prim.Native.Nat.{bit_or}
use arkode.Prelude.{
  ℕ, ◌+◌, ◌*◌, ◌/◌, ◌%◌, ◌^◌, ◌<◌, ◌≡◌, refl, ap, ◌∙◌, List, [], ◌∷◌, ◌++◌, All, arith,
}
use arkode.Prelude.Words.{shl, bit_or-eq-add, bit_and-63}
use arkode.Ciphertext.{IsByte}
use arkode.Pocket.Bytes.Reading.{at_bits, read_two, read_three, read_four, decode_loop-padding}
use mathlib.Core.List.{append-nil, append_assoc}
use arkode.Pocket.Bytes.{base64_char, sextet, bytes_to_base64, decode_loop, base64_to_bytes}

-- The characters of a group of three bytes, and of the one or two that stand before the padding.
module _ (n t : ℕ) (small : n < 2 ^ 24) where
  sextet_18 : n / 2 ^ 18 ≡ t → sextet n 18 ≡ base64_char t
  sextet_18 h = ap base64_char (rw bit_and-63 (ground arith))

  sextet_12 : n / 2 ^ 12 % 64 ≡ t → sextet n 12 ≡ base64_char t
  sextet_12 h = ap base64_char (rw bit_and-63 (ground arith))

  sextet_6 : n / 2 ^ 6 % 64 ≡ t → sextet n 6 ≡ base64_char t
  sextet_6 h = ap base64_char (rw bit_and-63 (ground arith))

  sextet_0 : n % 64 ≡ t → sextet n 0 ≡ base64_char t
  sextet_0 h = ap base64_char (rw bit_and-63 (ground arith))

module _ (a b : ℕ) (ha : IsByte a) (hb : IsByte b) where
  pair-eq : bit_or (shl a 16) (shl b 8) ≡ a * 65536 + b * 256
  pair-eq = bit_or-eq-add 16 (shl a 16) a (shl b 8) (omega arith) (omega arith) ∙ omega arith

  triple-eq : (c : ℕ) → IsByte c → bit_or (bit_or (shl a 16) (shl b 8)) c ≡ a * 65536 + b * 256 + c
  triple-eq c hc =
      rw pair-eq (bit_or-eq-add 8 (a * 65536 + b * 256) (a * 256 + b) c (omega arith) (omega arith))

-- What the encoder writes, by sextets.
module _ (a : ℕ) (ha : IsByte a) where
  encode_one :
      bytes_to_base64 (a ∷ []) ≡ base64_char (a / 4) ∷ base64_char (a % 4 * 16) ∷ b'=' ∷ b'=' ∷ []
  unfolding bytes_to_base64
  encode_one = cc (
    sextet_18 (shl a 16) (a / 4) (omega arith) (omega arith),
    sextet_12 (shl a 16) (a % 4 * 16) (omega arith) (omega arith),
  )

  module _ (b : ℕ) (hb : IsByte b) where
    encode_two :
        bytes_to_base64 (a ∷ b ∷ [])
        ≡ base64_char (a / 4)
          ∷ base64_char (a % 4 * 16 + b / 16)
          ∷ base64_char (b % 16 * 4)
          ∷ b'='
          ∷ []
    unfolding bytes_to_base64
    encode_two =
        let n = a * 65536 + b * 256 in
        rw (pair-eq a b ha hb) (
          cc (
            sextet_18 n (a / 4) (omega arith) (omega arith),
            sextet_12 n (a % 4 * 16 + b / 16) (omega arith) (omega arith),
            sextet_6 n (b % 16 * 4) (omega arith) (omega arith),
          ))

    encode_three :
        (c : ℕ) (rest : List ℕ)
        → IsByte c
        → bytes_to_base64 (a ∷ b ∷ c ∷ rest)
          ≡ base64_char (a / 4)
            ∷ base64_char (a % 4 * 16 + b / 16)
            ∷ base64_char (b % 16 * 4 + c / 64)
            ∷ base64_char (c % 64)
            ∷ bytes_to_base64 rest
    unfolding bytes_to_base64
    encode_three c rest hc =
        let n = a * 65536 + b * 256 + c in
        rw (triple-eq a b ha hb c hc) (
          cc (
            sextet_18 n (a / 4) (omega arith) (omega arith),
            sextet_12 n (a % 4 * 16 + b / 16) (omega arith) (omega arith),
            sextet_6 n (b % 16 * 4 + c / 64) (omega arith) (omega arith),
            sextet_0 n (c % 64) (omega arith) (omega arith),
          ))

-- The rest of an encoding, read from a byte's edge with `out` read before.
decode_loop-encoding :
    (bytes : List ℕ) (buffer : ℕ) (out : List ℕ)
    → All IsByte bytes
    → (decode_loop (bytes_to_base64 bytes) (at_bits buffer 0 out)).out ≡ out ++ bytes
decode_loop-encoding [] buffer out h = rw append-nil (unfold bytes_to_base64 decode_loop in refl)
decode_loop-encoding (a ∷ []) buffer out (ha, _) =
    rw
      (
        encode_one a ha,
        read_two buffer (a / 4) (a % 4 * 16) out (omega arith) (omega arith),
        decode_loop-padding,
      )
      (ap (λ (x : ℕ). out ++ (x ∷ [])) (omega arith))
decode_loop-encoding (a ∷ b ∷ []) buffer out (ha, (hb, _)) =
    rw
      (
        encode_two a ha b hb,
        read_three buffer (a / 4) (a % 4 * 16 + b / 16) out (omega arith) (omega arith) (b % 16 * 4)
            (omega arith),
        decode_loop-padding,
        append_assoc,
      )
      (two_bytes (omega arith) (omega arith))
  where
    two_bytes : {x y : ℕ} → x ≡ a → y ≡ b → out ++ (x ∷ y ∷ []) ≡ out ++ (a ∷ b ∷ [])
    two_bytes hx hy = cc
decode_loop-encoding (a ∷ b ∷ c ∷ rest) buffer out (ha, (hb, (hc, hrest))) =
    rw
      (
        encode_three a ha b hb c rest hc,
        read_four buffer (a / 4) (a % 4 * 16 + b / 16) out (omega arith) (omega arith)
            (b % 16 * 4 + c / 64) (omega arith) (c % 64) (bytes_to_base64 rest) (omega arith),
        decode_loop-encoding rest _ _ hrest,
        append_assoc,
        append_assoc,
        append_assoc,
      )
      (three_bytes (omega arith) (omega arith) (omega arith))
  where
    three_bytes :
        {x y z : ℕ} → x ≡ a → y ≡ b → z ≡ c → out ++ (x ∷ y ∷ z ∷ rest) ≡ out ++ (a ∷ b ∷ c ∷ rest)
    three_bytes hx hy hz = cc

-- `base64ToBytes` gives back the bytes that `bytesToBase64` was given, whatever their number.
pub base64_to_bytes-bytes_to_base64 :
    (bytes : List ℕ) → All IsByte bytes → base64_to_bytes (bytes_to_base64 bytes) ≡ bytes
unfolding base64_to_bytes
base64_to_bytes-bytes_to_base64 bytes h = decode_loop-encoding bytes 0 [] h
