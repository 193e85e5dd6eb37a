-- ===== src/Pocket/Bytes/Examples.antt =====
-- Tests and the theorem at a concrete input.
use arkode.Prelude.{◌≡◌, refl, false, [], ◌∷◌, arith}
use arkode.Pocket.Bytes.{
  codes, base64_lookup, base64_char, bytes_to_base64, decode_loop, base64_to_bytes, concat_bytes,
  bytes_equal,
}
use arkode.Pocket.Bytes.Base64.{base64_to_bytes-bytes_to_base64}

encode_many : bytes_to_base64 (codes "Many") ≡ codes "TWFueQ=="
unfolding bytes_to_base64 base64_char
encode_many = refl

decode_wrapped : base64_to_bytes (codes "TWF\nueQ==") ≡ codes "Many"
unfolding base64_to_bytes decode_loop base64_lookup
decode_wrapped = refl

concat_two : concat_bytes ((1 ∷ 2 ∷ []) ∷ [] ∷ (3 ∷ []) ∷ []) ≡ 1 ∷ 2 ∷ 3 ∷ []
unfolding concat_bytes
concat_two = refl

not_equal : bytes_equal (1 ∷ 2 ∷ []) (1 ∷ 3 ∷ []) ≡ false
unfolding bytes_equal
not_equal = refl

base64_to_bytes-bytes_to_base64_example :
    base64_to_bytes (bytes_to_base64 (255 ∷ 0 ∷ 7 ∷ 200 ∷ [])) ≡ 255 ∷ 0 ∷ 7 ∷ 200 ∷ []
base64_to_bytes-bytes_to_base64_example =
    base64_to_bytes-bytes_to_base64 (255 ∷ 0 ∷ 7 ∷ 200 ∷ [])
      (omega arith, (omega arith, (omega arith, (omega arith, tt))))
