-- ===== src/Pocket/Bytes.antt =====
-- packages/pocket-shared/src/bytes.ts. A `Uint8Array` is a list of numbers below 256, and a text in
-- base64 the list of its character codes.
pub mod Reading
pub mod Base64
pub mod Arrays
mod Examples
use Prim.Native.Char.{code}
use Prim.Native.String.{String}
use Prim.Native.Nat.{bit_and, bit_or, bit_xor}
use arkode.Prelude.{
  ℕ, zero, suc, ◌+◌, ◌-◌, ◌<◌, Bool, true, false, List, [], ◌∷◌, ◌++◌, Option, none, some, leb,
  ◌==◌, if◌then◌else◌, length, take, drop,
}
use arkode.Prelude.Words.{shl, sar}

-- `String` has its own `[]` and `∷`.
abbrev pub codes : String → List ℕ
codes String.[] = []
codes (String.◌∷◌ c s) = code c ∷ codes s

abbrev pub base64_alphabet : List ℕ
base64_alphabet = codes "ABCDEFGHIJKLMNOPQRSTUVWXYZabcdefghijklmnopqrstuvwxyz0123456789+/"

-- `BASE64_ALPHABET[i]`, and 0 past its end, where the source never reads.
abbrev pub char_at : List ℕ → ℕ → ℕ
char_at [] i = 0
char_at (c ∷ cs) zero = c
char_at (c ∷ cs) (suc i) = char_at cs i

-- The map from each character to its place, counted from `i` on.
abbrev pub index_from : ℕ → List ℕ → ℕ → Option ℕ
index_from i [] char = none
index_from i (c ∷ cs) char = if c == char then some i else index_from (i + 1) cs char

unfoldable pub base64_lookup : ℕ → Option ℕ
base64_lookup char = index_from 0 base64_alphabet char

unfoldable pub base64_char : ℕ → ℕ
base64_char i = char_at base64_alphabet i

-- One character of a group: `BASE64_ALPHABET[(n >> k) & 63]`.
abbrev pub sextet : ℕ → ℕ → ℕ
sextet n k = base64_char (bit_and (sar n k) 63)

unfoldable pub bytes_to_base64 : List ℕ → List ℕ
unfolding base64_char
bytes_to_base64 (a ∷ b ∷ c ∷ rest) =
    let n = bit_or (bit_or (shl a 16) (shl b 8)) c in
    sextet n 18 ∷ sextet n 12 ∷ sextet n 6 ∷ sextet n 0 ∷ bytes_to_base64 rest
bytes_to_base64 (a ∷ b ∷ []) =
    let n = bit_or (shl a 16) (shl b 8) in sextet n 18 ∷ sextet n 12 ∷ sextet n 6 ∷ b'=' ∷ []
bytes_to_base64 (a ∷ []) = let n = shl a 16 in sextet n 18 ∷ sextet n 12 ∷ b'=' ∷ b'=' ∷ []
bytes_to_base64 [] = []

-- The locals of the loop of `base64ToBytes`.
pub record DecodeState : Type 0 where
  pub buffer : ℕ
  pub bits_collected : ℕ
  pub out : List ℕ

-- `buffer` is not cut back to the bits that are still wanted: it keeps the 32 read last.
abbrev pub push_byte : DecodeState → DecodeState
push_byte s =
    if leb 8 s.bits_collected
    then record s {
      bits_collected = s.bits_collected - 8;
      out = s.out ++ (bit_and (sar s.buffer (s.bits_collected - 8)) 255 ∷ []);
    }
    else s

abbrev pub feed : ℕ → DecodeState → DecodeState
feed value s =
    push_byte
      (record s { buffer = bit_or (shl s.buffer 6) value; bits_collected = s.bits_collected + 6 })

-- A character outside of the alphabet is skipped.
abbrev pub feed_char : Option ℕ → DecodeState → DecodeState
feed_char none s = s
feed_char (some value) s = feed value s

unfoldable pub decode_loop : List ℕ → DecodeState → DecodeState
unfolding base64_lookup
decode_loop [] s = s
decode_loop (char ∷ chars) s =
    let rest = decode_loop chars (feed_char (base64_lookup char) s) in
    if char == b'=' then s else rest

unfoldable pub base64_to_bytes : List ℕ → List ℕ
unfolding decode_loop
base64_to_bytes b64 = (decode_loop b64 (record { buffer = 0; bits_collected = 0; out = [] })).out

abbrev pub zeros : ℕ → List ℕ
zeros zero = []
zeros (suc n) = 0 ∷ zeros n

-- `out.set(chunk, offset)`.
abbrev pub set_at : List ℕ → ℕ → List ℕ → List ℕ
set_at chunk offset out = take offset out ++ (chunk ++ drop (offset + length chunk) out)

abbrev pub total_length : List (List ℕ) → ℕ
total_length [] = 0
total_length (chunk ∷ chunks) = length chunk + total_length chunks

abbrev pub fill_from : ℕ → List (List ℕ) → List ℕ → List ℕ
fill_from offset [] out = out
fill_from offset (chunk ∷ chunks) out =
    fill_from (offset + length chunk) chunks (set_at chunk offset out)

unfoldable pub concat_bytes : List (List ℕ) → List ℕ
concat_bytes chunks = fill_from 0 chunks (zeros (total_length chunks))

-- `diff |= a[i] ^ b[i]` over arrays of the same length.
abbrev pub diff_from : ℕ → List ℕ → List ℕ → ℕ
diff_from diff (a ∷ more) (b ∷ bs) = diff_from (bit_or diff (bit_xor a b)) more bs
diff_from diff _ _ = diff

unfoldable pub bytes_equal : List ℕ → List ℕ → Bool
bytes_equal a b = if length a == length b then diff_from 0 a b == 0 else false
