-- ===== src/Pocket/Bytes/Reading.antt =====
-- What `base64ToBytes` makes of the characters of one group of sextets.
use Prim.Native.Nat.{bit_and, bit_or}
use arkode.Prelude.{
  ℕ, zero, suc, ◌+◌, ◌*◌, ◌/◌, ◌%◌, ◌^◌, ◌<◌, ◌≡◌, refl, ap, ◌∙◌, Bool, true, false, ◌&&◌, List, [],
  ◌∷◌, ◌++◌, Option, none, some, arith, ◌==◌, not,
}
use arkode.Prelude.Words.{shl, sar, bit_or-eq-add, bit_and-255}
use arkode.Pocket.Bytes.{base64_lookup, base64_char, DecodeState, feed, decode_loop}

-- The character of a sextet is no '=', and the map gives the sextet back.
abbrev is_code_of : ℕ → ℕ → Option ℕ → Bool
is_code_of i char none = false
is_code_of i char (some j) = (i == j) && not (char == b'=')

is_code_of_sound :
    (i char : ℕ) (found : Option ℕ)
    → is_code_of i char found ≡ true
    → (found ≡ some i) × ((char == b'=') ≡ false)
is_code_of_sound i char none h = cc
is_code_of_sound i char (some j) h = ground arith

all_read_back : ℕ → Bool
all_read_back zero = true
all_read_back (suc n) =
    is_code_of n (base64_char n) (base64_lookup (base64_char n)) && all_read_back n

below-reads_back :
    (n i : ℕ)
    → all_read_back n ≡ true
    → i < n
    → is_code_of i (base64_char i) (base64_lookup (base64_char i)) ≡ true
unfolding all_read_back
below-reads_back zero i all h = absurd (omega arith)
below-reads_back (suc n) i all h = ground (arith, below-reads_back n i)

sextet-reads_back :
    (i : ℕ) → i < 64 → (base64_lookup (base64_char i) ≡ some i) × ((base64_char i == b'=') ≡ false)
sextet-reads_back i h =
    is_code_of_sound i _ _
      (below-reads_back 64 i (unfold all_read_back base64_lookup base64_char in refl) h)

decode_loop-char :
    (i : ℕ) (chars : List ℕ) (s : DecodeState)
    → i < 64
    → decode_loop (base64_char i ∷ chars) s ≡ decode_loop chars (feed i s)
unfolding decode_loop
decode_loop-char i chars s h = let (found, other) = sextet-reads_back i h in rw (other, found)

-- The buffer after one more sextet.
abbrev pub join : ℕ → ℕ → ℕ
join buffer v = buffer * 64 % 2 ^ 32 + v

or_sextet : (buffer v : ℕ) → v < 64 → bit_or (shl buffer 6) v ≡ join buffer v
or_sextet buffer v h = bit_or-eq-add 6 (shl buffer 6) (shl buffer 6 / 64) v (omega arith) h

-- The byte that is taken out of the buffer: the copies of the sign bit are cut off.
module _ (x : ℕ) (small : x < 2 ^ 32) where
  byte_at_4 : bit_and (sar x 4) 255 ≡ x / 16 % 256
  byte_at_4 = rw bit_and-255 (ground arith)

  byte_at_2 : bit_and (sar x 2) 255 ≡ x / 4 % 256
  byte_at_2 = rw bit_and-255 (ground arith)

  byte_at_0 : bit_and (sar x 0) 255 ≡ x % 256
  byte_at_0 = rw bit_and-255 (ground arith)

abbrev pub at_bits : ℕ → ℕ → List ℕ → DecodeState
at_bits buffer bits out = record { buffer = buffer; bits_collected = bits; out = out }

module _ (buffer v : ℕ) (out : List ℕ) (small : v < 64) where
  feed_0 : feed v (at_bits buffer 0 out) ≡ at_bits (join buffer v) 6 out
  feed_0 = rw (or_sextet buffer v small)

  feed_6 :
      feed v (at_bits buffer 6 out)
      ≡ at_bits (join buffer v) 4 (out ++ (join buffer v / 16 % 256 ∷ []))
  feed_6 = rw (or_sextet buffer v small, byte_at_4 (join buffer v) (omega arith))

  feed_4 :
      feed v (at_bits buffer 4 out)
      ≡ at_bits (join buffer v) 2 (out ++ (join buffer v / 4 % 256 ∷ []))
  feed_4 = rw (or_sextet buffer v small, byte_at_2 (join buffer v) (omega arith))

  feed_2 :
      feed v (at_bits buffer 2 out) ≡ at_bits (join buffer v) 0 (out ++ (join buffer v % 256 ∷ []))
  feed_2 = rw (or_sextet buffer v small, byte_at_0 (join buffer v) (omega arith))

-- The second, third and fourth sextet of a group, each with the byte that it completes.
module _ (buffer u v : ℕ) (chars out : List ℕ) (hu : u < 64) (hv : v < 64) where
  first_byte : join (join buffer u) v / 16 % 256 ≡ u * 4 + v / 16
  first_byte = omega arith

  second_byte : join (join buffer u) v / 4 % 256 ≡ u % 16 * 16 + v / 4
  second_byte = omega arith

  third_byte : join (join buffer u) v % 256 ≡ u % 4 * 64 + v
  third_byte = omega arith

  read_second :
      decode_loop (base64_char v ∷ chars) (at_bits (join buffer u) 6 out)
      ≡ decode_loop chars (at_bits (join (join buffer u) v) 4 (out ++ ((u * 4 + v / 16) ∷ [])))
  read_second =
      decode_loop-char v chars _ hv
      ∙ ap (decode_loop chars) (feed_6 (join buffer u) v out hv)
      ∙ rw first_byte

  read_third :
      decode_loop (base64_char v ∷ chars) (at_bits (join buffer u) 4 out)
      ≡ decode_loop chars (at_bits (join (join buffer u) v) 2 (out ++ ((u % 16 * 16 + v / 4) ∷ [])))
  read_third =
      decode_loop-char v chars _ hv
      ∙ ap (decode_loop chars) (feed_4 (join buffer u) v out hv)
      ∙ rw second_byte

  read_fourth :
      decode_loop (base64_char v ∷ chars) (at_bits (join buffer u) 2 out)
      ≡ decode_loop chars (at_bits (join (join buffer u) v) 0 (out ++ ((u % 4 * 64 + v) ∷ [])))
  read_fourth =
      decode_loop-char v chars _ hv
      ∙ ap (decode_loop chars) (feed_2 (join buffer u) v out hv)
      ∙ rw third_byte

-- Two sextets that start on a byte's edge complete a byte, three complete two, four three.
module _ (buffer u v : ℕ) (out : List ℕ) (hu : u < 64) (hv : v < 64) where
  pub read_two :
      (chars : List ℕ)
      → decode_loop (base64_char u ∷ base64_char v ∷ chars) (at_bits buffer 0 out)
        ≡ decode_loop chars (at_bits (join (join buffer u) v) 4 (out ++ ((u * 4 + v / 16) ∷ [])))
  read_two chars =
      decode_loop-char u _ _ hu
      ∙ ap (decode_loop (base64_char v ∷ chars)) (feed_0 buffer u out hu)
      ∙ read_second buffer u v chars out hu hv

  module _ (w : ℕ) (hw : w < 64) where
    pub read_three :
        (chars : List ℕ)
        → decode_loop (base64_char u ∷ base64_char v ∷ base64_char w ∷ chars) (at_bits buffer 0 out)
          ≡ decode_loop chars (
              at_bits
                (join (join (join buffer u) v) w)
                2
                ((out ++ ((u * 4 + v / 16) ∷ [])) ++ ((v % 16 * 16 + w / 4) ∷ [])))
    read_three chars =
        read_two (base64_char w ∷ chars) ∙ read_third (join buffer u) v w chars _ hv hw

    pub read_four :
        (x : ℕ) (chars : List ℕ)
        → x < 64
        → decode_loop
            (base64_char u ∷ base64_char v ∷ base64_char w ∷ base64_char x ∷ chars)
            (at_bits buffer 0 out)
          ≡ decode_loop chars (
              at_bits (join (join (join (join buffer u) v) w) x) 0 (
                ((out ++ ((u * 4 + v / 16) ∷ [])) ++ ((v % 16 * 16 + w / 4) ∷ []))
                ++ ((w % 4 * 64 + x) ∷ [])))
    read_four x chars hx =
        read_three (base64_char x ∷ chars) ∙ read_fourth (join (join buffer u) v) w x chars _ hw hx

pub decode_loop-padding : (chars : List ℕ) (s : DecodeState) → decode_loop (b'=' ∷ chars) s ≡ s
unfolding decode_loop
decode_loop-padding chars s = refl
