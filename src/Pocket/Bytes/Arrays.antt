-- ===== src/Pocket/Bytes/Arrays.antt =====
-- `concatBytes` and `bytesEqual` against plain lists.
use Prim.Native.Nat.{bit_or, bit_xor}
use mathlib.Core.List.{append_assoc}
use arkode.Prelude.{
  ℕ, zero, suc, ◌+◌, ◌≡◌, refl, sym, ap, ap₂, ◌∙◌, true, List, [], ◌∷◌, ◌++◌, drop, length,
  length-append, arith,
}
use native.Mathlib.Nat.{zero-add, suc-add}
use arkode.Prelude.Words.{bit_or-eq-zero, bit_xor-eq-zero, bit_xor_self}
use arkode.Ciphertext.{take-append, drop-append}
use arkode.Pocket.Bytes.{
  zeros, set_at, total_length, fill_from, concat_bytes, diff_from, bytes_equal,
}

abbrev pub flatten : List (List ℕ) → List ℕ
flatten [] = []
flatten (chunk ∷ chunks) = chunk ++ flatten chunks

drop-zeros : (m n : ℕ) → drop m (zeros (m + n)) ≡ zeros n
drop-zeros zero n = ap zeros (zero-add n)
drop-zeros (suc m) n = rw suc-add (drop-zeros m n)

-- The chunk overwrites the zeros that stand behind what was written before.
set_at-append :
    (chunk front : List ℕ) (n : ℕ)
    → set_at chunk (length front) (front ++ zeros (length chunk + n)) ≡ (front ++ chunk) ++ zeros n
set_at-append chunk front n =
    rw
      (
        take-append front (zeros (length chunk + n)),
        drop-append front (zeros (length chunk + n)) (length chunk),
        drop-zeros (length chunk) n,
      )
      (sym (append_assoc front chunk (zeros n)))

fill_from-eq-flatten :
    (chunks : List (List ℕ)) (front : List ℕ)
    → fill_from (length front) chunks (front ++ zeros (total_length chunks))
      ≡ front ++ flatten chunks
fill_from-eq-flatten [] front = refl
fill_from-eq-flatten (chunk ∷ chunks) front =
    rw (set_at-append chunk front (total_length chunks), sym (length-append front chunk))
      (fill_from-eq-flatten chunks (front ++ chunk) ∙ append_assoc front chunk (flatten chunks))

-- `concatBytes` is the chunks one behind the other.
pub concat_bytes-eq-flatten : (chunks : List (List ℕ)) → concat_bytes chunks ≡ flatten chunks
unfolding concat_bytes
concat_bytes-eq-flatten chunks = fill_from-eq-flatten chunks []

diff_from-zero :
    (diff : ℕ) (a b : List ℕ) → length a ≡ length b → diff_from diff a b ≡ 0 → (diff ≡ 0) × (a ≡ b)
diff_from-zero diff [] [] same e = (e, refl)
diff_from-zero diff [] (y ∷ b) same e = absurd (omega arith)
diff_from-zero diff (x ∷ a) [] same e = absurd (omega arith)
diff_from-zero diff (x ∷ a) (y ∷ b) same e =
    let (here, rest) = diff_from-zero (bit_or diff (bit_xor x y)) a b (omega arith) e in
    let (diff_zero, xor_zero) = bit_or-eq-zero diff (bit_xor x y) here in
    (diff_zero, ap₂ ◌∷◌ (bit_xor-eq-zero x y xor_zero) rest)

diff_from_self : (a : List ℕ) → diff_from 0 a a ≡ 0
diff_from_self [] = refl
diff_from_self (x ∷ a) = rw (bit_xor_self x) (diff_from_self a)

-- `bytesEqual` is equality.
pub bytes_equal_self : (a : List ℕ) → bytes_equal a a ≡ true
unfolding bytes_equal
bytes_equal_self a = ground (arith, diff_from_self a)

pub bytes_equal_sound : (a b : List ℕ) → bytes_equal a b ≡ true → a ≡ b
unfolding bytes_equal
bytes_equal_sound a b e = (diff_from-zero 0 a b same zero_diff).1
  where
    same : length a ≡ length b
    same = ground arith

    zero_diff : diff_from 0 a b ≡ 0
    zero_diff = ground arith
