-- ===== src/Prelude/Words.antt =====
-- The 32-bit integers of JavaScript's bit operators, by their bits: a number below 2 ^ 32 stands
-- for the int32 with these bits.
use Prim.Native.Nat.{
  ℕ, zero, suc, ◌+◌, ◌-◌, ◌*◌, ◌/◌, ◌%◌, ◌^◌, ◌≤◌, ◌<◌, bit_and, bit_or, bit_and-bitwise,
  bit_or-bitwise, bit_xor, bit_xor-bitwise, digits, differ, min, max,
}
use mathlib.Core.Path.{◌≡◌, refl, ap}
use native.Mathlib.Nat.{pow-suc}
use native.Mathlib.Omega.{arith}
use arkode.Prelude.Tests.{ltb, if◌then◌else◌}

-- `x << k`
abbrev pub shl : ℕ → ℕ → ℕ
shl x k = x * 2 ^ k % 2 ^ 32

-- `x >> k`, which copies the sign bit in.
abbrev pub sar : ℕ → ℕ → ℕ
sar x k = if ltb x (2 ^ 31) then x / 2 ^ k else x / 2 ^ k + (2 ^ 32 - 2 ^ (32 - k))

-- The two operands have no bit in common: the first is a multiple of 2 ^ k, the second is below.
or_digits : (k n a q r : ℕ) → a ≤ n → a ≡ q * 2 ^ k → r < 2 ^ k → digits (λ b. b) max n a r ≡ a + r
or_digits k zero a q r below multiple small = omega arith
or_digits k (suc n) zero q r below multiple small = omega arith
or_digits zero (suc n) (suc a) q r below multiple small =
    ground (arith, or_digits zero n (suc a / 2) (suc a / 2) (r / 2) (omega arith) (omega arith))
or_digits (suc k) (suc n) (suc a) q r below multiple small =
    let doubled : q * 2 ^ suc k ≡ 2 * (q * 2 ^ k) =
      omega (arith, ap (λ (p : ℕ). q * p) (pow-suc 2 k)) in
    ground (
      arith,
      or_digits k n (suc a / 2) q (r / 2) (omega arith) (omega arith) (omega (arith, pow-suc 2 k)),
    )

pub bit_or-eq-add : (k a q r : ℕ) → a ≡ q * 2 ^ k → r < 2 ^ k → bit_or a r ≡ a + r
bit_or-eq-add k a q r multiple small =
    simp bit_or-bitwise (or_digits k a a q r (omega arith) multiple small)

and_digits :
    (k n a m q r : ℕ)
    → a ≤ n
    → a ≡ q * 2 ^ k + r
    → r < 2 ^ k
    → m + 1 ≡ 2 ^ k
    → digits (λ b. 0) min n a m ≡ r
and_digits k zero a m q r below fields small mask = omega arith
and_digits k (suc n) zero m q r below fields small mask = omega arith
and_digits zero (suc n) (suc a) m q r below fields small mask = ground (
  arith,
  and_digits zero n (suc a / 2) (m / 2) (suc a / 2) 0 (omega arith) (omega arith) (omega arith)
      (omega arith),
)
and_digits (suc k) (suc n) (suc a) m q r below fields small mask =
    let doubled : q * 2 ^ suc k ≡ 2 * (q * 2 ^ k) =
      omega (arith, ap (λ (p : ℕ). q * p) (pow-suc 2 k)) in
    ground (
      arith,
      and_digits k n (suc a / 2) (m / 2) q (r / 2) (omega arith) (omega arith)
          (omega (arith, pow-suc 2 k)) (omega (arith, pow-suc 2 k)),
      pow-suc 2 k,
    )

-- A mask of the 6 or the 8 lowest bits is a remainder.
pub bit_and-63 : (a : ℕ) → bit_and a 63 ≡ a % 64
bit_and-63 a =
    simp bit_and-bitwise (
      and_digits 6 a a 63 (a / 64) (a % 64) (omega arith) (omega arith) (omega arith) (omega arith))

pub bit_and-255 : (a : ℕ) → bit_and a 255 ≡ a % 256
bit_and-255 a = simp bit_and-bitwise (
    and_digits 8 a a 255 (a / 256) (a % 256) (omega arith) (omega arith) (omega arith)
      (omega arith))

or_digits-zero : (n a b : ℕ) → a ≤ n → digits (λ y. y) max n a b ≡ 0 → (a ≡ 0) × (b ≡ 0)
or_digits-zero zero a b below e = omega arith
or_digits-zero (suc n) zero b below e = omega arith
or_digits-zero (suc n) (suc a) b below e =
    ground (arith, or_digits-zero n (suc a / 2) (b / 2) (omega arith))

pub bit_or-eq-zero : (a b : ℕ) → bit_or a b ≡ 0 → (a ≡ 0) × (b ≡ 0)
bit_or-eq-zero a b e = or_digits-zero a a b (omega arith) (simp bit_or-bitwise at e)

differ-zero : (a b : ℕ) → differ a b ≡ 0 → a ≡ b
differ-zero zero b e = omega arith
differ-zero (suc a) zero e = omega arith
differ-zero (suc a) (suc b) e = ap suc (differ-zero a b e)

differ_self : (a : ℕ) → differ a a ≡ 0
differ_self zero = refl
differ_self (suc a) = differ_self a

xor_digits-zero : (n a b : ℕ) → a ≤ n → digits (λ y. y) differ n a b ≡ 0 → a ≡ b
xor_digits-zero zero a b below e = omega arith
xor_digits-zero (suc n) zero b below e = omega arith
xor_digits-zero (suc n) (suc a) b below e =
    ground
      (arith, xor_digits-zero n (suc a / 2) (b / 2) (omega arith), differ-zero (suc a % 2) (b % 2))

xor_digits_self : (n a : ℕ) → a ≤ n → digits (λ y. y) differ n a a ≡ 0
xor_digits_self zero a below = omega arith
xor_digits_self (suc n) zero below = refl
xor_digits_self (suc n) (suc a) below =
    ground (arith, xor_digits_self n (suc a / 2) (omega arith), differ_self (suc a % 2))

-- `a ^ b` is 0 exactly where the two are the same.
pub bit_xor-eq-zero : (a b : ℕ) → bit_xor a b ≡ 0 → a ≡ b
bit_xor-eq-zero a b e = xor_digits-zero a a b (omega arith) (simp bit_xor-bitwise at e)

pub bit_xor_self : (a : ℕ) → bit_xor a a ≡ 0
bit_xor_self a = simp bit_xor-bitwise (xor_digits_self a a (omega arith))
