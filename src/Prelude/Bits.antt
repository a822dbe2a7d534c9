-- ===== src/Prelude/Bits.antt =====
-- The bits of a number, and the bit operations read bit by bit.
use Prim.Native.Nat.{
  ℕ, zero, suc, ◌+◌, ◌-◌, ◌*◌, ◌/◌, ◌%◌, ◌^◌, ◌≤◌, ◌<◌, min, max, bit_and, bit_or, bit_xor, digits,
  bit_and-bitwise, bit_or-bitwise, bit_xor-bitwise, differ,
}
use mathlib.Core.Path.{◌≡◌, refl, ap}
use mathlib.Core.Bool.{Bool, true, false, ◌&&◌, ◌||◌, not}
use native.Mathlib.Omega.{arith}
use native.Mathlib.Nat.{pow-suc, one-le-pow}
use kernel_dev.Prelude.Tests.{◌==◌, if◌then◌else◌}

-- Bit `k` of `x`.
unfoldable pub test_bit : ℕ → ℕ → Bool
test_bit x zero = x % 2 == 1
test_bit x (suc k) = test_bit (x / 2) k

-- One step of a digit recursion does not depend on the count of digits to go.
digits_fuel :
    (z : ℕ → ℕ) (f : ℕ → ℕ → ℕ) (n m a b : ℕ) → a ≤ n → a ≤ m → digits z f n a b ≡ digits z f m a b
digits_fuel z f zero zero a b p q = refl
digits_fuel z f zero (suc m) zero b p q = refl
digits_fuel z f zero (suc m) (suc a) b p q = absurd (omega arith)
digits_fuel z f (suc n) zero zero b p q = refl
digits_fuel z f (suc n) zero (suc a) b p q = absurd (omega arith)
digits_fuel z f (suc n) (suc m) zero b p q = refl
digits_fuel z f (suc n) (suc m) (suc a) b p q =
    ap (λ (t : ℕ). t * 2 + f (suc a % 2) (b % 2))
      (digits_fuel z f n m (suc a / 2) (b / 2) (omega arith) (omega arith))

and_step : (a b : ℕ) → bit_and a b ≡ bit_and (a / 2) (b / 2) * 2 + min (a % 2) (b % 2)
and_step zero b = omega (arith, bit_and-bitwise 0 b, bit_and-bitwise 0 (b / 2))
and_step (suc a) b = omega (
  arith,
  bit_and-bitwise (suc a) b,
  bit_and-bitwise (suc a / 2) (b / 2),
  digits_fuel (λ b. zero) min a (suc a / 2) (suc a / 2) (b / 2) (omega arith) (omega arith),
)

or_step : (a b : ℕ) → bit_or a b ≡ bit_or (a / 2) (b / 2) * 2 + max (a % 2) (b % 2)
or_step zero b = omega (arith, bit_or-bitwise 0 b, bit_or-bitwise 0 (b / 2))
or_step (suc a) b = omega (
  arith,
  bit_or-bitwise (suc a) b,
  bit_or-bitwise (suc a / 2) (b / 2),
  digits_fuel (λ b. b) max a (suc a / 2) (suc a / 2) (b / 2) (omega arith) (omega arith),
)

differ_digits :
    (x y : ℕ) → x < 2 → y < 2 → (differ x y == 1) ≡ (if x == 1 then not (y == 1) else y == 1)
differ_digits zero y p q = refl
differ_digits (suc zero) zero p q = refl
differ_digits (suc zero) (suc zero) p q = refl
differ_digits (suc zero) (suc (suc y)) p q = absurd (omega arith)
differ_digits (suc (suc x)) y p q = absurd (omega arith)

differ-lt : (x y : ℕ) → x < 2 → y < 2 → differ x y < 2
differ-lt zero y p q = q
differ-lt (suc x) zero p q = p
differ-lt (suc zero) (suc y) p q = omega arith
differ-lt (suc (suc x)) (suc y) p q = absurd (omega arith)

xor_step : (a b : ℕ) → bit_xor a b ≡ bit_xor (a / 2) (b / 2) * 2 + differ (a % 2) (b % 2)
xor_step zero b = omega (arith, bit_xor-bitwise 0 b, bit_xor-bitwise 0 (b / 2))
xor_step (suc a) b = omega (
  arith,
  bit_xor-bitwise (suc a) b,
  bit_xor-bitwise (suc a / 2) (b / 2),
  digits_fuel (λ b. b) differ a (suc a / 2) (suc a / 2) (b / 2) (omega arith) (omega arith),
)

-- Bit `k` of `a & b`.
pub test_bit-and : (a b k : ℕ) → test_bit (bit_and a b) k ≡ (test_bit a k && test_bit b k)
unfolding test_bit
test_bit-and a b zero = ground (arith, and_step a b)
test_bit-and a b (suc k) =
    let e : bit_and a b / 2 ≡ bit_and (a / 2) (b / 2) = omega (arith, and_step a b) in
    rw e (test_bit-and (a / 2) (b / 2) k)

-- Bit `k` of `a | b`.
pub test_bit-or : (a b k : ℕ) → test_bit (bit_or a b) k ≡ (test_bit a k || test_bit b k)
unfolding test_bit
test_bit-or a b zero = ground (arith, or_step a b)
test_bit-or a b (suc k) =
    let e : bit_or a b / 2 ≡ bit_or (a / 2) (b / 2) = omega (arith, or_step a b) in
    rw e (test_bit-or (a / 2) (b / 2) k)

-- Bit `k` of `a ^ b`.
pub test_bit-xor :
    (a b k : ℕ)
    → test_bit (bit_xor a b) k ≡ (if test_bit a k then not (test_bit b k) else test_bit b k)
unfolding test_bit
test_bit-xor a b zero =
    ground (arith, xor_step a b, differ_digits (a % 2) (b % 2), differ-lt (a % 2) (b % 2))
test_bit-xor a b (suc k) =
    let e : bit_xor a b / 2 ≡ bit_xor (a / 2) (b / 2) =
      omega (arith, xor_step a b, differ-lt (a % 2) (b % 2)) in
    rw e (test_bit-xor (a / 2) (b / 2) k)

pub test_bit-zero : (k : ℕ) → test_bit 0 k ≡ false
unfolding test_bit
test_bit-zero zero = refl
test_bit-zero (suc k) = test_bit-zero k

-- `1 << k` has bit `k` alone.
pub test_bit-pow : (k j : ℕ) → test_bit (2 ^ k) j ≡ (k == j)
unfolding test_bit
test_bit-pow zero zero = refl
test_bit-pow zero (suc j) = rw (test_bit-zero j) (ground arith)
test_bit-pow (suc k) zero = ground (arith, pow-suc 2 k)
test_bit-pow (suc k) (suc j) =
    let e : 2 ^ suc k / 2 ≡ 2 ^ k = omega (arith, pow-suc 2 k) in
    rw e (ground (arith, test_bit-pow k j))

-- `x & (1 << k)` is not 0 exactly when bit `k` of `x` is set.
bit_and-zero : (n x : ℕ) → x ≤ n → bit_and x 0 ≡ 0
bit_and-zero zero x h = ground (arith, bit_and-bitwise 0 0)
bit_and-zero (suc n) x h = omega (arith, and_step x 0, bit_and-zero n (x / 2) (omega arith))

pub bit_and-pow : (x k : ℕ) → (bit_and x (2 ^ k) == 0) ≡ not (test_bit x k)
unfolding test_bit
bit_and-pow x zero = ground (arith, and_step x 1, bit_and-zero (x / 2) (x / 2))
bit_and-pow x (suc k) = ground (
  arith,
  and_step x (2 ^ suc k),
  pow-suc 2 k,
  (let e : 2 ^ suc k / 2 ≡ 2 ^ k = omega (arith, pow-suc 2 k) in e),
  bit_and-pow (x / 2) k,
)

pow-lt : (k w : ℕ) → k < w → 2 ^ k < 2 ^ w
pow-lt k zero h = elim h [ ]
pow-lt zero (suc w) h = omega (arith, pow-suc 2 w, one-le-pow w 2)
pow-lt (suc k) (suc w) h = omega (arith, pow-suc 2 w, pow-suc 2 k, pow-lt k w (omega arith))

test_bit-ones : (w j : ℕ) → j < w → test_bit (2 ^ w - 1) j ≡ true
unfolding test_bit
test_bit-ones zero j h = elim h [ ]
test_bit-ones (suc w) zero h = ground (arith, pow-suc 2 w, one-le-pow w 2)
test_bit-ones (suc w) (suc j) h =
    let e : (2 ^ suc w - 1) / 2 ≡ 2 ^ w - 1 = omega (arith, pow-suc 2 w, one-le-pow w 2) in
    rw e (test_bit-ones w j (omega arith))

-- The complement of `1 << k` at width `w` has every other bit.
pub test_bit-complement :
    (w k j : ℕ) → k < w → j < w → test_bit (2 ^ w - 1 - 2 ^ k) j ≡ not (k == j)
unfolding test_bit
test_bit-complement zero k j p q = elim p [ ]
test_bit-complement (suc w) zero zero p q = ground (arith, pow-suc 2 w, one-le-pow w 2)
test_bit-complement (suc w) zero (suc j) p q =
    let e : (2 ^ suc w - 1 - 1) / 2 ≡ 2 ^ w - 1 = omega (arith, pow-suc 2 w, one-le-pow w 2) in
    rw e (rw (test_bit-ones w j (omega arith)) (ground arith))
test_bit-complement (suc w) (suc k) zero p q =
    ground (arith, pow-suc 2 w, pow-suc 2 k, pow-lt k w (omega arith))
test_bit-complement (suc w) (suc k) (suc j) p q =
    let e : (2 ^ suc w - 1 - 2 ^ suc k) / 2 ≡ 2 ^ w - 1 - 2 ^ k =
      omega (arith, pow-suc 2 w, pow-suc 2 k, pow-lt k w (omega arith)) in
    rw e (ground (arith, test_bit-complement w k j (omega arith) (omega arith)))
