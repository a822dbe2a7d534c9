-- ===== src/Bitmap/View.antt =====
-- The single-bit operations of src/lib/kernel/bitmap.c, seen as updates of a set of bits.
use Prim.Native.Nat.{bit_and, bit_or, bit_xor}
use kernel_dev.Prelude.{
  ℕ, ◌*◌, ◌/◌, ◌%◌, ◌^◌, ◌-◌, ◌<◌, ◌≤◌, ◌≡◌, refl, Bool, true, false, not, Option, some, ◌==◌,
  if◌then◌else◌, arith, length, get_or, length-set, get_or-set,
}
use kernel_dev.Prelude.Bits.{
  test_bit, test_bit-and, test_bit-or, test_bit-xor, test_bit-pow, test_bit-complement, bit_and-pow,
}
use kernel_dev.Bitmap.{Bitmap, bitmap_mark, bitmap_reset, bitmap_flip, bitmap_set, bitmap_test}

-- Bit `i` of the bitmap.
unfoldable pub bit : Bitmap → ℕ → Bool
bit b i = test_bit (get_or b.bits (i / 32) 0) (i % 32)

-- The storage holds `bit_cnt` bits, and `bit_cnt` is a `size_t` that is no error value.
pub record IsValid (b : Bitmap) : Type 0 where
  pub fits : b.bit_cnt ≤ 32 * length b.bits
  pub small : b.bit_cnt < 2 ^ 32 - 1

pub bitmap_mark-IsValid : {b : Bitmap} (i : ℕ) → IsValid b → IsValid (bitmap_mark b i)
unfolding bitmap_mark
bitmap_mark-IsValid {b} i v = omega (arith, length-set {0} {A = ℕ})

pub bitmap_reset-IsValid : {b : Bitmap} (i : ℕ) → IsValid b → IsValid (bitmap_reset b i)
unfolding bitmap_reset
bitmap_reset-IsValid {b} i v = omega (arith, length-set {0} {A = ℕ})

pub bitmap_flip-IsValid : {b : Bitmap} (i : ℕ) → IsValid b → IsValid (bitmap_flip b i)
unfolding bitmap_flip
bitmap_flip-IsValid {b} i v = omega (arith, length-set {0} {A = ℕ})

module _ {b : Bitmap} (i j : ℕ) (v : IsValid b) (inside : i < b.bit_cnt) where
  -- Marking a bit sets it, and leaves every other bit.
  pub bit-mark : bit (bitmap_mark b i) j ≡ (if i == j then true else bit b j)
  unfolding bit bitmap_mark
  bit-mark = ground (
    arith,
    get_or-set b.bits (i / 32) (j / 32) (bit_or (get_or b.bits (i / 32) 0) (2 ^ (i % 32))) 0,
    test_bit-or (get_or b.bits (i / 32) 0) (2 ^ (i % 32)) (j % 32),
    test_bit-pow (i % 32) (j % 32),
  )

  -- Resetting a bit clears it, and leaves every other bit.
  pub bit-reset : bit (bitmap_reset b i) j ≡ (if i == j then false else bit b j)
  unfolding bit bitmap_reset
  bit-reset = ground (
    arith,
    get_or-set b.bits (i / 32) (j / 32)
        (bit_and (get_or b.bits (i / 32) 0) (2 ^ 32 - 1 - 2 ^ (i % 32))) 0,
    test_bit-and (get_or b.bits (i / 32) 0) (2 ^ 32 - 1 - 2 ^ (i % 32)) (j % 32),
    test_bit-complement 32 (i % 32) (j % 32),
  )

  -- Flipping a bit inverts it, and leaves every other bit.
  pub bit-flip : bit (bitmap_flip b i) j ≡ (if i == j then not (bit b j) else bit b j)
  unfolding bit bitmap_flip
  bit-flip = ground (
    arith,
    get_or-set b.bits (i / 32) (j / 32) (bit_xor (get_or b.bits (i / 32) 0) (2 ^ (i % 32))) 0,
    test_bit-xor (get_or b.bits (i / 32) 0) (2 ^ (i % 32)) (j % 32),
    test_bit-pow (i % 32) (j % 32),
  )

-- What `bitmap_set` did where it did not panic.
pub record WasSet (b : Bitmap) (i : ℕ) (value : Bool) (r : Option Bitmap) : Type 0 where
  pub after : Bitmap
  pub returned : r ≡ some after
  pub valid : IsValid after
  pub same_size : after.bit_cnt ≡ b.bit_cnt
  pub same_store : length after.bits ≡ length b.bits
  pub bits : (j : ℕ) → bit after j ≡ (if i == j then value else bit b j)

pub bitmap_set-WasSet :
    {b : Bitmap} (i : ℕ) (value : Bool)
    → IsValid b
    → i < b.bit_cnt
    → WasSet b i value (bitmap_set b i value)
unfolding bitmap_set
bitmap_set-WasSet {b} i true v h = record {
  after = bitmap_mark b i;
  returned = ground arith;
  valid = bitmap_mark-IsValid i v;
  same_size = unfold bitmap_mark in refl;
  same_store = unfold bitmap_mark in length-set b.bits _ _;
  bits = λ j. bit-mark i j v h;
}
bitmap_set-WasSet {b} i false v h = record {
  after = bitmap_reset b i;
  returned = ground arith;
  valid = bitmap_reset-IsValid i v;
  same_size = unfold bitmap_reset in refl;
  same_store = unfold bitmap_reset in length-set b.bits _ _;
  bits = λ j. bit-reset i j v h;
}

-- `bitmap_test` panics beyond the bitmap, and else returns the bit.
pub bitmap_test_lem : (b : Bitmap) (i : ℕ) → i < b.bit_cnt → bitmap_test b i ≡ some (bit b i)
unfolding bitmap_test bit
bitmap_test_lem b i h = ground (arith, bit_and-pow (get_or b.bits (i / 32) 0) (i % 32))
