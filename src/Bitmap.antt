-- ===== src/Bitmap.antt =====
-- src/lib/kernel/bitmap.c: a bitmap as an array of 32-bit elements (`unsigned long` on i386).
-- An operation that fails an ASSERT returns `none`: the kernel panics. `size_t` has 32 bits.
-- The children are about what each operation does to the bits.
pub mod View
pub mod Ranges
pub mod Scan
use Prim.Native.Nat.{bit_and, bit_or, bit_xor}
use kernel_dev.Prelude.{
  ℕ, zero, suc, ◌+◌, ◌-◌, ◌*◌, ◌/◌, ◌%◌, ◌^◌, Bool, true, false, not, Option, none, some, List, [],
  ltb, leb, ◌==◌, bool_eq, if◌then◌else◌, get_or, set, ◌>>=◌,
}

abbrev pub elem_bits : ℕ
elem_bits = 32

-- `SIZE_MAX`
abbrev pub bitmap_error : ℕ
bitmap_error = 2 ^ 32 - 1

-- `size_t` addition
abbrev pub add_size : ℕ → ℕ → ℕ
add_size a b = (a + b) % 2 ^ 32

pub record Bitmap : Type 0 where
  pub bit_cnt : ℕ
  pub bits : List ℕ

abbrev pub elem_idx : ℕ → ℕ
elem_idx bit_idx = bit_idx / elem_bits

abbrev pub bit_mask : ℕ → ℕ
bit_mask bit_idx = 2 ^ (bit_idx % elem_bits)

unfoldable pub elem_cnt : ℕ → ℕ
elem_cnt bit_cnt = add_size bit_cnt (elem_bits - 1) / elem_bits

unfoldable pub byte_cnt : ℕ → ℕ
unfolding elem_cnt
byte_cnt bit_cnt = 4 * elem_cnt bit_cnt

unfoldable pub last_mask : Bitmap → ℕ
last_mask b =
    let last_bits = b.bit_cnt % elem_bits in
    if last_bits == 0 then 2 ^ 32 - 1 else 2 ^ last_bits - 1

unfoldable pub bitmap_size : Bitmap → ℕ
bitmap_size b = b.bit_cnt

-- `b->bits[idx] |= mask`
unfoldable pub bitmap_mark : Bitmap → ℕ → Bitmap
bitmap_mark b bit_idx = record b {
  bits =
      set b.bits (elem_idx bit_idx)
        (bit_or (get_or b.bits (elem_idx bit_idx) 0) (bit_mask bit_idx));
}

-- `b->bits[idx] &= ~mask`
unfoldable pub bitmap_reset : Bitmap → ℕ → Bitmap
bitmap_reset b bit_idx = record b {
  bits =
      set b.bits (elem_idx bit_idx)
        (bit_and (get_or b.bits (elem_idx bit_idx) 0) (2 ^ 32 - 1 - bit_mask bit_idx));
}

-- `b->bits[idx] ^= mask`
unfoldable pub bitmap_flip : Bitmap → ℕ → Bitmap
bitmap_flip b bit_idx = record b {
  bits =
      set b.bits (elem_idx bit_idx)
        (bit_xor (get_or b.bits (elem_idx bit_idx) 0) (bit_mask bit_idx));
}

unfoldable pub bitmap_set : Bitmap → ℕ → Bool → Option Bitmap
bitmap_set b idx value =
    if ltb idx b.bit_cnt
    then some (if value then bitmap_mark b idx else bitmap_reset b idx)
    else none

unfoldable pub bitmap_test : Bitmap → ℕ → Option Bool
bitmap_test b idx =
    if ltb idx b.bit_cnt
    then some (not (bit_and (get_or b.bits (elem_idx idx) 0) (bit_mask idx) == 0))
    else none

-- The loops run over the rounds left, `start` being `start + i`.
unfoldable pub set_loop : Bitmap → ℕ → ℕ → Bool → Option Bitmap
set_loop b start zero value = some b
set_loop b start (suc n) value =
    bitmap_set b start value >>= λ b'. set_loop b' (add_size start 1) n value

unfoldable pub count_loop : Bitmap → ℕ → ℕ → Bool → ℕ → Option ℕ
count_loop b start zero value value_cnt = some value_cnt
count_loop b start (suc n) value value_cnt = bitmap_test b start >>= λ t.
    count_loop b (add_size start 1) n value (if bool_eq t value then value_cnt + 1 else value_cnt)

unfoldable pub contains_loop : Bitmap → ℕ → ℕ → Bool → Option Bool
contains_loop b start zero value = some false
contains_loop b start (suc n) value =
    let rest = contains_loop b (add_size start 1) n value in
    bitmap_test b start >>= λ t. if bool_eq t value then some true else rest

-- `ASSERT (start <= b->bit_cnt); ASSERT (start + cnt <= b->bit_cnt);`
unfoldable pub in_range : Bitmap → ℕ → ℕ → Bool
in_range b start cnt = if leb start b.bit_cnt then leb (add_size start cnt) b.bit_cnt else false

unfoldable pub bitmap_set_multiple : Bitmap → ℕ → ℕ → Bool → Option Bitmap
unfolding in_range
bitmap_set_multiple b start cnt value =
    if in_range b start cnt then set_loop b start cnt value else none

unfoldable pub bitmap_set_all : Bitmap → Bool → Option Bitmap
unfolding bitmap_size
bitmap_set_all b value = bitmap_set_multiple b 0 (bitmap_size b) value

unfoldable pub bitmap_count : Bitmap → ℕ → ℕ → Bool → Option ℕ
unfolding in_range
bitmap_count b start cnt value =
    if in_range b start cnt then count_loop b start cnt value 0 else none

unfoldable pub bitmap_contains : Bitmap → ℕ → ℕ → Bool → Option Bool
unfolding in_range
bitmap_contains b start cnt value =
    if in_range b start cnt then contains_loop b start cnt value else none

unfoldable pub bitmap_any : Bitmap → ℕ → ℕ → Option Bool
bitmap_any b start cnt = bitmap_contains b start cnt true

unfoldable pub bitmap_none : Bitmap → ℕ → ℕ → Option Bool
bitmap_none b start cnt = bitmap_contains b start cnt true >>= λ r. some (not r)

unfoldable pub bitmap_all : Bitmap → ℕ → ℕ → Option Bool
bitmap_all b start cnt = bitmap_contains b start cnt false >>= λ r. some (not r)

-- `for (i = start; i <= last; i++)` with `last + 1 - start` rounds left
unfoldable pub scan_loop : Bitmap → ℕ → ℕ → ℕ → Bool → Option ℕ
scan_loop b i zero cnt value = some bitmap_error
scan_loop b i (suc n) cnt value =
    let rest = scan_loop b (add_size i 1) n cnt value in
    bitmap_contains b i cnt (not value) >>= λ found. if found then rest else some i

unfoldable pub bitmap_scan : Bitmap → ℕ → ℕ → Bool → Option ℕ
bitmap_scan b start cnt value =
    if leb start b.bit_cnt
    then if leb cnt b.bit_cnt
      then scan_loop b start (b.bit_cnt - cnt + 1 - start) cnt value
      else some bitmap_error
    else none

unfoldable pub bitmap_scan_and_flip : Bitmap → ℕ → ℕ → Bool → Option (ℕ × Bitmap)
bitmap_scan_and_flip b start cnt value = bitmap_scan b start cnt value >>= λ idx.
    if idx == bitmap_error
    then some (idx, b)
    else bitmap_set_multiple b idx cnt (not value) >>= λ b'. some (idx, b')

-- The two allocations are arguments: whether the header was got, and the storage, whose contents
-- are whatever `malloc` left there. The inner `none` is the null pointer.
unfoldable pub bitmap_create : ℕ → Bool → Option (List ℕ) → Option (Option Bitmap)
bitmap_create bit_cnt false storage = some none
bitmap_create bit_cnt true (some words) =
    bitmap_set_all (record { bit_cnt = bit_cnt; bits = words }) false >>= λ b. some (some b)
bitmap_create bit_cnt true none =
    if bit_cnt == 0
    then (bitmap_set_all (record { bit_cnt = bit_cnt; bits = [] }) false >>= λ b. some (some b))
    else some none

-- `sizeof (struct bitmap)` is 8.
unfoldable pub bitmap_buf_size : ℕ → ℕ
bitmap_buf_size bit_cnt = add_size 8 (byte_cnt bit_cnt)

-- The storage is `block_size` bytes, of which `words` are the 32-bit words behind the structure.
unfoldable pub bitmap_create_in_buf : ℕ → List ℕ → ℕ → Option Bitmap
bitmap_create_in_buf bit_cnt words block_size =
    if leb (bitmap_buf_size bit_cnt) block_size
    then bitmap_set_all (record { bit_cnt = bit_cnt; bits = words }) false
    else none
