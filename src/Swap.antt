-- ===== src/Swap.antt =====
-- src/vm/swap.c: slots of 8 sectors for pages of user memory, on the swap device. The lock is held
-- throughout each function; an assertion that fails in the bitmap is a fault.
pub mod Transfer
pub mod Slots
use kernel_dev.Prelude.{
  ℕ, zero, suc, ◌+◌, ◌*◌, ◌/◌, ◌%◌, ◌^◌, Bool, true, false, Option, none, some, List, ◌==◌,
  if◌then◌else◌,
}
use kernel_dev.Prelude.Outcome.{Outcome, returns, faults, ◌>>=◌}
use kernel_dev.Bitmap.{Bitmap, bitmap_error, bitmap_create, bitmap_reset, bitmap_scan_and_flip}
use kernel_dev.BlockDevice.{Device, block_read, block_write}
use kernel_dev.Sector.{Sector, copy, sector_size}

abbrev pub sectors_per_page : ℕ
sectors_per_page = 8

-- The bytes of a page, or of a buffer that a page goes to.
abbrev pub Page : Type 0
Page = ℕ → ℕ

pub record Swap : Type 0 where
  pub used_slots : Bitmap
  pub device : Device Sector

-- A failed assertion of the bitmap.
unfoldable pub or_fault : {A : Type 0} → Option A → Outcome A
or_fault none = faults
or_fault (some a) = returns a

-- `swap_init` with the storage that `bitmap_create` is given. A null bitmap is not noticed here: the
-- first use of it faults.
unfoldable pub swap_init : Device Sector → Bool → Option (List ℕ) → Outcome Swap
swap_init dev header storage =
    or_fault (bitmap_create (dev.size / sectors_per_page) header storage) >>= λ created.
    or_fault created >>= λ b. returns (record { used_slots = b; device = dev })

unfoldable pub swap_free : Swap → ℕ → Swap
swap_free s swap_slot = record s { used_slots = bitmap_reset s.used_slots swap_slot }

-- Sector `i` of a page.
abbrev pub piece : Page → ℕ → Sector
piece page i k = page (i * sector_size + k)

-- The loop of `swap_write` from `i` on, with `n` sectors to go.
unfoldable pub put_loop : Device Sector → ℕ → Page → ℕ → ℕ → Outcome (Device Sector)
put_loop dev sector kaddr i zero = returns dev
put_loop dev sector kaddr i (suc n) =
    block_write dev ((sector + i) % 2 ^ 32) (piece kaddr i) >>= λ dev'.
    put_loop dev' sector kaddr (i + 1) n

-- PANIC without a free slot.
unfoldable pub swap_write : Swap → Page → Outcome (ℕ × Swap)
swap_write s kaddr = or_fault (bitmap_scan_and_flip s.used_slots 0 1 false) >>= λ (next_slot, b).
    if next_slot == bitmap_error
    then faults
    else (put_loop s.device (next_slot * sectors_per_page % 2 ^ 32) kaddr 0 sectors_per_page
        >>= λ dev. returns (next_slot, record { used_slots = b; device = dev }))

-- The loop of `swap_read`.
unfoldable pub get_loop : Device Sector → ℕ → Page → ℕ → ℕ → Outcome (Page × Device Sector)
get_loop dev sector buffer i zero = returns (buffer, dev)
get_loop dev sector buffer i (suc n) = block_read dev ((sector + i) % 2 ^ 32) >>= λ (d, dev').
    get_loop dev' sector (copy buffer (i * sector_size) d 0 sector_size) (i + 1) n

unfoldable pub swap_read : Swap → ℕ → Page → Outcome (Page × Swap)
swap_read s swap_slot buffer =
    get_loop s.device (swap_slot * sectors_per_page % 2 ^ 32) buffer 0 sectors_per_page
    >>= λ (buffer', dev). returns (buffer', record s { device = dev })
