-- ===== src/Tests/SwapRuns.antt =====
-- src/vm/swap.c on a device of 320 sectors, 40 slots of which the first three are used.
use kernel_dev.Prelude.{◌%◌, refl, [], ◌∷◌, arith}
use kernel_dev.Bitmap.View.{bit}
use kernel_dev.Prelude.Bits.{test_bit}
use kernel_dev.Sector.{zeros}
use kernel_dev.Swap.{Swap, Page, swap_write}
use kernel_dev.Swap.Slots.{IsLaidOut, Swapped, swap_read-swap_write}

abbrev swap : Swap
swap = record {
  used_slots = record { bit_cnt = 40; bits = 7 ∷ 0 ∷ [] };
  device = record { size = 320; sectors = λ t. zeros; read_cnt = 0; write_cnt = 0 };
}

abbrev page : Page
page k = k % 251

swap-IsLaidOut : IsLaidOut swap
swap-IsLaidOut = record { valid = omega arith; fits = omega arith; small = omega arith }

swap_read-swap_write_example : Swapped swap page zeros (swap_write swap page)
unfolding bit test_bit
swap_read-swap_write_example =
    swap_read-swap_write swap page zeros 3 swap-IsLaidOut (omega arith) refl
