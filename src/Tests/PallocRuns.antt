-- ===== src/Tests/PallocRuns.antt =====
-- Runs of the page allocator of src/threads/palloc.c.
use kernel_dev.Prelude.{
  ℕ, zero, suc, ◌+◌, ◌*◌, ◌<◌, ◌≤◌, ◌≡◌, refl, Bool, true, false, Option, none, some, [], ◌∷◌,
  arith, ◌⊎◌,
}
use kernel_dev.Prelude.Bits.{test_bit}
use kernel_dev.Bitmap.{
  bitmap_scan_and_flip, bitmap_scan, scan_loop, bitmap_contains, contains_loop, bitmap_test,
  bitmap_set_multiple, set_loop, bitmap_set, bitmap_mark,
}
use kernel_dev.Bitmap.View.{bit}
use kernel_dev.Palloc.{Flags, Memory, palloc_get_multiple, palloc_free_multiple, palloc_init}
use kernel_dev.Palloc.Pools.{IsMemory, Started, palloc_init-Started}
use kernel_dev.Palloc.Marks.{is_used}
use kernel_dev.Palloc.Pages.{Got, palloc_get_multiple-Got}
use kernel_dev.Palloc.Release.{Freed, palloc_free_multiple-Freed}
use kernel_dev.Palloc.Lifetimes.{
  palloc_get_multiple-apart, palloc_free_multiple-palloc_get_multiple,
}

-- Eight kernel pages, of which the first two are in use, and four user pages.
abbrev small : Memory
small = record {
  kernel_pool = record { used_map = record { bit_cnt = 8; bits = 3 ∷ [] }; base = 3222274048 };
  user_pool = record { used_map = record { bit_cnt = 4; bits = 0 ∷ [] }; base = 3222315008 };
  bytes = λ a. 7;
}

small-IsMemory : IsMemory small
small-IsMemory = record {
  kernel = record {
    valid = record { fits = omega arith; small = omega arith };
    aligned = refl;
    positive = omega arith;
    inside = omega arith;
  };
  user = record {
    valid = record { fits = omega arith; small = omega arith };
    aligned = refl;
    positive = omega arith;
    inside = omega arith;
  };
  apart = omega arith;
}

abbrev zeroed : Flags
zeroed = record { pal_assert = false; pal_zero = true; pal_user = false }

palloc_init-Started_example : Started 1024 (palloc_init (λ a. 0) 1024 100)
palloc_init-Started_example =
    palloc_init-Started (λ a. 0) 1024 100 (omega arith) (omega arith) (omega arith)

palloc_get_multiple-Got_example : Got small zeroed 3 (palloc_get_multiple small zeroed 3)
palloc_get_multiple-Got_example = palloc_get_multiple-Got small zeroed 3 small-IsMemory

palloc_free_multiple-Freed_example : Freed small false 0 2 (palloc_free_multiple small 3222274048 2)
palloc_free_multiple-Freed_example =
    palloc_free_multiple-Freed false 0 2 small-IsMemory (omega arith) (omega arith)

-- The memory after three pages were taken.
memory_of : Option (ℕ × Memory) → Memory
memory_of none = small
memory_of (some r) = r.1

abbrev later : Memory
later = memory_of (palloc_get_multiple small zeroed 3)

got_three : palloc_get_multiple small zeroed 3 ≡ some (3222282240, later)
unfolding palloc_get_multiple memory_of bitmap_scan_and_flip bitmap_scan scan_loop bitmap_contains
    contains_loop bitmap_test bitmap_set_multiple set_loop bitmap_set bitmap_mark
got_three = refl

first_two : (j : ℕ) → 0 ≤ j → j < 0 + 2 → is_used small false j ≡ true
unfolding bit test_bit
first_two zero p q = refl
first_two (suc zero) p q = refl
first_two (suc (suc j)) p q = absurd (omega arith)

palloc_get_multiple-apart_example :
    (3222274048 + 4096 * 0 + 4096 * 2 ≤ 3222282240)
    ⊎ (3222282240 + 4096 * 3 ≤ 3222274048 + 4096 * 0)
palloc_get_multiple-apart_example =
    palloc_get_multiple-apart small zeroed 3 3222282240 later false 0 2 small-IsMemory got_three
      (λ e. ground arith) (omega arith) (omega arith) first_two

palloc_free_multiple-palloc_get_multiple_example :
    (m' : Memory) × (palloc_free_multiple later 3222282240 3 ≡ some m')
    × IsMemory m'
    × ((user : Bool) (j : ℕ) → is_used m' user j ≡ is_used small user j)
palloc_free_multiple-palloc_get_multiple_example =
    palloc_free_multiple-palloc_get_multiple small zeroed 3 3222282240 later small-IsMemory
      got_three (λ e. ground arith)
