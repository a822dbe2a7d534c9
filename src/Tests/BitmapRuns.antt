-- ===== src/Tests/BitmapRuns.antt =====
-- src/lib/kernel/bitmap.c on a bitmap of 40 bits, two elements of 32.
use kernel_dev.Prelude.{◌≡◌, refl, true, false, some, [], ◌∷◌, arith}
use kernel_dev.Bitmap.{
  Bitmap, bitmap_mark, bitmap_reset, bitmap_set_multiple, bitmap_count, bitmap_contains,
  bitmap_scan, bitmap_scan_and_flip, set_loop, scan_loop, contains_loop, bitmap_set, bitmap_test,
  bitmap_create, bitmap_set_all,
}
use kernel_dev.Bitmap.View.{bit, IsValid}
use kernel_dev.Bitmap.Ranges.{
  WasSetRange, bitmap_set_multiple-WasSetRange, count_bits, bitmap_count-eq, Contains,
  bitmap_contains-Contains,
}
use kernel_dev.Bitmap.Scan.{Scanned, bitmap_scan-Scanned, Flipped, bitmap_scan_and_flip-Flipped}

-- Bits 0, 1, 31, 32 and 34 are set.
abbrev sample : Bitmap
sample = record { bit_cnt = 40; bits = 0x8000_0003 ∷ 0x5 ∷ [] }

sample-IsValid : IsValid sample
sample-IsValid = omega arith

scan_run :
    bitmap_scan_and_flip sample 30 2 false
    ≡ some (35, record sample { bits = 0x8000_0003 ∷ 0x1d ∷ [] })
unfolding bitmap_scan_and_flip bitmap_scan scan_loop bitmap_contains contains_loop bitmap_test
    bitmap_set_multiple set_loop bitmap_set bitmap_mark
scan_run = refl

create_run :
    bitmap_create 40 true (some (7 ∷ 9 ∷ []))
    ≡ some (some (record { bit_cnt = 40; bits = 0 ∷ 0 ∷ [] }))
unfolding bitmap_create bitmap_set_all bitmap_set_multiple set_loop bitmap_set bitmap_reset
create_run = refl

bitmap_set_multiple-WasSetRange_example :
    WasSetRange sample 30 5 true (bitmap_set_multiple sample 30 5 true)
bitmap_set_multiple-WasSetRange_example =
    bitmap_set_multiple-WasSetRange 30 5 true sample-IsValid (omega arith)

bitmap_count-eq_example : bitmap_count sample 0 40 true ≡ some (count_bits (bit sample) 0 40 true)
bitmap_count-eq_example = bitmap_count-eq 0 40 true sample-IsValid (omega arith)

bitmap_contains-Contains_example : Contains sample 2 29 true (bitmap_contains sample 2 29 true)
bitmap_contains-Contains_example = bitmap_contains-Contains 2 29 true sample-IsValid (omega arith)

bitmap_scan-Scanned_example : Scanned sample 0 29 false (bitmap_scan sample 0 29 false)
bitmap_scan-Scanned_example = bitmap_scan-Scanned 0 29 false sample-IsValid (omega arith)

bitmap_scan_and_flip-Flipped_example :
    Flipped sample 30 2 false (bitmap_scan_and_flip sample 30 2 false)
bitmap_scan_and_flip-Flipped_example =
    bitmap_scan_and_flip-Flipped 30 2 false sample-IsValid (omega arith)
