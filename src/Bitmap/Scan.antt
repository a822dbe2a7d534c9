-- ===== src/Bitmap/Scan.antt =====
-- `bitmap_scan` and `bitmap_scan_and_flip` of src/lib/kernel/bitmap.c: the first group of bits.
use kernel_dev.Prelude.{
  ℕ, zero, suc, ◌+◌, ◌-◌, ◌*◌, ◌^◌, ◌%◌, ◌<◌, ◌≤◌, ◌≡◌, refl, sym, ◌∙◌, Bool, true, false, not,
  Option, none, some, ap, ◌==◌, ltb, leb, bool_eq, if◌then◌else◌, arith, length, Bool-cases, inl,
  inr, ◌>>=◌, ◌≢◌, ◌&&◌, ◌||◌, ◌⊎◌,
}
use kernel_dev.Bitmap.{
  Bitmap, add_size, bitmap_error, scan_loop, bitmap_contains, bitmap_scan, bitmap_scan_and_flip,
  bitmap_set_multiple,
}
use kernel_dev.Bitmap.View.{bit, IsValid}
use kernel_dev.Bitmap.Ranges.{
  Uniform, Contains, found, absent, bitmap_contains-Contains, WasSetRange,
  bitmap_set_multiple-WasSetRange, within,
}

-- What a search for the first group of `cnt` bits of a value, from `start` on, returned.
pub data Scanned (b : Bitmap) (start cnt : ℕ) (value : Bool) (r : Option ℕ) : Type 0 where
  group :
      (i : ℕ)
      → start ≤ i
      → i + cnt ≤ b.bit_cnt
      → Uniform (bit b) i cnt value
      → ((k : ℕ) → start ≤ k → k < i → ¬ Uniform (bit b) k cnt value)
      → r ≡ some i
      → Scanned b start cnt value r
  no_group :
      ((k : ℕ) → start ≤ k → k + cnt ≤ b.bit_cnt → ¬ Uniform (bit b) k cnt value)
      → r ≡ some bitmap_error
      → Scanned b start cnt value r

not-ne : (v : Bool) → v ≢ not v
not-ne true h = cc
not-ne false h = cc

not-not : (v : Bool) → not (not v) ≡ v
not-not true = refl
not-not false = refl

not_first :
    (b : Bitmap) (start cnt : ℕ) (value : Bool)
    → ¬ Uniform (bit b) start cnt value
    → (r : Option ℕ) → Scanned b (start + 1) cnt value r
    → Scanned b start cnt value r
not_first b start cnt value no_here r (group i p q u least e) =
    group i (omega arith) q u
      (λ k s t. elim (Bool-cases (start == k)) [
        | inl same ↦ rw (← kernel_dev.Prelude.==→eq start k same) no_here
        | inr other ↦ least k (ground arith) t
      ])
      e
not_first b start cnt value no_here r (no_group all e) =
    no_group
      (λ k s t. elim (Bool-cases (start == k)) [
        | inl same ↦ rw (← kernel_dev.Prelude.==→eq start k same) no_here
        | inr other ↦ all k (ground arith) t
      ])
      e

scan_step :
    (b : Bitmap) (start cnt : ℕ) (value : Bool) (rest : Option ℕ)
    → start + cnt ≤ b.bit_cnt
    → Scanned b (start + 1) cnt value rest
    → (here : Option Bool) → Contains b start cnt (not value) here
    → Scanned b start cnt value (here >>= λ found. if found then rest else some start)
scan_step b start cnt value rest h s here (found i p q e r) =
    rw r (not_first b start cnt value (λ u. not-ne value (sym (u i p q) ∙ e)) rest s)
scan_step b start cnt value rest h s here (absent u r) = rw r (
    group start (omega arith) h (λ i p q. u i p q ∙ not-not value) (λ k s t. absurd (omega arith))
      refl)

scan_loop-Scanned :
    (n start cnt : ℕ) {b : Bitmap} (value : Bool)
    → IsValid b
    → cnt ≤ b.bit_cnt
    → n ≡ b.bit_cnt - cnt + 1 - start
    → Scanned b start cnt value (scan_loop b start n cnt value)
unfolding scan_loop
scan_loop-Scanned zero start cnt value v h e = no_group (λ k s t. absurd (omega arith)) refl
scan_loop-Scanned (suc n) start cnt {b} value v h e =
    let next : add_size start 1 ≡ start + 1 = omega (arith, v.small) in
    scan_step b start cnt value (scan_loop b (add_size start 1) n cnt value) (omega arith)
      (rw next (scan_loop-Scanned n (start + 1) cnt value v h (omega arith)))
      (bitmap_contains b start cnt (not value))
      (bitmap_contains-Contains start cnt (not value) v (omega arith))

-- On a well-formed bitmap, with `start` at most `bit_cnt`, `bitmap_scan` does not panic: it returns
-- the first group of `cnt` bits at or after `start` that all have the value, which is `start`
-- itself for a `cnt` of 0, and the error value exactly when there is none.
pub bitmap_scan-Scanned :
    (start cnt : ℕ) {b : Bitmap} (value : Bool)
    → IsValid b
    → start ≤ b.bit_cnt
    → Scanned b start cnt value (bitmap_scan b start cnt value)
unfolding bitmap_scan
bitmap_scan-Scanned start cnt {b} value v h = elim (Bool-cases (leb cnt b.bit_cnt)) [
  | inl le ↦
      rw (kernel_dev.Prelude.le→leb start b.bit_cnt h, le)
        (scan_loop-Scanned (b.bit_cnt - cnt + 1 - start) start cnt value v (ground arith) refl)
  | inr gt ↦
      rw (kernel_dev.Prelude.le→leb start b.bit_cnt h, gt) (no_group (λ k s t. ground arith) refl)
]

-- What `bitmap_scan_and_flip` did: it inverted the first group, or it changed nothing.
pub data Flipped (b : Bitmap) (start cnt : ℕ) (value : Bool) (r : Option (ℕ × Bitmap))
    : Type 0 where
  flipped :
      (i : ℕ) (after : Bitmap)
      → start ≤ i
      → i + cnt ≤ b.bit_cnt
      → Uniform (bit b) i cnt value
      → ((k : ℕ) → start ≤ k → k < i → ¬ Uniform (bit b) k cnt value)
      → IsValid after
      → after.bit_cnt ≡ b.bit_cnt
      → ((j : ℕ) → bit after j ≡ (if within i cnt j then not value else bit b j))
      → r ≡ some (i, after)
      → Flipped b start cnt value r
  unchanged :
      ((k : ℕ) → start ≤ k → k + cnt ≤ b.bit_cnt → ¬ Uniform (bit b) k cnt value)
      → r ≡ some (bitmap_error, b)
      → Flipped b start cnt value r

flip_found :
    {b : Bitmap} (start cnt : ℕ) (value : Bool) (r : Option ℕ)
    → IsValid b
    → Scanned b start cnt value r
    → Flipped b start cnt value (
        r >>= λ idx.
        if idx == bitmap_error
        then some (idx, b)
        else (bitmap_set_multiple b idx cnt (not value) >>= λ b'. some (idx, b')))
flip_found {b} start cnt value r v (no_group none_here e) = rw e (unchanged none_here refl)
flip_found {b} start cnt value r v (group i p q u least e) =
    let w : WasSetRange b i cnt (not value) (bitmap_set_multiple b i cnt (not value)) =
      bitmap_set_multiple-WasSetRange i cnt (not value) v q in
    let proper : (i == bitmap_error) ≡ false = ground (arith, v.small) in
    rw e (rw proper (rw w.returned (flipped i w.after p q u least w.valid w.same_size w.bits refl)))

-- On a well-formed bitmap, with `start` at most `bit_cnt`, `bitmap_scan_and_flip` does not panic:
-- it inverts the first group of `cnt` bits at or after `start` that all have the value, and no
-- other bit, and returns its index, which is `start` for a `cnt` of 0; without such a group it
-- returns the error value and the bitmap as it was.
pub bitmap_scan_and_flip-Flipped :
    (start cnt : ℕ) {b : Bitmap} (value : Bool)
    → IsValid b
    → start ≤ b.bit_cnt
    → Flipped b start cnt value (bitmap_scan_and_flip b start cnt value)
unfolding bitmap_scan_and_flip
bitmap_scan_and_flip-Flipped start cnt {b} value v h =
    flip_found start cnt value (bitmap_scan b start cnt value) v
      (bitmap_scan-Scanned start cnt value v h)
