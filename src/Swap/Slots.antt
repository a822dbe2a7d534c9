-- ===== src/Swap/Slots.antt =====
-- `swap_write` and `swap_read` of src/vm/swap.c: a page that is swapped out comes back.
use kernel_dev.Prelude.{
  ℕ, ◌+◌, ◌-◌, ◌*◌, ◌/◌, ◌%◌, ◌^◌, ◌≡◌, ◌≢◌, ◌<◌, ◌≤◌, refl, ◌∙◌, Bool, true, false, Option, some,
  ◌&&◌, ◌==◌, ltb, leb, if◌then◌else◌, arith,
}
use kernel_dev.Prelude.Outcome.{Outcome, returns}
use kernel_dev.Bitmap.{Bitmap, bitmap_error, bitmap_scan_and_flip}
use kernel_dev.Bitmap.View.{bit, IsValid}
use kernel_dev.Bitmap.Ranges.{within}
use kernel_dev.Bitmap.Scan.{Flipped, flipped, unchanged, bitmap_scan_and_flip-Flipped}
use kernel_dev.BlockDevice.{Device}
use kernel_dev.Sector.{Sector}
use kernel_dev.Swap.{Swap, Page, piece, put_loop, get_loop, or_fault, swap_write, swap_read}
use kernel_dev.Swap.Transfer.{Put, put_loop-Put, Got, get_loop-Got}

-- The slots of the bitmap lie on the device, as `swap_init` makes them.
pub record IsLaidOut (s : Swap) : Type 0 where
  pub valid : IsValid s.used_slots
  pub fits : 8 * s.used_slots.bit_cnt ≤ s.device.size
  pub small : s.device.size < 2 ^ 32

-- What swapping a page out did, and what reading it back into a buffer gives.
pub record Swapped (s : Swap) (page buffer : Page) (r : Outcome (ℕ × Swap)) : Type 0 where
  pub slot : ℕ
  pub after : Swap
  pub returned : r ≡ returns (slot, after)
  pub was_free : bit s.used_slots slot ≡ false
  pub slots : (j : ℕ) → bit after.used_slots j ≡ (if slot == j then true else bit s.used_slots j)
  pub laid_out : IsLaidOut after
  pub others : (t : ℕ) → t / 8 ≢ slot → after.device.sectors t ≡ s.device.sectors t
  pub back : Page
  pub later : Swap
  pub reads_back : swap_read after slot buffer ≡ returns (back, later)
  pub same_page : (k : ℕ) → k < 4096 → back k ≡ page k

write_returns :
    (s : Swap) (page : Page) (slot : ℕ) (b : Bitmap) (dev : Device Sector)
    → bitmap_scan_and_flip s.used_slots 0 1 false ≡ some (slot, b)
    → (slot == bitmap_error) ≡ false
    → slot * 8 % 2 ^ 32 ≡ slot * 8
    → put_loop s.device (slot * 8) page 0 8 ≡ returns dev
    → swap_write s page ≡ returns (slot, record { used_slots = b; device = dev })
unfolding swap_write or_fault
write_returns s page slot b dev found proper no_wrap put =
    rw found (rw proper (rw no_wrap (rw put refl)))

read_returns :
    (s : Swap) (slot : ℕ) (buffer back : Page) (dev : Device Sector)
    → slot * 8 % 2 ^ 32 ≡ slot * 8
    → get_loop s.device (slot * 8) buffer 0 8 ≡ returns (back, dev)
    → swap_read s slot buffer ≡ returns (back, record s { device = dev })
unfolding swap_read
read_returns s slot buffer back dev no_wrap got = rw no_wrap (rw got refl)

read_byte :
    (before after : ℕ → Sector) (sector k : ℕ) (page buffer : Page) {byte : ℕ}
    → k < 4096
    → byte ≡ (
        if leb (512 * 0) k && ltb k (512 * (0 + 8))
        then after (sector + k / 512) (k % 512)
        else buffer k)
    → after (sector + k / 512) ≡ (
        if leb (sector + 0) (sector + k / 512) && ltb (sector + k / 512) (sector + 0 + 8)
        then piece page (sector + k / 512 - sector)
        else before (sector + k / 512))
    → byte ≡ page k
read_byte before after sector k page buffer h e c =
    let inside : (leb (512 * 0) k && ltb k (512 * (0 + 8))) ≡ true = ground arith in
    let written : (leb (sector + 0) (sector + k / 512) && ltb (sector + k / 512) (sector + 0 + 8))
        ≡ true =
      ground arith in
    let place : sector + k / 512 - sector ≡ k / 512 = omega arith in
    let this : k / 512 * 512 + k % 512 ≡ k = omega arith in
    e ∙ rw (inside, c, written, place, this) refl

free_slot_lem :
    (s : Swap) (page buffer : Page) (r : Option (ℕ × Bitmap)) (free : ℕ)
    → IsLaidOut s
    → free < s.used_slots.bit_cnt
    → bit s.used_slots free ≡ false
    → Flipped s.used_slots 0 1 false r
    → bitmap_scan_and_flip s.used_slots 0 1 false ≡ r
    → Swapped s page buffer (swap_write s page)
free_slot_lem s page buffer r free l inside unused (unchanged all e) found = absurd (
    all free (omega arith) (omega arith)
      (λ i p q. let this : free ≡ i = omega arith in rw (← this) unused))
free_slot_lem s page buffer r free l inside unused (flipped slot b p q u least valid same bits e)
      found =
    let proper : (slot == bitmap_error) ≡ false = ground (arith, l.valid.small) in
    let no_wrap : slot * 8 % 2 ^ 32 ≡ slot * 8 = omega (arith, l.fits, l.small) in
    let x : Put s.device (slot * 8) page 0 8 (put_loop s.device (slot * 8) page 0 8) =
      put_loop-Put 8 s.device (slot * 8) page 0 (omega (arith, l.fits)) l.small in
    let after : Swap = record { used_slots = b; device = x.after } in
    let y : Got x.after (slot * 8) buffer 0 8 (get_loop x.after (slot * 8) buffer 0 8) =
      get_loop-Got 8 x.after (slot * 8) buffer 0 (omega (arith, l.fits, x.same_size))
        (omega (arith, l.small, x.same_size)) in
    record {
      slot = slot;
      after = after;
      returned = write_returns s page slot b x.after (found ∙ e) proper no_wrap x.returned;
      was_free = u slot (omega arith) (omega arith);
      slots = λ j. bits j ∙ one_slot slot j (bit s.used_slots j);
      laid_out = record {
        valid = valid;
        fits = omega (arith, l.fits, x.same_size, same);
        small = omega (arith, l.small, x.same_size);
      };
      others = λ t n.
          let out : (leb (slot * 8 + 0) t && ltb t (slot * 8 + 0 + 8)) ≡ false = ground arith in
          x.contents t ∙ rw out refl;
      back = y.after;
      later = record after { device = record x.after { read_cnt = y.reads } };
      reads_back =
          read_returns after slot buffer y.after (record x.after { read_cnt = y.reads }) no_wrap
            y.returned;
      same_page = λ k h.
          read_byte s.device.sectors (x.after).sectors (slot * 8) k page buffer h (y.bytes k)
            (x.contents (slot * 8 + k / 512));
    }
  where
    one_slot :
        (i j : ℕ) (old : Bool)
        → (if within i 1 j then true else old) ≡ (if i == j then true else old)
    one_slot i j old = ground arith

-- With a free slot, swapping a page out does not panic: it takes a slot that was free and marks it
-- and no other, leaves the sectors of all other slots, and reading the slot gives the page back.
pub swap_read-swap_write :
    (s : Swap) (page buffer : Page) (free : ℕ)
    → IsLaidOut s
    → free < s.used_slots.bit_cnt
    → bit s.used_slots free ≡ false
    → Swapped s page buffer (swap_write s page)
swap_read-swap_write s page buffer free l inside unused =
    free_slot_lem s page buffer (bitmap_scan_and_flip s.used_slots 0 1 false) free l inside unused
      (bitmap_scan_and_flip-Flipped 0 1 false l.valid (omega arith)) refl
