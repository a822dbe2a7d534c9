-- ===== src/Swap/Transfer.antt =====
-- The loops of `swap_write` and `swap_read` of src/vm/swap.c: a page to the device and back.
use kernel_dev.Prelude.{
  ℕ, zero, suc, ◌+◌, ◌-◌, ◌*◌, ◌/◌, ◌%◌, ◌^◌, ◌≡◌, ◌<◌, ◌≤◌, refl, sym, ap, ◌∙◌, Bool, true, false,
  ◌&&◌, ◌==◌, ltb, leb, if◌then◌else◌, arith, Bool-cases, inl, inr, ==→eq,
}
use kernel_dev.Prelude.Outcome.{Outcome, returns}
use kernel_dev.BlockDevice.{Device, block_read, block_write, check_sector}
use kernel_dev.Sector.{Sector, copy}
use kernel_dev.Swap.{Page, piece, put_loop, get_loop}

-- The device after `n` sectors of the page from sector `i` of it on went to `sector + i` and behind.
pub record Put (dev : Device Sector) (sector : ℕ) (page : Page) (i n : ℕ)
    (r : Outcome (Device Sector)) : Type 0 where
  pub after : Device Sector
  pub returned : r ≡ returns after
  pub same_size : after.size ≡ dev.size
  pub contents :
      (t : ℕ)
      → after.sectors t ≡ (
          if leb (sector + i) t && ltb t (sector + i + n)
          then piece page (t - sector)
          else dev.sectors t)

block_write-inside :
    (dev : Device Sector) (t : ℕ) (d : Sector)
    → t < dev.size
    → block_write dev t d
      ≡ returns (record dev {
        sectors = λ u. if t == u then d else dev.sectors u;
        write_cnt = dev.write_cnt + 1;
      })
unfolding block_write check_sector
block_write-inside dev t d h = rw (kernel_dev.Prelude.lt→ltb t dev.size h) refl

next_contents :
    (dev : Device Sector) (sector i n : ℕ) (page : Page) (t : ℕ) {rest : Sector}
    → rest ≡ (
        if leb (sector + (i + 1)) t && ltb t (sector + (i + 1) + n)
        then piece page (t - sector)
        else if sector + i == t
        then piece page i
        else dev.sectors t)
    → rest ≡ (
        if leb (sector + i) t && ltb t (sector + i + suc n)
        then piece page (t - sector)
        else dev.sectors t)
next_contents dev sector i n page t e = elim (Bool-cases (sector + i == t)) [
  | inl here ↦
      let place : t - sector ≡ i = ground arith in
      let out : (leb (sector + (i + 1)) t && ltb t (sector + (i + 1) + n)) ≡ false = ground arith in
      let inside : (leb (sector + i) t && ltb t (sector + i + suc n)) ≡ true = ground arith in
      rw (inside, place) (e ∙ rw (out, here) refl)
  | inr other ↦
      let same : (leb (sector + (i + 1)) t && ltb t (sector + (i + 1) + n))
          ≡ (leb (sector + i) t && ltb t (sector + i + suc n)) =
        ground arith in
      rw (← same) (e ∙ rw other refl)
]

pub put_loop-Put :
    (n : ℕ) (dev : Device Sector) (sector : ℕ) (page : Page) (i : ℕ)
    → sector + i + n ≤ dev.size
    → dev.size < 2 ^ 32
    → Put dev sector page i n (put_loop dev sector page i n)
unfolding put_loop
put_loop-Put zero dev sector page i h k = record {
  after = dev;
  returned = refl;
  same_size = refl;
  contents = λ t.
      let out : (leb (sector + i) t && ltb t (sector + i + 0)) ≡ false = ground arith in
      rw out refl;
}
put_loop-Put (suc n) dev sector page i h k =
    let no_wrap : (sector + i) % 2 ^ 32 ≡ sector + i = omega arith in
    let dev' : Device Sector = record dev {
      sectors = λ u. if sector + i == u then piece page i else dev.sectors u;
      write_cnt = dev.write_cnt + 1;
    } in
    let step : put_loop dev sector page i (suc n) ≡ put_loop dev' sector page (i + 1) n =
      rw no_wrap (rw (block_write-inside dev (sector + i) (piece page i) (omega arith)) refl) in
    let x : Put dev' sector page (i + 1) n (put_loop dev' sector page (i + 1) n) =
      put_loop-Put n dev' sector page (i + 1) (omega arith) k in
    record {
      after = x.after;
      returned = step ∙ x.returned;
      same_size = x.same_size;
      contents = λ t. next_contents dev sector i n page t (x.contents t);
    }

-- What `n` rounds of the loop of `swap_read` from sector `i` on return: the bytes of these sectors,
-- at their places in the buffer.
pub record Got (dev : Device Sector) (sector : ℕ) (buffer : Page) (i n : ℕ)
    (r : Outcome (Page × Device Sector)) : Type 0 where
  pub after : Page
  pub reads : ℕ
  pub returned : r ≡ returns (after, record dev { read_cnt = reads })
  pub bytes :
      (k : ℕ)
      → after k ≡ (
          if leb (512 * i) k && ltb k (512 * (i + n))
          then dev.sectors (sector + k / 512) (k % 512)
          else buffer k)

block_read-inside :
    (dev : Device Sector) (t : ℕ)
    → t < dev.size
    → block_read dev t ≡ returns (dev.sectors t, record dev { read_cnt = dev.read_cnt + 1 })
unfolding block_read check_sector
block_read-inside dev t h = rw (kernel_dev.Prelude.lt→ltb t dev.size h) refl

next_bytes :
    (sectors : ℕ → Sector) (sector i n : ℕ) (buffer : Page) (k : ℕ) {rest : ℕ}
    → rest ≡ (
        if leb (512 * (i + 1)) k && ltb k (512 * (i + 1 + n))
        then sectors (sector + k / 512) (k % 512)
        else copy buffer (i * 512) (sectors (sector + i)) 0 512 k)
    → rest ≡ (
        if leb (512 * i) k && ltb k (512 * (i + suc n))
        then sectors (sector + k / 512) (k % 512)
        else buffer k)
unfolding copy
next_bytes sectors sector i n buffer k e = elim (Bool-cases (k / 512 == i)) [
  | inl here ↦
      let this : k / 512 ≡ i = ==→eq (k / 512) i here in
      let place : 0 + (k - i * 512) ≡ k % 512 = omega arith in
      let later : (leb (512 * (i + 1)) k && ltb k (512 * (i + 1 + n))) ≡ false = ground arith in
      let first : (leb (i * 512) k && ltb k (i * 512 + 512)) ≡ true = ground arith in
      let inside : (leb (512 * i) k && ltb k (512 * (i + suc n))) ≡ true = ground arith in
      e ∙ rw (later, first, inside, place, this) refl
  | inr other ↦
      let same : (leb (512 * (i + 1)) k && ltb k (512 * (i + 1 + n)))
          ≡ (leb (512 * i) k && ltb k (512 * (i + suc n))) =
        ground arith in
      let out : (leb (i * 512) k && ltb k (i * 512 + 512)) ≡ false = ground arith in
      e ∙ rw (same, out) refl
]

pub get_loop-Got :
    (n : ℕ) (dev : Device Sector) (sector : ℕ) (buffer : Page) (i : ℕ)
    → sector + i + n ≤ dev.size
    → dev.size < 2 ^ 32
    → Got dev sector buffer i n (get_loop dev sector buffer i n)
unfolding get_loop
get_loop-Got zero dev sector buffer i h k = record {
  after = buffer;
  reads = dev.read_cnt;
  returned = refl;
  bytes = λ j.
      let out : (leb (512 * i) j && ltb j (512 * (i + 0))) ≡ false = ground arith in rw out refl;
}
get_loop-Got (suc n) dev sector buffer i h k =
    let no_wrap : (sector + i) % 2 ^ 32 ≡ sector + i = omega arith in
    let dev' : Device Sector = record dev { read_cnt = dev.read_cnt + 1 } in
    let buffer' : Page = copy buffer (i * 512) (dev.sectors (sector + i)) 0 512 in
    let step : get_loop dev sector buffer i (suc n) ≡ get_loop dev' sector buffer' (i + 1) n =
      rw no_wrap (rw (block_read-inside dev (sector + i) (omega arith)) refl) in
    let x : Got dev' sector buffer' (i + 1) n (get_loop dev' sector buffer' (i + 1) n) =
      get_loop-Got n dev' sector buffer' (i + 1) (omega arith) k in
    record {
      after = x.after;
      reads = x.reads;
      returned = step ∙ x.returned;
      bytes = λ j. next_bytes dev.sectors sector i n buffer j (x.bytes j);
    }
