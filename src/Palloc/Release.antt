-- ===== src/Palloc/Release.antt =====
-- What `palloc_free_multiple` of src/threads/palloc.c gives back.
use kernel_dev.Prelude.{
  ℕ, ◌+◌, ◌-◌, ◌*◌, ◌/◌, ◌%◌, ◌^◌, ◌<◌, ◌≤◌, ◌≡◌, refl, ◌∙◌, Bool, true, false, not, Option, none,
  some, ◌==◌, ltb, leb, ◌&&◌, ◌||◌, if◌then◌else◌, arith,
}
use kernel_dev.Bitmap.{Bitmap, bitmap_all, bitmap_contains, bitmap_set_multiple, bitmap_size}
use kernel_dev.Bitmap.Ranges.{
  bitmap_set_multiple-WasSetRange, within, Uniform, Contains, found, absent,
  bitmap_contains-Contains,
}
use kernel_dev.Palloc.{
  Pool, Memory, pool_of, memset, page_from_pool, free_in_pool, palloc_free_multiple,
}
use kernel_dev.Palloc.Pools.{IsPool, IsMemory}
use kernel_dev.Palloc.Marks.{is_used, page_cnt_of, Marked, either-IsPool, remarked, remarked-Marked}

-- The address of page `i` of a pool.
abbrev pub address : Memory → Bool → ℕ → ℕ
address m user i = (pool_of m user).base + 4096 * i

-- What freeing pages `i` to `i + n` of a pool did. `freed`: all were in use, none is afterwards.
-- `refused`: one was free already, and the kernel panics.
pub data Freed (m : Memory) (user : Bool) (i n : ℕ) (r : Option Memory) : Type 0 where
  freed :
      (after : Memory)
      → Uniform (is_used m user) i n true
      → Marked m user i n false after
      → ((a : ℕ)
          → after.bytes a ≡ (
              if leb (address m user i) a && ltb a (address m user i + 4096 * n)
              then 204
              else m.bytes a))
      → r ≡ some after
      → Freed m user i n r
  refused : (j : ℕ) → within i n j ≡ true → is_used m user j ≡ false → r ≡ none → Freed m user i n r

from_pool :
    {p : Pool} (i : ℕ)
    → IsPool p
    → i < p.used_map.bit_cnt
    → page_from_pool p (p.base + 4096 * i) ≡ true
unfolding page_from_pool bitmap_size
from_pool {p} i v h =
    let no_wrap : (p.base / 4096 + p.used_map.bit_cnt) % 2 ^ 32
        ≡ p.base / 4096 + p.used_map.bit_cnt =
      omega (arith, v.inside) in
    let number : (p.base + 4096 * i) / 4096 ≡ p.base / 4096 + i = omega arith in
    rw (no_wrap, number) (ground arith)

not_from_pool :
    {p : Pool} (a : ℕ)
    → IsPool p
    → p.base + 4096 * p.used_map.bit_cnt ≤ a
    → page_from_pool p a ≡ false
unfolding page_from_pool bitmap_size
not_from_pool {p} a v h =
    let no_wrap : (p.base / 4096 + p.used_map.bit_cnt) % 2 ^ 32
        ≡ p.base / 4096 + p.used_map.bit_cnt =
      omega (arith, v.inside) in
    let past : p.base / 4096 + p.used_map.bit_cnt ≤ a / 4096 = omega arith in
    rw no_wrap (ground arith)

free_finds :
    {m : Memory} (user : Bool) (i n : ℕ)
    → IsMemory m
    → i < page_cnt_of m user
    → 0 < n
    → palloc_free_multiple m (address m user i) n ≡ free_in_pool m user (address m user i) n
unfolding palloc_free_multiple
free_finds {m} false i n v h p =
    let on : ((m.kernel_pool.base + 4096 * i) % 4096 == 0) ≡ true =
      ground (arith, (v.kernel).aligned) in
    let proper : ((m.kernel_pool.base + 4096 * i == 0) || (n == 0)) ≡ false =
      ground (arith, (v.kernel).positive) in
    rw (on, proper, from_pool i v.kernel h) refl
free_finds {m} true i n v h p =
    let on : ((m.user_pool.base + 4096 * i) % 4096 == 0) ≡ true =
      ground (arith, (v.user).aligned) in
    let proper : ((m.user_pool.base + 4096 * i == 0) || (n == 0)) ≡ false =
      ground (arith, (v.user).positive) in
    rw
      (
        on,
        proper,
        not_from_pool (m.user_pool.base + 4096 * i) v.kernel (omega (arith, v.apart)),
        from_pool i v.user h,
      )
      refl

index_lem : {p : Pool} (i : ℕ) → IsPool p → (p.base + 4096 * i) / 4096 - p.base / 4096 ≡ i
index_lem {p} i v = omega (arith, v.aligned)

all_lem :
    (b : Bitmap) (i n : ℕ) (value : Bool)
    → bitmap_contains b i n false ≡ some (not value)
    → bitmap_all b i n ≡ some value
unfolding bitmap_all
all_lem b i n true e = rw e refl
all_lem b i n false e = rw e refl

free_returns :
    (m : Memory) (user : Bool) (i n : ℕ) (b : Bitmap)
    → (address m user i) / 4096 - (pool_of m user).base / 4096 ≡ i
    → bitmap_all (pool_of m user).used_map i n ≡ some true
    → bitmap_set_multiple (pool_of m user).used_map i n false ≡ some b
    → free_in_pool m user (address m user i) n
      ≡ some (remarked m user b (memset m.bytes (address m user i) 204 (4096 * n)))
unfolding free_in_pool
free_returns m user i n b e f g = rw (e, f, g) refl

free_refuses :
    (m : Memory) (user : Bool) (i n : ℕ)
    → (address m user i) / 4096 - (pool_of m user).base / 4096 ≡ i
    → bitmap_all (pool_of m user).used_map i n ≡ some false
    → free_in_pool m user (address m user i) n ≡ none
unfolding free_in_pool
free_refuses m user i n e f = rw (e, f) refl

by_marks :
    {m : Memory} (user : Bool) (i n : ℕ) {r : Option Bool}
    → IsMemory m
    → i + n ≤ page_cnt_of m user
    → bitmap_contains (pool_of m user).used_map i n false ≡ r
    → Contains (pool_of m user).used_map i n false r
    → Freed m user i n (free_in_pool m user (address m user i) n)
by_marks {m} user i n v h e (found j p q z g) = refused j (ground arith) z (
    free_refuses m user i n (index_lem i (either-IsPool v user))
      (all_lem (pool_of m user).used_map i n false (e ∙ g)))
by_marks {m} user i n v h e (absent u g) =
    let w = bitmap_set_multiple-WasSetRange i n false (either-IsPool v user).valid h in
    let bytes = memset m.bytes (address m user i) 204 (4096 * n) in
    freed (remarked m user w.after bytes) u
      (remarked-Marked m w.after bytes user i n false v w.valid w.same_size w.bits) (λ a. refl)
      (free_returns m user i n w.after (index_lem i (either-IsPool v user))
        (all_lem (pool_of m user).used_map i n true (e ∙ g)) w.returned)

-- In well-formed pools, freeing a group of pages of one pool that are all in use makes these free and no
-- other; if one of them is free already, it panics. The pools stay well formed, and the freed pages are
-- overwritten.
pub palloc_free_multiple-Freed :
    {m : Memory} (user : Bool) (i n : ℕ)
    → IsMemory m
    → i + n ≤ page_cnt_of m user
    → 0 < n
    → Freed m user i n (palloc_free_multiple m (address m user i) n)
palloc_free_multiple-Freed {m} user i n v h p =
    rw (free_finds user i n v (omega arith) p) (
      by_marks user i n v h refl
        (bitmap_contains-Contains i n false (either-IsPool v user).valid h))
