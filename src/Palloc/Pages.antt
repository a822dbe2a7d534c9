-- ===== src/Palloc/Pages.antt =====
-- What `palloc_get_multiple` of src/threads/palloc.c returns.
use kernel_dev.Prelude.{
  ℕ, ◌+◌, ◌*◌, ◌%◌, ◌^◌, ◌<◌, ◌≤◌, ◌≡◌, refl, ◌∙◌, Bool, true, false, Option, none, some, ◌==◌, ltb,
  leb, ◌&&◌, if◌then◌else◌, arith, Bool-cases, inl, inr, ==→eq,
}
use kernel_dev.Bitmap.{Bitmap, bitmap_error, bitmap_scan_and_flip}
use kernel_dev.Bitmap.Ranges.{Uniform}
use kernel_dev.Bitmap.Scan.{Flipped, flipped, unchanged, bitmap_scan_and_flip-Flipped}
use kernel_dev.Palloc.{Flags, Memory, pool_of, with_pool, memset, palloc_get_multiple}
use kernel_dev.Palloc.Pools.{IsMemory}
use kernel_dev.Palloc.Marks.{is_used, page_cnt_of, Marked, either-IsPool, remarked, remarked-Marked}

-- What a call for `n` pages returned. `got`: the address of the first group of free pages, which are
-- in use then, and zeros if asked for. `out_of_pages`: a null pointer, or a panic with PAL_ASSERT.
pub data Got (m : Memory) (flags : Flags) (n : ℕ) (r : Option (ℕ × Memory)) : Type 0 where
  got :
      (i pages : ℕ) (after : Memory)
      → pages ≡ (pool_of m flags.pal_user).base + 4096 * i
      → i + n ≤ page_cnt_of m flags.pal_user
      → Uniform (is_used m flags.pal_user) i n false
      → ((k : ℕ) → k < i → ¬ Uniform (is_used m flags.pal_user) k n false)
      → Marked m flags.pal_user i n true after
      → ((a : ℕ)
          → after.bytes a ≡ (
              if flags.pal_zero && (leb pages a && ltb a (pages + 4096 * n)) then 0 else m.bytes a))
      → r ≡ some (pages, after)
      → Got m flags n r
  no_pages : n ≡ 0 → r ≡ some (0, m) → Got m flags n r
  out_of_pages :
      ((k : ℕ)
        → k + n ≤ page_cnt_of m flags.pal_user
        → ¬ Uniform (is_used m flags.pal_user) k n false)
      → r ≡ (if flags.pal_assert then none else some (0, m))
      → Got m flags n r

-- The contents after the call.
abbrev filled : Memory → Flags → ℕ → ℕ → ℕ → ℕ
filled m flags pages n = if flags.pal_zero then memset m.bytes pages 0 (4096 * n) else m.bytes

with_bytes :
    (m : Memory) (user zero_fill : Bool) (b : Bitmap) (pages n : ℕ)
    → (let m' = with_pool m user (record (pool_of m user) { used_map = b }) in
        if zero_fill then record m' { bytes = memset m'.bytes pages 0 (4096 * n) } else m')
      ≡ remarked m user b (if zero_fill then memset m.bytes pages 0 (4096 * n) else m.bytes)
with_bytes m true true b pages n = refl
with_bytes m true false b pages n = refl
with_bytes m false true b pages n = refl
with_bytes m false false b pages n = refl

same_pool : (m : Memory) (user : Bool) → with_pool m user (record (pool_of m user) {}) ≡ m
same_pool m true = refl
same_pool m false = refl

get_returns :
    (m : Memory) (flags : Flags) (n i pages : ℕ) (b : Bitmap)
    → (n == 0) ≡ false
    → bitmap_scan_and_flip (pool_of m flags.pal_user).used_map 0 n false ≡ some (i, b)
    → (i == bitmap_error) ≡ false
    → ((pool_of m flags.pal_user).base + 4096 * i) % 2 ^ 32 ≡ pages
    → (pages == 0) ≡ false
    → palloc_get_multiple m flags n
      ≡ some (pages, remarked m flags.pal_user b (filled m flags pages n))
unfolding palloc_get_multiple
get_returns m flags n i pages b e f g h z =
    rw (e, f, g, h, z, with_bytes m flags.pal_user flags.pal_zero b pages n) refl

get_fails :
    (m : Memory) (flags : Flags) (n : ℕ)
    → (n == 0) ≡ false
    → bitmap_scan_and_flip (pool_of m flags.pal_user).used_map 0 n false
      ≡ some (bitmap_error, (pool_of m flags.pal_user).used_map)
    → palloc_get_multiple m flags n ≡ (if flags.pal_assert then none else some (0, m))
unfolding palloc_get_multiple
get_fails m flags n e f = rw (e, f, same_pool m flags.pal_user) refl

pub get_none :
    (m : Memory) (flags : Flags) (n : ℕ)
    → (n == 0) ≡ true
    → palloc_get_multiple m flags n ≡ some (0, m)
unfolding palloc_get_multiple
get_none m flags n e = rw e refl

by_scan :
    (m : Memory) (flags : Flags) (n : ℕ) {r : Option (ℕ × Bitmap)}
    → IsMemory m
    → (n == 0) ≡ false
    → bitmap_scan_and_flip (pool_of m flags.pal_user).used_map 0 n false ≡ r
    → Flipped (pool_of m flags.pal_user).used_map 0 n false r
    → Got m flags n (palloc_get_multiple m flags n)
by_scan m flags n v e f (unchanged all g) =
    out_of_pages (λ k h. all k (omega arith) h) (get_fails m flags n e (f ∙ g))
by_scan m flags n v e f (flipped i b p q u least valid same bits g) =
    let o = either-IsPool v flags.pal_user in
    let positive : 0 < n = ground arith in
    let pages = (pool_of m flags.pal_user).base + 4096 * i in
    got i pages (remarked m flags.pal_user b (filled m flags pages n)) refl q u
      (λ k. least k (omega arith))
      (remarked-Marked m b (filled m flags pages n) flags.pal_user i n true v valid same bits)
      (λ a. elim (Bool-cases flags.pal_zero) [ inl z ↦ rw z refl | inr z ↦ rw z refl ])
      (get_returns m flags n i pages b e (f ∙ g) (ground (arith, o.valid.small))
        (omega (arith, o.inside, positive)) (ground (arith, o.positive)))

-- In well-formed pools, a call for pages gives the first group of free pages of the pool that the flags name, marks these and
-- no other page, fills them with zeros if the flags say so, and changes no other contents; without such
-- a group it returns a null pointer, or panics if the flags say so. The pools stay well formed.
pub palloc_get_multiple-Got :
    (m : Memory) (flags : Flags) (page_cnt : ℕ)
    → IsMemory m
    → Got m flags page_cnt (palloc_get_multiple m flags page_cnt)
palloc_get_multiple-Got m flags n v = elim (Bool-cases (n == 0)) [
  | inl e ↦ no_pages (==→eq n 0 e) (get_none m flags n e)
  | inr e ↦
      by_scan m flags n v e refl (
        bitmap_scan_and_flip-Flipped 0 n false (either-IsPool v flags.pal_user).valid (omega arith))
]
