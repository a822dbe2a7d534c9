-- ===== src/Palloc.antt =====
-- src/threads/palloc.c: the page allocator, with its kernel pool and its user pool over bitmaps. The
-- lock of a pool is held within one operation. `none` is a panic. An address is a number below 2 ^ 32.
pub mod Pools
pub mod Marks
pub mod Pages
pub mod Release
pub mod Lifetimes
use kernel_dev.Prelude.{
  ℕ, zero, suc, ◌+◌, ◌-◌, ◌*◌, ◌/◌, ◌%◌, ◌^◌, Bool, true, false, not, Option, none, some, List, [],
  ◌∷◌, ◌==◌, ltb, leb, ◌&&◌, ◌||◌, if◌then◌else◌, ◌>>=◌,
}
use kernel_dev.Bitmap.{
  Bitmap, add_size, bitmap_error, bitmap_size, bitmap_all, bitmap_set_multiple,
  bitmap_scan_and_flip, bitmap_buf_size, bitmap_create_in_buf,
}

abbrev pub page_size : ℕ
page_size = 4096

-- `LOADER_PHYS_BASE`
abbrev pub phys_base : ℕ
phys_base = 3221225472

abbrev pub ptov : ℕ → ℕ
ptov paddr = (paddr + phys_base) % 2 ^ 32

abbrev pub pg_no : ℕ → ℕ
pg_no va = va / page_size

abbrev pub pg_ofs : ℕ → ℕ
pg_ofs va = va % page_size

-- The bits of `enum palloc_flags` that palloc.c reads.
pub record Flags : Type 0 where
  pub pal_assert : Bool
  pub pal_zero : Bool
  pub pal_user : Bool

pub record Pool : Type 0 where
  pub used_map : Bitmap
  pub base : ℕ

-- The pools and the contents of kernel memory, but for the pages of the used maps themselves.
pub record Memory : Type 0 where
  pub kernel_pool : Pool
  pub user_pool : Pool
  pub bytes : ℕ → ℕ

abbrev pub pool_of : Memory → Bool → Pool
pool_of m true = m.user_pool
pool_of m false = m.kernel_pool

abbrev pub with_pool : Memory → Bool → Pool → Memory
with_pool m true p = record m { user_pool = p }
with_pool m false p = record m { kernel_pool = p }

abbrev pub memset : (ℕ → ℕ) → ℕ → ℕ → ℕ → ℕ → ℕ
memset bytes dst value size a = if leb dst a && ltb a (dst + size) then value else bytes a

-- The words of memory at an address, the first byte the lowest.
unfoldable pub words_at : (ℕ → ℕ) → ℕ → ℕ → List ℕ
words_at bytes a zero = []
words_at bytes a (suc n) =
    (bytes a + 256 * bytes (a + 1) + 65536 * bytes (a + 2) + 16777216 * bytes (a + 3))
    ∷ words_at bytes (a + 4) n

-- The bitmap of the pool takes the first pages of it.
unfoldable pub init_pool : (ℕ → ℕ) → ℕ → ℕ → Option Pool
init_pool bytes base page_cnt =
    let bm_pages = (bitmap_buf_size page_cnt + page_size - 1) / page_size in
    if ltb page_cnt bm_pages
    then none
    else bitmap_create_in_buf (page_cnt - bm_pages)
        (words_at bytes (base + 8) (bm_pages * 1024 - 2)) (bm_pages * page_size)
      >>= λ b. some (record { used_map = b; base = (base + bm_pages * page_size) % 2 ^ 32 })

unfoldable pub palloc_init : (ℕ → ℕ) → ℕ → ℕ → Option Memory
palloc_init bytes init_ram_pages user_page_limit =
    let free_start = ptov (1024 * 1024) in
    let free_end = ptov (init_ram_pages * page_size) in
    let free_pages = (free_end - free_start) / page_size in
    let half = free_pages / 2 in
    let user_pages = if ltb user_page_limit half then user_page_limit else half in
    let kernel_pages = free_pages - user_pages in
    init_pool bytes free_start kernel_pages >>= λ k.
    init_pool bytes (free_start + kernel_pages * page_size) user_pages >>= λ u.
    some (record { kernel_pool = k; user_pool = u; bytes = bytes })

-- A null pointer is 0.
unfoldable pub palloc_get_multiple : Memory → Flags → ℕ → Option (ℕ × Memory)
palloc_get_multiple m flags page_cnt =
    let pool = pool_of m flags.pal_user in
    let taken = bitmap_scan_and_flip pool.used_map 0 page_cnt false >>= λ (page_idx, b).
    let m' = with_pool m flags.pal_user (record pool { used_map = b }) in
    let pages =
      if page_idx == bitmap_error then 0 else (pool.base + page_size * page_idx) % 2 ^ 32 in
    if not (pages == 0)
    then some (
      pages,
      if flags.pal_zero
          then record m' { bytes = memset m'.bytes pages 0 (page_size * page_cnt) }
          else m',
    )
    else if flags.pal_assert
    then none
    else some (0, m') in
    if page_cnt == 0 then some (0, m) else taken

unfoldable pub palloc_get_page : Memory → Flags → Option (ℕ × Memory)
palloc_get_page m flags = palloc_get_multiple m flags 1

unfoldable pub page_from_pool : Pool → ℕ → Bool
page_from_pool pool page =
    leb (pg_no pool.base) (pg_no page)
    && ltb (pg_no page) (add_size (pg_no pool.base) (bitmap_size pool.used_map))

-- The rest of `palloc_free_multiple` once the pool is known.
unfoldable pub free_in_pool : Memory → Bool → ℕ → ℕ → Option Memory
free_in_pool m user pages page_cnt =
    let pool = pool_of m user in
    let page_idx = pg_no pages - pg_no pool.base in
    bitmap_all pool.used_map page_idx page_cnt >>= λ all_used.
    if all_used
    then (bitmap_set_multiple pool.used_map page_idx page_cnt false >>= λ b.
        some (record (with_pool m user (record pool { used_map = b })) {
          bytes = memset m.bytes pages 204 (page_size * page_cnt);
        }))
    else none

unfoldable pub palloc_free_multiple : Memory → ℕ → ℕ → Option Memory
palloc_free_multiple m pages page_cnt =
    if not (pg_ofs pages == 0)
    then none
    else if pages == 0 || page_cnt == 0
    then some m
    else if page_from_pool m.kernel_pool pages
    then free_in_pool m false pages page_cnt
    else if page_from_pool m.user_pool pages
    then free_in_pool m true pages page_cnt
    else none

unfoldable pub palloc_free_page : Memory → ℕ → Option Memory
palloc_free_page m page = palloc_free_multiple m page 1
