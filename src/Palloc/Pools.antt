-- ===== src/Palloc/Pools.antt =====
-- The pools of src/threads/palloc.c: how they lie in memory, and that `palloc_init` lays them out so.
use kernel_dev.Prelude.{
  ℕ, zero, suc, ◌+◌, ◌-◌, ◌*◌, ◌/◌, ◌%◌, ◌^◌, ◌<◌, ◌≤◌, ◌≡◌, refl, ◌∙◌, true, false, Option, some,
  List, ltb, leb, if◌then◌else◌, arith, length,
}
use kernel_dev.Bitmap.{
  Bitmap, bitmap_size, bitmap_set_all, bitmap_buf_size, bitmap_create_in_buf, byte_cnt, elem_cnt,
}
use kernel_dev.Bitmap.View.{bit, IsValid}
use kernel_dev.Bitmap.Ranges.{WasSetRange, bitmap_set_multiple-WasSetRange, within}
use kernel_dev.Palloc.{Pool, Memory, page_size, phys_base, ptov, words_at, init_pool, palloc_init}

-- The pages of a pool are on page boundaries, none is the null page, and all end by 4 GB.
pub record IsPool (p : Pool) : Type 0 where
  pub valid : IsValid p.used_map
  pub aligned : p.base % 4096 ≡ 0
  pub positive : 0 < p.base
  pub inside : p.base + 4096 * p.used_map.bit_cnt ≤ 2 ^ 32

-- The kernel pool lies below the user pool.
pub record IsMemory (m : Memory) : Type 0 where
  pub kernel : IsPool m.kernel_pool
  pub user : IsPool m.user_pool
  pub apart : m.kernel_pool.base + 4096 * m.kernel_pool.used_map.bit_cnt ≤ m.user_pool.base

length-words_at : (bytes : ℕ → ℕ) (n a : ℕ) → length (words_at bytes a n) ≡ n
unfolding words_at
length-words_at bytes zero a = refl
length-words_at bytes (suc n) a = omega (arith, length-words_at bytes n (a + 4))

-- A pool of free pages, and where it lies.
pub record Made (base page_cnt : ℕ) (r : Option Pool) : Type 0 where
  pub pool : Pool
  pub returned : r ≡ some pool
  pub is_pool : IsPool pool
  pub above : base < pool.base
  pub ends : pool.base + 4096 * pool.used_map.bit_cnt ≡ base + 4096 * page_cnt
  pub free : (j : ℕ) → j < pool.used_map.bit_cnt → bit pool.used_map j ≡ false

-- Behind the structure of 8 bytes.
bytes_lem : (n : ℕ) → n < 2 ^ 20 → bitmap_buf_size n ≡ 8 + 4 * ((n + 31) / 32)
unfolding bitmap_buf_size byte_cnt elem_cnt
bytes_lem n h = omega arith

create_lem :
    (bit_cnt block_size : ℕ) (words : List ℕ)
    → bitmap_buf_size bit_cnt ≤ block_size
    → IsValid (record { bit_cnt = bit_cnt; bits = words })
    → WasSetRange
        (record { bit_cnt = bit_cnt; bits = words })
        0
        bit_cnt
        false
        (bitmap_create_in_buf bit_cnt words block_size)
unfolding bitmap_create_in_buf bitmap_set_all bitmap_size
create_lem bit_cnt block_size words h v =
    let fits : leb (bitmap_buf_size bit_cnt) block_size ≡ true = ground arith in
    rw fits (bitmap_set_multiple-WasSetRange 0 bit_cnt false v (omega arith))

returns_pool :
    (bytes : ℕ → ℕ) (base page_cnt bm : ℕ) (b : Bitmap)
    → (bitmap_buf_size page_cnt + page_size - 1) / page_size ≡ bm
    → ltb page_cnt bm ≡ false
    → bitmap_create_in_buf
        (page_cnt - bm)
        (words_at bytes (base + 8) (bm * 1024 - 2))
        (bm * page_size)
      ≡ some b
    → (base + bm * page_size) % 2 ^ 32 ≡ base + bm * page_size
    → init_pool bytes base page_cnt ≡ some (record { used_map = b; base = base + bm * page_size })
unfolding init_pool
returns_pool bytes base page_cnt bm b e f g h = rw (e, f, g, h) refl

pub init_pool-Made :
    (bytes : ℕ → ℕ) (base page_cnt : ℕ)
    → base % 4096 ≡ 0
    → 0 < base
    → 0 < page_cnt
    → page_cnt < 2 ^ 20
    → base + 4096 * page_cnt < 2 ^ 32
    → Made base page_cnt (init_pool bytes base page_cnt)
init_pool-Made bytes base page_cnt a p c d e =
    let bm = (8 + 4 * ((page_cnt + 31) / 32) + 4095) / 4096 in
    let size = bytes_lem page_cnt d in
    let few : bm ≤ page_cnt = omega arith in
    let rest = page_cnt - bm in
    let rest_size = bytes_lem rest (omega arith) in
    let words = words_at bytes (base + 8) (bm * 1024 - 2) in
    let w = create_lem rest (bm * 4096) words (omega (arith, rest_size)) (record {
      fits = omega (arith, length-words_at bytes (bm * 1024 - 2) (base + 8));
      small = omega arith;
    }) in
    record {
      pool = record { used_map = w.after; base = base + bm * 4096 };
      returned =
          returns_pool bytes base page_cnt bm w.after (omega (arith, size)) (ground (arith, few))
            w.returned (omega (arith, few));
      is_pool = record {
        valid = w.valid;
        aligned = omega arith;
        positive = omega arith;
        inside = omega (arith, w.same_size, few);
      };
      above = omega arith;
      ends = omega (arith, w.same_size, few);
      free = λ j h.
          let here : within 0 rest j ≡ true = ground (arith, w.same_size) in
          w.bits j ∙ rw here refl;
    }

-- The allocator as it starts: all pages of the pools are free, and lie in the memory above 1 MB.
pub record Started (ram_pages : ℕ) (r : Option Memory) : Type 0 where
  pub memory : Memory
  pub returned : r ≡ some memory
  pub is_memory : IsMemory memory
  pub above_1_mb : phys_base + 1024 * 1024 < memory.kernel_pool.base
  pub ends :
      memory.user_pool.base + 4096 * memory.user_pool.used_map.bit_cnt
      ≡ phys_base + 4096 * ram_pages
  pub kernel_free :
      (j : ℕ) → j < memory.kernel_pool.used_map.bit_cnt → bit memory.kernel_pool.used_map j ≡ false
  pub user_free :
      (j : ℕ) → j < memory.user_pool.used_map.bit_cnt → bit memory.user_pool.used_map j ≡ false

-- The pages of the user pool.
share : ℕ → ℕ → ℕ
share ram_pages limit = if ltb limit ((ram_pages - 256) / 2) then limit else (ram_pages - 256) / 2

init_returns :
    (bytes : ℕ → ℕ) (ram_pages limit user : ℕ) (k u : Pool)
    → 256 ≤ ram_pages
    → ram_pages < 2 ^ 18
    → (if ltb limit ((ram_pages - 256) / 2) then limit else (ram_pages - 256) / 2) ≡ user
    → init_pool bytes (phys_base + 1048576) (ram_pages - 256 - user) ≡ some k
    → init_pool bytes (phys_base + 1048576 + (ram_pages - 256 - user) * 4096) user ≡ some u
    → palloc_init bytes ram_pages limit
      ≡ some (record { kernel_pool = k; user_pool = u; bytes = bytes })
unfolding palloc_init
init_returns bytes ram_pages limit user k u h g e f i =
    let start : ptov (1024 * 1024) ≡ phys_base + 1048576 = omega arith in
    let pages : (ptov (ram_pages * page_size) - (phys_base + 1048576)) / page_size
        ≡ ram_pages - 256 =
      omega arith in
    rw (start, pages, e, f, i) refl

-- With more than 257 pages of RAM, but less than 1 GB, and a limit that leaves a page to the user pool,
-- `palloc_init` does not panic; the pools share the memory above 1 MB, do not overlap, and all their
-- pages are free.
pub palloc_init-Started :
    (bytes : ℕ → ℕ) (ram_pages user_page_limit : ℕ)
    → 257 < ram_pages
    → ram_pages < 2 ^ 18
    → 0 < user_page_limit
    → Started ram_pages (palloc_init bytes ram_pages user_page_limit)
unfolding share
palloc_init-Started bytes ram_pages limit h g p =
    let user = share ram_pages limit in
    let some_user : 0 < user = ground arith in
    let at_most : user ≤ (ram_pages - 256) / 2 = ground arith in
    let k =
      init_pool-Made bytes (phys_base + 1048576) (ram_pages - 256 - user) refl (omega arith)
        (omega (arith, at_most)) (omega arith) (omega arith) in
    let u =
      init_pool-Made bytes (phys_base + 1048576 + (ram_pages - 256 - user) * 4096) user
        (omega arith) (omega arith) some_user (omega (arith, at_most)) (omega (arith, at_most)) in
    record {
      memory = record { kernel_pool = k.pool; user_pool = u.pool; bytes = bytes };
      returned =
          init_returns bytes ram_pages limit user k.pool u.pool (omega arith) g refl k.returned
            u.returned;
      is_memory = record {
        kernel = k.is_pool;
        user = u.is_pool;
        apart = omega (arith, k.ends, u.above);
      };
      above_1_mb = k.above;
      ends = omega (arith, u.ends, at_most);
      kernel_free = k.free;
      user_free = u.free;
    }
