-- ===== src/Cache/Threads.antt =====
-- `cache_get_block` of src/filesys/cache.c among other threads: its parts between the points where another
-- thread can run. `sema_down`, which may sleep, is a part of its own in `evict`. Every other part runs under
-- the lock of one block, or only reads `clock`; while `block_write` sleeps in one, other threads cannot use
-- that block, and write other sectors. A thread that finds no place in `sema_down` does not step; one that
-- waits there with the lock of a block tests the block again, so the model allows all the orders that the
-- locks allow, and more.
use kernel_dev.Prelude.{ℕ, ◌+◌, ◌%◌, ◌≡◌, ◌<◌, Bool, List, [], ◌∷◌, ◌++◌, ltb, if◌then◌else◌}
use kernel_dev.Prelude.Outcome.{Outcome, returns, sleeps, ◌>>=◌}
use kernel_dev.BlockDevice.{Device}
use kernel_dev.Cache.{
  Cache, CacheBlock, cache_limit, is_idle, holds, init_block, writeback, evict_down, set_block,
  grant, cache_put_block, cache_read_block, cache_zero_block, cache_mark_block_dirty,
  cache_mark_deleted, write_data,
}

-- Where a thread in `cache_get_block` stands.
pub data Getter : Type 0 where
  -- the loop of `obtain_block` at `i`
  scans : (sector i : ℕ) → Getter
  -- before `sema_down` in `evict`
  downs : (sector : ℕ) → Getter
  -- behind it, before the loop
  starts : (sector : ℕ) → Getter
  -- the loop of `evict` at `i`
  searches : (sector i : ℕ) → Getter
  -- before the next index is computed
  moves : (sector : ℕ) → Getter
  -- its request is count_request at block `i`
  obtained : (sector i : ℕ) → Getter

module _ {D : Type 0} where
  -- `b->pending_requests++`
  abbrev pub count_request : Cache D → ℕ → Cache D
  count_request c i = record c {
    blocks =
        set_block c.blocks i
          (record (c.blocks i) { pending_requests = (c.blocks i).pending_requests + 1 });
  }

  unfoldable pub scan_step : Cache D → ℕ → ℕ → Outcome (Getter × Cache D)
  scan_step c sector i =
      if ltb i cache_limit
      then if holds (c.blocks i) sector
        then ((if is_idle (c.blocks i) then evict_down c else returns c) >>= λ c'.
            returns (obtained sector i, count_request c' i))
        else returns (scans sector (i + 1), c)
      else returns (downs sector, c)

  unfoldable pub search_step : Cache D → ℕ → ℕ → Outcome (Getter × Cache D)
  search_step c sector i =
      let take = writeback (c.blocks i) c.device >>= λ (b, dev). returns (
        obtained sector i,
        count_request
            (record c { blocks = set_block c.blocks i (init_block b sector); device = dev }) i,
      ) in
      if is_idle (c.blocks i) then take else returns (moves sector, record c { clock = i })

  unfoldable pub getter_step : Cache D → Getter → Outcome (Getter × Cache D)
  getter_step c (scans sector i) = scan_step c sector i
  getter_step c (downs sector) = evict_down c >>= λ c'. returns (starts sector, c')
  getter_step c (starts sector) = returns (searches sector c.clock, c)
  getter_step c (searches sector i) = search_step c sector i
  getter_step c (moves sector) =
      returns (searches sector ((c.clock + 1 + cache_limit) % cache_limit), c)
  getter_step c (obtained sector i) = sleeps

-- A sum over the threads in `cache_get_block`.
unfoldable pub total : (Getter → ℕ) → List Getter → ℕ
total f [] = 0
total f (g ∷ l) = f g + total f l

-- 1 for a thread that has lowered the semaphore in `evict`, and has no block yet.
abbrev pub ticket : Getter → ℕ
ticket (scans sector i) = 0
ticket (downs sector) = 0
ticket (starts sector) = 1
ticket (searches sector i) = 1
ticket (moves sector) = 1
ticket (obtained sector i) = 0

-- The cache, and the threads in `cache_get_block`.
pub record CacheSystem (D : Type 0) : Type 0 where
  pub cache : Cache D
  pub getters : List Getter

module _ {D : Type 0} where
  -- One step of some thread. A thread has access to a block, or uses one, whenever the code's assertions
  -- allow it.
  pub data Step (y : CacheSystem D) : CacheSystem D → Type 0 where
    calls : (sector : ℕ) → Step y (record y { getters = scans sector 0 ∷ y.getters })
    proceeds :
        (before : List Getter) (g : Getter) (after : List Getter) {g' : Getter} {c' : Cache D}
        → y.getters ≡ before ++ (g ∷ after)
        → getter_step y.cache g ≡ returns (g', c')
        → Step y (record { cache = c'; getters = before ++ (g' ∷ after) })
    granted :
        (i sector : ℕ) (exclusive : Bool) {c' : Cache D}
        → i < 64
        → grant y.cache i sector exclusive ≡ returns c'
        → Step y (record y { cache = c' })
    put :
        (i : ℕ) {c' : Cache D}
        → i < 64
        → cache_put_block y.cache i ≡ returns c'
        → Step y (record y { cache = c' })
    read :
        (i : ℕ) (d : D) {c' : Cache D}
        → i < 64
        → cache_read_block y.cache i ≡ returns (d, c')
        → Step y (record y { cache = c' })
    zeroed :
        (i : ℕ) (zeros : D)
        → i < 64
        → Step y (record y { cache = cache_zero_block zeros y.cache i })
    written : (i : ℕ) (f : D → D) → i < 64 → Step y (record y { cache = write_data y.cache i f })
    dirtied : (i : ℕ) → i < 64 → Step y (record y { cache = cache_mark_block_dirty y.cache i })
    removed : (i : ℕ) → i < 64 → Step y (record y { cache = cache_mark_deleted y.cache i })
    -- one round of `cache_flush`
    flushed :
        (i : ℕ) {b : CacheBlock D} {dev : Device D}
        → i < 64
        → writeback (y.cache.blocks i) y.cache.device ≡ returns (b, dev)
        → Step y (record y {
          cache = record y.cache { blocks = set_block y.cache.blocks i b; device = dev };
        })

  pub data Reach (y : CacheSystem D) : CacheSystem D → Type 0 where
    here : Reach y y
    next : {a b : CacheSystem D} → Reach y a → Step a b → Reach y b
