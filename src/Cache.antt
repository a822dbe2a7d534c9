-- ===== src/Cache.antt =====
-- src/filesys/cache.c: the buffer cache of 64 sectors. An operation runs under the lock of its
-- block, so it is one step on the cache; `cond_wait` is the outcome `sleeps`. Only `cache_get_block`
-- and `cache_flush` take several locks one after another, and may sleep between them: `obtain_block`,
-- `evict`, `request`, `cache_get_block` and `cache_flush` here are calls during which no other thread
-- runs, and Cache/Threads.antt has their parts, which other threads come between. The contents of a sector
-- are of any type `D`, with the block of zeros that `memset` writes.
pub mod Loops
pub mod Threads
pub mod Balance
pub mod Coherence
pub mod Session
use kernel_dev.Prelude.{
  ℕ, zero, suc, ◌+◌, ◌-◌, ◌%◌, Bool, true, false, not, Option, none, some, ltb, ◌==◌, if◌then◌else◌,
  ◌&&◌,
}
use kernel_dev.Prelude.Outcome.{Outcome, returns, sleeps, faults, ◌>>=◌}
use kernel_dev.BlockDevice.{Device, block_read, block_write}

abbrev pub cache_limit : ℕ
cache_limit = 64

-- `struct cache_block`, less its lock and condition variables.
pub record CacheBlock (D : Type 0) : Type 0 where
  pub bs_id : ℕ
  pub dirty : Bool
  pub valid : Bool
  pub deleted : Bool
  pub num_readers : ℕ
  pub num_writers : ℕ
  pub pending_requests : ℕ
  pub contents : D

-- The static variables of the file, with the device. `blocks` is the array of `cache_limit` blocks.
pub record Cache (D : Type 0) : Type 0 where
  pub blocks : ℕ → CacheBlock D
  pub num_evict : ℕ
  pub clock : ℕ
  pub device : Device D

-- `blocks[i] = b`
abbrev pub set_block : {D : Type 0} → (ℕ → CacheBlock D) → ℕ → CacheBlock D → ℕ → CacheBlock D
set_block f i b j = if i == j then b else f j

module _ {D : Type 0} where
  -- Nobody uses the block or waits for it, so it may be evicted.
  unfoldable pub is_idle : CacheBlock D → Bool
  is_idle b = b.num_readers == 0 && (b.num_writers == 0 && b.pending_requests == 0)

  -- `b->valid && b->bs_id == sector`
  unfoldable pub holds : CacheBlock D → ℕ → Bool
  holds b sector = b.valid && b.bs_id == sector

  unfoldable pub init_block : CacheBlock D → ℕ → CacheBlock D
  init_block b sector = record b {
    bs_id = sector;
    valid = false;
    dirty = false;
    deleted = false;
    num_readers = 0;
    num_writers = 0;
    pending_requests = 0;
  }

  -- `cache_init`, over the storage that `malloc` gave the blocks.
  unfoldable pub cache_init : (ℕ → CacheBlock D) → Device D → Cache D
  unfolding init_block
  cache_init storage dev = record {
    blocks = λ i. init_block (storage i) 0;
    num_evict = cache_limit;
    clock = 0;
    device = dev;
  }

  unfoldable pub writeback : CacheBlock D → Device D → Outcome (CacheBlock D × Device D)
  writeback b dev =
      if b.dirty && not b.valid
      then faults
      else if b.valid && (b.dirty && not b.deleted)
      then (block_write dev b.bs_id b.contents >>= λ dev'.
          returns (record b { dirty = false }, dev'))
      else returns (b, dev)

  -- The first block from `i` on, of `n` still to look at, that holds the sector.
  unfoldable pub find_block : (ℕ → CacheBlock D) → ℕ → ℕ → ℕ → Option ℕ
  find_block blocks sector i zero = none
  find_block blocks sector i (suc n) =
      let rest = find_block blocks sector (i + 1) n in
      if holds (blocks i) sector then some i else rest

  -- The loop of `evict` from index `i`: the block it stops at, and the clock that it leaves.
  unfoldable pub evict_loop : ℕ → (ℕ → CacheBlock D) → ℕ → ℕ → Option (ℕ × ℕ)
  evict_loop zero blocks i clock = none
  evict_loop (suc n) blocks i clock =
      let rest = evict_loop n blocks ((i + 1 + cache_limit) % cache_limit) i in
      if is_idle (blocks i) then some (i, clock) else rest

  -- `sema_down (&num_evict)`
  unfoldable pub evict_down : Cache D → Outcome (Cache D)
  evict_down c =
      if c.num_evict == 0 then sleeps else returns (record c { num_evict = c.num_evict - 1 })

  -- What `evict` does with the block that its loop found. A loop that finds none goes on for ever,
  -- until another thread gives up a block.
  unfoldable pub evict_at : Cache D → ℕ → Option (ℕ × ℕ) → Outcome (ℕ × Cache D)
  evict_at c sector none = sleeps
  evict_at c sector (some (i, clock)) = writeback (c.blocks i) c.device >>= λ (b, dev). returns (
    i,
    record c { blocks = set_block c.blocks i (init_block b sector); clock = clock; device = dev },
  )

  -- `evict` while no other thread runs: `cache_limit` rounds look at every block.
  unfoldable pub evict : Cache D → ℕ → Outcome (ℕ × Cache D)
  unfolding evict_down evict_at
  evict c sector =
      evict_down c >>= λ c'. evict_at c' sector (evict_loop cache_limit c'.blocks c'.clock c'.clock)

  -- `obtain_block` while no other thread runs, once its loop found a block or none.
  unfoldable pub obtain_at : Cache D → ℕ → Option ℕ → Outcome (ℕ × Cache D)
  obtain_at c sector none = evict c sector
  obtain_at c sector (some i) =
      if is_idle (c.blocks i) then (evict_down c >>= λ c'. returns (i, c')) else returns (i, c)

  unfoldable pub obtain_block : Cache D → ℕ → Outcome (ℕ × Cache D)
  unfolding obtain_at
  obtain_block c sector = obtain_at c sector (find_block c.blocks sector 0 cache_limit)

  -- `cache_get_block` up to its first test of the block, while no other thread runs: the block is obtained,
  -- and the request is counted.
  unfoldable pub request : Cache D → ℕ → Outcome (ℕ × Cache D)
  request c sector = obtain_block c sector >>= λ (i, c'). returns (
    i,
    record c' {
      blocks =
          set_block c'.blocks i
            (record (c'.blocks i) { pending_requests = (c'.blocks i).pending_requests + 1 });
    },
  )

  -- The rest of `cache_get_block`, each time that it tests the block: it waits, or it has access.
  unfoldable pub grant : Cache D → ℕ → ℕ → Bool → Outcome (Cache D)
  grant c i sector exclusive =
      let b = c.blocks i in
      let busy =
        if exclusive
        then not (b.num_readers == 0 && b.num_writers == 0)
        else not (b.num_writers == 0) in
      if busy
      then sleeps
      else if b.pending_requests == 0
      then faults
      else if b.bs_id == sector
      then returns (record c {
        blocks = set_block c.blocks i (record b {
          num_writers = if exclusive then b.num_writers + 1 else b.num_writers;
          num_readers = if exclusive then b.num_readers else b.num_readers + 1;
          pending_requests = b.pending_requests - 1;
        });
      })
      else faults

  unfoldable pub cache_get_block : Cache D → ℕ → Bool → Outcome (ℕ × Cache D)
  cache_get_block c sector exclusive =
      request c sector >>= λ (i, c'). grant c' i sector exclusive >>= λ c''. returns (i, c'')

  -- `sema_up (&num_evict)` if no request is pending, at the end of `cache_put_block`
  unfoldable pub offer : Cache D → ℕ → CacheBlock D → Cache D
  offer c i b = record c {
    blocks = set_block c.blocks i b;
    num_evict = if b.pending_requests == 0 then c.num_evict + 1 else c.num_evict;
  }

  -- With nobody inside, the count of readers would become -1: a fault here.
  unfoldable pub cache_put_block : Cache D → ℕ → Outcome (Cache D)
  unfolding offer
  cache_put_block c i =
      let b = c.blocks i in
      if ltb 0 b.num_writers
      then if b.num_writers == 1 then returns (offer c i (record b { num_writers = 0 })) else faults
      else if b.num_readers == 0
      then faults
      else if b.num_readers == 1
      then returns (offer c i (record b { num_readers = 0 }))
      else returns (record c {
        blocks = set_block c.blocks i (record b { num_readers = b.num_readers - 1 });
      })

  unfoldable pub cache_read_block : Cache D → ℕ → Outcome (D × Cache D)
  cache_read_block c i =
      let b = c.blocks i in
      if b.valid
      then returns (b.contents, c)
      else block_read c.device b.bs_id >>= λ (d, dev). returns (
        d,
        record c {
          blocks = set_block c.blocks i (record b { contents = d; valid = true });
          device = dev;
        },
      )

  -- `memset (b->data, 0, BLOCK_SIZE)`
  unfoldable pub cache_zero_block : D → Cache D → ℕ → Cache D
  cache_zero_block zeros c i = record c {
    blocks =
        set_block c.blocks i (record (c.blocks i) { contents = zeros; valid = true; dirty = true });
  }

  unfoldable pub cache_mark_block_dirty : Cache D → ℕ → Cache D
  cache_mark_block_dirty c i = record c {
    blocks = set_block c.blocks i (record (c.blocks i) { dirty = true });
  }

  unfoldable pub cache_mark_deleted : Cache D → ℕ → Cache D
  cache_mark_deleted c i = record c {
    blocks = set_block c.blocks i (record (c.blocks i) { deleted = true });
  }

  unfoldable pub cache_get_sector : Cache D → ℕ → ℕ
  cache_get_sector c i = (c.blocks i).bs_id

  -- A client's store through the pointer to the data of a block that it holds.
  unfoldable pub write_data : Cache D → ℕ → (D → D) → Cache D
  write_data c i f = record c {
    blocks = set_block c.blocks i (record (c.blocks i) { contents = f (c.blocks i).contents });
  }

  -- `cache_flush` from block `i` on, with `n` blocks to go.
  unfoldable pub flush_loop : Cache D → ℕ → ℕ → Outcome (Cache D)
  flush_loop c i zero = returns c
  flush_loop c i (suc n) = writeback (c.blocks i) c.device >>= λ (b, dev).
      flush_loop (record c { blocks = set_block c.blocks i b; device = dev }) (i + 1) n

  unfoldable pub cache_flush : Cache D → Outcome (Cache D)
  cache_flush c = flush_loop c 0 cache_limit
