-- ===== src/Cache/Balance.antt =====
-- Who shares a block of src/filesys/cache.c, and what its eviction semaphore counts.
pub mod Access
pub mod Eviction
pub mod Getting
pub mod Runs
pub mod Whole
use kernel_dev.Prelude.{
  ℕ, zero, suc, ◌+◌, ◌-◌, ◌%◌, ◌≡◌, ◌≢◌, ◌≤◌, ◌<◌, Bool, true, false, not, Option, none, some, refl,
  ap, arith, ◌==◌, if◌then◌else◌, Bool-cases, inl, inr, ==→eq, ◌⊎◌, ◌&&◌, ltb, Option-cases,
}
use kernel_dev.Prelude.Outcome.{
  Outcome, returns-injective, >>=-eq-returns, returns, sleeps, faults, ◌>>=◌,
}
use kernel_dev.BlockDevice.{Device, block_read, block_write}
use kernel_dev.Cache.{
  Cache, CacheBlock, is_idle, holds, init_block, cache_init, writeback, find_block, evict_loop,
  evict_down, evict_at, evict, obtain_at, obtain_block, request, grant, offer, cache_put_block,
  cache_read_block, cache_zero_block, cache_mark_block_dirty, cache_mark_deleted, write_data,
  flush_loop, cache_flush, set_block, cache_limit,
}
use kernel_dev.Cache.Loops.{
  idle_count, idle_count-set, idle_of_count, evict_loop-idle, Search, hit, miss, find_block-Search,
  weight,
}

module _ {D : Type 0} where
  -- Many readers or one writer.
  pub record IsShared (b : CacheBlock D) : Type 0 where
    pub one_writer : b.num_writers ≤ 1
    pub no_reader : b.num_writers ≡ 1 → b.num_readers ≡ 0

  -- The semaphore counts the blocks that may be evicted, less the `t` that threads in `evict` have
  -- lowered it for and not found yet.
  pub record IsAccounted (t : ℕ) (c : Cache D) : Type 0 where
    pub evictable : c.num_evict + t ≡ idle_count c.blocks 64
    pub clock_in : c.clock < 64
    pub shared : (i : ℕ) → i < 64 → IsShared (c.blocks i)

  -- No thread is in `evict`.
  abbrev pub IsBalanced : Cache D → Type 0
  IsBalanced c = IsAccounted 0 c

  -- A change of block `i` alone that keeps the counts of block and semaphore in step.
  pub set-IsAccounted :
      {t : ℕ} (c : Cache D) (i n : ℕ) (b : CacheBlock D)
      → IsAccounted t c
      → i < 64
      → n + weight (c.blocks i) ≡ c.num_evict + weight b
      → IsShared b
      → (clock : ℕ) (dev : Device D) → clock < 64
      → IsAccounted t
          (record { blocks = set_block c.blocks i b; num_evict = n; clock = clock; device = dev })
  set-IsAccounted c i n b v h e s clock dev k = record {
    evictable = omega (arith, idle_count-set 64 c.blocks i b h, v.evictable);
    clock_in = k;
    shared = λ j p. elim (Bool-cases (i == j)) [
      | inl same ↦ rw same s
      | inr other ↦ rw other (v.shared j p)
    ];
  }
