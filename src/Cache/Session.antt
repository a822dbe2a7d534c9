-- ===== src/Cache/Session.antt =====
-- One thread's use of a block of src/filesys/cache.c, as the callers in src/filesys/inode.c write
-- it: get the block, read or zero it, perhaps change the data and mark it dirty, and put it back.
pub mod Own
pub mod Access
pub mod Whole
use kernel_dev.Prelude.{ℕ, ◌+◌, ◌≡◌, ◌<◌, Bool, true, false}
use kernel_dev.Prelude.Outcome.{Outcome, returns, ◌>>=◌}
use kernel_dev.BlockDevice.{Device}
use kernel_dev.Cache.{
  Cache, CacheBlock, is_idle, holds, cache_get_block, cache_put_block, cache_read_block,
  cache_zero_block, cache_mark_block_dirty, write_data,
}
use kernel_dev.Cache.Balance.{IsBalanced}
use kernel_dev.Cache.Coherence.{IsCoherent, Holds}

module _ {D : Type 0} where
  -- The data of a sector, as `inode_read_at` copies it out.
  unfoldable pub load : Cache D → ℕ → Outcome (D × Cache D)
  load c sector = cache_get_block c sector false >>= λ (i, c1).
      cache_read_block c1 i >>= λ (d, c2). cache_put_block c2 i >>= λ c3. returns (d, c3)

  -- A change of part of a sector, as `inode_write_at` and `MLI_translate` make it.
  unfoldable pub modify : Cache D → ℕ → Bool → (D → D) → Outcome (Cache D)
  modify c sector exclusive f = cache_get_block c sector exclusive >>= λ (i, c1).
      cache_read_block c1 i >>= λ (d, c2).
      cache_put_block (cache_mark_block_dirty (write_data c2 i f) i) i

  -- Fresh contents for a sector, as `expand_by_one` and `inode_create` write them.
  unfoldable pub fill : D → Cache D → ℕ → (D → D) → Outcome (Cache D)
  fill zeros c sector f = cache_get_block c sector true >>= λ (i, c1).
      cache_put_block (cache_mark_block_dirty (write_data (cache_zero_block zeros c1 i) i f) i) i

  -- Nobody uses sector `s`, and some block is idle: a thread can take a block for it.
  pub record IsFree (c : Cache D) (s : ℕ) : Type 0 where
    pub balanced : IsBalanced c
    pub coherent : IsCoherent c.blocks c.device
    pub room : 0 < c.num_evict
    pub unused : (j : ℕ) → j < 64 → holds (c.blocks j) s ≡ true → is_idle (c.blocks j) ≡ true

  -- The thread has block `i` for sector `s`, with the counts given. What the cache `c'` shows is
  -- what `c` showed, changed by `change`.
  pub record IsOwned (c : Cache D) (change : ℕ → D → D) (s i readers writers : ℕ) (c' : Cache D)
      : Type 0 where
    pub inside : i < 64
    pub balanced : IsBalanced c'
    pub coherent : IsCoherent c'.blocks c'.device
    pub shows :
        (t : ℕ) (d : D) → Holds c.blocks c.device t d → Holds c'.blocks c'.device t (change t d)
    pub size : c'.device.size ≡ c.device.size
    pub for_sector : (c'.blocks i).bs_id ≡ s
    pub reading : (c'.blocks i).num_readers ≡ readers
    pub writing : (c'.blocks i).num_writers ≡ writers
    pub no_request : (c'.blocks i).pending_requests ≡ 0
    pub alone : (j : ℕ) → j < 64 → (c'.blocks j).valid ≡ true → (c'.blocks j).bs_id ≡ s → j ≡ i
    pub others : (j : ℕ) → is_idle (c.blocks j) ≡ false → c'.blocks j ≡ c.blocks j

  abbrev pub unchanged : ℕ → D → D
  unchanged t d = d
