-- ===== src/Cache/Coherence/Flush.antt =====
-- `cache_flush`: afterwards the device has what the cache shows.
use kernel_dev.Prelude.{ℕ, ◌≡◌, ◌<◌, false}
use kernel_dev.Prelude.Outcome.{Outcome, returns}
use kernel_dev.Cache.{Cache, CacheBlock}
use kernel_dev.Cache.Coherence.Eviction.{Keeps}

module _ {D : Type 0} where
  -- The blocks below `n` agree with the device.
  abbrev CleanBelow : (ℕ → CacheBlock D) → ℕ → Type 0
  CleanBelow blocks n = (j : ℕ) → j < n → (blocks j).dirty ≡ false

  abbrev Flushes : Cache D → ℕ → Outcome (Cache D) → Type 0
  Flushes c n r =
      (c' : Cache D) × (r ≡ returns c')
      × Keeps c.blocks c.device c'.blocks c'.device
      × CleanBelow c'.blocks n
