-- ===== src/Cache/Coherence/Races.antt =====
-- Two requests for one sector before either thread has read it.
use kernel_dev.Prelude.{ℕ, ◌≡◌, ◌≢◌, false}
use kernel_dev.Prelude.Outcome.{Outcome, returns}
use kernel_dev.Cache.{Cache, CacheBlock, holds, request}

module _ {D : Type 0} where
  holds_invalid : (b : CacheBlock D) (s : ℕ) → b.valid ≡ false → holds b s ≡ false
  unfolding holds
  holds_invalid b s h = rw h

  -- Another block is reserved for the sector of block `i`.
  abbrev pub SecondBlock : ℕ → ℕ × Cache D → Type 0
  SecondBlock s (i, c1) =
      (k : ℕ) × (c2 : Cache D) × (request c1 s ≡ returns (k, c2))
      × (k ≢ i)
      × ((c2.blocks k).bs_id ≡ s)
      × ((c2.blocks i).bs_id ≡ s)
