-- ===== src/Cache/Coherence.antt =====
-- The contents of the disk as the cache of src/filesys/cache.c shows it, and when the blocks and
-- the device agree on it.
pub mod Changes
pub mod Eviction
pub mod Requests
pub mod Flush
pub mod Races
use kernel_dev.Prelude.{
  ℕ, ◌+◌, ◌≡◌, ◌≢◌, ◌≤◌, ◌<◌, Bool, true, false, Option, none, some, refl, sym, ◌∙◌, ap, arith,
  ◌==◌, if◌then◌else◌, Bool-cases, inl, inr, ==→eq,
}
use kernel_dev.BlockDevice.{Device}
use kernel_dev.Cache.{Cache, CacheBlock, holds, find_block}
use kernel_dev.Cache.Loops.{Search, hit, miss, find_block-Search}

module _ {D : Type 0} where
  unfoldable pub view_at : (ℕ → CacheBlock D) → Device D → ℕ → Option ℕ → D
  view_at blocks dev t none = dev.sectors t
  view_at blocks dev t (some i) = (blocks i).contents

  -- Sector `t` as the file system sees it: cached, or on the device.
  unfoldable pub view : Cache D → ℕ → D
  unfolding view_at
  view c t = view_at c.blocks c.device t (find_block c.blocks t 0 64)

  -- At most one valid block for a sector; a dirty block is valid, a clean one agrees with the
  -- device; valid blocks are for sectors of the device, and no block is marked deleted.
  pub record IsCoherent (blocks : ℕ → CacheBlock D) (dev : Device D) : Type 0 where
    pub unique :
        (i j : ℕ)
        → i < 64
        → j < 64
        → (blocks i).valid ≡ true
        → (blocks j).valid ≡ true
        → (blocks i).bs_id ≡ (blocks j).bs_id
        → i ≡ j
    pub dirty_valid : (i : ℕ) → i < 64 → (blocks i).dirty ≡ true → (blocks i).valid ≡ true
    pub in_device : (i : ℕ) → i < 64 → (blocks i).valid ≡ true → (blocks i).bs_id < dev.size
    pub clean :
        (i : ℕ)
        → i < 64
        → (blocks i).valid ≡ true
        → (blocks i).dirty ≡ false
        → (blocks i).contents ≡ dev.sectors (blocks i).bs_id
    pub kept : (i : ℕ) → i < 64 → (blocks i).deleted ≡ false

  -- `d` is what blocks and device hold for sector `t`.
  pub data Holds (blocks : ℕ → CacheBlock D) (dev : Device D) (t : ℕ) (d : D) : Type 0 where
    cached :
        (i : ℕ)
        → i < 64
        → (blocks i).valid ≡ true
        → (blocks i).bs_id ≡ t
        → (blocks i).contents ≡ d
        → Holds blocks dev t d
    on_disk :
        ((i : ℕ) → i < 64 → (blocks i).valid ≡ true → (blocks i).bs_id ≢ t)
        → dev.sectors t ≡ d
        → Holds blocks dev t d

  pub holds-inversion :
      (b : CacheBlock D) (t : ℕ) → holds b t ≡ true → (b.valid ≡ true) × (b.bs_id ≡ t)
  unfolding holds
  holds-inversion b t h = ground arith

  pub not_holds : (b : CacheBlock D) (t : ℕ) → holds b t ≡ false → b.valid ≡ true → b.bs_id ≢ t
  unfolding holds
  not_holds b t h v e = ground arith

  pub view-Holds : (c : Cache D) (t : ℕ) → Holds c.blocks c.device t (view c t)
  unfolding view
  view-Holds c t = go (find_block c.blocks t 0 64) (find_block-Search 64 0 c.blocks t)
    where
      go :
          (r : Option ℕ)
          → Search c.blocks t 0 64 r
          → Holds c.blocks c.device t (view_at c.blocks c.device t r)
      go none (hit k p q e m) = cc
      go none (miss gone m) =
          on_disk (λ i h v. not_holds (c.blocks i) t (gone i (omega arith) h) v) refl
      go (some i) (miss gone m) = cc
      go (some i) (hit k p q e m) =
          let held = holds-inversion (c.blocks k) t e in
          cached i (ground arith) (ground arith) (ground arith) refl

  -- The view is the only such value.
  pub Holds-unique :
      {blocks : ℕ → CacheBlock D} {dev : Device D} {t : ℕ} {d e : D}
      → IsCoherent blocks dev
      → Holds blocks dev t d
      → Holds blocks dev t e
      → d ≡ e
  Holds-unique {blocks} co (cached i h v b r) (cached j k w c s) =
      sym r ∙ ap (λ n. (blocks n).contents) (co.unique i j h k v w (b ∙ sym c)) ∙ s
  Holds-unique co (cached i h v b r) (on_disk absent s) = absurd (absent i h v b)
  Holds-unique co (on_disk absent r) (cached j k w c s) = absurd (absent j k w c)
  Holds-unique co (on_disk absent r) (on_disk gone s) = sym r ∙ s

  pub view-eq :
      (c : Cache D) {t : ℕ} {d : D}
      → IsCoherent c.blocks c.device
      → Holds c.blocks c.device t d
      → view c t ≡ d
  view-eq c {t} co h = Holds-unique co (view-Holds c t) h
