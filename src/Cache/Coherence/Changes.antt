-- ===== src/Cache/Coherence/Changes.antt =====
-- What a change of one block does to the contents that the cache shows.
use kernel_dev.Prelude.{
  ℕ, ◌≡◌, ◌<◌, true, false, arith, ◌==◌, if◌then◌else◌, Bool-cases, inl, inr, ==→eq,
}
use kernel_dev.BlockDevice.{Device}
use kernel_dev.Cache.{CacheBlock, set_block}
use kernel_dev.Cache.Coherence.{IsCoherent, Holds, cached, on_disk}

-- The block is the same but for its counts.
pub record SameData {D : Type 0} (a b : CacheBlock D) : Type 0 where
  pub same_id : a.bs_id ≡ b.bs_id
  pub same_dirty : a.dirty ≡ b.dirty
  pub same_valid : a.valid ≡ b.valid
  pub same_deleted : a.deleted ≡ b.deleted
  pub same_contents : a.contents ≡ b.contents

-- The block holds data `x` of sector `s` that the device may not have.
pub record IsFilled {D : Type 0} (b : CacheBlock D) (s : ℕ) (x : D) : Type 0 where
  pub for_sector : b.bs_id ≡ s
  pub is_valid : b.valid ≡ true
  pub not_deleted : b.deleted ≡ false
  pub data_is : b.contents ≡ x

module _ {D : Type 0} (blocks : ℕ → CacheBlock D) (dev : Device D) (k : ℕ) (inside : k < 64) where
  module _ (b : CacheBlock D) (same : SameData b (blocks k)) where
    pub counts-IsCoherent : IsCoherent blocks dev → IsCoherent (set_block blocks k b) dev
    counts-IsCoherent co = record {
      unique = λ i j p q v w e. ground (arith, same, co.unique i j p q, ==→eq k i, ==→eq k j);
      dirty_valid = λ i p d. ground (arith, same, co.dirty_valid i p, ==→eq k i);
      in_device = λ i p v. ground (arith, same, co.in_device i p, ==→eq k i);
      clean = λ i p v d. ground (arith, same, co.clean i p, ==→eq k i);
      kept = λ i p. ground (arith, same, co.kept i p, ==→eq k i);
    }

    pub counts-Holds : {t : ℕ} {d : D} → Holds blocks dev t d → Holds (set_block blocks k b) dev t d
    counts-Holds (cached i p v e r) =
        cached i p (ground (arith, same, ==→eq k i)) (ground (arith, same, ==→eq k i))
          (ground (arith, same, ==→eq k i))
    counts-Holds (on_disk absent r) =
        on_disk (λ i p v. ground (arith, same, absent i p, ==→eq k i)) r

  -- A block that is not valid replaces one that the device agrees with.
  module _ (b : CacheBlock D) (empty : b.valid ≡ false) (not_dirty : b.dirty ≡ false)
      (not_deleted : b.deleted ≡ false) where
    pub drop-IsCoherent : IsCoherent blocks dev → IsCoherent (set_block blocks k b) dev
    drop-IsCoherent co = record {
      unique = λ i j p q v w e. ground (arith, co.unique i j p q);
      dirty_valid = λ i p d. ground (arith, co.dirty_valid i p);
      in_device = λ i p v. ground (arith, co.in_device i p);
      clean = λ i p v d. ground (arith, co.clean i p);
      kept = λ i p. ground (arith, co.kept i p);
    }

    pub drop-Holds :
        ((blocks k).valid ≡ true → (blocks k).contents ≡ dev.sectors (blocks k).bs_id)
        → IsCoherent blocks dev
        → {t : ℕ} {d : D} → Holds blocks dev t d
        → Holds (set_block blocks k b) dev t d
    drop-Holds agrees co {t} {d} (cached i p v e r) = elim (Bool-cases (k == i)) [
      | inl same ↦
          on_disk (λ j q w c. ground (arith, co.unique i j p q, ==→eq k i same, ==→eq k j))
            (ground (arith, agrees, ==→eq k i same))
      | inr other ↦ cached i p (rw other v) (rw other e) (rw other r)
    ]
    drop-Holds agrees co (on_disk absent r) = on_disk (λ i p v. ground (arith, absent i p)) r

  -- A block takes the data of a sector that no other block holds.
  module _ (b : CacheBlock D) (s : ℕ) (x : D) (filled : IsFilled b s x) (known : s < dev.size)
      (alone : (i : ℕ) → i < 64 → (blocks i).valid ≡ true → (blocks i).bs_id ≡ s → i ≡ k)
      (own : (blocks k).valid ≡ true → (blocks k).bs_id ≡ s) where
    pub fill-IsCoherent :
        (b.dirty ≡ false → x ≡ dev.sectors s)
        → IsCoherent blocks dev
        → IsCoherent (set_block blocks k b) dev
    fill-IsCoherent agrees co = record {
      unique = λ i j p q v w e.
          ground (arith, filled, co.unique i j p q, alone i p, alone j q, ==→eq k i, ==→eq k j);
      dirty_valid = λ i p d. ground (arith, filled, co.dirty_valid i p);
      in_device = λ i p v. ground (arith, filled, co.in_device i p);
      clean = λ i p v d. ground (arith, filled, agrees, co.clean i p);
      kept = λ i p. ground (arith, filled, co.kept i p);
    }

    pub fill-Holds :
        {t : ℕ} {d : D}
        → Holds blocks dev t d
        → Holds (set_block blocks k b) dev t (if s == t then x else d)
    fill-Holds {t} {d} h = elim (Bool-cases (s == t)) [
      | inl same ↦
          cached k inside (ground (arith, filled)) (ground (arith, filled, ==→eq s t same))
            (ground (arith, filled))
      | inr other ↦ rw other (keep other h)
    ]
      where
        keep : (s == t) ≡ false → Holds blocks dev t d → Holds (set_block blocks k b) dev t d
        keep other (cached i p v e r) = elim (Bool-cases (k == i)) [
          | inl same ↦ absurd (ground (arith, own, ==→eq k i same))
          | inr differ ↦ cached i p (rw differ v) (rw differ e) (rw differ r)
        ]
        keep other (on_disk absent r) = on_disk (λ i p v c. ground (arith, filled, absent i p)) r

  -- A valid block is written to the device.
  module _ (b : CacheBlock D) (filled : IsFilled b (blocks k).bs_id (blocks k).contents)
      (held : (blocks k).valid ≡ true) (dev' : Device D) (same_size : dev'.size ≡ dev.size)
      (stored : (t : ℕ)
        → dev'.sectors t
          ≡ (if (blocks k).bs_id == t then (blocks k).contents else dev.sectors t)) where
    pub store-IsCoherent : IsCoherent blocks dev → IsCoherent (set_block blocks k b) dev'
    store-IsCoherent co = record {
      unique = λ i j p q v w e. ground (arith, filled, co.unique i j p q, ==→eq k i, ==→eq k j);
      dirty_valid = λ i p d. ground (arith, filled, co.dirty_valid i p);
      in_device = λ i p v. ground (arith, filled, co.in_device i p, co.in_device k inside);
      clean = λ i p v d. ground (
        arith,
        filled,
        co.clean i p,
        co.unique k i inside p,
        stored (blocks i).bs_id,
        stored (blocks k).bs_id,
        ==→eq k i,
      );
      kept = λ i p. ground (arith, filled, co.kept i p);
    }

    pub store-Holds : {t : ℕ} {d : D} → Holds blocks dev t d → Holds (set_block blocks k b) dev' t d
    store-Holds (cached i p v e r) =
        cached i p (ground (arith, filled, ==→eq k i)) (ground (arith, filled, ==→eq k i))
          (ground (arith, filled, ==→eq k i))
    store-Holds {t} (on_disk absent r) =
        on_disk (λ i p v. ground (arith, filled, absent i p, absent k inside))
          (ground (arith, absent k inside, stored t))
