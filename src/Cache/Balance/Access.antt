-- ===== src/Cache/Balance/Access.antt =====
-- The accounts of the cache under the operations on a block that a thread holds.
use kernel_dev.Prelude.{
  ℕ, ◌≡◌, ◌<◌, Bool, true, false, refl, ap, arith, ◌==◌, Bool-cases, inl, inr, ◌&&◌, ltb,
}
use kernel_dev.Prelude.Outcome.{returns-injective, >>=-eq-returns, returns}
use kernel_dev.BlockDevice.{Device, block_read}
use kernel_dev.Cache.{
  Cache, CacheBlock, is_idle, grant, cache_put_block, cache_read_block, set_block,
}
use kernel_dev.Cache.Balance.{IsShared, IsAccounted, set-IsAccounted}

module _ {D : Type 0} {t : ℕ} where
  pub cache_put_block-IsAccounted :
      {c c' : Cache D} (i : ℕ)
      → IsAccounted t c
      → i < 64
      → cache_put_block c i ≡ returns c'
      → IsAccounted t c'
  unfolding cache_put_block is_idle
  cache_put_block-IsAccounted {c} {c'} i v h e =
      let s : IsShared (c.blocks i) = v.shared i h in
      elim (Bool-cases (ltb 0 (c.blocks i).num_writers)) [
        | inl w ↦ elim (Bool-cases ((c.blocks i).num_writers == 1)) [
          | inl one ↦ rw (← returns-injective (rw (w, one) at e)) (
              set-IsAccounted c i _ _ v h (ground arith) (ground arith) c.clock c.device v.clock_in)
          | inr more ↦ cc (rw (w, more) at e)
        ]
        | inr idle ↦ elim (Bool-cases ((c.blocks i).num_readers == 0)) [
          | inl none_in ↦ cc (rw (idle, none_in) at e)
          | inr some_in ↦ elim (Bool-cases ((c.blocks i).num_readers == 1)) [
            | inl one ↦ rw (← returns-injective (rw (idle, some_in, one) at e)) (
                set-IsAccounted c i _ _ v h (ground arith) (ground arith) c.clock c.device
                  v.clock_in)
            | inr more ↦ rw (← returns-injective (rw (idle, some_in, more) at e)) (
                set-IsAccounted c i _ _ v h (ground arith) (ground arith) c.clock c.device
                  v.clock_in)
          ]
        ]
      ]

  pub grant-IsAccounted :
      {c c' : Cache D} (i sector : ℕ) (exclusive : Bool)
      → IsAccounted t c
      → i < 64
      → grant c i sector exclusive ≡ returns c'
      → IsAccounted t c'
  unfolding grant is_idle
  grant-IsAccounted {c} {c'} i sector true v h e =
      let s : IsShared (c.blocks i) = v.shared i h in
      elim (Bool-cases ((c.blocks i).num_readers == 0 && (c.blocks i).num_writers == 0)) [
        | inl free ↦ elim (Bool-cases ((c.blocks i).pending_requests == 0)) [
          | inl nobody ↦ cc (rw (free, nobody) at e)
          | inr asked ↦ elim (Bool-cases ((c.blocks i).bs_id == sector)) [
            | inl same ↦ rw (← returns-injective (rw (free, asked, same) at e)) (
                set-IsAccounted c i _ _ v h (ground arith) (ground arith) c.clock c.device
                  v.clock_in)
            | inr other ↦ cc (rw (free, asked, other) at e)
          ]
        ]
        | inr busy ↦ cc (rw busy at e)
      ]
  grant-IsAccounted {c} {c'} i sector false v h e =
      let s : IsShared (c.blocks i) = v.shared i h in
      elim (Bool-cases ((c.blocks i).num_writers == 0)) [
        | inl free ↦ elim (Bool-cases ((c.blocks i).pending_requests == 0)) [
          | inl nobody ↦ cc (rw (free, nobody) at e)
          | inr asked ↦ elim (Bool-cases ((c.blocks i).bs_id == sector)) [
            | inl same ↦ rw (← returns-injective (rw (free, asked, same) at e)) (
                set-IsAccounted c i _ _ v h (ground arith) (ground arith) c.clock c.device
                  v.clock_in)
            | inr other ↦ cc (rw (free, asked, other) at e)
          ]
        ]
        | inr busy ↦ cc (rw busy at e)
      ]

  pub cache_read_block-IsAccounted :
      {c c' : Cache D} (i : ℕ) (d : D)
      → IsAccounted t c
      → i < 64
      → cache_read_block c i ≡ returns (d, c')
      → IsAccounted t c'
  unfolding cache_read_block is_idle
  cache_read_block-IsAccounted {c} {c'} i d v h e =
      let s : IsShared (c.blocks i) = v.shared i h in
      elim (Bool-cases (c.blocks i).valid) [
        | inl loaded ↦ rw (← ap (λ (p : D × Cache D). p.1) (returns-injective (rw loaded at e))) v
        | inr unread ↦
            let inv : (p : D × Device D) × (block_read c.device (c.blocks i).bs_id ≡ returns p)
                × _ =
              >>=-eq-returns (block_read c.device (c.blocks i).bs_id) _ (rw unread at e) in
            rw (← ap (λ (p : D × Cache D). p.1) (returns-injective inv.2))
              (set-IsAccounted c i _ _ v h (ground arith) (ground arith) c.clock inv.0.1 v.clock_in)
      ]

  -- Operations that leave the counts of a block alone.
  pub same_counts-IsAccounted :
      (c : Cache D) (i : ℕ) (b : CacheBlock D)
      → IsAccounted t c
      → i < 64
      → is_idle b ≡ is_idle (c.blocks i)
      → b.num_readers ≡ (c.blocks i).num_readers
      → b.num_writers ≡ (c.blocks i).num_writers
      → IsAccounted t (record c { blocks = set_block c.blocks i b })
  same_counts-IsAccounted c i b v h idle readers writers =
      let s : IsShared (c.blocks i) = v.shared i h in
      set-IsAccounted c i c.num_evict b v h (rw idle refl)
        (record {
          one_writer = omega (arith, writers, s.one_writer);
          no_reader = λ w. omega (arith, readers, writers, s.no_reader);
        })
        c.clock c.device v.clock_in
