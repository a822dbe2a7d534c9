-- ===== src/Cache/Balance/Eviction.antt =====
-- The accounts of the cache when a block is obtained for a request, and when it is flushed.
use kernel_dev.Prelude.{
  ℕ, ◌+◌, ◌-◌, ◌≡◌, ◌<◌, true, Option, none, some, refl, sym, ap, subst, ◌∙◌, arith, ◌==◌,
  Bool-cases, inl, inr,
}
use kernel_dev.Prelude.Outcome.{returns-injective, >>=-eq-returns, returns}
use kernel_dev.BlockDevice.{Device, block_write}
use kernel_dev.Cache.{
  Cache, CacheBlock, is_idle, init_block, writeback, evict_loop, evict_down, evict_at, evict,
  obtain_at, obtain_block, request, set_block, cache_limit,
}
use kernel_dev.Cache.Loops.{
  idle_count, idle_count-set, evict_loop-idle, Search, hit, miss, find_block-Search, weight,
}
use kernel_dev.Cache.Balance.{IsShared, IsBalanced, IsAccounted}

module _ {D : Type 0} where
  -- What `writeback` returns is the block, perhaps clean.
  pub writeback-block :
      (b : CacheBlock D) (dev : Device D) {b' : CacheBlock D} {dev' : Device D}
      → writeback b dev ≡ returns (b', dev')
      → (is_idle b' ≡ is_idle b)
        × (b'.num_readers ≡ b.num_readers)
        × (b'.num_writers ≡ b.num_writers)
  unfolding writeback block_write is_idle
  writeback-block b dev e = ground arith

  -- A block has been taken for a request that is not counted yet: if it is idle, the semaphore has
  -- been lowered for it.
  pub record IsTaken (t i : ℕ) (c : Cache D) : Type 0 where
    pub inside : i < 64
    pub evictable : c.num_evict + t + weight (c.blocks i) ≡ idle_count c.blocks 64
    pub clock_in : c.clock < 64
    pub shared : (j : ℕ) → j < 64 → IsShared (c.blocks j)

  pub evict_down-inversion :
      (c : Cache D) {c' : Cache D}
      → evict_down c ≡ returns c'
      → (0 < c.num_evict) × (c' ≡ record c { num_evict = c.num_evict - 1 })
  unfolding evict_down
  evict_down-inversion c e = ground arith

  -- An idle block made anew for another sector.
  pub init-IsTaken :
      (c : Cache D) (i sector : ℕ) (b : CacheBlock D)
      → IsBalanced c
      → 0 < c.num_evict
      → i < 64
      → is_idle (c.blocks i) ≡ true
      → (clock : ℕ) (dev : Device D) → clock < 64
      → IsTaken 0 i (record {
        blocks = set_block c.blocks i (init_block b sector);
        num_evict = c.num_evict - 1;
        clock = clock;
        device = dev;
      })
  unfolding init_block is_idle
  init-IsTaken c i sector b v pos h idle clock dev k = record {
    inside = h;
    evictable = ground (arith, idle_count-set 64 c.blocks i (init_block b sector) h, v.evictable);
    clock_in = k;
    shared = λ j p. elim (Bool-cases (i == j)) [
      | inl same ↦ rw same (omega arith)
      | inr other ↦ rw other (v.shared j p)
    ];
  }

  evict_at-IsTaken :
      (c : Cache D) (sector : ℕ) (r : Option (ℕ × ℕ)) {i : ℕ} {c' : Cache D}
      → IsBalanced c
      → 0 < c.num_evict
      → r ≡ evict_loop cache_limit c.blocks c.clock c.clock
      → evict_at (record c { num_evict = c.num_evict - 1 }) sector r ≡ returns (i, c')
      → IsTaken 0 i c'
  unfolding evict_at
  evict_at-IsTaken c sector none v pos l e = cc
  evict_at-IsTaken c sector (some (k, clock)) {i} {c'} v pos l e =
      let f : (k < 64) × (is_idle (c.blocks k) ≡ true) × (clock < 64) =
        evict_loop-idle 64 c.blocks c.clock c.clock (sym l) v.clock_in v.clock_in in
      let inv : (p : CacheBlock D × Device D) × (writeback (c.blocks k) c.device ≡ returns p) × _ =
        >>=-eq-returns (writeback (c.blocks k) c.device) _ e in
      subst (λ (p : ℕ × Cache D). IsTaken 0 p.0 p.1) (returns-injective inv.2)
        (init-IsTaken c k sector inv.0.0 v pos f.0 f.1 clock inv.0.1 f.2)

  evict-IsTaken :
      (c : Cache D) (sector : ℕ) {i : ℕ} {c' : Cache D}
      → IsBalanced c
      → evict c sector ≡ returns (i, c')
      → IsTaken 0 i c'
  unfolding evict
  evict-IsTaken c sector v e =
      let inv : (d : Cache D) × (evict_down c ≡ returns d) × _ =
        >>=-eq-returns (evict_down c) _ e in
      let down : (0 < c.num_evict) × (inv.0 ≡ record c { num_evict = c.num_evict - 1 }) =
        evict_down-inversion c inv.1 in
      evict_at-IsTaken c sector _ v down.0 refl (rw (← evict_at_down down.1) inv.2)
    where
      evict_at_down :
          {d : Cache D}
          → d ≡ record c { num_evict = c.num_evict - 1 }
          → evict_at d sector (evict_loop cache_limit d.blocks d.clock d.clock)
            ≡ evict_at
                (record c { num_evict = c.num_evict - 1 })
                sector
                (evict_loop cache_limit c.blocks c.clock c.clock)
      evict_at_down q =
          ap (λ (d : Cache D). evict_at d sector (evict_loop cache_limit d.blocks d.clock d.clock))
            q

  obtain_at-IsTaken :
      (c : Cache D) (sector : ℕ) (r : Option ℕ) {i : ℕ} {c' : Cache D}
      → IsBalanced c
      → Search c.blocks sector 0 64 r
      → obtain_at c sector r ≡ returns (i, c')
      → IsTaken 0 i c'
  unfolding obtain_at
  obtain_at-IsTaken c sector none v q e = evict-IsTaken c sector v e
  obtain_at-IsTaken c sector (some k) v (miss gone m) e = cc
  obtain_at-IsTaken c sector (some k) {i} {c'} v (hit l p q held m) e =
      elim (Bool-cases (is_idle (c.blocks k))) [
        | inl idle ↦
            let inv : (d : Cache D) × (evict_down c ≡ returns d) × _ =
              >>=-eq-returns (evict_down c) _ (rw idle at e) in
            let down : (0 < c.num_evict) × (inv.0 ≡ record c { num_evict = c.num_evict - 1 }) =
              evict_down-inversion c inv.1 in
            subst (λ (p : ℕ × Cache D). IsTaken 0 p.0 p.1)
              (ap (λ (d : Cache D). (k, d)) (sym down.1) ∙ returns-injective inv.2)
              (record {
                inside = ground arith;
                evictable = rw idle (omega (arith, v.evictable));
                clock_in = v.clock_in;
                shared = v.shared;
              })
        | inr used ↦
            subst (λ (p : ℕ × Cache D). IsTaken 0 p.0 p.1) (returns-injective (rw used at e))
              (record {
                inside = ground arith;
                evictable = rw used (omega (arith, v.evictable));
                clock_in = v.clock_in;
                shared = v.shared;
              })
      ]

  pub counted-IsAccounted :
      (t : ℕ) (c : Cache D) (i : ℕ)
      → IsTaken t i c
      → IsAccounted t (record c {
        blocks =
            set_block c.blocks i
              (record (c.blocks i) { pending_requests = (c.blocks i).pending_requests + 1 });
      })
  unfolding is_idle
  counted-IsAccounted t c i k = record {
    evictable = ground (
      arith,
      k.evictable,
      idle_count-set 64 c.blocks i
          (record (c.blocks i) { pending_requests = (c.blocks i).pending_requests + 1 }) k.inside,
    );
    clock_in = k.clock_in;
    shared = λ j p. elim (Bool-cases (i == j)) [
      | inl same ↦
          let s : IsShared (c.blocks i) = k.shared i k.inside in
          rw same (record { one_writer = s.one_writer; no_reader = s.no_reader })
      | inr other ↦ rw other (k.shared j p)
    ];
  }

  pub request-IsBalanced :
      {c c' : Cache D} (sector i : ℕ)
      → IsBalanced c
      → request c sector ≡ returns (i, c')
      → IsBalanced c' × (i < 64)
  unfolding request obtain_block
  request-IsBalanced {c} {c'} sector i v e =
      let inv : (p : ℕ × Cache D) × (obtain_block c sector ≡ returns p) × _ =
        >>=-eq-returns (obtain_block c sector) _ e in
      let t : IsTaken 0 inv.0.0 inv.0.1 =
        obtain_at-IsTaken c sector _ v (find_block-Search 64 0 c.blocks sector) inv.1 in
      subst (λ (p : ℕ × Cache D). IsBalanced p.1 × (p.0 < 64)) (returns-injective inv.2)
        (counted-IsAccounted 0 inv.0.1 inv.0.0 t, t.inside)
