-- ===== src/Cache/Balance/Runs.antt =====
-- What holds of the cache of src/filesys/cache.c after any steps of any threads.
use kernel_dev.Prelude.{
  ℕ, zero, suc, ◌+◌, ◌-◌, ◌≡◌, ◌<◌, true, some, refl, List, [], ◌∷◌, ◌++◌, sym, subst, arith,
}
use kernel_dev.Prelude.Outcome.{returns}
use kernel_dev.BlockDevice.{Device}
use kernel_dev.Cache.{
  Cache, CacheBlock, is_idle, cache_init, writeback, evict_loop, evict_down, cache_zero_block,
  cache_mark_block_dirty, cache_mark_deleted, write_data, set_block, cache_limit,
}
use kernel_dev.Cache.Threads.{
  Getter, getter_step, total, ticket, CacheSystem, Step, calls, proceeds, granted, put, read,
  zeroed, written, dirtied, removed, flushed, Reach, here, next,
}
use kernel_dev.Cache.Loops.{idle_count, idle_of_count, evict_loop-idle, evict_loop-total}
use kernel_dev.Cache.Balance.{IsShared, IsAccounted, IsBalanced, set-IsAccounted}
use kernel_dev.Cache.Balance.Access.{
  cache_put_block-IsAccounted, grant-IsAccounted, cache_read_block-IsAccounted,
  same_counts-IsAccounted,
}
use kernel_dev.Cache.Balance.Eviction.{writeback-block}
use kernel_dev.Cache.Balance.Getting.{misplaced, total-append, Kept, getter_step-Kept}

module _ {D : Type 0} where
  -- The accounts count the threads in `evict`, whose indices are in the cache.
  pub record IsRunning (y : CacheSystem D) : Type 0 where
    pub accounted : IsAccounted (total ticket y.getters) y.cache
    pub placed : total misplaced y.getters ≡ 0

  proceeds-IsRunning :
      (y : CacheSystem D) (before : List Getter) (g : Getter) (after : List Getter) {g' : Getter}
      {c' : Cache D}
      → IsRunning y
      → y.getters ≡ before ++ (g ∷ after)
      → getter_step y.cache g ≡ returns (g', c')
      → IsRunning (record { cache = c'; getters = before ++ (g' ∷ after) })
  proceeds-IsRunning y before g after {g'} {c'} v q e =
      let others = total ticket before + total ticket after in
      let placed : total misplaced (before ++ (g ∷ after)) ≡ 0 = rw (← q) v.placed in
      let before_step : total ticket (before ++ (g ∷ after)) ≡ others + ticket g =
        omega (arith, total-append ticket before g after) in
      let k : Kept others g' c' =
        getter_step-Kept others g
          (subst (λ (n : ℕ). IsAccounted n y.cache) before_step (rw (← q) v.accounted))
          (omega (arith, placed, total-append misplaced before g after)) e in
      record {
        accounted =
            subst (λ (n : ℕ). IsAccounted n c') (omega (arith, total-append ticket before g' after))
              k.accounted;
        placed = omega (
          arith,
          placed,
          total-append misplaced before g after,
          total-append misplaced before g' after,
          k.placed,
        );
      }

  flushed-IsRunning :
      (y : CacheSystem D) (i : ℕ) {b : CacheBlock D} {dev : Device D}
      → IsRunning y
      → i < 64
      → writeback (y.cache.blocks i) y.cache.device ≡ returns (b, dev)
      → IsRunning (record y {
        cache = record y.cache { blocks = set_block y.cache.blocks i b; device = dev };
      })
  flushed-IsRunning y i {b} {dev} v h e =
      let w = writeback-block (y.cache.blocks i) y.cache.device e in
      let s : IsShared (y.cache.blocks i) = v.accounted.shared i h in
      let a = v.accounted in
      record {
        accounted =
            set-IsAccounted y.cache i y.cache.num_evict b a h (rw w.0 refl)
              (record {
                one_writer = omega (arith, w.2, s.one_writer);
                no_reader = λ x. omega (arith, w.1, w.2, s.no_reader);
              })
              y.cache.clock dev a.clock_in;
        placed = v.placed;
      }

  -- Every step of a thread keeps the accounts of the cache.
  pub Step-IsRunning : {y y' : CacheSystem D} → Step y y' → IsRunning y → IsRunning y'
  unfolding cache_zero_block write_data cache_mark_block_dirty cache_mark_deleted is_idle total
  Step-IsRunning {y} (calls sector) v = record {
    accounted = subst (λ (n : ℕ). IsAccounted n y.cache) (omega arith) v.accounted;
    placed = omega (arith, v.placed);
  }
  Step-IsRunning {y} (proceeds before g after q e) v = proceeds-IsRunning y before g after v q e
  Step-IsRunning (granted i sector exclusive h e) v = record {
    accounted = grant-IsAccounted i sector exclusive v.accounted h e;
    placed = v.placed;
  }
  Step-IsRunning (put i h e) v = record {
    accounted = cache_put_block-IsAccounted i v.accounted h e;
    placed = v.placed;
  }
  Step-IsRunning (read i d h e) v = record {
    accounted = cache_read_block-IsAccounted i d v.accounted h e;
    placed = v.placed;
  }
  Step-IsRunning {y} (zeroed i zeros h) v = record {
    accounted = same_counts-IsAccounted y.cache i _ v.accounted h refl refl refl;
    placed = v.placed;
  }
  Step-IsRunning {y} (written i f h) v = record {
    accounted = same_counts-IsAccounted y.cache i _ v.accounted h refl refl refl;
    placed = v.placed;
  }
  Step-IsRunning {y} (dirtied i h) v = record {
    accounted = same_counts-IsAccounted y.cache i _ v.accounted h refl refl refl;
    placed = v.placed;
  }
  Step-IsRunning {y} (removed i h) v = record {
    accounted = same_counts-IsAccounted y.cache i _ v.accounted h refl refl refl;
    placed = v.placed;
  }
  Step-IsRunning {y} (flushed i h e) v = flushed-IsRunning y i v h e

  Reach-IsRunning : {y y' : CacheSystem D} → Reach y y' → IsRunning y → IsRunning y'
  Reach-IsRunning here v = v
  Reach-IsRunning (next r s) v = Step-IsRunning s (Reach-IsRunning r v)

  idle_count-init :
      (n : ℕ) (storage : ℕ → CacheBlock D) (dev : Device D)
      → idle_count (cache_init storage dev).blocks n ≡ n
  unfolding idle_count cache_init is_idle
  idle_count-init zero storage dev = refl
  idle_count-init (suc n) storage dev = ground (arith, idle_count-init n storage dev)

  pub cache_init-IsBalanced :
      (storage : ℕ → CacheBlock D) (dev : Device D) → IsBalanced (cache_init storage dev)
  unfolding cache_init
  cache_init-IsBalanced storage dev = record {
    evictable = sym (unfold cache_init in idle_count-init 64 storage dev);
    clock_in = omega arith;
    shared = λ i p. record { one_writer = omega arith; no_reader = λ w. refl };
  }

  -- `cache_init`, with no thread in `cache_get_block` yet.
  abbrev pub started : (ℕ → CacheBlock D) → Device D → CacheSystem D
  started storage dev = record { cache = cache_init storage dev; getters = [] }

  reached_lem :
      (storage : ℕ → CacheBlock D) (dev : Device D) {y : CacheSystem D}
      → Reach (started storage dev) y
      → IsRunning y
  unfolding total
  reached_lem storage dev r =
      Reach-IsRunning r (record { accounted = cache_init-IsBalanced storage dev; placed = refl })

  -- Whatever the threads do after `cache_init`, in any interleaving of the parts of their calls, a block
  -- that somebody writes has one writer and no reader, and the number of blocks that nobody uses or waits
  -- for is the semaphore `num_evict` plus the number of threads in `evict` that have lowered it and have no
  -- block yet.
  pub cache-IsShared :
      (storage : ℕ → CacheBlock D) (dev : Device D) {y : CacheSystem D}
      → Reach (started storage dev) y
      → (y.cache.num_evict + total ticket y.getters ≡ idle_count y.cache.blocks 64)
        × ((i : ℕ) → i < 64 → IsShared (y.cache.blocks i))
  cache-IsShared storage dev r =
      let v = (reached_lem storage dev r).accounted in (v.evictable, v.shared)

  pub evict_down_lem :
      (c : Cache D)
      → 0 < c.num_evict
      → evict_down c ≡ returns (record c { num_evict = c.num_evict - 1 })
  unfolding evict_down
  evict_down_lem c h = ground arith

  -- While a block is idle the search of `evict` stops: it returns an idle block of the cache.
  pub evict_loop-finds :
      (c : Cache D)
      → IsBalanced c
      → 0 < c.num_evict
      → (k : ℕ) × (clock : ℕ) × (evict_loop cache_limit c.blocks c.clock c.clock ≡ some (k, clock))
        × (k < 64)
        × (is_idle (c.blocks k) ≡ true)
  evict_loop-finds c v h =
      let idle : (j : ℕ) × (j < 64) × (is_idle (c.blocks j) ≡ true) =
        idle_of_count 64 c.blocks (omega (arith, v.evictable)) in
      let stop : (k : ℕ) × (clock : ℕ) × (evict_loop cache_limit c.blocks c.clock c.clock
            ≡ some (k, clock)) =
        evict_loop-total 64 c.blocks c.clock c.clock idle.0 v.clock_in idle.1 idle.2
          (omega arith) in
      let f : (stop.0 < 64) × (is_idle (c.blocks stop.0) ≡ true) × (stop.1 < 64) =
        evict_loop-idle 64 c.blocks c.clock c.clock stop.2 v.clock_in v.clock_in in
      (stop.0, stop.1, stop.2, f.0, f.1)
