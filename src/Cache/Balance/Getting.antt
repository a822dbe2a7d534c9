-- ===== src/Cache/Balance/Getting.antt =====
-- The accounts of the cache under each part of `cache_get_block` of src/filesys/cache.c.
use kernel_dev.Prelude.{
  ℕ, ◌+◌, ◌-◌, ◌≡◌, ◌<◌, true, refl, sym, subst, arith, List, [], ◌∷◌, ◌++◌, ◌==◌, ltb,
  if◌then◌else◌, Bool-cases, inl, inr,
}
use kernel_dev.Prelude.Outcome.{Outcome, returns-injective, >>=-eq-returns, returns}
use kernel_dev.BlockDevice.{Device}
use kernel_dev.Cache.{
  Cache, CacheBlock, is_idle, holds, init_block, writeback, evict_down, set_block, cache_limit,
}
use kernel_dev.Cache.Loops.{idle_count-set}
use kernel_dev.Cache.Threads.{
  Getter, scans, downs, starts, searches, moves, obtained, count_request, scan_step, search_step,
  getter_step, total, ticket,
}
use kernel_dev.Cache.Balance.{IsAccounted}
use kernel_dev.Cache.Balance.Eviction.{IsTaken, counted-IsAccounted, evict_down-inversion}

-- 1 for a thread whose index is out of the cache.
abbrev pub misplaced : Getter → ℕ
misplaced (searches sector i) = if ltb i 64 then 0 else 1
misplaced _ = 0

pub total-append :
    (f : Getter → ℕ) (before : List Getter) (g : Getter) (after : List Getter)
    → total f (before ++ (g ∷ after)) ≡ total f before + (f g + total f after)
unfolding total
total-append f [] g after = omega arith
total-append f (h ∷ before) g after = omega (arith, total-append f before g after)

module _ {D : Type 0} where
  -- What a part of the call leaves: `t` other threads have lowered the semaphore.
  pub record Kept (t : ℕ) (g : Getter) (c : Cache D) : Type 0 where
    pub accounted : IsAccounted (t + ticket g) c
    pub placed : misplaced g ≡ 0

  pair_lem :
      {t : ℕ} {g g' : Getter} {c c' : Cache D}
      → ◌≡◌ {A = Outcome (Getter × Cache D)} (returns (g, c)) (returns (g', c'))
      → Kept t g c
      → Kept t g' c'
  pair_lem {t} e k = subst (λ (p : Getter × Cache D). Kept t p.0 p.1) (returns-injective e) k

  counted_lem :
      (t sector i : ℕ) (c : Cache D)
      → IsTaken t i c
      → Kept t (obtained sector i) (count_request c i)
  counted_lem t sector i c k = record {
    accounted =
        subst (λ (n : ℕ). IsAccounted n (count_request c i)) (omega arith)
          (counted-IsAccounted t c i k);
    placed = refl;
  }

  scan_step-Kept :
      (t sector i : ℕ) {g' : Getter} {c c' : Cache D}
      → IsAccounted (t + 0) c
      → scan_step c sector i ≡ returns (g', c')
      → Kept t g' c'
  unfolding scan_step
  scan_step-Kept t sector i {g'} {c} {c'} v e = elim (Bool-cases (ltb i cache_limit)) [
    | inl inside ↦ elim (Bool-cases (holds (c.blocks i) sector)) [
      | inl held ↦ elim (Bool-cases (is_idle (c.blocks i))) [
        | inl idle ↦
            let inv : (d : Cache D) × (evict_down c ≡ returns d) × _ =
              >>=-eq-returns (evict_down c) _ (rw (inside, held, idle) at e) in
            let down : (0 < c.num_evict) × (inv.0 ≡ record c { num_evict = c.num_evict - 1 }) =
              evict_down-inversion c inv.1 in
            pair_lem inv.2 (
              subst (λ (d : Cache D). Kept t (obtained sector i) (count_request d i)) (sym down.1)
                (counted_lem t sector i (record c { num_evict = c.num_evict - 1 })
                  (record {
                    inside = ground (arith, inside);
                    evictable = rw idle (omega (arith, v.evictable, down.0));
                    clock_in = v.clock_in;
                    shared = v.shared;
                  })))
        | inr used ↦ pair_lem (rw (inside, held, used) at e) (
            counted_lem t sector i c (record {
              inside = ground (arith, inside);
              evictable = rw used (omega (arith, v.evictable));
              clock_in = v.clock_in;
              shared = v.shared;
            }))
      ]
      | inr other ↦ pair_lem (rw (inside, other) at e) (record { accounted = v; placed = refl })
    ]
    | inr past ↦ pair_lem (rw past at e) (record { accounted = v; placed = refl })
  ]

  -- An idle block that a thread of `evict` makes anew.
  taken_lem :
      (t i sector : ℕ) (b : CacheBlock D) (c : Cache D) (dev : Device D)
      → IsAccounted (t + 1) c
      → i < 64
      → is_idle (c.blocks i) ≡ true
      → IsTaken t i (record c { blocks = set_block c.blocks i (init_block b sector); device = dev })
  unfolding init_block is_idle
  taken_lem t i sector b c dev v h idle = record {
    inside = h;
    evictable = ground (arith, idle_count-set 64 c.blocks i (init_block b sector) h, v.evictable);
    clock_in = v.clock_in;
    shared = λ j p. elim (Bool-cases (i == j)) [
      | inl same ↦ rw same (omega arith)
      | inr other ↦ rw other (v.shared j p)
    ];
  }

  search_step-Kept :
      (t sector i : ℕ) {g' : Getter} {c c' : Cache D}
      → IsAccounted (t + 1) c
      → i < 64
      → search_step c sector i ≡ returns (g', c')
      → Kept t g' c'
  unfolding search_step
  search_step-Kept t sector i {g'} {c} {c'} v h e = elim (Bool-cases (is_idle (c.blocks i))) [
    | inl idle ↦
        let inv : (p : CacheBlock D × Device D) × (writeback (c.blocks i) c.device ≡ returns p)
            × _ =
          >>=-eq-returns (writeback (c.blocks i) c.device) _ (rw idle at e) in
        pair_lem inv.2 (
          counted_lem t sector i
            (record c {
              blocks = set_block c.blocks i (init_block inv.0.0 sector);
              device = inv.0.1;
            })
            (taken_lem t i sector inv.0.0 c inv.0.1 v h idle))
    | inr used ↦ pair_lem (rw used at e) (record {
      accounted = record { evictable = v.evictable; clock_in = h; shared = v.shared };
      placed = refl;
    })
  ]

  -- Each part of the call keeps the accounts.
  pub getter_step-Kept :
      (t : ℕ) (g : Getter) {g' : Getter} {c c' : Cache D}
      → IsAccounted (t + ticket g) c
      → misplaced g ≡ 0
      → getter_step c g ≡ returns (g', c')
      → Kept t g' c'
  unfolding getter_step
  getter_step-Kept t (scans sector i) v m e = scan_step-Kept t sector i v e
  getter_step-Kept t (downs sector) {g'} {c} {c'} v m e =
      let inv : (d : Cache D) × (evict_down c ≡ returns d) × _ =
        >>=-eq-returns (evict_down c) _ e in
      let down : (0 < c.num_evict) × (inv.0 ≡ record c { num_evict = c.num_evict - 1 }) =
        evict_down-inversion c inv.1 in
      pair_lem inv.2 (
        subst (λ (d : Cache D). Kept t (starts sector) d) (sym down.1)
          (record {
            accounted = record {
              evictable = omega (arith, v.evictable, down.0);
              clock_in = v.clock_in;
              shared = v.shared;
            };
            placed = refl;
          }))
  getter_step-Kept t (starts sector) v m e =
      pair_lem e (record { accounted = v; placed = ground (arith, v.clock_in) })
  getter_step-Kept t (searches sector i) v m e = search_step-Kept t sector i v (ground arith) e
  getter_step-Kept t (moves sector) v m e =
      pair_lem e (record { accounted = v; placed = ground arith })
  getter_step-Kept t (obtained sector i) v m e = cc
