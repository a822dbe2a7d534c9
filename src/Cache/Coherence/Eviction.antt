-- ===== src/Cache/Coherence/Eviction.antt =====
-- Writing a block back and making it anew for another sector hides no contents of the disk.
use mathlib.Core.Path.{fun_ext}
use kernel_dev.Prelude.{
  ℕ, ◌+◌, ◌-◌, ◌≡◌, ◌<◌, true, false, some, refl, sym, ◌∙◌, ap, arith, ◌==◌, if◌then◌else◌,
  Bool-cases, inl, inr, ==→eq, ltb, lt→ltb, ==-refl, true-ne-false,
}
use kernel_dev.Prelude.Outcome.{Outcome, returns}
use kernel_dev.BlockDevice.{Device, block_write}
use kernel_dev.Cache.{
  Cache, CacheBlock, is_idle, holds, set_block, writeback, init_block, evict_at, evict, evict_loop,
  cache_limit,
}
use kernel_dev.Cache.Balance.{IsBalanced}
use kernel_dev.Cache.Balance.Runs.{evict_down_lem, evict_loop-finds}
use kernel_dev.Cache.Coherence.{IsCoherent, Holds, not_holds}
use kernel_dev.Cache.Coherence.Changes.{
  SameData, IsFilled, counts-IsCoherent, counts-Holds, drop-IsCoherent, drop-Holds,
  store-IsCoherent, store-Holds,
}

module _ {D : Type 0} where
  -- The contents are kept from one state of blocks and device to another.
  pub record Keeps (blocks : ℕ → CacheBlock D) (dev : Device D) (blocks' : ℕ → CacheBlock D)
      (dev' : Device D) : Type 0 where
    pub coherent : IsCoherent blocks' dev'
    pub contents : (t : ℕ) (d : D) → Holds blocks dev t d → Holds blocks' dev' t d
    pub size : dev'.size ≡ dev.size

  pub record WroteBack (blocks : ℕ → CacheBlock D) (dev : Device D) (k : ℕ)
      (r : Outcome (CacheBlock D × Device D)) : Type 0 where
    pub block : CacheBlock D
    pub device : Device D
    pub returned : r ≡ returns (block, device)
    pub keeps : Keeps blocks dev (set_block blocks k block) device
    pub now_clean : block.dirty ≡ false

  -- `writeback` does not panic, and leaves a clean block without a change of the contents.
  pub writeback-WroteBack :
      (blocks : ℕ → CacheBlock D) (dev : Device D) (k : ℕ)
      → k < 64
      → IsCoherent blocks dev
      → WroteBack blocks dev k (writeback (blocks k) dev)
  unfolding writeback block_write
  writeback-WroteBack blocks dev k h co = elim (Bool-cases (blocks k).dirty) [
    | inl dirty ↦
        let valid : (blocks k).valid ≡ true = co.dirty_valid k h dirty in
        let kept : (blocks k).deleted ≡ false = co.kept k h in
        let fits : ltb (blocks k).bs_id dev.size ≡ true = lt→ltb _ _ (co.in_device k h valid) in
        let b : CacheBlock D = record (blocks k) { dirty = false } in
        let dev' : Device D = record dev {
          sectors = λ t. if (blocks k).bs_id == t then (blocks k).contents else dev.sectors t;
          write_cnt = dev.write_cnt + 1;
        } in
        let filled : IsFilled b (blocks k).bs_id (blocks k).contents = record {
          for_sector = refl;
          is_valid = valid;
          not_deleted = kept;
          data_is = refl;
        } in
        record {
          block = b;
          device = dev';
          returned = rw (dirty, valid, kept, fits);
          keeps = record {
            coherent = store-IsCoherent blocks dev k h b filled valid dev' refl (λ t. refl) co;
            contents = λ t d x. store-Holds blocks dev k h b filled valid dev' refl (λ t. refl) x;
            size = refl;
          };
          now_clean = refl;
        }
    | inr tidy ↦
        let same : SameData (blocks k) (blocks k) = record {
          same_id = refl;
          same_dirty = refl;
          same_valid = refl;
          same_deleted = refl;
          same_contents = refl;
        } in
        record {
          block = blocks k;
          device = dev;
          returned = ground arith;
          keeps = record {
            coherent = counts-IsCoherent blocks dev k h (blocks k) same co;
            contents = λ t d x. counts-Holds blocks dev k h (blocks k) same x;
            size = refl;
          };
          now_clean = tidy;
        }
  ]

  -- Block `i` of `c'` is reserved for sector `s`, and `c'` has the contents of `c`.
  pub record IsReserved (c : Cache D) (s i : ℕ) (c' : Cache D) : Type 0 where
    pub inside : i < 64
    pub keeps : Keeps c.blocks c.device c'.blocks c'.device
    pub for_sector : (c'.blocks i).bs_id ≡ s
    pub fresh : ((j : ℕ) → j < 64 → holds (c.blocks j) s ≡ false) → (c'.blocks i).valid ≡ false
    pub was_idle : is_idle (c.blocks i) ≡ true
    pub idle : is_idle (c'.blocks i) ≡ true
    pub alone : (j : ℕ) → j < 64 → (c'.blocks j).valid ≡ true → (c'.blocks j).bs_id ≡ s → j ≡ i
    pub others : (j : ℕ) → is_idle (c.blocks j) ≡ false → c'.blocks j ≡ c.blocks j

  abbrev pub Obtains : Cache D → ℕ → Outcome (ℕ × Cache D) → Type 0
  Obtains c s r = (i : ℕ) × (c' : Cache D) × (r ≡ returns (i, c')) × IsReserved c s i c'

  set_block-set_block :
      (f : ℕ → CacheBlock D) (i : ℕ) (a b : CacheBlock D)
      → set_block (set_block f i a) i b ≡ set_block f i b
  set_block-set_block f i a b = fun_ext λ j. ground arith

  pub Keeps-trans :
      {a b c : ℕ → CacheBlock D} {x y z : Device D} → Keeps a x b y → Keeps b y c z → Keeps a x c z
  Keeps-trans k l = record {
    coherent = l.coherent;
    contents = λ t d h. l.contents t d (k.contents t d h);
    size = l.size ∙ k.size;
  }

  -- The block that `evict` found is written back and made anew.
  anew-Keeps :
      (blocks : ℕ → CacheBlock D) (dev : Device D) (k s : ℕ)
      → k < 64
      → (w : WroteBack blocks dev k (writeback (blocks k) dev))
      → Keeps blocks dev (set_block blocks k (init_block w.block s)) w.device
  unfolding init_block
  anew-Keeps blocks dev k s h w =
      let mid : ℕ → CacheBlock D = set_block blocks k w.block in
      let here : mid k ≡ w.block = rw (==-refl k) in
      rw (← set_block-set_block blocks k w.block (init_block w.block s)) (
        Keeps-trans w.keeps (record {
          coherent =
              drop-IsCoherent mid w.device k h (init_block w.block s) refl refl refl
                w.keeps.coherent;
          contents = λ t d x.
              drop-Holds mid w.device k h (init_block w.block s) refl refl refl
                (λ v.
                  w.keeps.coherent.clean k h v
                    (ap (λ (b : CacheBlock D). b.dirty) here ∙ w.now_clean))
                w.keeps.coherent x;
          size = refl;
        }))

  anew-IsReserved :
      (c : Cache D) (k s n clock : ℕ)
      → k < 64
      → is_idle (c.blocks k) ≡ true
      → ((j : ℕ) → j < 64 → holds (c.blocks j) s ≡ false)
      → (w : WroteBack c.blocks c.device k (writeback (c.blocks k) c.device))
      → IsReserved c s k (record {
        blocks = set_block c.blocks k (init_block w.block s);
        num_evict = n;
        clock = clock;
        device = w.device;
      })
  unfolding init_block is_idle
  anew-IsReserved c k s n clock h idle gone w = record {
    inside = h;
    keeps = anew-Keeps c.blocks c.device k s h w;
    for_sector = rw (==-refl k);
    fresh = λ _. rw (==-refl k);
    was_idle = idle;
    idle = rw (==-refl k);
    alone = λ j p v e. elim (Bool-cases (k == j)) [
      | inl same ↦ sym (==→eq k j same)
      | inr other ↦ absurd (not_holds (c.blocks j) s (gone j p) (rw other at v) (rw other at e))
    ];
    others = λ j used. elim (Bool-cases (k == j)) [
      | inl same ↦ absurd (true-ne-false (sym idle ∙ rw (==→eq k j same) used))
      | inr other ↦ rw other
    ];
  }

  pub evict-Obtains :
      (c : Cache D) (s : ℕ)
      → IsBalanced c
      → IsCoherent c.blocks c.device
      → 0 < c.num_evict
      → ((j : ℕ) → j < 64 → holds (c.blocks j) s ≡ false)
      → Obtains c s (evict c s)
  unfolding evict evict_at
  evict-Obtains c s v co pos gone =
      let f : (k : ℕ) × (clock : ℕ) × (evict_loop cache_limit c.blocks c.clock c.clock
            ≡ some (k, clock))
          × (k < 64)
          × (is_idle (c.blocks k) ≡ true) =
        evict_loop-finds c v pos in
      let w : WroteBack c.blocks c.device f.0 (writeback (c.blocks f.0) c.device) =
        writeback-WroteBack c.blocks c.device f.0 f.3 co in
      (
        f.0,
        record {
          blocks = set_block c.blocks f.0 (init_block w.block s);
          num_evict = c.num_evict - 1;
          clock = f.1;
          device = w.device;
        },
        rw (evict_down_lem c pos) (rw f.2 (rw w.returned refl)),
        anew-IsReserved c f.0 s (c.num_evict - 1) f.1 f.3 f.4 gone w,
      )
