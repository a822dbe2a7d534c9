-- ===== src/Cache/Coherence/Requests.antt =====
-- A request for a sector that nobody uses gets a block for it, and hides no contents of the disk.
use kernel_dev.Prelude.{
  ℕ, ◌+◌, ◌-◌, ◌≡◌, ◌<◌, true, false, Option, refl, sym, ◌∙◌, ap, arith, ◌==◌, Bool-cases, inl, inr,
  ==→eq, ==-refl, true-ne-false,
}
use kernel_dev.Prelude.Outcome.{Outcome, returns}
use kernel_dev.Cache.{
  Cache, CacheBlock, is_idle, holds, find_block, set_block, obtain_at, obtain_block, request,
}
use kernel_dev.Cache.Loops.{Search, hit, miss, find_block-Search}
use kernel_dev.Cache.Balance.{IsBalanced}
use kernel_dev.Cache.Balance.Eviction.{request-IsBalanced}
use kernel_dev.Cache.Balance.Runs.{evict_down_lem}
use kernel_dev.Cache.Coherence.{IsCoherent, holds-inversion}
use kernel_dev.Cache.Coherence.Changes.{SameData, counts-IsCoherent, counts-Holds}
use kernel_dev.Cache.Coherence.Eviction.{Keeps, Keeps-trans, IsReserved, Obtains, evict-Obtains}

module _ {D : Type 0} where
  obtain_at-Obtains :
      (c : Cache D) (s : ℕ) (r : Option ℕ)
      → IsBalanced c
      → IsCoherent c.blocks c.device
      → 0 < c.num_evict
      → ((j : ℕ) → j < 64 → holds (c.blocks j) s ≡ true → is_idle (c.blocks j) ≡ true)
      → Search c.blocks s 0 64 r
      → Obtains c s (obtain_at c s r)
  unfolding obtain_at
  obtain_at-Obtains c s r v co pos free (miss gone m) =
      rw m (evict-Obtains c s v co pos (λ j h. gone j (omega arith) h))
  obtain_at-Obtains c s r v co pos free (hit k p q held m) =
      let inside : k < 64 = omega arith in
      let held_here = holds-inversion (c.blocks k) s held in
      rw m (
        k,
        record c { num_evict = c.num_evict - 1 },
        rw (free k inside held) (rw (evict_down_lem c pos) refl),
        record {
          inside = inside;
          keeps = record { coherent = co; contents = λ t d x. x; size = refl };
          for_sector = held_here.1;
          fresh = λ gone. absurd (true-ne-false (sym held ∙ gone k inside));
          was_idle = free k inside held;
          idle = free k inside held;
          alone = λ j h w e. co.unique j k h inside w held_here.0 (e ∙ sym held_here.1);
          others = λ j used. refl;
        },
      )

  -- What a request for a sector that nobody uses did.
  pub record Requested (c : Cache D) (s : ℕ) (r : Outcome (ℕ × Cache D)) : Type 0 where
    pub index : ℕ
    pub after : Cache D
    pub returned : r ≡ returns (index, after)
    pub inside : index < 64
    pub balanced : IsBalanced after
    pub keeps : Keeps c.blocks c.device after.blocks after.device
    pub for_sector : (after.blocks index).bs_id ≡ s
    pub fresh :
        ((j : ℕ) → j < 64 → holds (c.blocks j) s ≡ false) → (after.blocks index).valid ≡ false
    pub was_idle : is_idle (c.blocks index) ≡ true
    pub no_reader : (after.blocks index).num_readers ≡ 0
    pub no_writer : (after.blocks index).num_writers ≡ 0
    pub one_request : (after.blocks index).pending_requests ≡ 1
    pub alone :
        (j : ℕ) → j < 64 → (after.blocks j).valid ≡ true → (after.blocks j).bs_id ≡ s → j ≡ index
    pub others : (j : ℕ) → is_idle (c.blocks j) ≡ false → after.blocks j ≡ c.blocks j

  is_idle-inversion :
      (b : CacheBlock D)
      → is_idle b ≡ true
      → (b.num_readers ≡ 0) × (b.num_writers ≡ 0) × (b.pending_requests ≡ 0)
  unfolding is_idle
  is_idle-inversion b h = ground arith

  -- The cache once the request for block `i` is counted.
  abbrev counted : Cache D → ℕ → Cache D
  counted d i = record d {
    blocks =
        set_block d.blocks i
          (record (d.blocks i) { pending_requests = (d.blocks i).pending_requests + 1 });
  }

  counted-SameData : (b : CacheBlock D) (n : ℕ) → SameData (record b { pending_requests = n }) b
  counted-SameData b n = record {
    same_id = refl;
    same_dirty = refl;
    same_valid = refl;
    same_deleted = refl;
    same_contents = refl;
  }

  reserved-Requested :
      (c : Cache D) (s i : ℕ) (d : Cache D)
      → IsReserved c s i d
      → IsBalanced (counted d i)
      → Requested c s (returns (i, counted d i))
  reserved-Requested c s i d z v =
      let same = counted-SameData (d.blocks i) ((d.blocks i).pending_requests + 1) in
      let unused = is_idle-inversion (d.blocks i) z.idle in
      record {
        index = i;
        after = counted d i;
        returned = refl;
        inside = z.inside;
        balanced = v;
        keeps = Keeps-trans z.keeps (record {
          coherent = counts-IsCoherent d.blocks d.device i z.inside _ same z.keeps.coherent;
          contents = λ t x h. counts-Holds d.blocks d.device i z.inside _ same h;
          size = refl;
        });
        for_sector = rw (==-refl i) z.for_sector;
        fresh = λ gone. rw (==-refl i) (z.fresh gone);
        was_idle = z.was_idle;
        no_reader = rw (==-refl i) unused.0;
        no_writer = rw (==-refl i) unused.1;
        one_request = rw (==-refl i) (omega (arith, unused.2));
        alone = λ j p w e. elim (Bool-cases (i == j)) [
          | inl this ↦ sym (==→eq i j this)
          | inr other ↦ z.alone j p (rw other at w) (rw other at e)
        ];
        others = λ j used. elim (Bool-cases (i == j)) [
          | inl this ↦ absurd (
              true-ne-false (
                sym z.idle
                ∙ ap (λ n. is_idle (d.blocks n)) (==→eq i j this)
                ∙ ap is_idle (z.others j used)
                ∙ used))
          | inr other ↦ rw other (z.others j used)
        ];
      }

  -- A request for a sector that nobody uses, made while some block is idle, returns a block for
  -- that sector with this request alone; what the cache shows of every sector is as before, and
  -- the blocks in use are left alone.
  pub request-Requested :
      (c : Cache D) (s : ℕ)
      → IsBalanced c
      → IsCoherent c.blocks c.device
      → 0 < c.num_evict
      → ((j : ℕ) → j < 64 → holds (c.blocks j) s ≡ true → is_idle (c.blocks j) ≡ true)
      → Requested c s (request c s)
  unfolding request obtain_block
  request-Requested c s v co pos free =
      let o : Obtains c s (obtain_block c s) =
        obtain_at-Obtains c s (find_block c.blocks s 0 64) v co pos free
          (find_block-Search 64 0 c.blocks s) in
      let ret : request c s ≡ returns (o.0, counted o.1 o.0) = rw o.2 in
      rw o.2 (reserved-Requested c s o.0 o.1 o.3 (request-IsBalanced s o.0 v ret).0)
