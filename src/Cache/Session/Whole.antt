-- ===== src/Cache/Session/Whole.antt =====
-- Whole uses of a block: the cache is a store of sectors to a thread that uses one at a time.
use mathlib.Core.Path.{fun_ext}
use kernel_dev.Prelude.{
  ℕ, ◌≡◌, ◌<◌, Bool, true, false, refl, ◌∙◌, ap, arith, ◌==◌, if◌then◌else◌, Bool-cases, inl, inr,
  ==→eq, ==-refl, true-ne-false,
}
use kernel_dev.Prelude.Outcome.{returns}
use kernel_dev.Cache.{
  Cache, CacheBlock, is_idle, set_block, cache_get_block, cache_read_block, cache_zero_block,
  cache_mark_block_dirty, write_data,
}
use kernel_dev.Cache.Balance.Access.{same_counts-IsAccounted}
use kernel_dev.Cache.Coherence.{Holds, cached, Holds-unique, view, view-Holds, view-eq}
use kernel_dev.Cache.Session.{IsFree, IsOwned, unchanged, load, modify, fill}
use kernel_dev.Cache.Session.Own.{
  readers_of, writers_of, Gets, cache_get_block-Gets, IsDone, cache_put_block-IsDone,
}
use kernel_dev.Cache.Session.Access.{
  HasData, with_block, filled-IsOwned, Reads, cache_read_block-Reads,
}

module _ {D : Type 0} where
  -- The contents of the disk with sector `s` replaced.
  abbrev pub replaced : ℕ → (D → D) → ℕ → D → D
  replaced s f t d = if s == t then f d else d

  -- What the owner read is what the cache showed.
  read_is_view :
      (c : Cache D) (s i readers writers : ℕ) {c' : Cache D} {d : D}
      → IsOwned c unchanged s i readers writers c'
      → HasData c' i d
      → (x : D) → Holds c.blocks c.device s x
      → d ≡ x
  read_is_view c s i readers writers o h x held =
      Holds-unique o.coherent (cached i o.inside h.valid o.for_sector h.data_is) (o.shows s x held)

  -- With no other thread in the cache meanwhile, the accounts of its semaphore and sharing in
  -- order, some block that nobody uses or waits for, the blocks and the device in agreement, no
  -- block marked as deleted, and a sector of the device that nobody uses or waits for: a thread
  -- that loads the sector neither sleeps nor panics; it gets the contents that the cache shows
  -- for it, and every sector is shown as before.
  pub load_lem :
      (c : Cache D) (s : ℕ)
      → IsFree c s
      → s < c.device.size
      → (c' : Cache D) × (load c s ≡ returns (view c s, c')) × IsDone c unchanged s c'
  unfolding load
  load_lem c s free known =
      let g : Gets c s false (cache_get_block c s false) = cache_get_block-Gets c s false free in
      let r : Reads s g.0 1 0 g.4 g.3 known (cache_read_block g.1 g.0) =
        cache_read_block-Reads s g.0 1 0 g.4 g.3 known in
      let p = cache_put_block-IsDone s g.0 false r.3 g.3 in
      let e : r.0 ≡ view c s = read_is_view c s g.0 1 0 r.3 r.4 (view c s) (view-Holds c s) in
      (_, rw g.2 (rw r.2 (rw p.0 (rw e))), p.1)

  set_block-set_block :
      (f : ℕ → CacheBlock D) (i : ℕ) (a b : CacheBlock D)
      → set_block (set_block f i a) i b ≡ set_block f i b
  set_block-set_block f i a b = fun_ext λ j. ground arith

  set_block-get : (f : ℕ → CacheBlock D) (i : ℕ) (a : CacheBlock D) → set_block f i a i ≡ a
  set_block-get f i a = rw (==-refl i)

  -- The owner's block after a change of its data that is marked.
  abbrev changed : CacheBlock D → (D → D) → CacheBlock D
  changed b f = record b { contents = f b.contents; dirty = true }

  change_and_mark :
      (c : Cache D) (i : ℕ) (f : D → D)
      → cache_mark_block_dirty (write_data c i f) i
        ≡ with_block c i (changed (c.blocks i) f) c.device.read_cnt
  unfolding cache_mark_block_dirty write_data
  change_and_mark c i f =
      ap (λ (blocks : ℕ → CacheBlock D). record c { blocks = blocks })
        (ap
            (λ (b : CacheBlock D).
              set_block (set_block c.blocks i written) i (record b { dirty = true }))
            (set_block-get c.blocks i written)
          ∙ set_block-set_block c.blocks i written (changed (c.blocks i) f))
    where
      written : CacheBlock D
      written = record (c.blocks i) { contents = f (c.blocks i).contents }

  -- The data of its block changed and marked by the owner.
  changed-IsOwned :
      (c : Cache D) (change change' : ℕ → D → D) (s i readers writers : ℕ) {c' : Cache D} {d : D}
      (f : D → D)
      → IsOwned c change s i readers writers c'
      → is_idle (c.blocks i) ≡ true
      → s < c.device.size
      → HasData c' i d
      → ((t : ℕ) (x : D)
          → Holds c.blocks c.device t x
          → (if s == t then f d else change t x) ≡ change' t x)
      → IsOwned c change' s i readers writers (cache_mark_block_dirty (write_data c' i f) i)
  changed-IsOwned c change change' s i readers writers {c'} {d} f o was_idle known h becomes =
      rw (change_and_mark c' i f) (
        filled-IsOwned s i readers writers o was_idle known (changed (c'.blocks i) f) (f d)
          c'.device.read_cnt change'
          (record {
            for_sector = o.for_sector;
            is_valid = h.valid;
            not_deleted = o.coherent.kept i o.inside;
            data_is = ap f h.data_is;
          })
          refl refl refl (λ e. absurd (true-ne-false e)) becomes
          (same_counts-IsAccounted c' i _ o.balanced o.inside (unfold is_idle in refl) refl refl))

  -- With no other thread in the cache meanwhile, the accounts of its semaphore and sharing in
  -- order, some block that nobody uses or waits for, the blocks and the device in agreement, no
  -- block marked as deleted, and a sector of the device that nobody uses or waits for: a thread
  -- that changes part of the sector, whichever access it asks for, neither sleeps nor panics;
  -- afterwards the cache shows that sector with the change and every other sector as before.
  pub modify_lem :
      (c : Cache D) (s : ℕ) (exclusive : Bool) (f : D → D)
      → IsFree c s
      → s < c.device.size
      → (c' : Cache D) × (modify c s exclusive f ≡ returns c') × IsDone c (replaced s f) s c'
  unfolding modify
  modify_lem c s exclusive f free known =
      let g : Gets c s exclusive (cache_get_block c s exclusive) =
        cache_get_block-Gets c s exclusive free in
      let r : Reads s g.0 (readers_of exclusive) (writers_of exclusive) g.4 g.3 known
          (cache_read_block g.1 g.0) =
        cache_read_block-Reads s g.0 (readers_of exclusive) (writers_of exclusive) g.4 g.3 known in
      let o =
        changed-IsOwned c unchanged (replaced s f) s g.0 (readers_of exclusive)
          (writers_of exclusive) f r.3 g.3 known r.4
          (λ t x held. elim (Bool-cases (s == t)) [
            | inl same ↦ rw same (
                ap f (
                  read_is_view c s g.0 (readers_of exclusive) (writers_of exclusive) r.3 r.4 x
                    (rw (==→eq s t same) held)))
            | inr other ↦ rw other
          ]) in
      let p = cache_put_block-IsDone s g.0 exclusive o g.3 in (_, rw g.2 (rw r.2 p.0), p.1)

  -- The same of the view: what a caller of the cache relies on.
  pub IsDone-view :
      {c : Cache D} {change : ℕ → D → D} {s : ℕ} {c' : Cache D}
      → IsDone c change s c'
      → (t : ℕ) → view c' t ≡ change t (view c t)
  IsDone-view {c} {c' = c'} d t = view-eq c' d.free.coherent (d.shows t (view c t) (view-Holds c t))

  -- The owner's block zeroed, whether or not it was read.
  zeroed-IsOwned :
      (zeros : D) (c : Cache D) (s i readers writers : ℕ) {c' : Cache D}
      → IsOwned c unchanged s i readers writers c'
      → is_idle (c.blocks i) ≡ true
      → s < c.device.size
      → IsOwned c (replaced s (λ _. zeros)) s i readers writers (cache_zero_block zeros c' i)
  unfolding cache_zero_block
  zeroed-IsOwned zeros c s i readers writers {c'} o was_idle known =
      filled-IsOwned s i readers writers o was_idle known
        (record (c'.blocks i) { contents = zeros; valid = true; dirty = true }) zeros
        c'.device.read_cnt (replaced s (λ _. zeros))
        (record {
          for_sector = o.for_sector;
          is_valid = refl;
          not_deleted = o.coherent.kept i o.inside;
          data_is = refl;
        })
        refl refl refl (λ e. absurd (true-ne-false e)) (λ t x held. refl)
        (same_counts-IsAccounted c' i _ o.balanced o.inside (unfold is_idle in refl) refl refl)

  -- With no other thread in the cache meanwhile, the accounts of its semaphore and sharing in
  -- order, some block that nobody uses or waits for, the blocks and the device in agreement, no
  -- block marked as deleted, and a sector of the device that nobody uses or waits for: a thread
  -- that fills the sector anew neither sleeps nor panics; the sector is shown with the contents
  -- made from a block of zeros, and every other sector as before.
  pub fill_lem :
      (zeros : D) (c : Cache D) (s : ℕ) (f : D → D)
      → IsFree c s
      → s < c.device.size
      → (c' : Cache D) × (fill zeros c s f ≡ returns c') × IsDone c (replaced s (λ _. f zeros)) s c'
  unfolding fill
  fill_lem zeros c s f free known =
      let g : Gets c s true (cache_get_block c s true) = cache_get_block-Gets c s true free in
      let z = zeroed-IsOwned zeros c s g.0 0 1 g.4 g.3 known in
      let h : HasData (cache_zero_block zeros g.1 g.0) g.0 zeros =
        unfold cache_zero_block in
        record { valid = rw (==-refl g.0); data_is = rw (==-refl g.0) } in
      let o =
        changed-IsOwned c (replaced s (λ _. zeros)) (replaced s (λ _. f zeros)) s g.0 0 1 f z g.3
          known h (λ t x held. ground arith) in
      let p = cache_put_block-IsDone s g.0 true o g.3 in (_, rw g.2 p.0, p.1)
