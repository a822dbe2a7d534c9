-- ===== src/Cache/Session/Access.antt =====
-- What the owner of a block reads, and what the cache shows once the block is changed.
use kernel_dev.Prelude.{
  ℕ, ◌+◌, ◌≡◌, ◌≢◌, ◌<◌, true, false, refl, sym, ◌∙◌, ap, arith, ◌==◌, if◌then◌else◌, Bool-cases,
  inl, inr, ==→eq, ltb, lt→ltb, ==-refl, true-ne-false,
}
use kernel_dev.Prelude.Outcome.{Outcome, returns}
use kernel_dev.BlockDevice.{Device, block_read}
use kernel_dev.Cache.{Cache, CacheBlock, is_idle, set_block, cache_read_block}
use kernel_dev.Cache.Balance.{IsBalanced}
use kernel_dev.Cache.Balance.Access.{cache_read_block-IsAccounted}
use kernel_dev.Cache.Coherence.{IsCoherent, Holds, cached, on_disk, Holds-unique}
use kernel_dev.Cache.Coherence.Changes.{IsFilled, fill-IsCoherent, fill-Holds}
use kernel_dev.Cache.Session.{IsOwned}

module _ {D : Type 0} where
  -- The owner has the data `d` of its sector in a valid block.
  pub record HasData (c' : Cache D) (i : ℕ) (d : D) : Type 0 where
    pub valid : (c'.blocks i).valid ≡ true
    pub data_is : (c'.blocks i).contents ≡ d

  -- The count of reads does not matter.
  recount-IsCoherent :
      {blocks : ℕ → CacheBlock D} (dev : Device D) (n : ℕ)
      → IsCoherent blocks dev
      → IsCoherent blocks (record dev { read_cnt = n })
  recount-IsCoherent dev n co = record {
    unique = co.unique;
    dirty_valid = co.dirty_valid;
    in_device = co.in_device;
    clean = co.clean;
    kept = co.kept;
  }

  recount-Holds :
      {blocks : ℕ → CacheBlock D} (dev : Device D) (n : ℕ) {t : ℕ} {d : D}
      → Holds blocks dev t d
      → Holds blocks (record dev { read_cnt = n }) t d
  recount-Holds dev n (cached i h v e r) = cached i h v e r
  recount-Holds dev n (on_disk absent r) = on_disk absent r

  -- The state once block `i` is `b`, after `n` reads of the device.
  abbrev pub with_block : Cache D → ℕ → CacheBlock D → ℕ → Cache D
  with_block c i b n = record c {
    blocks = set_block c.blocks i b;
    device = record c.device { read_cnt = n };
  }

  module _ {c : Cache D} {change : ℕ → D → D} (s i readers writers : ℕ) {c' : Cache D}
      (o : IsOwned c change s i readers writers c') (was_idle : is_idle (c.blocks i) ≡ true)
      (known : s < c.device.size) where
    -- The owner's block takes the data `x`, and keeps its counts.
    pub filled-IsOwned :
        (b : CacheBlock D) (x : D) (n : ℕ) (change' : ℕ → D → D)
        → IsFilled b s x
        → b.num_readers ≡ (c'.blocks i).num_readers
        → b.num_writers ≡ (c'.blocks i).num_writers
        → b.pending_requests ≡ (c'.blocks i).pending_requests
        → (b.dirty ≡ false → x ≡ c'.device.sectors s)
        → ((t : ℕ) (d : D)
            → Holds c.blocks c.device t d
            → (if s == t then x else change t d) ≡ change' t d)
        → IsBalanced (with_block c' i b n)
        → IsOwned c change' s i readers writers (with_block c' i b n)
    filled-IsOwned b x n change' filled r w p agrees becomes v =
        let fits : s < c'.device.size = omega (arith, o.size) in
        record {
          inside = o.inside;
          balanced = v;
          coherent = recount-IsCoherent c'.device n (
              fill-IsCoherent c'.blocks c'.device i o.inside b s x filled fits o.alone
                (λ _. o.for_sector) agrees o.coherent);
          shows = λ t d h. recount-Holds c'.device n (
              rw (← becomes t d h) (
                fill-Holds c'.blocks c'.device i o.inside b s x filled fits o.alone
                  (λ _. o.for_sector) (o.shows t d h)));
          size = o.size;
          for_sector = rw (==-refl i) filled.for_sector;
          reading = rw (==-refl i) (r ∙ o.reading);
          writing = rw (==-refl i) (w ∙ o.writing);
          no_request = rw (==-refl i) (p ∙ o.no_request);
          alone = λ j q v e. elim (Bool-cases (i == j)) [
            | inl this ↦ sym (==→eq i j this)
            | inr other ↦ o.alone j q (rw other at v) (rw other at e)
          ];
          others = λ j used. elim (Bool-cases (i == j)) [
            | inl this ↦ absurd (
                true-ne-false
                  (sym was_idle ∙ ap (λ n. is_idle (c.blocks n)) (==→eq i j this) ∙ used))
            | inr other ↦ rw other (o.others j used)
          ];
        }

    -- What `cache_read_block` gives the owner.
    abbrev pub Reads : Outcome (D × Cache D) → Type 0
    Reads r =
        (d : D) × (c'' : Cache D) × (r ≡ returns (d, c''))
        × IsOwned c change s i readers writers c''
        × HasData c'' i d

    pub cache_read_block-Reads : Reads (cache_read_block c' i)
    unfolding cache_read_block block_read
    cache_read_block-Reads = elim (Bool-cases (c'.blocks i).valid) [
      | inl loaded ↦
          ((c'.blocks i).contents, c', rw loaded refl, o, record { valid = loaded; data_is = refl })
      | inr unread ↦
          let b : CacheBlock D = record (c'.blocks i) {
            contents = c'.device.sectors s;
            valid = true;
          } in
          let gone : (j : ℕ) → j < 64 → (c'.blocks j).valid ≡ true → (c'.blocks j).bs_id ≢ s =
            λ j h v e.
              true-ne-false (sym v ∙ ap (λ n. (c'.blocks n).valid) (o.alone j h v e) ∙ unread) in
          let fits : ltb (c'.blocks i).bs_id c'.device.size ≡ true =
            lt→ltb _ _ (omega (arith, o.size, o.for_sector)) in
          let e : cache_read_block c' i
              ≡ returns (c'.device.sectors s, with_block c' i b (c'.device.read_cnt + 1)) =
            rw (unread, fits)
              (ap
                (λ (n : ℕ). returns (
                  c'.device.sectors n,
                  with_block c' i
                      (record (c'.blocks i) { contents = c'.device.sectors n; valid = true })
                      (c'.device.read_cnt + 1),
                ))
                o.for_sector) in
          (
            c'.device.sectors s,
            with_block c' i b (c'.device.read_cnt + 1),
            e,
            filled-IsOwned b (c'.device.sectors s) (c'.device.read_cnt + 1) change
                (record {
                  for_sector = o.for_sector;
                  is_valid = refl;
                  not_deleted = o.coherent.kept i o.inside;
                  data_is = refl;
                })
                refl refl refl (λ _. refl)
                (λ t d h. elim (Bool-cases (s == t)) [
                  | inl same ↦ rw same (
                      Holds-unique o.coherent (on_disk gone refl)
                        (rw (==→eq s t same) (o.shows t d h)))
                  | inr other ↦ rw other refl
                ])
                (cache_read_block-IsAccounted i _ o.balanced o.inside e),
            record { valid = rw (==-refl i); data_is = rw (==-refl i) },
          )
    ]
