-- ===== src/Cache/Session/Own.antt =====
-- Getting a block that nobody uses, and putting it back.
use kernel_dev.Prelude.{
  ℕ, ◌+◌, ◌-◌, ◌≡◌, Bool, true, false, refl, sym, ◌∙◌, ap, arith, ◌==◌, if◌then◌else◌, Bool-cases,
  inl, inr, ==→eq, ==-refl, true-ne-false,
}
use kernel_dev.Prelude.Outcome.{Outcome, returns}
use kernel_dev.Cache.{
  Cache, CacheBlock, is_idle, set_block, request, grant, cache_get_block, cache_put_block,
}
use kernel_dev.Cache.Balance.{IsBalanced}
use kernel_dev.Cache.Balance.Access.{grant-IsAccounted, cache_put_block-IsAccounted}
use kernel_dev.Cache.Coherence.{Holds, holds-inversion}
use kernel_dev.Cache.Coherence.Changes.{SameData, counts-IsCoherent, counts-Holds}
use kernel_dev.Cache.Coherence.Requests.{Requested, request-Requested}
use kernel_dev.Cache.Session.{IsFree, IsOwned, unchanged}

abbrev pub readers_of : Bool → ℕ
readers_of true = 0
readers_of false = 1

abbrev pub writers_of : Bool → ℕ
writers_of true = 1
writers_of false = 0

module _ {D : Type 0} where
  -- The block once access is granted.
  abbrev accessed : CacheBlock D → Bool → CacheBlock D
  accessed b exclusive = record b {
    num_writers = if exclusive then b.num_writers + 1 else b.num_writers;
    num_readers = if exclusive then b.num_readers else b.num_readers + 1;
    pending_requests = b.pending_requests - 1;
  }

  accessed-SameData : (b : CacheBlock D) (exclusive : Bool) → SameData (accessed b exclusive) b
  accessed-SameData b exclusive = record {
    same_id = refl;
    same_dirty = refl;
    same_valid = refl;
    same_deleted = refl;
    same_contents = refl;
  }

  grant_lem :
      (c : Cache D) (i s : ℕ) (exclusive : Bool)
      → (c.blocks i).num_readers ≡ 0
      → (c.blocks i).num_writers ≡ 0
      → (c.blocks i).pending_requests ≡ 1
      → (c.blocks i).bs_id ≡ s
      → grant c i s exclusive
        ≡ returns (record c { blocks = set_block c.blocks i (accessed (c.blocks i) exclusive) })
  unfolding grant
  grant_lem c i s true r w p e =
      let t1 : ((c.blocks i).num_readers == 0) ≡ true = ground arith in
      let t2 : ((c.blocks i).num_writers == 0) ≡ true = ground arith in
      let t3 : ((c.blocks i).pending_requests == 0) ≡ false = ground arith in
      let t4 : ((c.blocks i).bs_id == s) ≡ true = ground arith in rw (t1, t2, t3, t4)
  grant_lem c i s false r w p e =
      let t2 : ((c.blocks i).num_writers == 0) ≡ true = ground arith in
      let t3 : ((c.blocks i).pending_requests == 0) ≡ false = ground arith in
      let t4 : ((c.blocks i).bs_id == s) ≡ true = ground arith in rw (t2, t3, t4)

  abbrev pub Gets : Cache D → ℕ → Bool → Outcome (ℕ × Cache D) → Type 0
  Gets c s exclusive r =
      (i : ℕ) × (c' : Cache D) × (r ≡ returns (i, c'))
      × (is_idle (c.blocks i) ≡ true)
      × IsOwned c unchanged s i (readers_of exclusive) (writers_of exclusive) c'

  abbrev granted_state : Cache D → ℕ → Bool → Cache D
  granted_state c i exclusive = record c {
    blocks = set_block c.blocks i (accessed (c.blocks i) exclusive);
  }

  accessed_counts :
      (b : CacheBlock D) (exclusive : Bool)
      → b.num_readers ≡ 0
      → b.num_writers ≡ 0
      → ((accessed b exclusive).num_readers ≡ readers_of exclusive)
        × ((accessed b exclusive).num_writers ≡ writers_of exclusive)
  accessed_counts b true r w = omega arith
  accessed_counts b false r w = omega arith

  granted-IsOwned :
      (c : Cache D) (s : ℕ) (exclusive : Bool) {r : Outcome (ℕ × Cache D)} (q : Requested c s r)
      → IsBalanced (granted_state q.after q.index exclusive)
      → IsOwned c unchanged s q.index
          (readers_of exclusive)
          (writers_of exclusive)
          (granted_state q.after q.index exclusive)
  granted-IsOwned c s exclusive q v =
      let same = accessed-SameData (q.after.blocks q.index) exclusive in
      let counts = accessed_counts (q.after.blocks q.index) exclusive q.no_reader q.no_writer in
      record {
        inside = q.inside;
        balanced = v;
        coherent =
            counts-IsCoherent q.after.blocks q.after.device q.index q.inside _ same
              q.keeps.coherent;
        shows = λ t d h.
            counts-Holds q.after.blocks q.after.device q.index q.inside _ same
              (q.keeps.contents t d h);
        size = q.keeps.size;
        for_sector = rw (==-refl q.index) q.for_sector;
        reading = rw (==-refl q.index) counts.0;
        writing = rw (==-refl q.index) counts.1;
        no_request = rw (==-refl q.index) (omega (arith, q.one_request));
        alone = λ j p w e. elim (Bool-cases (q.index == j)) [
          | inl this ↦ sym (==→eq q.index j this)
          | inr other ↦ q.alone j p (rw other at w) (rw other at e)
        ];
        others = λ j used. elim (Bool-cases (q.index == j)) [
          | inl this ↦ absurd (
              true-ne-false
                (sym q.was_idle ∙ ap (λ n. is_idle (c.blocks n)) (==→eq q.index j this) ∙ used))
          | inr other ↦ rw other (q.others j used)
        ];
      }

  -- A thread that asks for a free sector has access at once.
  pub cache_get_block-Gets :
      (c : Cache D) (s : ℕ) (exclusive : Bool)
      → IsFree c s
      → Gets c s exclusive (cache_get_block c s exclusive)
  unfolding cache_get_block
  cache_get_block-Gets c s exclusive free =
      let q : Requested c s (request c s) =
        request-Requested c s free.balanced free.coherent free.room free.unused in
      let g : grant q.after q.index s exclusive
          ≡ returns (granted_state q.after q.index exclusive) =
        grant_lem q.after q.index s exclusive q.no_reader q.no_writer q.one_request q.for_sector in
      (
        q.index,
        granted_state q.after q.index exclusive,
        rw q.returned (rw g refl),
        q.was_idle,
        granted-IsOwned c s exclusive q
            (grant-IsAccounted q.index s exclusive q.balanced q.inside g),
      )

  -- What remains when the block is put back: what the cache `c'` shows is what `c` showed, changed
  -- by `change`, and a thread may take a block for the sector again.
  pub record IsDone (c : Cache D) (change : ℕ → D → D) (s : ℕ) (c' : Cache D) : Type 0 where
    pub free : IsFree c' s
    pub shows :
        (t : ℕ) (d : D) → Holds c.blocks c.device t d → Holds c'.blocks c'.device t (change t d)
    pub size : c'.device.size ≡ c.device.size
    pub others : (j : ℕ) → is_idle (c.blocks j) ≡ false → c'.blocks j ≡ c.blocks j

  -- The block once it is put back.
  abbrev put_back : CacheBlock D → CacheBlock D
  put_back b = record b { num_readers = 0; num_writers = 0 }

  abbrev put_state : Cache D → ℕ → Cache D
  put_state c i = record c {
    blocks = set_block c.blocks i (put_back (c.blocks i));
    num_evict = c.num_evict + 1;
  }

  cache_put_block_lem :
      (c : Cache D) (i : ℕ) (exclusive : Bool)
      → (c.blocks i).num_readers ≡ readers_of exclusive
      → (c.blocks i).num_writers ≡ writers_of exclusive
      → (c.blocks i).pending_requests ≡ 0
      → cache_put_block c i ≡ returns (put_state c i)
  unfolding cache_put_block
  cache_put_block_lem c i true r w p = rw (r, w, p)
  cache_put_block_lem c i false r w p = rw (r, w, p)

  put_back-SameData : (b : CacheBlock D) → SameData (put_back b) b
  put_back-SameData b = record {
    same_id = refl;
    same_dirty = refl;
    same_valid = refl;
    same_deleted = refl;
    same_contents = refl;
  }

  put_back-idle : (b : CacheBlock D) → b.pending_requests ≡ 0 → is_idle (put_back b) ≡ true
  unfolding is_idle
  put_back-idle b p = ground arith

  -- Putting the block back ends the use of it, with all that was done shown.
  pub cache_put_block-IsDone :
      {c : Cache D} {change : ℕ → D → D} (s i : ℕ) (exclusive : Bool) {c' : Cache D}
      → IsOwned c change s i (readers_of exclusive) (writers_of exclusive) c'
      → is_idle (c.blocks i) ≡ true
      → (cache_put_block c' i ≡ returns (put_state c' i)) × IsDone c change s (put_state c' i)
  cache_put_block-IsDone {c} s i exclusive {c'} o was_idle =
      let e : cache_put_block c' i ≡ returns (put_state c' i) =
        cache_put_block_lem c' i exclusive o.reading o.writing o.no_request in
      let same = put_back-SameData (c'.blocks i) in
      let rested : is_idle ((put_state c' i).blocks i) ≡ true =
        rw (==-refl i) (put_back-idle (c'.blocks i) o.no_request) in
      let balanced : IsBalanced (put_state c' i) =
        cache_put_block-IsAccounted i o.balanced o.inside e in
      (
        e,
        record {
          free = record {
            balanced = balanced;
            coherent = counts-IsCoherent c'.blocks c'.device i o.inside _ same o.coherent;
            room = omega arith;
            unused = λ j p h. elim (Bool-cases (i == j)) [
              | inl this ↦ rw (← ==→eq i j this) rested
              | inr other ↦
                  let held = holds-inversion (c'.blocks j) s (rw other at h) in
                  absurd (
                    true-ne-false (
                      sym (==-refl i) ∙ ap (λ n. i == n) (sym (o.alone j p held.0 held.1)) ∙ other))
            ];
          };
          shows = λ t d h. counts-Holds c'.blocks c'.device i o.inside _ same (o.shows t d h);
          size = o.size;
          others = λ j used. elim (Bool-cases (i == j)) [
            | inl this ↦ absurd (
                true-ne-false
                  (sym was_idle ∙ ap (λ n. is_idle (c.blocks n)) (==→eq i j this) ∙ used))
            | inr other ↦ rw other (o.others j used)
          ];
        },
      )
