-- ===== src/Cache/Loops.antt =====
-- The search loops of src/filesys/cache.c: what they find, and that they end.
use kernel_dev.Prelude.{
  ℕ, zero, suc, ◌+◌, ◌-◌, ◌%◌, ◌≡◌, ◌≤◌, ◌<◌, true, false, Option, none, some, refl, arith, ◌==◌,
  if◌then◌else◌, Bool-cases, inl, inr, ==→eq,
}
use kernel_dev.Cache.{CacheBlock, is_idle, holds, find_block, evict_loop, set_block}

module _ {D : Type 0} where
  -- What the search for a sector answered.
  pub data Search (blocks : ℕ → CacheBlock D) (sector i n : ℕ) (r : Option ℕ) : Type 0 where
    hit :
        (k : ℕ)
        → i ≤ k
        → k < i + n
        → holds (blocks k) sector ≡ true
        → r ≡ some k
        → Search blocks sector i n r
    miss :
        ((k : ℕ) → i ≤ k → k < i + n → holds (blocks k) sector ≡ false)
        → r ≡ none
        → Search blocks sector i n r

  pub find_block-Search :
      (n i : ℕ) (blocks : ℕ → CacheBlock D) (sector : ℕ)
      → Search blocks sector i n (find_block blocks sector i n)
  unfolding find_block
  find_block-Search zero i blocks sector = miss (λ k p q. absurd (omega arith)) refl
  find_block-Search (suc n) i blocks sector = elim (Bool-cases (holds (blocks i) sector)) [
    | inl e ↦ rw e (hit i (omega arith) (omega arith) e refl)
    | inr e ↦ rw e (widen e (find_block-Search n (i + 1) blocks sector))
  ]
    where
      widen :
          holds (blocks i) sector ≡ false
          → {r : Option ℕ} → Search blocks sector (i + 1) n r
          → Search blocks sector i (suc n) r
      widen e (hit k p q h r) = hit k (omega arith) (omega arith) h r
      widen e (miss none_later r) =
          miss
            (λ k p q. elim (Bool-cases (i == k)) [
              | inl same ↦ rw (← ==→eq i k same) e
              | inr other ↦ none_later k (ground arith) (omega arith)
            ])
            r

  -- The loop of `evict` stops only at an idle block, and keeps the clock inside the cache.
  pub evict_loop-idle :
      (n : ℕ) (blocks : ℕ → CacheBlock D) (i clock : ℕ) {k clock' : ℕ}
      → evict_loop n blocks i clock ≡ some (k, clock')
      → i < 64
      → clock < 64
      → (k < 64) × (is_idle (blocks k) ≡ true) × (clock' < 64)
  unfolding evict_loop
  evict_loop-idle zero blocks i clock h p q = cc
  evict_loop-idle (suc n) blocks i clock h p q = elim (Bool-cases (is_idle (blocks i))) [
    | inl e ↦ ground arith
    | inr e ↦ evict_loop-idle n blocks ((i + 1 + 64) % 64) i (ground arith) (omega arith) p
  ]

  -- With an idle block `j` the loop ends within as many rounds as it is from `i` to `j`.
  pub evict_loop-total :
      (n : ℕ) (blocks : ℕ → CacheBlock D) (i clock j : ℕ)
      → i < 64
      → j < 64
      → is_idle (blocks j) ≡ true
      → (j + 64 - i) % 64 < n
      → (k : ℕ) × (clock' : ℕ) × (evict_loop n blocks i clock ≡ some (k, clock'))
  unfolding evict_loop
  evict_loop-total zero blocks i clock j p q h f = absurd (omega arith)
  evict_loop-total (suc n) blocks i clock j p q h f = elim (Bool-cases (is_idle (blocks i))) [
    | inl e ↦ (i, clock, rw e)
    | inr e ↦ rw e (evict_loop-total n blocks ((i + 1 + 64) % 64) i j (omega arith) q h (closer e))
  ]
    where
      closer : is_idle (blocks i) ≡ false → (j + 64 - (i + 1 + 64) % 64) % 64 < n
      closer e = elim (Bool-cases (i == j)) [
        | inl same ↦ absurd (cc (==→eq i j same, e, h))
        | inr other ↦ ground arith
      ]

  -- The number of idle blocks among the first `n`.
  unfoldable pub idle_count : (ℕ → CacheBlock D) → ℕ → ℕ
  idle_count blocks zero = 0
  idle_count blocks (suc n) = (if is_idle (blocks n) then 1 else 0) + idle_count blocks n

  abbrev pub weight : CacheBlock D → ℕ
  weight b = if is_idle b then 1 else 0

  idle_count-outside :
      (n : ℕ) (blocks : ℕ → CacheBlock D) (i : ℕ) (b : CacheBlock D)
      → n ≤ i
      → idle_count (set_block blocks i b) n ≡ idle_count blocks n
  unfolding idle_count
  idle_count-outside zero blocks i b h = refl
  idle_count-outside (suc n) blocks i b h =
      ground (arith, idle_count-outside n blocks i b (omega arith))

  -- Changing one block changes the count by that block alone.
  pub idle_count-set :
      (n : ℕ) (blocks : ℕ → CacheBlock D) (i : ℕ) (b : CacheBlock D)
      → i < n
      → idle_count (set_block blocks i b) n + weight (blocks i) ≡ idle_count blocks n + weight b
  unfolding idle_count
  idle_count-set zero blocks i b h = absurd (omega arith)
  idle_count-set (suc n) blocks i b h = elim (Bool-cases (i == n)) [
    | inl e ↦ ground (arith, ==→eq i n e, idle_count-outside n blocks i b (ground arith))
    | inr e ↦ ground (arith, idle_count-set n blocks i b (ground arith))
  ]

  -- A positive count has an idle block.
  pub idle_of_count :
      (n : ℕ) (blocks : ℕ → CacheBlock D)
      → 0 < idle_count blocks n
      → (j : ℕ) × (j < n) × (is_idle (blocks j) ≡ true)
  unfolding idle_count
  idle_of_count zero blocks h = absurd (omega arith)
  idle_of_count (suc n) blocks h = elim (Bool-cases (is_idle (blocks n))) [
    | inl e ↦ (n, omega arith, e)
    | inr e ↦
        let below : (j : ℕ) × (j < n) × (is_idle (blocks j) ≡ true) =
          idle_of_count n blocks (ground arith) in
        (below.0, omega arith, below.2)
  ]
