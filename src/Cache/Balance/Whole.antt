-- ===== src/Cache/Balance/Whole.antt =====
-- `request`, a call of `cache_get_block` of src/filesys/cache.c during which no other thread runs, as the
-- parts that it has among other threads.
use kernel_dev.Prelude.{ℕ, ◌≡◌, Option, none, some}
use kernel_dev.Prelude.Outcome.{Outcome, returns}
use kernel_dev.Cache.{Cache, cache_limit}
use kernel_dev.Cache.Threads.{Getter, obtained, count_request, getter_step}

-- Where the scan of `obtain_block` ends.
abbrev stop_at : Option ℕ → ℕ
stop_at none = cache_limit
stop_at (some k) = k

module _ {D : Type 0} where
  -- The parts of one call, with no other thread between them.
  pub data Alone : Getter → Cache D → Getter → Cache D → Type 0 where
    stops : {g : Getter} {c : Cache D} → Alone g c g c
    goes :
        {g g1 g2 : Getter} {c c1 c2 : Cache D}
        → getter_step c g ≡ returns (g1, c1)
        → Alone g1 c1 g2 c2
        → Alone g c g2 c2

  -- The call has obtained a block, and counts its request there.
  abbrev counts : ℕ → ℕ × Cache D → Outcome (Getter × Cache D)
  counts sector (i, c) = returns (obtained sector i, count_request c i)
