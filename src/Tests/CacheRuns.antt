-- ===== src/Tests/CacheRuns.antt =====
-- src/filesys/cache.c on a device of 1000 sectors, each of which holds its own number.
use kernel_dev.Prelude.{ℕ, ◌+◌, ◌<◌, ◌≡◌, refl, true, false, some, arith, List, [], ◌∷◌}
use kernel_dev.Prelude.Outcome.{Outcome, returns}
use kernel_dev.BlockDevice.{Device}
use kernel_dev.Cache.{
  Cache, CacheBlock, cache_init, holds, is_idle, cache_limit, evict_loop, evict_down,
  cache_zero_block,
}
use kernel_dev.Cache.Threads.{
  Getter, scans, obtained, scan_step, getter_step, total, ticket, CacheSystem, calls, proceeds,
  zeroed, Reach, here, next,
}
use kernel_dev.Cache.Balance.{IsShared}
use kernel_dev.Cache.Balance.Runs.{cache-IsShared, cache_init-IsBalanced, started, evict_loop-finds}
use kernel_dev.Cache.Loops.{idle_count}
use kernel_dev.Cache.Coherence.{IsCoherent, view}
use kernel_dev.Cache.Session.{IsFree, load, modify, fill, unchanged}
use kernel_dev.Cache.Session.Own.{IsDone}
use kernel_dev.Cache.Session.Whole.{load_lem, modify_lem, fill_lem, replaced}

abbrev disk : Device ℕ
disk = record { size = 1000; sectors = λ s. s; read_cnt = 0; write_cnt = 0 }

abbrev storage : ℕ → CacheBlock ℕ
storage i = record {
  bs_id = 7;
  dirty = true;
  valid = true;
  deleted = true;
  num_readers = 9;
  num_writers = 9;
  pending_requests = 9;
  contents = 0;
}

abbrev fresh : Cache ℕ
fresh = cache_init storage disk

fresh-IsCoherent : IsCoherent fresh.blocks fresh.device
unfolding cache_init
fresh-IsCoherent = record {
  unique = λ i j p q v w e. cc;
  dirty_valid = λ i p d. cc;
  in_device = λ i p v. cc;
  clean = λ i p v d. cc;
  kept = λ i p. refl;
}

fresh-IsFree : (s : ℕ) → IsFree fresh s
unfolding cache_init holds
fresh-IsFree s = record {
  balanced = cache_init-IsBalanced storage disk;
  coherent = fresh-IsCoherent;
  room = omega arith;
  unused = λ j p h. cc;
}

load_lem_example :
    (c' : Cache ℕ) × (load fresh 5 ≡ returns (view fresh 5, c')) × IsDone fresh unchanged 5 c'
load_lem_example = load_lem fresh 5 (fresh-IsFree 5) (unfold cache_init in omega arith)

modify_lem_example :
    (c' : Cache ℕ) × (modify fresh 5 false (λ d. d + 1) ≡ returns c')
    × IsDone fresh (replaced 5 (λ d. d + 1)) 5 c'
modify_lem_example =
    modify_lem fresh 5 false (λ d. d + 1) (fresh-IsFree 5) (unfold cache_init in omega arith)

fill_lem_example :
    (c' : Cache ℕ) × (fill 0 fresh 5 (λ d. d) ≡ returns c')
    × IsDone fresh (replaced 5 (λ _. 0)) 5 c'
fill_lem_example = fill_lem 0 fresh 5 (λ d. d) (fresh-IsFree 5) (unfold cache_init in omega arith)

-- The cache once a thread has asked for sector 5.
abbrev state_of : Outcome (ℕ × Cache ℕ) → Cache ℕ
state_of (returns (i, c)) = c
state_of _ = fresh

-- Block 0 zeroed, for sector 0; a thread asks for sector 0, another for sector 5.
abbrev two_ask : CacheSystem ℕ
two_ask = record { cache = cache_zero_block 7 fresh 0; getters = scans 0 0 ∷ scans 5 0 ∷ [] }

two_ask_reached : Reach (started storage disk) two_ask
two_ask_reached = next (next (next here (zeroed 0 7 (omega arith))) (calls 5)) (calls 0)

abbrev step_of : Outcome (Getter × Cache ℕ) → Cache ℕ
step_of (returns (g, c)) = c
step_of _ = fresh

-- The first finds it in block 0, and has access to it alone.
abbrev found : Cache ℕ
found = step_of (getter_step two_ask.cache (scans 0 0))

finds : getter_step two_ask.cache (scans 0 0) ≡ returns (obtained 0 0, found)
unfolding getter_step scan_step cache_zero_block cache_init holds is_idle evict_down
finds = refl

abbrev found_getters : List Getter
found_getters = obtained 0 0 ∷ scans 5 0 ∷ []

cache-IsShared_example :
    (found.num_evict + total ticket found_getters ≡ idle_count found.blocks 64)
    × ((i : ℕ) → i < 64 → IsShared (found.blocks i))
cache-IsShared_example =
    cache-IsShared storage disk
      (next two_ask_reached (proceeds [] (scans 0 0) (scans 5 0 ∷ []) refl finds))

evict_loop-finds_example :
    (k : ℕ) × (clock : ℕ) × (evict_loop cache_limit fresh.blocks fresh.clock fresh.clock
      ≡ some (k, clock))
    × (k < 64)
    × (is_idle (fresh.blocks k) ≡ true)
evict_loop-finds_example =
    evict_loop-finds fresh (cache_init-IsBalanced storage disk) (unfold cache_init in omega arith)
