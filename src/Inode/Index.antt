-- ===== src/Inode/Index.antt =====
-- The multi-level index of src/filesys/inode.c: from the number of a block of a file to its sector.
-- Each use of a cache block is a load or a store of the sector (see FileSystem).
pub mod Lookup
use kernel_dev.Prelude.{
  ℕ, zero, suc, ◌+◌, ◌-◌, ◌*◌, ◌/◌, ◌%◌, Bool, true, false, not, Option, none, some, List, [], ◌∷◌,
  ◌==◌, ltb, leb, ◌&&◌, if◌then◌else◌, ◌>>=◌, min,
}
use kernel_dev.Sector.{Sector, zeros, word_at, put_word, copy, sector_size}
use kernel_dev.FileSystem.{FileSystem, Inode, set_sector, Persist}
use kernel_dev.FreeMap.{free_map_allocate}
use kernel_dev.Inode.Field

-- `N`, the number of direct blocks
abbrev pub direct_cnt : ℕ
direct_cnt = 123

abbrev pub index_size : ℕ
index_size = 128

-- A store of `v` to word `i` of sector `s`.
unfoldable pub set_word : FileSystem → ℕ → ℕ → ℕ → FileSystem
set_word w s i v = record w { sectors = set_sector w.sectors s (put_word (w.sectors s) i v) }

module _ (persist : Persist) where
  -- A zeroed sector, or 0.
  unfoldable pub expand_by_one : FileSystem → Option (ℕ × FileSystem)
  expand_by_one w = free_map_allocate persist w >>= λ (r, w1). elim r [
    | none ↦ some (0, w1)
    | some free_sector ↦
        some (free_sector, record w1 { sectors = set_sector w1.sectors free_sector zeros })
  ]

  -- The entry `i` of the index in sector `s`; an empty one is first given a new sector. This is
  -- the step that `MLI_translate` repeats at each level.
  unfoldable pub entry : FileSystem → ℕ → ℕ → Option (ℕ × FileSystem)
  entry w s i =
      if word_at (w.sectors s) i == 0
      then (expand_by_one w >>= λ (k, w1).
          let w2 : FileSystem = set_word w1 s i k in some (word_at (w2.sectors s) i, w2))
      else some (word_at (w.sectors s) i, w)

  -- `blockno` must be below `123 + 128 + 128 * 128`: beyond it the code reads past an index block.
  unfoldable pub mli_translate : FileSystem → ℕ → ℕ → Option (ℕ × FileSystem)
  mli_translate w inode blockno =
      if ltb blockno direct_cnt
      then entry w inode blockno
      else if ltb blockno (direct_cnt + index_size)
      then (entry w inode Field.indirect >>= λ (indirect_sector, w1).
          if indirect_sector == 0
          then some (0, w1)
          else entry w1 indirect_sector (blockno - direct_cnt))
      else (let rest = blockno - direct_cnt - index_size in
          entry w inode Field.indirect_two >>= λ (id_two_sector, w1).
          if id_two_sector == 0
          then some (0, w1)
          else (entry w1 id_two_sector (rest / index_size) >>= λ (second_index, w2).
              if second_index == 0
              then some (0, w2)
              else entry w2 second_index (rest % index_size)))

  unfoldable pub byte_to_sector : FileSystem → ℕ → ℕ → Option (ℕ × FileSystem)
  byte_to_sector w inode pos = mli_translate w inode (pos / sector_size)
