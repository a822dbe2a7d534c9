-- ===== src/MapFile/Release.antt =====
-- Releasing a sector with the map kept on disk.
use kernel_dev.Prelude.{
  ℕ, ◌/◌, ◌≡◌, ◌≢◌, ◌<◌, refl, ◌∙◌, Bool, true, false, not, Option, none, some, ◌==◌, if◌then◌else◌,
  arith, ◌>>=◌, Bool-cases, inl, inr,
}
use kernel_dev.Bitmap.{Bitmap, byte_cnt, bitmap_all, bitmap_contains, bitmap_set_multiple}
use kernel_dev.Bitmap.View.{bit, IsValid}
use kernel_dev.Bitmap.Ranges.{
  Contains, found, absent, bitmap_contains-Contains, WasSetRange, bitmap_set_multiple-WasSetRange,
}
use kernel_dev.FileSystem.{FileSystem}
use kernel_dev.FreeMap.{free_map_release, free_map_sector, lock_map, unlock_map}
use kernel_dev.Inode.Index.Lookup.{block_sector}
use kernel_dev.MapFile.{write_map, bitmap_write}
use kernel_dev.MapFile.Allocate.{
  HasMapFile, HasMapFile-marked, IsSaved, WroteMap, bitmap_write-WroteMap, one_within,
}

all_found :
    (s : ℕ) {b : Bitmap} (r : Option Bool)
    → Contains b s 1 false r
    → (r >>= λ x. some (not x)) ≡ some (bit b s)
all_found s {b} r (found i p q e here) = let same : s ≡ i = omega arith in rw (here, same, e) refl
all_found s {b} r (absent u here) = rw (here, u s (omega arith) (omega arith)) refl

-- `bitmap_all` of one bit is that bit.
pub bitmap_all_one :
    (s : ℕ) {b : Bitmap} → IsValid b → s < b.bit_cnt → bitmap_all b s 1 ≡ some (bit b s)
unfolding bitmap_all
bitmap_all_one s {b} v p =
    all_found s (bitmap_contains b s 1 false) (bitmap_contains-Contains s 1 false v (omega arith))

-- What releasing sector `s` did. `released`: the sector was in use; its bit is cleared and no other,
-- the map is saved, and no sector outside the map's file is touched. `refused`: the sector was free
-- already, and the kernel panics.
pub data Released (w : FileSystem) (s : ℕ) (r : Option FileSystem) : Type 0 where
  released :
      (after : FileSystem)
      → bit w.free_map s ≡ true
      → ((j : ℕ) → bit after.free_map j ≡ (if s == j then false else bit w.free_map j))
      → IsValid after.free_map
      → IsSaved after
      → ((t : ℕ)
          → ((pos : ℕ)
              → pos < byte_cnt w.free_map.bit_cnt
              → t ≢ block_sector w.sectors free_map_sector (pos / 512))
          → after.sectors t ≡ w.sectors t)
      → r ≡ some after
      → Released w s r
  refused : bit w.free_map s ≡ false → r ≡ none → Released w s r

release_returns :
    (w : FileSystem) (s : ℕ) (m : Bitmap) (w2 : FileSystem)
    → w.map_locked ≡ false
    → bitmap_all w.free_map s 1 ≡ some true
    → bitmap_set_multiple w.free_map s 1 false ≡ some m
    → bitmap_write (λ w. none) (record w { free_map = m; map_locked = true }) ≡ some (true, w2)
    → free_map_release write_map w s 1 ≡ some (unlock_map w2)
unfolding free_map_release lock_map unlock_map write_map
release_returns w s m w2 free used set wrote = rw free (rw used (rw set (rw wrote refl)))

release_refused :
    (w : FileSystem) (s : ℕ)
    → w.map_locked ≡ false
    → bitmap_all w.free_map s 1 ≡ some false
    → free_map_release write_map w s 1 ≡ none
unfolding free_map_release lock_map
release_refused w s free unused = rw free (rw unused refl)

-- With the lock of the map free, the map valid, and its file open and laid out in sectors of its own,
-- releasing a sector of the map that is in use clears its bit and no other, and
-- returns with the map saved and no sector changed outside the map's file; releasing a sector that
-- is free panics.
pub free_map_release-Released :
    (w : FileSystem) (s : ℕ)
    → w.map_locked ≡ false
    → HasMapFile w
    → IsValid w.free_map
    → s < w.free_map.bit_cnt
    → Released w s (free_map_release write_map w s 1)
unfolding unlock_map
free_map_release-Released w s free f v p = elim (Bool-cases (bit w.free_map s)) [
  | inl used ↦
      let x : WasSetRange w.free_map s 1 false (bitmap_set_multiple w.free_map s 1 false) =
        bitmap_set_multiple-WasSetRange s 1 false v (omega arith) in
      let w1 : FileSystem = record w { free_map = x.after; map_locked = true } in
      let y : WroteMap w1 (bitmap_write (λ w. none) w1) =
        bitmap_write-WroteMap (λ w. none) w1 (HasMapFile-marked w x.after x.same_size f) in
      released (unlock_map y.after) used
        (λ j. rw y.map_kept (x.bits j ∙ one_within s j false (bit w.free_map j)))
        (rw y.map_kept x.valid) y.saved (λ t n. y.elsewhere t (rw x.same_size n))
        (release_returns w s x.after y.after free (bitmap_all_one s v p ∙ rw used refl) x.returned
          y.returned)
  | inr unused ↦ refused unused (release_refused w s free (bitmap_all_one s v p ∙ rw unused refl))
]
