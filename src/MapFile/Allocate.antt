-- ===== src/MapFile/Allocate.antt =====
-- Allocating a sector with the map kept on disk.
use kernel_dev.Prelude.{
  ℕ, ◌+◌, ◌/◌, ◌≡◌, ◌≢◌, ◌<◌, refl, subst, ◌∙◌, Bool, true, false, Option, none, some, ◌==◌, ◌&&◌,
  if◌then◌else◌, arith, Bool-cases, inl, inr, ==-refl,
}
use kernel_dev.Bitmap.{Bitmap, byte_cnt, bitmap_error, bitmap_scan_and_flip}
use kernel_dev.Bitmap.View.{bit, IsValid}
use kernel_dev.Bitmap.Ranges.{Uniform, within}
use kernel_dev.Bitmap.Scan.{Flipped, flipped, unchanged, bitmap_scan_and_flip-Flipped}
use kernel_dev.FileSystem.{FileSystem, Inode, Persist}
use kernel_dev.FreeMap.{free_map_allocate, free_map_sector, lock_map, unlock_map}
use kernel_dev.Inode.Index.Lookup.{block_sector}
use kernel_dev.Inode.Data.Mapped.{byte_at}
use kernel_dev.Inode.Data.Chunks.{IsOwnRange, IsWritten}
use kernel_dev.Inode.Data.Range.{inode_write_at-mapped}
use kernel_dev.Inode.Open.{find_open, update_open}
use kernel_dev.MapFile.{map_byte, bitmap_write, write_map}

-- The file of the map is open and may be written, and its blocks have sectors of their own.
pub record HasMapFile (w : FileSystem) : Type 0 where
  pub file : Inode
  pub present : w.has_map_file ≡ true
  pub opened : find_open w.open_inodes free_map_sector ≡ some file
  pub sector : file.sector ≡ free_map_sector
  pub allowed : file.deny_write_cnt ≡ 0
  pub own : IsOwnRange w.sectors free_map_sector 0 (byte_cnt w.free_map.bit_cnt)

-- The bytes of the map file are those of the map.
abbrev pub IsSaved : FileSystem → Type 0
IsSaved w =
    (pos : ℕ)
    → pos < byte_cnt w.free_map.bit_cnt
    → byte_at w.sectors free_map_sector pos ≡ map_byte w.free_map pos

-- Writing the map to its file succeeds, and changes nothing else in memory.
pub record WroteMap (w : FileSystem) (r : Option (Bool × FileSystem)) : Type 0 where
  pub after : FileSystem
  pub returned : r ≡ some (true, after)
  pub map_kept : after.free_map ≡ w.free_map
  pub saved : IsSaved after
  pub elsewhere :
      (t : ℕ)
      → ((pos : ℕ)
          → pos < byte_cnt w.free_map.bit_cnt
          → t ≢ block_sector w.sectors free_map_sector (pos / 512))
      → after.sectors t ≡ w.sectors t

if_lem : {A : Type 0} {b : Bool} {x : A} (y : A) → b ≡ true → (if b then x else y) ≡ x
if_lem y e = rw e refl

-- Writing the map to a file that is open and whose blocks have sectors of their own succeeds: the
-- file then holds the map, and the map and all sectors outside the file are as before.
pub bitmap_write-WroteMap :
    (inner : Persist) (w : FileSystem) → HasMapFile w → WroteMap w (bitmap_write inner w)
unfolding bitmap_write
bitmap_write-WroteMap inner w f =
    let size = byte_cnt w.free_map.bit_cnt in
    let from_start : 0 + size ≡ size = omega arith in
    let x =
      inode_write_at-mapped inner w f.file (map_byte w.free_map) size 0 f.allowed
        (rw (f.sector, from_start) f.own) in
    let written : IsWritten w.sectors x.0 free_map_sector (map_byte w.free_map) 0 0 size =
      subst (λ (n : ℕ). IsWritten w.sectors x.0 n (map_byte w.free_map) 0 0 size) f.sector x.3 in
    record {
      after = record w { sectors = x.0; open_inodes = update_open w.open_inodes x.1 };
      returned = rw f.opened (rw x.2 (rw (==-refl size) (if_lem none f.present)));
      map_kept = refl;
      saved = λ pos p. ground (arith, written.bytes pos);
      elsewhere = λ t n. written.elsewhere t (λ pos a b. n pos (omega arith));
    }

-- What an allocation did. `fresh`: it took the lowest free sector, set its bit and no other, and
-- saved the map, touching no sector but those of the map's file. `full`: no sector was free.
pub data Allocated (w : FileSystem) (r : Option (Option ℕ × FileSystem)) : Type 0 where
  fresh :
      (s : ℕ) (after : FileSystem)
      → s < w.free_map.bit_cnt
      → bit w.free_map s ≡ false
      → ((k : ℕ) → k < s → bit w.free_map k ≡ true)
      → ((j : ℕ) → bit after.free_map j ≡ (if s == j then true else bit w.free_map j))
      → IsValid after.free_map
      → IsSaved after
      → ((t : ℕ)
          → ((pos : ℕ)
              → pos < byte_cnt w.free_map.bit_cnt
              → t ≢ block_sector w.sectors free_map_sector (pos / 512))
          → after.sectors t ≡ w.sectors t)
      → r ≡ some (some s, after)
      → Allocated w r
  full :
      ((k : ℕ) → k < w.free_map.bit_cnt → bit w.free_map k ≡ true)
      → r ≡ some (none, w)
      → Allocated w r

one_bit : (f : ℕ → Bool) (k : ℕ) → ¬ Uniform f k 1 false → f k ≡ true
one_bit f k n = elim (Bool-cases (f k)) [
  | inl t ↦ t
  | inr u ↦ absurd (n (λ i p q. let same : k ≡ i = omega arith in rw (← same) u))
]

pub one_within :
    (s j : ℕ) (a b : Bool) → (if within s 1 j then a else b) ≡ (if s == j then a else b)
one_within s j a b = ground arith

-- Changing the map in memory leaves its file.
pub HasMapFile-marked :
    (w : FileSystem) (m : Bitmap)
    → m.bit_cnt ≡ w.free_map.bit_cnt
    → HasMapFile w
    → HasMapFile (record w { free_map = m; map_locked = true })
HasMapFile-marked w m same f = record {
  file = f.file;
  present = f.present;
  opened = f.opened;
  sector = f.sector;
  allowed = f.allowed;
  own = rw same f.own;
}

allocate_returns :
    (w : FileSystem) (s : ℕ) (m : Bitmap) (w2 : FileSystem)
    → w.init_complete ≡ true
    → w.has_map_file ≡ true
    → w.map_locked ≡ false
    → bitmap_scan_and_flip w.free_map 0 1 false ≡ some (s, m)
    → (s == bitmap_error) ≡ false
    → bitmap_write (λ w. none) (record w { free_map = m; map_locked = true }) ≡ some (true, w2)
    → free_map_allocate write_map w ≡ some (some s, unlock_map w2)
unfolding free_map_allocate lock_map unlock_map write_map
allocate_returns w s m w2 done has free found proper wrote =
    let ready : (w.init_complete && w.has_map_file) ≡ true = rw (done, has) refl in
    rw free (rw found (rw proper (rw ready (rw wrote refl))))

-- The rest of `free_map_allocate` after the search.
allocate_found :
    (w : FileSystem) (r : Option (ℕ × Bitmap))
    → w.init_complete ≡ true
    → w.map_locked ≡ false
    → HasMapFile w
    → IsValid w.free_map
    → Flipped w.free_map 0 1 false r
    → bitmap_scan_and_flip w.free_map 0 1 false ≡ r
    → Allocated w (free_map_allocate write_map w)
unfolding free_map_allocate lock_map unlock_map write_map
allocate_found w r done free f v (unchanged all e) found =
    full (λ k p. one_bit (bit w.free_map) k (all k (omega arith) (omega arith)))
      (rw free (rw (found ∙ e) (rw (==-refl bitmap_error) (rw done refl))))
allocate_found w r done free f v (flipped s after p q u least valid same bits e) found =
    let proper : (s == bitmap_error) ≡ false = ground (arith, v.small) in
    let w1 : FileSystem = record w { free_map = after; map_locked = true } in
    let x : WroteMap w1 (bitmap_write (λ w. none) w1) =
      bitmap_write-WroteMap (λ w. none) w1 (HasMapFile-marked w after same f) in
    fresh s (unlock_map x.after) (omega arith) (u s (omega arith) (omega arith))
      (λ k p. one_bit (bit w.free_map) k (least k (omega arith) p))
      (λ j. rw x.map_kept (bits j ∙ one_within s j true (bit w.free_map j))) (rw x.map_kept valid)
      x.saved (λ t n. x.elsewhere t (rw same n))
      (allocate_returns w s after x.after done f.present free (found ∙ e) proper x.returned)

-- With initialisation complete, the lock of the map free, the map valid, and its file open and laid
-- out in sectors of its own, an allocation takes the lowest free sector, marks it and no
-- other, and returns with the map saved and no sector changed outside the map's file; if no sector
-- is free it fails and changes nothing. It does not panic.
pub free_map_allocate-Allocated :
    (w : FileSystem)
    → w.init_complete ≡ true
    → w.map_locked ≡ false
    → HasMapFile w
    → IsValid w.free_map
    → Allocated w (free_map_allocate write_map w)
free_map_allocate-Allocated w done free f v =
    allocate_found w (bitmap_scan_and_flip w.free_map 0 1 false) done free f v
      (bitmap_scan_and_flip-Flipped 0 1 false v (omega arith)) refl
