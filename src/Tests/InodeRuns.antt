-- ===== src/Tests/InodeRuns.antt =====
-- src/filesys/inode.c and the free map on a small disk: the file of sector 10 has 700 bytes in the
-- sectors 20 and 21, the map's file is sector 0 with its one block in sector 5.
use kernel_dev.Prelude.{
  ℕ, ◌+◌, ◌-◌, ◌/◌, ◌≡◌, ◌<◌, ◌≤◌, refl, true, false, some, [], ◌∷◌, arith, if◌then◌else◌, ◌==◌,
  min, max,
}
use kernel_dev.Sector.{Sector, zeros, put_word, word_at, word_at-put_word, word_at-zeros}
use kernel_dev.FileSystem.{FileSystem, Inode}
use kernel_dev.Bitmap.{byte_cnt, elem_cnt}
use kernel_dev.Bitmap.View.{bit, IsValid}
use kernel_dev.Inode.Index.Lookup.{block_sector}
use kernel_dev.Inode.Data.{Buffer, inode_read_at, inode_write_at}
use kernel_dev.Inode.Data.Mapped.{IsMapped, IsRead, inode_read_at-mapped}
use kernel_dev.Inode.Data.Chunks.{IsData, IsOwnRange, IsWritten}
use kernel_dev.Inode.Data.Range.{inode_write_at-mapped, inode_read_at-inode_write_at}
use kernel_dev.Inode.Open.{find_open, inode_open, inode_close}
use kernel_dev.Inode.Open.Counts.{IsTable, one_more, none_open}
use kernel_dev.Inode.Open.Sharing.{Opened, inode_open-Opened, Closed, inode_close-Closed}
use kernel_dev.File.{File, file_get_inode, file_write, file_read, file_seek, file_tell}
use kernel_dev.File.Position.{file_read-file_write}
use kernel_dev.FreeMap.{free_map_allocate, free_map_release}
use kernel_dev.MapFile.{write_map}
use kernel_dev.MapFile.Allocate.{HasMapFile, Allocated, free_map_allocate-Allocated}
use kernel_dev.Prelude.Bits.{test_bit}
use kernel_dev.Inode.Index.{entry}
use kernel_dev.MapFile.Growth.{Grown, entry-Grown}
use kernel_dev.MapFile.Release.{Released, free_map_release-Released}

abbrev pub disk : ℕ → Sector
disk s =
    if s == 10
    then put_word (put_word zeros 0 20) 1 21
    else if s == 0
    then put_word zeros 0 5
    else zeros

abbrev map_inode : Inode
map_inode = record {
  sector = 0;
  open_cnt = 1;
  removed = false;
  is_dir = false;
  dirty = false;
  deny_write_cnt = 0;
  length = 8;
}

abbrev pub file : Inode
file = record {
  sector = 10;
  open_cnt = 2;
  removed = false;
  is_dir = false;
  dirty = true;
  deny_write_cnt = 0;
  length = 700;
}

-- The sectors 0, 1, 5, 10, 20 and 21 of 40 are in use.
abbrev pub system : FileSystem
system = record {
  sectors = disk;
  free_map = record { bit_cnt = 40; bits = 0x300423 ∷ 0 ∷ [] };
  has_map_file = true;
  init_complete = true;
  map_locked = false;
  open_inodes = file ∷ map_inode ∷ [];
}

file_word : (j : ℕ) → word_at (disk 10) j ≡ (if 1 == j then 21 else if 0 == j then 20 else 0)
file_word j = ground (
  arith,
  word_at-put_word (put_word zeros 0 20) 1 j 21 (omega arith),
  word_at-put_word zeros 0 j 20 (omega arith),
  word_at-zeros j,
)

map_word : (j : ℕ) → word_at (disk 0) j ≡ (if 0 == j then 5 else 0)
map_word j = ground (arith, word_at-put_word zeros 0 j 5 (omega arith), word_at-zeros j)

pub file_block :
    (b : ℕ) → block_sector disk 10 b ≡ (if 1 == b then 21 else if 0 == b then 20 else 0)
unfolding block_sector
file_block b = ground (arith, file_word b, file_word 123, file_word 124)

map_block : (b : ℕ) → block_sector disk 0 b ≡ (if 0 == b then 5 else 0)
unfolding block_sector
map_block b = ground (arith, map_word b, map_word 123, map_word 124)

file-IsMapped : (lo hi : ℕ) → hi ≤ 1024 → IsMapped disk 10 lo hi
file-IsMapped lo hi h pos p q e = ground (arith, file_block (pos / 512))

file-IsData : (t : ℕ) → 20 ≤ t → IsData disk 10 t
file-IsData t h = record {
  not_inode = λ e. omega arith;
  not_indirect = λ e. ground (arith, file_word 123);
  not_two = λ e. ground (arith, file_word 124);
  not_second = λ j two. absurd (two (file_word 124));
}

pub file-IsOwnRange : (lo hi : ℕ) → hi ≤ 1024 → IsOwnRange disk 10 lo hi
file-IsOwnRange lo hi h = record {
  mapped = file-IsMapped lo hi h;
  is_data = λ pos p q.
      file-IsData (block_sector disk 10 (pos / 512)) (ground (arith, file_block (pos / 512)));
  own = λ pos b p q e. ground (arith, file_block (pos / 512), file_block b);
}

map-IsOwnRange : IsOwnRange disk 0 0 8
map-IsOwnRange = record {
  mapped = λ pos p q e. ground (arith, map_block (pos / 512));
  is_data = λ pos p q.
      let five : block_sector disk 0 (pos / 512) ≡ 5 = ground (arith, map_block (pos / 512)) in
      rw five (record {
        not_inode = λ e. omega arith;
        not_indirect = λ e. ground (arith, map_word 123);
        not_two = λ e. ground (arith, map_word 124);
        not_second = λ j two. absurd (two (map_word 124));
      });
  own = λ pos b p q e. ground (arith, map_block (pos / 512), map_block b);
}

system-HasMapFile : HasMapFile system
unfolding find_open byte_cnt elem_cnt
system-HasMapFile = record {
  file = map_inode;
  present = refl;
  opened = refl;
  sector = refl;
  allowed = refl;
  own = map-IsOwnRange;
}

system-IsValid : IsValid system.free_map
system-IsValid = omega arith

system-IsTable : IsTable system.open_inodes
unfolding find_open
system-IsTable =
    one_more file (map_inode ∷ []) (omega arith) refl
      (one_more map_inode [] (omega arith) refl none_open)

abbrev letters : Buffer
letters k = 97 + k

inode_read_at-mapped_example :
    (buffer' : Buffer) × (inode_read_at write_map system file letters 300 500
      ≡ some (min 300 (700 - 500), buffer', system))
    × IsRead disk 10 letters 0 500 (min 300 (700 - 500)) buffer'
inode_read_at-mapped_example =
    inode_read_at-mapped write_map system file letters 300 500 (file-IsMapped 500 700 (omega arith))

inode_write_at-mapped_example :
    (after : ℕ → Sector) × (i' : Inode) × (inode_write_at write_map system file letters 300 500
      ≡ some (300, i', record system { sectors = after }))
    × IsWritten disk after 10 letters 0 500 300
    × (i'.length ≡ max 700 (500 + 300))
    × (i'.sector ≡ 10)
inode_write_at-mapped_example =
    inode_write_at-mapped write_map system file letters 300 500 refl
      (file-IsOwnRange 500 800 (omega arith))

inode_read_at-inode_write_at_example :
    (w' : FileSystem) × (i' : Inode) × (back : Buffer) × (inode_write_at write_map system file
        letters 300 500
      ≡ some (300, i', w'))
    × (inode_read_at write_map w' i' zeros 300 500 ≡ some (300, back, w'))
    × ((k : ℕ) → k < 300 → back k ≡ letters k)
inode_read_at-inode_write_at_example =
    inode_read_at-inode_write_at write_map system file letters zeros 300 500 refl
      (file-IsOwnRange 500 800 (omega arith))

inode_open-Opened_example : Opened system 10 (inode_open system 10)
inode_open-Opened_example = inode_open-Opened system 10 system-IsTable

inode_close-Closed_example : Closed system file (inode_close write_map system file)
unfolding find_open
inode_close-Closed_example =
    inode_close-Closed write_map system file system-IsTable refl refl (omega arith)

free_map_allocate-Allocated_example : Allocated system (free_map_allocate write_map system)
free_map_allocate-Allocated_example =
    free_map_allocate-Allocated system refl refl system-HasMapFile system-IsValid

free_map_release-Released_example : Released system 21 (free_map_release write_map system 21 1)
free_map_release-Released_example =
    free_map_release-Released system 21 refl system-HasMapFile system-IsValid (omega arith)

abbrev opened_file : File
opened_file = record { inode = 10; pos = 500; deny_write = false }

file_read-file_write_example :
    (w' : FileSystem) × (file' : File) × (back : Buffer) × (file_write write_map system opened_file
        letters 300
      ≡ some (300, file', w'))
    × (file_tell file' ≡ file_tell opened_file + 300)
    × (file_read write_map w' (file_seek file' (file_tell opened_file)) zeros 300
        ≡ some (300, back, file', w'))
    × ((k : ℕ) → k < 300 → back k ≡ letters k)
unfolding file_get_inode find_open
file_read-file_write_example =
    file_read-file_write write_map system opened_file file letters zeros 300 refl refl
      (file-IsOwnRange 500 800 (omega arith))

entry-Grown_example : Grown system 10 2 (entry write_map system 10 2)
unfolding bit test_bit
entry-Grown_example =
    entry-Grown system 10 2 refl refl system-HasMapFile system-IsValid refl
      (λ pos p e. ground (arith, map_block (pos / 512))) (file_word 2)
