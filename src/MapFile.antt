-- ===== src/MapFile.antt =====
-- The free map and its file: `bitmap_write` of src/lib/kernel/bitmap.c on the open inode of the
-- map, which src/filesys/free-map.c calls, and the creation and closing of that file.
pub mod Allocate
pub mod Release
pub mod Growth
use kernel_dev.Prelude.{
  ℕ, ◌/◌, ◌%◌, ◌^◌, ◌*◌, Bool, true, false, Option, none, some, ◌==◌, ◌>>=◌, get_or, if◌then◌else◌,
  zero, suc, ◌+◌, ◌-◌, List, [], ◌∷◌, set,
}
use Prim.Native.Nat.{bit_and}
use kernel_dev.Sector.{word_at}
use kernel_dev.Bitmap.{Bitmap, byte_cnt, elem_cnt, last_mask}
use kernel_dev.FileSystem.{FileSystem, Inode, Persist}
use kernel_dev.FreeMap.{free_map_sector, free_map_flush, lock_map, unlock_map}
use kernel_dev.Inode.Data.{Buffer, inode_read_at, inode_write_at}
use kernel_dev.Inode.Open.{find_open, update_open, inode_create, inode_open, inode_close}

-- Byte `k` of the elements of a bitmap, which the machine stores low byte first.
unfoldable pub map_byte : Bitmap → ℕ → ℕ
map_byte b k = get_or b.bits (k / 4) 0 / 256 ^ (k % 4) % 256

-- `bitmap_write (free_map, free_map_file)` where `inner` writes the map for an allocation within.
-- Without a map file the pointer is null, and the write a fault.
unfoldable pub bitmap_write : Persist → Persist
bitmap_write inner w =
    let size = byte_cnt w.free_map.bit_cnt in
    if w.has_map_file
    then (find_open w.open_inodes free_map_sector >>= λ inode.
        inode_write_at inner w inode (map_byte w.free_map) size 0 >>= λ (written, inode', w').
        some (written == size, record w' { open_inodes = update_open w'.open_inodes inode' }))
    else none

-- An allocation within the write finds the lock of the map taken, or the map not yet complete: it
-- does not write the map again.
unfoldable pub write_map : Persist
write_map = bitmap_write (λ w. none)

-- A failed write is a PANIC.
unfoldable pub free_map_create : FileSystem → Option FileSystem
free_map_create w =
    inode_create write_map (record w { init_complete = false }) free_map_sector
      (byte_cnt w.free_map.bit_cnt) false
    >>= λ w1.
        let (inode, w2) = inode_open w1 free_map_sector in
        write_map (record w2 { has_map_file = true }) >>= λ (written, w3).
        if written then some w3 else none

unfoldable pub free_map_close : FileSystem → Option FileSystem
free_map_close w = free_map_flush write_map (record w { init_complete = true }) >>= λ w1.
    find_open w1.open_inodes free_map_sector >>= λ inode. inode_close write_map w1 inode

-- The words that a buffer holds in place of those of a list, from word `k` on.
unfoldable pub words_of : Buffer → ℕ → List ℕ → List ℕ
words_of buffer k [] = []
words_of buffer k (x ∷ words) = word_at buffer k ∷ words_of buffer (k + 1) words

-- `bitmap_read (free_map, free_map_file)`: what the file does not have stays as it was in memory.
unfoldable pub bitmap_read : FileSystem → Option (Bool × FileSystem)
bitmap_read w =
    let size = byte_cnt w.free_map.bit_cnt in
    let last = elem_cnt w.free_map.bit_cnt - 1 in
    let read = find_open w.open_inodes free_map_sector >>= λ inode.
    inode_read_at write_map w inode (map_byte w.free_map) size 0 >>= λ (bytes_read, buffer, w').
    let words = words_of buffer 0 w'.free_map.bits in
    some (
      bytes_read == size,
      record w' {
        free_map = record w'.free_map {
          bits = set words last (bit_and (get_or words last 0) (last_mask w'.free_map));
        };
      },
    ) in
    if w.free_map.bit_cnt == 0 then some (true, w) else read

-- A failed read is a PANIC.
unfoldable pub free_map_open : FileSystem → Option FileSystem
free_map_open w = lock_map w >>= λ w0.
    let (inode, w1) = inode_open w0 free_map_sector in
    bitmap_read (record w1 { has_map_file = true }) >>= λ (success, w2).
    if success then some (unlock_map w2) else none
