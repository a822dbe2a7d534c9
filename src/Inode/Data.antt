-- ===== src/Inode/Data.antt =====
-- Reading and writing the bytes of a file: `inode_read_at` and `inode_write_at` of
-- src/filesys/inode.c. A buffer is a function from offsets to bytes. Sizes and offsets are
-- `off_t` values that are not negative and do not overflow. The lock of the inode is held only for
-- each single access to the length.
pub mod Mapped
pub mod Chunks
pub mod Range
use kernel_dev.Prelude.{
  ℕ, zero, suc, ◌+◌, ◌-◌, ◌*◌, ◌/◌, ◌%◌, Bool, true, false, not, Option, none, some, ◌==◌, ltb, leb,
  if◌then◌else◌, ◌>>=◌, min,
}
use kernel_dev.Sector.{Sector, copy, sector_size}
use kernel_dev.FileSystem.{FileSystem, Inode, set_sector, Persist}
use kernel_dev.Inode.Index.{byte_to_sector}

abbrev pub Buffer : Type 0
Buffer = ℕ → ℕ

-- The bytes from `offset` to the end of its sector.
abbrev pub sector_left : ℕ → ℕ
sector_left offset = sector_size - offset % sector_size

module _ (persist : Persist) where
  -- The loop of `inode_read_at` on an inode of `length` bytes: the bytes read, the buffer, and the
  -- file system. Each round reads at least one byte, so that `size` rounds are enough.
  unfoldable pub read_loop :
      ℕ → FileSystem → ℕ → ℕ → Buffer → ℕ → ℕ → ℕ → Option (ℕ × Buffer × FileSystem)
  read_loop zero w inode length buffer size offset bytes_read = some (bytes_read, buffer, w)
  read_loop (suc fuel) w inode length buffer size offset bytes_read =
      let left = length - offset in
      let min_left = if ltb left (sector_left offset) then left else sector_left offset in
      let chunk_size = if ltb size min_left then size else min_left in
      let round = byte_to_sector persist w inode offset >>= λ (sector_idx, w1).
      let rest =
        read_loop fuel w1 inode length
          (copy buffer bytes_read (w1.sectors sector_idx) (offset % sector_size) chunk_size)
          (size - chunk_size) (offset + chunk_size) (bytes_read + chunk_size) in
      if chunk_size == 0 then some (bytes_read, buffer, w1) else rest in
      if size == 0
      then some (bytes_read, buffer, w)
      else if leb length offset
      then some (bytes_read, buffer, w)
      else round

  unfoldable pub inode_read_at :
      FileSystem → Inode → Buffer → ℕ → ℕ → Option (ℕ × Buffer × FileSystem)
  inode_read_at w inode buffer size offset =
      read_loop size w inode.sector inode.length buffer size offset 0

  -- The loop of `inode_write_at`: the bytes written, the bytes left to write, the offset reached,
  -- and the file system.
  unfoldable pub write_loop :
      ℕ → FileSystem → ℕ → Buffer → ℕ → ℕ → ℕ → Option (ℕ × ℕ × ℕ × FileSystem)
  write_loop zero w inode buffer size offset bytes_written = some (bytes_written, size, offset, w)
  write_loop (suc fuel) w inode buffer size offset bytes_written =
      let chunk_size = if ltb size (sector_left offset) then size else sector_left offset in
      let round = byte_to_sector persist w inode offset >>= λ (sector_idx, w1).
      let w2 : FileSystem = record w1 {
        sectors =
            set_sector w1.sectors sector_idx
              (copy (w1.sectors sector_idx) (offset % sector_size) buffer bytes_written chunk_size);
      } in
      let rest =
        write_loop fuel w2 inode buffer (size - chunk_size) (offset + chunk_size)
          (bytes_written + chunk_size) in
      if sector_idx == 0
      then some (bytes_written, size, offset, w1)
      else if chunk_size == 0
      then some (bytes_written, size, offset, w1)
      else rest in
      if size == 0 then some (bytes_written, size, offset, w) else round

  -- The new length is `size + offset` as the loop leaves them.
  unfoldable pub inode_write_at :
      FileSystem → Inode → Buffer → ℕ → ℕ → Option (ℕ × Inode × FileSystem)
  inode_write_at w inode buffer size offset =
      if inode.deny_write_cnt == 0
      then (write_loop size w inode.sector buffer size offset 0
          >>= λ (bytes_written, size', offset', w1). some (
            bytes_written,
            (if ltb inode.length (size' + offset')
                then record inode { dirty = true; length = size' + offset' }
                else inode),
            w1,
          ))
      else some (0, inode, w)
