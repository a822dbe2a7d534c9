-- ===== src/File/Position.antt =====
-- The position of an open file of src/filesys/file.c: writing, going back, reading.
use kernel_dev.Prelude.{ℕ, ◌+◌, ◌≡◌, ◌<◌, refl, some, arith}
use kernel_dev.FileSystem.{FileSystem, Inode, Persist}
use kernel_dev.Inode.Data.{Buffer}
use kernel_dev.Inode.Data.Chunks.{IsOwnRange}
use kernel_dev.Inode.Data.Range.{inode_write_at-mapped, inode_read_at-written}
use kernel_dev.Inode.Open.{find_open, update_open}
use kernel_dev.Inode.Open.Counts.{found_again}
use kernel_dev.File.{
  File, file_get_inode, file_read, file_read_at, file_write, file_write_at, file_seek, file_tell,
}

-- Writing, where it is not denied, at the file's position, over blocks that have sectors of their own, moves the
-- position behind the bytes written; going back and reading as many gives these bytes, and moves
-- the position there again.
pub file_read-file_write :
    (persist : Persist) (w : FileSystem) (file : File) (i : Inode) (buffer other : Buffer)
    (size : ℕ)
    → file_get_inode w file ≡ some i
    → i.deny_write_cnt ≡ 0
    → IsOwnRange w.sectors i.sector file.pos (file.pos + size)
    → (w' : FileSystem) × (file' : File) × (back : Buffer) × (file_write persist w file buffer size
        ≡ some (size, file', w'))
      × (file_tell file' ≡ file_tell file + size)
      × (file_read persist w' (file_seek file' (file_tell file)) other size
          ≡ some (size, back, file', w'))
      × ((k : ℕ) → k < size → back k ≡ buffer k)
unfolding file_write file_write_at file_read file_read_at file_seek file_tell file_get_inode
file_read-file_write persist w file i buffer other size found allowed own =
    let x = inode_write_at-mapped persist w i buffer size file.pos allowed own in
    let w' : FileSystem = record w { sectors = x.0; open_inodes = update_open w.open_inodes x.1 } in
    let again : find_open w'.open_inodes file.inode ≡ some x.1 =
      found_again w.open_inodes i x.1 file.inode found x.5 in
    let r =
      inode_read_at-written persist w' x.1 w.sectors buffer other size file.pos (rw x.5 x.3)
        (rw x.5 own.mapped) (omega (arith, x.4)) in
    (
      w',
      record file { pos = file.pos + size },
      r.0,
      rw found (rw x.2 refl),
      refl,
      rw again (rw r.1 refl),
      r.2,
    )
