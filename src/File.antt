-- ===== src/File.antt =====
-- src/filesys/file.c: an open file is an inode, named by its sector in the table of open inodes, with
-- a position and a mark that it denies writes. `none` is a panic; the allocation of a file succeeds.
pub mod Position
use kernel_dev.Prelude.{ℕ, ◌+◌, Bool, true, false, Option, none, some, if◌then◌else◌, ◌>>=◌}
use kernel_dev.FileSystem.{FileSystem, Inode, Persist}
use kernel_dev.Inode.Data.{Buffer, inode_read_at, inode_write_at}
use kernel_dev.Inode.Open.{
  find_open, update_open, inode_reopen, inode_close, inode_deny_write, inode_allow_write,
}

pub record File : Type 0 where
  pub inode : ℕ
  pub pos : ℕ
  pub deny_write : Bool

-- The inode behind a file; a file whose inode is not open is a dangling pointer.
unfoldable pub file_get_inode : FileSystem → File → Option Inode
file_get_inode w file = find_open w.open_inodes file.inode

-- `file_open` of an inode that is not null.
unfoldable pub file_open : Inode → File
file_open i = record { inode = i.sector; pos = 0; deny_write = false }

unfoldable pub file_reopen : FileSystem → File → Option (File × FileSystem)
file_reopen w file =
    file_get_inode w file >>= λ i. let (i', w') = inode_reopen w i in some (file_open i', w')

unfoldable pub file_deny_write : FileSystem → File → Option (File × FileSystem)
file_deny_write w file =
    if file.deny_write
    then some (file, w)
    else (file_get_inode w file >>= λ i.
        inode_deny_write w i >>= λ (i', w'). some (record file { deny_write = true }, w'))

unfoldable pub file_allow_write : FileSystem → File → Option (File × FileSystem)
file_allow_write w file =
    if file.deny_write
    then (file_get_inode w file >>= λ i.
        inode_allow_write w i >>= λ (i', w'). some (record file { deny_write = false }, w'))
    else some (file, w)

unfoldable pub file_length : FileSystem → File → Option ℕ
file_length w file = file_get_inode w file >>= λ i. some i.length

unfoldable pub file_seek : File → ℕ → File
file_seek file new_pos = record file { pos = new_pos }

unfoldable pub file_tell : File → ℕ
file_tell file = file.pos

module _ (persist : Persist) where
  unfoldable pub file_close : FileSystem → File → Option FileSystem
  file_close w file = file_allow_write w file >>= λ (file', w').
      file_get_inode w' file' >>= λ i. inode_close persist w' i

  unfoldable pub file_read_at :
      FileSystem → File → Buffer → ℕ → ℕ → Option (ℕ × Buffer × FileSystem)
  file_read_at w file buffer size file_ofs =
      file_get_inode w file >>= λ i. inode_read_at persist w i buffer size file_ofs

  unfoldable pub file_read :
      FileSystem → File → Buffer → ℕ → Option (ℕ × Buffer × File × FileSystem)
  file_read w file buffer size =
      file_read_at w file buffer size file.pos >>= λ (bytes_read, buffer', w').
      some (bytes_read, buffer', record file { pos = file.pos + bytes_read }, w')

  -- The inode keeps its new length.
  unfoldable pub file_write_at : FileSystem → File → Buffer → ℕ → ℕ → Option (ℕ × FileSystem)
  file_write_at w file buffer size file_ofs = file_get_inode w file >>= λ i.
      inode_write_at persist w i buffer size file_ofs >>= λ (bytes_written, i', w').
      some (bytes_written, record w' { open_inodes = update_open w'.open_inodes i' })

  unfoldable pub file_write : FileSystem → File → Buffer → ℕ → Option (ℕ × File × FileSystem)
  file_write w file buffer size =
      file_write_at w file buffer size file.pos >>= λ (bytes_written, w').
      some (bytes_written, record file { pos = file.pos + bytes_written }, w')
