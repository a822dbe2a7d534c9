-- ===== src/FileSystem.antt =====
-- What the modules of src/filesys share: the contents of the disk as the buffer cache shows it
-- (one get, read, mark and put of a block is one load or one store here, see Cache.Session),
-- the free map in memory, and the open inodes.
use kernel_dev.Prelude.{ℕ, Bool, Option, List, ◌==◌, if◌then◌else◌}
use kernel_dev.Bitmap.{Bitmap}
use kernel_dev.Sector.{Sector}

-- `struct inode`, less its list element and lock. An open inode is known by its sector: opening a
-- sector twice gives the same structure.
pub record Inode : Type 0 where
  pub sector : ℕ
  pub open_cnt : ℕ
  pub removed : Bool
  pub is_dir : Bool
  pub dirty : Bool
  pub deny_write_cnt : ℕ
  pub length : ℕ

pub record FileSystem : Type 0 where
  pub sectors : ℕ → Sector
  pub free_map : Bitmap
  -- whether `free_map_file` is not null
  pub has_map_file : Bool
  pub init_complete : Bool
  -- whether the current thread holds `map_lock`
  pub map_locked : Bool
  pub open_inodes : List Inode

-- Contents of one sector replaced.
abbrev pub set_sector : (ℕ → Sector) → ℕ → Sector → ℕ → Sector
set_sector f s d t = if s == t then d else f t

-- `bitmap_write (free_map, free_map_file)`: whether it wrote the whole bitmap, and the file system
-- afterwards.
abbrev pub Persist : Type 0
Persist = FileSystem → Option (Bool × FileSystem)
