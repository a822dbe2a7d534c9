-- ===== src/Directory/Removal.antt =====
-- `dir_remove` of src/filesys/directory.c. A directory goes only if it is empty and nobody else has it
-- open; it is closed before its entry is erased.
use kernel_dev.Prelude.{
  ℕ, ◌*◌, Bool, true, false, Option, none, some, ◌==◌, ltb, if◌then◌else◌, ◌>>=◌,
}
use kernel_dev.Sector.{word_at}
use kernel_dev.FileSystem.{FileSystem, Inode, Persist}
use kernel_dev.Inode.Data.{Buffer, inode_write_at}
use kernel_dev.Inode.Open.{find_open, update_open, inode_open, inode_remove}
use kernel_dev.Directory.{
  Name, Dir, Session, entry_size, set_byte, inode_lock, inode_release, dir_inode, lookup,
  dir_readdir, dir_close,
}

abbrev pub is_none : Option Name → Bool
is_none none = true
is_none (some name) = false

module _ (persist : Persist) where
  -- `dir_remove` on a directory that is named by the entry, up to its closing: whether it may go.
  unfoldable pub close_removed : Session → Inode → Buffer → Option (Bool × Session)
  close_removed y i e =
      let to_remove : Dir = record { inode = i.sector; pos = 2 * entry_size } in
      let empty = dir_readdir persist y to_remove e >>= λ (name, to_remove', y1).
      dir_close persist y1 to_remove' >>= λ y2. some (is_none name, y2) in
      if ltb 1 i.open_cnt then (dir_close persist y to_remove >>= λ y1. some (false, y1)) else empty

  -- `done`: a file is closed; a directory was closed before.
  unfoldable pub remove_done : Session → Dir → ℕ → Bool → Bool → Option (Bool × Session)
  remove_done y dir inode is_dir success =
      (if is_dir then some y else dir_close persist y (record { inode = inode; pos = 0 })) >>= λ y1.
      inode_release y1 dir.inode >>= λ y2. some (success, y2)

  -- The mark of the inode is only set if it is still open.
  unfoldable pub mark_removed : FileSystem → Option Inode → FileSystem
  mark_removed w none = w
  mark_removed w (some i) = inode_remove w i

  unfoldable pub erase_entry : Session → Dir → Inode → Buffer → ℕ → Option (Bool × Session)
  erase_entry y dir i e ofs = dir_inode y.files dir >>= λ d.
      inode_write_at persist y.files d (set_byte e 19 0) entry_size ofs >>= λ (n, d', w1).
      let w2 : FileSystem = record w1 { open_inodes = update_open w1.open_inodes d' } in
      if n == entry_size
      then remove_done (record y { files = mark_removed w2 (find_open w2.open_inodes i.sector) })
          dir i.sector i.is_dir true
      else remove_done (record y { files = w2 }) dir i.sector i.is_dir false

  unfoldable pub remove_found :
      Session → Dir → Option (Buffer × ℕ) → Buffer → Option (Bool × Session)
  remove_found y dir none e = none
  remove_found y dir (some (entry, ofs)) e =
      let (i, w) = inode_open y.files (word_at entry 0) in
      let y1 : Session = record y { files = w } in
      (if i.is_dir then close_removed y1 i e else some (true, y1)) >>= λ (go_on, y2).
      if go_on then erase_entry y2 dir i entry ofs else remove_done y2 dir i.sector i.is_dir false

  unfoldable pub dir_remove : Session → Dir → Name → Buffer → Option (Bool × Session)
  dir_remove y dir name e = inode_lock y dir.inode >>= λ y1. dir_inode y1.files dir >>= λ i.
      lookup persist y1.files i name e >>= λ (found, w).
      remove_found (record y1 { files = w }) dir found e
