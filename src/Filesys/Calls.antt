-- ===== src/Filesys/Calls.antt =====
-- The calls of src/filesys/filesys.c on paths: creating, changing to, making, opening and removing; the
-- format of a new file system, and its end.
use kernel_dev.Prelude.{
  ℕ, Bool, true, false, not, Option, none, some, List, ◌==◌, ◌&&◌, if◌then◌else◌, ◌>>=◌, length,
}
use kernel_dev.FileSystem.{FileSystem, Inode, Persist}
use kernel_dev.FreeMap.{
  root_dir_sector, free_map_init, free_map_allocate, free_map_flush, free_map_release,
}
use kernel_dev.MapFile.{write_map, free_map_create, free_map_close, free_map_open}
use kernel_dev.Inode.Data.{Buffer}
use kernel_dev.Inode.Open.{find_open, inode_init, inode_create}
use kernel_dev.File.{File, file_open}
use kernel_dev.Directory.{Name, Dir, Session, dir_close, dir_lookup, dir_add, dir_create}
use kernel_dev.Directory.Removal.{dir_remove}
use kernel_dev.Filesys.{Process, close_inode, is_directory, filesys_path_to_dir}

module _ (persist : Persist) where
  -- What `filesys_create` and `filesys_mkdir` do at their end: a sector that was allocated, and not
  -- used, is released.
  unfoldable pub finish_new : Session → Dir → ℕ → Bool → Option (Bool × Session)
  finish_new y dir sector success =
      (if not success && not (sector == 0)
        then free_map_release persist y.files sector 1
        else some y.files)
      >>= λ w. dir_close persist (record y { files = w }) dir >>= λ y1. some (success, y1)

  unfoldable pub create_in : Session → Option (Dir × Name) → ℕ → Buffer → Option (Bool × Session)
  create_in y none initial_size e = some (false, y)
  create_in y (some (dir, filename)) initial_size e =
      free_map_allocate persist y.files >>= λ (sector, w).
      create_at (record y { files = w }) dir filename sector initial_size e
    where
      create_at : Session → Dir → Name → Option ℕ → ℕ → Buffer → Option (Bool × Session)
      create_at y dir filename none initial_size e = finish_new y dir 0 false
      create_at y dir filename (some inode_sector) initial_size e =
          inode_create persist y.files inode_sector initial_size false >>= λ w.
          dir_add persist (record y { files = w }) dir filename inode_sector e e
          >>= λ (success, y1). finish_new y1 dir inode_sector success

  unfoldable pub filesys_create : Process → List ℕ → ℕ → Buffer → Option (Bool × Process)
  filesys_create p name initial_size e =
      let create = filesys_path_to_dir persist p name e >>= λ (found, y).
      create_in y found initial_size e >>= λ (success, y1).
      some (success, record p { session = y1 }) in
      if length name == 0 then some (false, p) else create

  unfoldable pub change_to : Process → Option (Dir × Name) → Buffer → Option (Bool × Process)
  change_to p none e = some (false, p)
  change_to p (some (dir, filename)) e =
      dir_lookup persist p.session dir filename e >>= λ (inode, y).
      enter y (record p { session = y }) dir inode
    where
      -- The inode of a file that is no directory stays open.
      enter : Session → Process → Dir → Option ℕ → Option (Bool × Process)
      enter y p dir none = dir_close persist y dir >>= λ y1. some (false, record p { session = y1 })
      enter y p dir (some inode) =
          let stay = dir_close persist y dir >>= λ y1. some (false, record p { session = y1 }) in
          let change = dir_close persist y dir >>= λ y1. dir_close persist y1 p.cur_dir >>= λ y2.
          some (true, record { session = y2; cur_dir = record { inode = inode; pos = 40 } }) in
          if is_directory persist y (some inode) then change else stay

  unfoldable pub filesys_chdir : Process → List ℕ → Buffer → Option (Bool × Process)
  filesys_chdir p name e =
      let change = filesys_path_to_dir persist p name e >>= λ (found, y).
      change_to (record p { session = y }) found e in
      if length name == 0 then some (false, p) else change

  -- The parent of the new directory is the current directory of the thread.
  unfoldable pub make_in : Session → ℕ → Option (Dir × Name) → Buffer → Option (Bool × Session)
  make_in y cur_dir none e = some (false, y)
  make_in y cur_dir (some (dir, filename)) e =
      dir_lookup persist y dir filename e >>= λ (inode, y1).
      make_new y1 cur_dir dir filename inode e
    where
      make_at : Session → ℕ → Dir → Name → Option ℕ → Buffer → Option (Bool × Session)
      make_at y cur_dir dir filename none e = finish_new y dir 0 false
      make_at y cur_dir dir filename (some inode_sector) e =
          dir_create persist y cur_dir inode_sector 16 e >>= λ (made, y1).
          (if made then dir_add persist y1 dir filename inode_sector e e else some (false, y1))
          >>= λ (success, y2). finish_new y2 dir inode_sector success

      make_new : Session → ℕ → Dir → Name → Option ℕ → Buffer → Option (Bool × Session)
      make_new y cur_dir dir filename (some inode) e = dir_close persist y dir >>= λ y1.
          close_inode persist y1 (some inode) >>= λ y2. some (false, y2)
      make_new y cur_dir dir filename none e = free_map_allocate persist y.files >>= λ (sector, w).
          make_at (record y { files = w }) cur_dir dir filename sector e

  unfoldable pub filesys_mkdir : Process → List ℕ → Buffer → Option (Bool × Process)
  filesys_mkdir p name e =
      let make = filesys_path_to_dir persist p name e >>= λ (found, y).
      make_in y (p.cur_dir).inode found e >>= λ (success, y1).
      some (success, record p { session = y1 }) in
      if length name == 0 then some (false, p) else make

  unfoldable pub open_in : Session → Option (Dir × Name) → Buffer → Option (Option File × Session)
  open_in y none e = some (none, y)
  open_in y (some (dir, filename)) e = dir_lookup persist y dir filename e >>= λ (inode, y1).
      dir_close persist y1 dir >>= λ y2. some (file_of y2.files inode, y2)
    where
      file_at : Option Inode → Option File
      file_at none = none
      file_at (some i) = some (file_open i)

      file_of : FileSystem → Option ℕ → Option File
      file_of w none = none
      file_of w (some inode) = file_at (find_open w.open_inodes inode)

  unfoldable pub filesys_open : Process → List ℕ → Buffer → Option (Option File × Process)
  filesys_open p name e = filesys_path_to_dir persist p name e >>= λ (found, y).
      open_in y found e >>= λ (file, y1). some (file, record p { session = y1 })

  unfoldable pub remove_in : Session → Option (Dir × Name) → Buffer → Option (Bool × Session)
  remove_in y none e = some (false, y)
  remove_in y (some (dir, filename)) e = dir_remove persist y dir filename e >>= λ (success, y1).
      dir_close persist y1 dir >>= λ y2. some (success, y2)

  unfoldable pub filesys_remove : Process → List ℕ → Buffer → Option (Bool × Process)
  filesys_remove p name e = filesys_path_to_dir persist p name e >>= λ (found, y).
      remove_in y found e >>= λ (success, y1). some (success, record p { session = y1 })

-- `filesys_done` after the cache is flushed: the sectors are what the cache shows in any case.
unfoldable pub filesys_done : FileSystem → Option FileSystem
filesys_done w = free_map_flush write_map w >>= λ w1. free_map_close w1

unfoldable pub do_format : Session → Buffer → Option Session
do_format y e = free_map_create y.files >>= λ w.
    dir_create write_map (record y { files = w }) root_dir_sector root_dir_sector 16 e
    >>= λ (made, y1).
        if made then (free_map_close y1.files >>= λ w1. some (record y1 { files = w1 })) else none

-- `filesys_init` on a device of `size` sectors, with the storage that `bitmap_create` is given.
unfoldable pub filesys_init : Session → Bool → ℕ → Bool → Option (List ℕ) → Buffer → Option Session
filesys_init y format size header storage e =
    free_map_init (inode_init y.files) size header storage >>= λ w.
    (if format then do_format (record y { files = w }) e else some (record y { files = w }))
    >>= λ y1. free_map_open y1.files >>= λ w1. some (record y1 { files = w1 })
