-- ===== src/FreeMap.antt =====
-- src/filesys/free-map.c: the map of sectors in use. Writing the map to its file goes through the
-- inode layer, which allocates from the map again: it is the argument `persist` here. The lock of
-- the map is held throughout each function.
use kernel_dev.Prelude.{
  ℕ, Bool, true, false, not, Option, none, some, List, ◌==◌, ◌&&◌, if◌then◌else◌, ◌>>=◌,
}
use kernel_dev.Bitmap.{
  bitmap_error, bitmap_create, bitmap_mark, bitmap_all, bitmap_set_multiple, bitmap_scan_and_flip,
}
use kernel_dev.FileSystem.{FileSystem, Persist}

abbrev pub free_map_sector : ℕ
free_map_sector = 0

abbrev pub root_dir_sector : ℕ
root_dir_sector = 1

-- `free_map_init` for a device of `size` sectors, with the storage that `bitmap_create` is given.
-- A null bitmap is a PANIC.
unfoldable pub free_map_init : FileSystem → ℕ → Bool → Option (List ℕ) → Option FileSystem
free_map_init w size header storage = bitmap_create size header storage >>= λ created.
    created >>= λ b. some (record w {
      free_map = bitmap_mark (bitmap_mark b free_map_sector) root_dir_sector;
      map_locked = false;
      init_complete = true;
    })

-- `lock_acquire (&map_lock)`: a thread that holds the lock already panics.
unfoldable pub lock_map : FileSystem → Option FileSystem
lock_map w = if w.map_locked then none else some (record w { map_locked = true })

unfoldable pub unlock_map : FileSystem → FileSystem
unlock_map w = record w { map_locked = false }

module _ (persist : Persist) where
  -- `free_map_allocate (1, &sector)`: the sector, or `none` for `false`.
  unfoldable pub free_map_allocate : FileSystem → Option (Option ℕ × FileSystem)
  free_map_allocate w = lock_map w >>= λ w0.
      bitmap_scan_and_flip w0.free_map 0 1 false >>= λ (sector, m).
      let w1 : FileSystem = record w0 { free_map = m } in
      if w1.init_complete && (not (sector == bitmap_error) && w1.has_map_file)
      then (persist w1 >>= λ (written, w2).
          if written
          then some (some sector, unlock_map w2)
          else (bitmap_set_multiple w2.free_map sector 1 false >>= λ m'.
              some (none, unlock_map (record w2 { free_map = m' }))))
      else some (if sector == bitmap_error then none else some sector, unlock_map w1)

  -- PANIC unless the map could be written.
  unfoldable pub free_map_flush : FileSystem → Option FileSystem
  free_map_flush w = lock_map w >>= λ w0.
      if w0.has_map_file
      then (persist w0 >>= λ (written, w1). if written then some (unlock_map w1) else none)
      else none

  -- `ASSERT (bitmap_all (free_map, sector, cnt))`: releasing a free sector panics.
  unfoldable pub free_map_release : FileSystem → ℕ → ℕ → Option FileSystem
  free_map_release w sector cnt = lock_map w >>= λ w0. bitmap_all w0.free_map sector cnt >>= λ used.
      if used
      then (bitmap_set_multiple w0.free_map sector cnt false >>= λ m.
          persist (record w0 { free_map = m }) >>= λ (written, w2). some (unlock_map w2))
      else none
