-- ===== src/Directory.antt =====
-- src/filesys/directory.c: directories are files of entries of 20 bytes, `struct dir_entry`: the sector,
-- a name of 15 bytes that ends in 0, and the mark `in_use`. A name is the list of its characters, none of
-- which is 0. `none` is a panic. What a call finds in its local entry before it reads is an argument.
pub mod Entries
pub mod Names
pub mod Adding
pub mod Calls
pub mod Finding
pub mod Refused
pub mod Removal
use kernel_dev.Prelude.{
  ℕ, zero, suc, ◌+◌, ◌-◌, ◌*◌, ◌/◌, ◌%◌, Bool, true, false, not, Option, none, some, List, [], ◌∷◌,
  ◌==◌, ltb, leb, ◌&&◌, ◌||◌, if◌then◌else◌, ◌>>=◌, length,
}
use kernel_dev.Sector.{word_at, put_word}
use kernel_dev.FileSystem.{FileSystem, Inode, Persist}
use kernel_dev.FreeMap.{root_dir_sector}
use kernel_dev.Inode.Data.{Buffer, inode_read_at, inode_write_at}
use kernel_dev.Inode.Open.{
  find_open, update_open, inode_open, inode_reopen, inode_close, inode_remove, inode_create,
}

abbrev pub name_max : ℕ
name_max = 14

abbrev pub Name : Type 0
Name = List ℕ

-- `sizeof (struct dir_entry)`
abbrev pub entry_size : ℕ
entry_size = 20

-- A directory whose inode is not null; the inode is named by its sector.
pub record Dir : Type 0 where
  pub inode : ℕ
  pub pos : ℕ

-- The file system, and the inodes, by their sectors, whose locks the current thread holds. Another
-- thread that holds one lets this thread wait, which is not a step here.
pub record Session : Type 0 where
  pub files : FileSystem
  pub held : ℕ → Bool

abbrev pub set_held : (ℕ → Bool) → ℕ → Bool → ℕ → Bool
set_held held s b t = if s == t then b else held t

-- A thread must not acquire a lock that it holds.
unfoldable pub inode_lock : Session → ℕ → Option Session
inode_lock y s = if y.held s then none else some (record y { held = set_held y.held s true })

unfoldable pub inode_release : Session → ℕ → Option Session
inode_release y s = if y.held s then some (record y { held = set_held y.held s false }) else none

unfoldable pub dir_inode : FileSystem → Dir → Option Inode
dir_inode w dir = find_open w.open_inodes dir.inode

abbrev pub in_use : Buffer → Bool
in_use e = not (e 19 == 0)

-- `!strcmp (name, e + at)`
unfoldable pub same_string : Name → Buffer → ℕ → Bool
same_string [] e at = e at == 0
same_string (c ∷ name) e at = (e at == c) && same_string name e (at + 1)

abbrev pub set_byte : Buffer → ℕ → ℕ → Buffer
set_byte e at b k = if at == k then b else e k

-- `strlcpy (e + at, name, size)`
unfoldable pub strlcpy : Buffer → ℕ → Name → ℕ → Buffer
strlcpy e at name zero = e
strlcpy e at name (suc zero) = set_byte e at 0
strlcpy e at [] (suc (suc n)) = set_byte e at 0
strlcpy e at (c ∷ name) (suc (suc n)) = strlcpy (set_byte e at c) (at + 1) name (suc n)

-- The string of at most `n` characters at a place.
unfoldable pub string_at : Buffer → ℕ → ℕ → Name
string_at e at zero = []
string_at e at (suc n) = if e at == 0 then [] else e at ∷ string_at e (at + 1) n

-- The entry that `dir_add` writes.
unfoldable pub fill_entry : Buffer → Name → ℕ → Buffer
fill_entry e name inode_sector =
    put_word (strlcpy (set_byte e 19 1) 4 name (name_max + 1)) 0 inode_sector

-- `dir_open` of an inode that is not null, where `calloc` succeeds: the position is past `.` and `..`.
unfoldable pub dir_open : Inode → Dir
dir_open i = record { inode = i.sector; pos = 2 * entry_size }

unfoldable pub dir_open_root : FileSystem → Dir × FileSystem
dir_open_root w = let (i, w') = inode_open w root_dir_sector in (dir_open i, w')

unfoldable pub dir_reopen : FileSystem → Dir → Option (Dir × FileSystem)
dir_reopen w dir =
    dir_inode w dir >>= λ i. let (i', w') = inode_reopen w i in some (dir_open i', w')

unfoldable pub dir_get_inode : FileSystem → Dir → Option Inode
dir_get_inode w dir = dir_inode w dir

module _ (persist : Persist) where
  -- The loop of `lookup` from `ofs` on: the entry and its place, if it is there. One read more than the
  -- length allows ends the loop, so that `length / 20 + 1` rounds are enough.
  unfoldable pub lookup_loop :
      ℕ → FileSystem → Inode → Name → Buffer → ℕ → Option (Option (Buffer × ℕ) × FileSystem)
  lookup_loop zero w i name e ofs = some (none, w)
  lookup_loop (suc fuel) w i name e ofs =
      inode_read_at persist w i e entry_size ofs >>= λ (n, e', w').
      let rest = lookup_loop fuel w' i name e' (ofs + entry_size) in
      if n == entry_size
      then (if in_use e' && same_string name e' 4 then some (some (e', ofs), w') else rest)
      else some (none, w')

  unfoldable pub lookup :
      FileSystem → Inode → Name → Buffer → Option (Option (Buffer × ℕ) × FileSystem)
  lookup w i name e = lookup_loop (i.length / entry_size + 1) w i name e 0

  unfoldable pub open_entry : FileSystem → Option (Buffer × ℕ) → Option ℕ × FileSystem
  open_entry w none = (none, w)
  open_entry w (some (e, ofs)) = let (i, w') = inode_open w (word_at e 0) in (some i.sector, w')

  -- The sector of the inode that was opened, if the name is there.
  unfoldable pub dir_lookup : Session → Dir → Name → Buffer → Option (Option ℕ × Session)
  dir_lookup y dir name e = inode_lock y dir.inode >>= λ y1. dir_inode y1.files dir >>= λ i.
      lookup y1.files i name e >>= λ (found, w).
      let (inode, w') = open_entry w found in
      inode_release (record y1 { files = w' }) dir.inode >>= λ y2. some (inode, y2)

  -- The loop of `dir_add` for a free slot: the entry as it was read last, and the offset.
  unfoldable pub slot_loop : ℕ → FileSystem → Inode → Buffer → ℕ → Option (Buffer × ℕ × FileSystem)
  slot_loop zero w i e ofs = some (e, ofs, w)
  slot_loop (suc fuel) w i e ofs = inode_read_at persist w i e entry_size ofs >>= λ (n, e', w').
      let rest = slot_loop fuel w' i e' (ofs + entry_size) in
      if n == entry_size
      then (if in_use e' then rest else some (e', ofs, w'))
      else some (e', ofs, w')

  -- A free slot is filled.
  unfoldable pub add_entry : FileSystem → Inode → Name → ℕ → Buffer → Option (Bool × FileSystem)
  add_entry w i name inode_sector e =
      slot_loop (i.length / entry_size + 1) w i e 0 >>= λ (e', ofs, w1).
      inode_write_at persist w1 i (fill_entry e' name inode_sector) entry_size ofs
      >>= λ (n, i', w2).
          some (n == entry_size, record w2 { open_inodes = update_open w2.open_inodes i' })

  unfoldable pub add_unless :
      Option (Buffer × ℕ) → FileSystem → Inode → Name → ℕ → Buffer → Option (Bool × FileSystem)
  add_unless (some r) w i name inode_sector e = some (false, w)
  add_unless none w i name inode_sector e = add_entry w i name inode_sector e

  -- An invalid name returns while the lock is held. `l` and `e` are the entries of `lookup` and of
  -- `dir_add` itself.
  unfoldable pub dir_add : Session → Dir → Name → ℕ → Buffer → Buffer → Option (Bool × Session)
  dir_add y dir name inode_sector l e = inode_lock y dir.inode >>= λ y1.
      let valid = dir_inode y1.files dir >>= λ i. lookup y1.files i name l >>= λ (found, w).
      add_unless found w i name inode_sector e >>= λ (success, w').
      inode_release (record y1 { files = w' }) dir.inode >>= λ y2. some (success, y2) in
      if (length name == 0) || ltb name_max (length name) then some (false, y1) else valid

  -- The loop of `dir_readdir`.
  unfoldable pub readdir_loop :
      ℕ → FileSystem → Inode → Buffer → ℕ → Option (Option Name × ℕ × FileSystem)
  readdir_loop zero w i e pos = some (none, pos, w)
  readdir_loop (suc fuel) w i e pos = inode_read_at persist w i e entry_size pos >>= λ (n, e', w').
      let rest = readdir_loop fuel w' i e' (pos + entry_size) in
      if n == entry_size
      then (if in_use e' then some (some (string_at e' 4 name_max), pos + entry_size, w') else rest)
      else some (none, pos, w')

  unfoldable pub dir_readdir : Session → Dir → Buffer → Option (Option Name × Dir × Session)
  dir_readdir y dir e = inode_lock y dir.inode >>= λ y1. dir_inode y1.files dir >>= λ i.
      readdir_loop (i.length / entry_size + 1) y1.files i e dir.pos >>= λ (name, pos, w).
      inode_release (record y1 { files = w }) dir.inode >>= λ y2.
      some (name, record dir { pos = pos }, y2)

  unfoldable pub dir_close : Session → Dir → Option Session
  dir_close y dir = dir_inode y.files dir >>= λ i.
      inode_close persist y.files i >>= λ w. some (record y { files = w })

  -- `cur_dir` is the sector of the current directory of the thread.
  unfoldable pub dir_create : Session → ℕ → ℕ → ℕ → Buffer → Option (Bool × Session)
  dir_create y cur_dir sector entry_cnt e =
      inode_create persist y.files sector (entry_cnt * entry_size) true >>= λ w1.
      let (i, w2) = inode_open w1 sector in
      let dir = dir_open i in
      let parent = if sector == root_dir_sector then sector else cur_dir in
      dir_add (record y { files = w2 }) dir (46 ∷ []) sector e e >>= λ (added, y1).
      (if added then dir_add y1 dir (46 ∷ 46 ∷ []) parent e e else some (false, y1))
      >>= λ (success, y2). dir_close y2 dir >>= λ y3. some (success, y3)
