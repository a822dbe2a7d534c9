-- ===== src/Filesys.antt =====
-- src/filesys/filesys.c: paths, and the calls on files by their paths, for one thread with its current
-- directory; with `strtok_r` of src/lib/string.c. `malloc` succeeds. `none` is a panic. What local
-- variables hold before they are set is the argument `e`.
pub mod Tokens
pub mod Walk
pub mod Calls
use kernel_dev.Prelude.{
  ℕ, zero, suc, ◌+◌, Bool, true, false, not, Option, none, some, List, [], ◌∷◌, ◌==◌, ◌&&◌, ◌||◌,
  if◌then◌else◌, ◌>>=◌, length,
}
use kernel_dev.FileSystem.{FileSystem, Inode, Persist}
use kernel_dev.FreeMap.{root_dir_sector, free_map_allocate, free_map_flush, free_map_release}
use kernel_dev.MapFile.{write_map, free_map_create, free_map_close}
use kernel_dev.Inode.Data.{Buffer}
use kernel_dev.Inode.Open.{find_open, inode_close, inode_create}
use kernel_dev.File.{File, file_open}
use kernel_dev.Directory.{
  Name, Dir, Session, dir_open_root, dir_reopen, dir_close, dir_lookup, dir_add, dir_create,
}

-- The code of `/`.
abbrev pub slash : ℕ
slash = 47

-- `strchr (delimiters, c) != NULL` for a character that is not 0.
unfoldable pub is_delimiter : List ℕ → ℕ → Bool
is_delimiter [] c = false
is_delimiter (d ∷ delimiters) c = (d == c) || is_delimiter delimiters c

-- The first loop of `strtok_r`.
unfoldable pub skip_delimiters : List ℕ → List ℕ → List ℕ
skip_delimiters delimiters [] = []
skip_delimiters delimiters (c ∷ s) =
    let rest = skip_delimiters delimiters s in if is_delimiter delimiters c then rest else c ∷ s

-- The second loop: the token, and where the next call starts.
unfoldable pub take_token : List ℕ → List ℕ → Name × List ℕ
take_token delimiters [] = ([], [])
take_token delimiters (c ∷ s) =
    let rest = take_token delimiters s in
    if is_delimiter delimiters c then ([], s) else (c ∷ rest.0, rest.1)

unfoldable pub first_token : List ℕ → List ℕ → Option (Name × List ℕ)
first_token delimiters [] = none
first_token delimiters (c ∷ s) = some (take_token delimiters (c ∷ s))

unfoldable pub strtok_r : List ℕ → List ℕ → Option (Name × List ℕ)
strtok_r s delimiters = first_token delimiters (skip_delimiters delimiters s)

abbrev pub slashes : List ℕ
slashes = slash ∷ []

-- A thread's session with its current directory.
pub record Process : Type 0 where
  pub session : Session
  pub cur_dir : Dir

abbrev pub is_dir_of : Option Inode → Bool
is_dir_of none = false
is_dir_of (some i) = i.is_dir

module _ (persist : Persist) where
  -- `inode_close` of a sector that was opened, or of a null pointer.
  unfoldable pub close_inode : Session → Option ℕ → Option Session
  close_inode y none = some y
  close_inode y (some sector) = find_open y.files.open_inodes sector >>= λ i.
      inode_close persist y.files i >>= λ w. some (record y { files = w })

  -- `cur_inode != NULL && inode_is_dir (cur_inode)`
  unfoldable pub is_directory : Session → Option ℕ → Bool
  is_directory y none = false
  is_directory y (some sector) = is_dir_of (find_open y.files.open_inodes sector)

  -- The end of the loop: nothing is left to parse.
  unfoldable pub walk_ends :
      Session → Dir → Name → Option ℕ → Option (Option (Dir × Name) × Session)
  walk_ends y cur_dir token cur_inode =
      close_inode y cur_inode >>= λ y1. some (some (cur_dir, token), y1)

  -- The loop cannot descend.
  unfoldable pub walk_fails : Session → Dir → Option ℕ → Option (Option (Dir × Name) × Session)
  walk_fails y cur_dir cur_inode =
      dir_close persist y cur_dir >>= λ y1. close_inode y1 cur_inode >>= λ y2. some (none, y2)

  -- The directory that the loop descends to.
  unfoldable pub descend : Session → Dir → Option ℕ → Option (Dir × Session)
  descend y old none = none
  descend y old (some sector) =
      dir_close persist y old >>= λ y1. some (record { inode = sector; pos = 40 }, y1)

  -- A round of the loop after the look-up and the next call of `strtok_r`; `go_on` is the next round.
  unfoldable pub next_token :
      Option (Name × List ℕ)
      → Session
      → Dir
      → Name
      → Option ℕ
      → (Name → List ℕ → Dir → Session → Option (Option (Dir × Name) × Session))
      → Option (Option (Dir × Name) × Session)
  next_token none y cur_dir token cur_inode go_on = walk_ends y cur_dir token cur_inode
  next_token (some (token', rest')) y cur_dir token cur_inode go_on =
      let down = descend y cur_dir cur_inode >>= λ (cur_dir', y1). go_on token' rest' cur_dir' y1 in
      if is_directory y cur_inode then down else walk_fails y cur_dir cur_inode

  -- The loop of `filesys_path_to_dir`, with `token` to look up and `rest` of the path to parse: each
  -- round parses a token, so that as many rounds as `rest` has characters, and one, are enough.
  unfoldable pub walk_loop :
      ℕ → Session → Dir → Name → List ℕ → Buffer → Option (Option (Dir × Name) × Session)
  walk_loop zero y cur_dir token rest e = none
  walk_loop (suc fuel) y cur_dir token rest e =
      dir_lookup persist y cur_dir token e >>= λ (cur_inode, y1).
      next_token (strtok_r rest slashes) y1 cur_dir token cur_inode
        (λ token' rest' cur_dir' y2. walk_loop fuel y2 cur_dir' token' rest' e)

  unfoldable pub start_walk :
      Session → Dir → Option (Name × List ℕ) → Buffer → Option (Option (Dir × Name) × Session)
  start_walk y cur_dir none e = dir_close persist y cur_dir >>= λ y1. some (none, y1)
  start_walk y cur_dir (some (token, rest)) e = walk_loop (length rest + 1) y cur_dir token rest e

  abbrev from_root : Session → Dir × Session
  from_root y = let (d, w) = dir_open_root y.files in (d, record y { files = w })

  -- The directory, or a null pointer, and the name of the last file in the path.
  unfoldable pub filesys_path_to_dir :
      Process → List ℕ → Buffer → Option (Option (Dir × Name) × Session)
  filesys_path_to_dir p [] e = dir_reopen p.session.files p.cur_dir >>= λ (d, w).
      start_walk (record p.session { files = w }) d (strtok_r [] slashes) e
  filesys_path_to_dir p (c ∷ path) e =
      let (root, y) = from_root p.session in
      let relative = dir_reopen p.session.files p.cur_dir >>= λ (d, w).
      start_walk (record p.session { files = w }) d (strtok_r (c ∷ path) slashes) e in
      if c == slash
      then (if length path == 0
          then some (some (root, 46 ∷ []), y)
          else start_walk y root (strtok_r path slashes) e)
      else relative
