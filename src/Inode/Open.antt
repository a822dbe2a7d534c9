-- ===== src/Inode/Open.antt =====
-- The open inodes of src/filesys/inode.c: creating, opening, closing and removing. An open inode is
-- named by its sector; the list has at most one entry for each.
pub mod Counts
pub mod Sharing
use kernel_dev.Prelude.{
  ℕ, zero, suc, ◌+◌, ◌-◌, ◌*◌, ◌/◌, ◌%◌, Bool, true, false, not, Option, none, some, List, [], ◌∷◌,
  ◌==◌, ltb, leb, if◌then◌else◌, ◌>>=◌, ◌&&◌,
}
use kernel_dev.Sector.{Sector, zeros, word_at, put_word, sector_size}
use kernel_dev.FileSystem.{FileSystem, Inode, set_sector, Persist}
use kernel_dev.FreeMap.{free_map_release}
use kernel_dev.Inode.Field
use kernel_dev.Inode.Index.{direct_cnt, index_size}
use kernel_dev.Inode.Data.{inode_write_at}

-- `DIV_ROUND_UP (size, BLOCK_SECTOR_SIZE)`
unfoldable pub bytes_to_sectors : ℕ → ℕ
bytes_to_sectors size = (size + sector_size - 1) / sector_size

-- The first open inode for a sector.
unfoldable pub find_open : List Inode → ℕ → Option Inode
find_open [] sector = none
find_open (i ∷ rest) sector = if i.sector == sector then some i else find_open rest sector

-- The open inode for its sector becomes `i`.
unfoldable pub update_open : List Inode → Inode → List Inode
update_open [] i = []
update_open (j ∷ rest) i = if j.sector == i.sector then i ∷ rest else j ∷ update_open rest i

-- `list_remove`
unfoldable pub remove_open : List Inode → ℕ → List Inode
remove_open [] sector = []
remove_open (j ∷ rest) sector = if j.sector == sector then rest else j ∷ remove_open rest sector

unfoldable pub inode_init : FileSystem → FileSystem
inode_init w = record w { open_inodes = [] }

abbrev pub bool_word : Bool → ℕ
bool_word true = 1
bool_word false = 0

-- `calloc`, then the fields that `inode_create` sets.
unfoldable pub disk_inode : ℕ → Bool → Sector
disk_inode length is_dir =
    put_word (put_word (put_word zeros Field.length length) Field.magic Field.inode_magic)
      Field.is_dir (bool_word is_dir)

-- The inode that `inode_open` reads from its sector.
unfoldable pub read_inode : FileSystem → ℕ → Inode
read_inode w sector = record {
  sector = sector;
  open_cnt = 1;
  removed = false;
  is_dir = not (word_at (w.sectors sector) Field.is_dir % 256 == 0);
  dirty = false;
  deny_write_cnt = 0;
  length = word_at (w.sectors sector) Field.length;
}

unfoldable pub inode_reopen : FileSystem → Inode → Inode × FileSystem
inode_reopen w i =
    let i' : Inode = record i { open_cnt = i.open_cnt + 1 } in
    (i', record w { open_inodes = update_open w.open_inodes i' })

unfoldable pub open_found : FileSystem → ℕ → Option Inode → Inode × FileSystem
unfolding inode_reopen read_inode
open_found w sector (some i) = inode_reopen w i
open_found w sector none =
    let i = read_inode w sector in (i, record w { open_inodes = i ∷ w.open_inodes })

-- `inode_open` where `malloc` succeeds.
unfoldable pub inode_open : FileSystem → ℕ → Inode × FileSystem
unfolding open_found
inode_open w sector = open_found w sector (find_open w.open_inodes sector)

unfoldable pub inode_remove : FileSystem → Inode → FileSystem
inode_remove w i = record w {
  open_inodes = update_open w.open_inodes (record i { removed = true });
}

-- `ASSERT (inode->deny_write_cnt <= inode->open_cnt)`
unfoldable pub inode_deny_write : FileSystem → Inode → Option (Inode × FileSystem)
inode_deny_write w i =
    let i' : Inode = record i { deny_write_cnt = i.deny_write_cnt + 1 } in
    if leb (i.deny_write_cnt + 1) i.open_cnt
    then some (i', record w { open_inodes = update_open w.open_inodes i' })
    else none

unfoldable pub inode_allow_write : FileSystem → Inode → Option (Inode × FileSystem)
inode_allow_write w i =
    let i' : Inode = record i { deny_write_cnt = i.deny_write_cnt - 1 } in
    if ltb 0 i.deny_write_cnt && leb i.deny_write_cnt i.open_cnt
    then some (i', record w { open_inodes = update_open w.open_inodes i' })
    else none

-- The length is written back to the inode's sector if it changed.
unfoldable pub write_length : FileSystem → Inode → FileSystem
write_length w i =
    if i.dirty
    then record w {
      sectors = set_sector w.sectors i.sector (put_word (w.sectors i.sector) Field.length i.length);
    }
    else w

module _ (persist : Persist) where
  -- Releases the sectors named by the words `i` to `i + n - 1` of sector `s`, where they are not 0.
  unfoldable pub release_words : FileSystem → ℕ → ℕ → ℕ → Option FileSystem
  release_words w s i zero = some w
  release_words w s i (suc n) =
      (if word_at (w.sectors s) i == 0
        then some w
        else free_map_release persist w (word_at (w.sectors s) i) 1)
      >>= λ w'. release_words w' s (i + 1) n

  -- The sectors below the second level. The inner index blocks themselves are not released.
  unfoldable pub release_inner : FileSystem → ℕ → ℕ → ℕ → Option FileSystem
  release_inner w s i zero = some w
  release_inner w s i (suc n) =
      (if word_at (w.sectors s) i == 0
        then some w
        else release_words w (word_at (w.sectors s) i) 0 index_size)
      >>= λ w'. release_inner w' s (i + 1) n

  -- The marks that `cache_mark_deleted` leaves in the cache on the inode and on index blocks only keep
  -- these sectors from being written back: they are not part of this state.
  unfoldable pub inode_free_data : FileSystem → ℕ → Option FileSystem
  inode_free_data w sector = release_words w sector 0 direct_cnt >>= λ w1.
      let indirect = word_at (w1.sectors sector) Field.indirect in
      let indirect_two = word_at (w1.sectors sector) Field.indirect_two in
      (if indirect == 0
        then some w1
        else (release_words w1 indirect 0 index_size >>= λ w2.
            free_map_release persist w2 indirect 1))
      >>= λ w3.
          if indirect_two == 0
          then some w3
          else (release_inner w3 indirect_two 0 index_size >>= λ w4.
              free_map_release persist w4 indirect_two 1)

  -- `inode_close` of an inode that is open.
  unfoldable pub inode_close : FileSystem → Inode → Option FileSystem
  unfolding write_length
  inode_close w i =
      let w1 = write_length w i in
      let i' : Inode = record i { dirty = false; open_cnt = i.open_cnt - 1 } in
      let gone : FileSystem = record w1 { open_inodes = remove_open w1.open_inodes i.sector } in
      if i'.open_cnt == 0
      then if i.removed
        then (inode_free_data gone i.sector >>= λ w2. free_map_release persist w2 i.sector 1)
        else some gone
      else some (record w1 { open_inodes = update_open w1.open_inodes i' })

  -- `inode_create` where `calloc` succeeds: a positive length writes one byte at its end (`""`
  -- is the byte 0).
  unfoldable pub inode_create : FileSystem → ℕ → ℕ → Bool → Option FileSystem
  inode_create w sector length is_dir =
      let w1 : FileSystem = record w {
        sectors = set_sector w.sectors sector (disk_inode length is_dir);
      } in
      if length == 0
      then some w1
      else (let (inode, w2) = inode_open w1 sector in
          inode_write_at persist w2 inode (λ _. 0) 1 (length - 1) >>= λ (written, inode', w3).
          inode_close (record w3 { open_inodes = update_open w3.open_inodes inode' }) inode')
