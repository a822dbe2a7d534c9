-- ===== src/Inode/Index/Lookup.antt =====
-- Looking a block up without giving it a sector, and `MLI_translate` of a block that has one.
use kernel_dev.Prelude.{
  ℕ, ◌+◌, ◌-◌, ◌/◌, ◌%◌, ◌≡◌, ◌≢◌, some, ◌==◌, ltb, if◌then◌else◌, arith, ne→==,
}
use kernel_dev.Sector.{Sector, word_at}
use kernel_dev.FileSystem.{FileSystem, Persist}
use kernel_dev.Inode.Field
use kernel_dev.Inode.Index.{direct_cnt, index_size, entry, mli_translate}

-- The sector that the index of an inode holds for a block; 0 if there is none.
unfoldable pub block_sector : (ℕ → Sector) → ℕ → ℕ → ℕ
block_sector sectors inode blockno =
    if ltb blockno direct_cnt
    then word_at (sectors inode) blockno
    else if ltb blockno (direct_cnt + index_size)
    then (if word_at (sectors inode) Field.indirect == 0
        then 0
        else word_at (sectors (word_at (sectors inode) Field.indirect)) (blockno - direct_cnt))
    else (let rest = blockno - direct_cnt - index_size in
        let two = word_at (sectors inode) Field.indirect_two in
        if two == 0
        then 0
        else (let second = word_at (sectors two) (rest / index_size) in
            if second == 0 then 0 else word_at (sectors second) (rest % index_size)))

entry-mapped :
    (persist : Persist) (w : FileSystem) (s i : ℕ)
    → word_at (w.sectors s) i ≢ 0
    → entry persist w s i ≡ some (word_at (w.sectors s) i, w)
unfolding entry
entry-mapped persist w s i h = rw (ne→== _ _ h)

-- A block that has a sector is translated to that sector, and nothing changes.
pub mli_translate-mapped :
    (persist : Persist) (w : FileSystem) (inode blockno : ℕ)
    → block_sector w.sectors inode blockno ≢ 0
    → mli_translate persist w inode blockno ≡ some (block_sector w.sectors inode blockno, w)
unfolding mli_translate block_sector entry
mli_translate-mapped persist w inode blockno h = ground arith
