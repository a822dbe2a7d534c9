-- ===== src/Tests/DirectoryRuns.antt =====
-- Runs of src/filesys/directory.c.
use kernel_dev.Prelude.{ℕ, ◌+◌, ◌*◌, ◌/◌, ◌<◌, ◌≡◌, refl, true, false, none, some, [], ◌∷◌, arith}
use kernel_dev.FileSystem.{Inode}
use kernel_dev.Inode.Data.{Buffer}
use kernel_dev.Inode.Data.Mapped.{byte_at}
use kernel_dev.Inode.Index.Lookup.{block_sector}
use kernel_dev.Inode.Open.{find_open}
use kernel_dev.MapFile.{write_map}
use kernel_dev.Directory.{Name, Dir, Session, dir_inode, lookup, dir_add, dir_lookup}
use kernel_dev.Directory.Entries.{entry, is_named, Looked, lookup-Looked}
use kernel_dev.Directory.Adding.{IsDirectory, whole_mapped}
use kernel_dev.Directory.Calls.{Added, dir_add-Added}
use kernel_dev.Directory.Finding.{Findable, dir_lookup-dir_add}
use kernel_dev.Directory.Refused.{dir_add-refused}
use kernel_dev.Tests.InodeRuns.{disk, system, file, file-IsOwnRange, file_block}

-- A directory of two entries that are not in use.
abbrev dir_file : Inode
dir_file = record file { is_dir = true; length = 40 }

abbrev pub session : Session
session = record { files = record system { open_inodes = dir_file ∷ [] }; held = λ s. false }

abbrev pub dir : Dir
dir = record { inode = 10; pos = 40 }

abbrev pub junk : Buffer
junk k = 170

-- "ab"
abbrev ab : Name
ab = 97 ∷ 98 ∷ []

dir-IsDirectory : IsDirectory disk dir_file
dir-IsDirectory = record {
  whole = refl;
  room = file-IsOwnRange 0 60 (omega arith);
  writable = refl;
}

dir_is_open : dir_inode session.files dir ≡ some dir_file
unfolding dir_inode find_open
dir_is_open = refl

zero_byte : (pos : ℕ) → pos < 40 → byte_at disk 10 pos ≡ 0
unfolding byte_at
zero_byte pos h =
    let first : pos / 512 ≡ 0 = omega arith in
    let block : block_sector disk 10 0 ≡ 20 = file_block 0 in rw first (rw block refl)

nothing_there : (k : ℕ) → k < 2 → is_named ab (entry disk 10 k) ≡ false
nothing_there k h = rw (zero_byte (20 * k + 19) (omega arith)) refl

lookup-Looked_example :
    Looked write_map session.files dir_file
      (whole_mapped dir-IsDirectory)
      ab
      (lookup write_map session.files dir_file ab junk)
lookup-Looked_example =
    lookup-Looked write_map session.files dir_file (whole_mapped dir-IsDirectory) ab (omega arith)
      junk

dir_add-Added_example :
    Added session dir dir_file ab 33 (dir_add write_map session dir ab 33 junk junk)
dir_add-Added_example =
    dir_add-Added write_map session dir dir_file refl dir_is_open dir-IsDirectory ab 33
      (omega arith) junk junk

dir_lookup-dir_add_example :
    Findable write_map dir ab 33 (dir_add write_map session dir ab 33 junk junk)
dir_lookup-dir_add_example =
    dir_lookup-dir_add write_map session dir dir_file ab 33 junk junk refl dir_is_open
      dir-IsDirectory (omega arith) (λ e. ground arith) (omega arith) nothing_there

dir_add-refused_example :
    (y' : Session) × (dir_add write_map session dir [] 33 junk junk ≡ some (false, y'))
    × ((other : Name) (f : Buffer) → dir_lookup write_map y' dir other f ≡ none)
    × ((other : Name) (s : ℕ) (f g : Buffer) → dir_add write_map y' dir other s f g ≡ none)
dir_add-refused_example =
    dir_add-refused write_map session dir dir_file [] 33 junk junk refl dir_is_open refl
