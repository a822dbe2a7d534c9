-- ===== src/Directory/Finding.antt =====
-- What is added to a directory of src/filesys/directory.c is found there.
use kernel_dev.Prelude.{
  ℕ, ◌*◌, ◌/◌, ◌^◌, ◌<◌, ◌≤◌, ◌≡◌, ◌≢◌, refl, sym, ◌∙◌, ap, subst, Bool, true, false, Option, none,
  some, ◌==◌, length, arith, Bool-cases, inl, inr, ==→eq, ==-refl, true-ne-false,
}
use kernel_dev.Sector.{word_at, word_at-eq}
use kernel_dev.FileSystem.{FileSystem, Inode, Persist}
use kernel_dev.Inode.Data.{Buffer}
use kernel_dev.Inode.Data.Mapped.{IsMapped}
use kernel_dev.Inode.Open.{find_open, update_open}
use kernel_dev.Inode.Open.Counts.{find_open-sector, found_again}
use kernel_dev.Directory.{Name, Dir, Session, lookup, dir_inode, dir_add, dir_lookup}
use kernel_dev.Directory.Entries.{
  entry, is_named, is_named-eq, Looked, there, missing, lookup-Looked,
}
use kernel_dev.Directory.{open_entry}
use kernel_dev.Directory.Adding.{IsDirectory, Filled}
use kernel_dev.Directory.{open_entry}
use kernel_dev.Directory.Adding.{IsDirectory, Filled}
use kernel_dev.Directory.Calls.{
  Added, invalid, present, added, unlocked, dir_add-Added, lock_lem, release_lem,
}
use kernel_dev.Inode.Open.{inode_open, open_found, read_inode, inode_reopen}

-- Opening a sector gives an inode for it.
open_found-sector :
    (w : FileSystem) (s : ℕ) (o : Option Inode)
    → find_open w.open_inodes s ≡ o
    → (open_found w s o).0.sector ≡ s
unfolding open_found inode_reopen read_inode
open_found-sector w s none e = refl
open_found-sector w s (some i) e = find_open-sector w.open_inodes s i e

inode_open-sector : (w : FileSystem) (s : ℕ) → (inode_open w s).0.sector ≡ s
unfolding inode_open
inode_open-sector w s = open_found-sector w s (find_open w.open_inodes s) refl

look_returns :
    (persist : Persist) (y : Session) (dir : Dir) (i : Inode) (name : Name) (f found : Buffer)
    (ofs sector : ℕ)
    → y.held dir.inode ≡ false
    → dir_inode y.files dir ≡ some i
    → lookup persist y.files i name f ≡ some (some (found, ofs), y.files)
    → word_at found 0 ≡ sector
    → (z : Session) × (dir_lookup persist y dir name f ≡ some (some sector, z))
unfolding dir_lookup open_entry
look_returns persist y dir i name f found ofs sector free open_dir looks names =
    let w' = (inode_open y.files sector).1 in
    (
      record { files = w'; held = unlocked y dir.inode },
      rw (lock_lem persist y dir i free) (
          rw open_dir (
            rw looks (
              rw names
                (rw (release_lem persist y dir i w', inode_open-sector y.files sector) refl)))),
    )

module _ (persist : Persist) (y : Session) (dir : Dir) (i : Inode) (name : Name) (sector : ℕ) where
  -- No other entry has the name.
  slot_lem :
      {files : FileSystem}
      → ((k : ℕ) → k < i.length / 20 → is_named name (entry y.files.sectors i.sector k) ≡ false)
      → (x : Filled y.files i name sector (some (true, files))) → length name ≤ 14
      → (k : ℕ) → k < x.inode.length / 20
      → is_named name (entry x.after x.inode.sector k) ≡ true
      → k ≡ x.k
  slot_lem all x short k h n = elim (Bool-cases (k == x.k)) [
    | inl e ↦ ==→eq k x.k e
    | inr o ↦
        let other : k ≢ x.k = ground arith in
        let inside : k < i.length / 20 = omega (arith, other, h, x.longer, x.place) in
        let same : is_named name (entry x.after i.sector k)
            ≡ is_named name (entry y.files.sectors i.sector k) =
          is_named-eq name _ _ short (λ b q. x.others k b other q) in
        absurd (
          true-ne-false (
            sym n
            ∙ ap (λ (s : ℕ). is_named name (entry x.after s k)) x.same_inode
            ∙ same
            ∙ all k inside))
  ]

  -- What `lookup` finds in the directory after a slot was filled.
  finds :
      (files : FileSystem)
      → ((k : ℕ) → k < i.length / 20 → is_named name (entry y.files.sectors i.sector k) ≡ false)
      → (x : Filled y.files i name sector (some (true, files))) → length name ≤ 14
      → (f : Buffer)
      → let w' : FileSystem = record y.files {
        sectors = x.after;
        open_inodes = update_open y.files.open_inodes x.inode;
      } in
        (found : Buffer) × (ofs : ℕ) × (lookup persist w' x.inode name f
          ≡ some (some (found, ofs), w'))
        × (word_at found 0 ≡ sector)
  finds files all x short f =
      let w' : FileSystem = record y.files {
        sectors = x.after;
        open_inodes = update_open y.files.open_inodes x.inode;
      } in
      by_look (
        lookup-Looked persist w' x.inode
          (subst (λ (s : ℕ). IsMapped x.after s 0 x.inode.length) (sym x.same_inode) x.mapped) name
          short f)
    where
      by_look :
          {m : IsMapped x.after x.inode.sector 0 x.inode.length}
          {r : Option (Option (Buffer × ℕ) × FileSystem)}
          → Looked persist
              (record y.files {
                sectors = x.after;
                open_inodes = update_open y.files.open_inodes x.inode;
              })
              x.inode
              m
              name
              r
          → (found : Buffer) × (ofs : ℕ) × (r
              ≡ some (
                some (found, ofs),
                record y.files {
                  sectors = x.after;
                  open_inodes = update_open y.files.open_inodes x.inode;
                },
              ))
            × (word_at found 0 ≡ sector)
      by_look (there k e h n first same g) = (
        e,
        20 * k,
        g,
        word_at-eq e (entry x.after x.inode.sector k) 0 (λ b p q. same b (omega arith))
            ∙ ap (λ (s : ℕ). word_at (entry x.after s k) 0) x.same_inode
            ∙ ap (λ (j : ℕ). word_at (entry x.after i.sector j) 0) (slot_lem all x short k h n)
            ∙ x.names_sector,
      )
      by_look (missing none_named g) = absurd (
          true-ne-false (
            sym x.named
            ∙ ap (λ (s : ℕ). is_named name (entry x.after s x.k)) (sym x.same_inode)
            ∙ none_named x.k (omega (arith, x.longer))))

-- The look-up after an addition: `dir_add` put the name into the directory, and `dir_lookup` opens the
-- inode of the sector.
pub record Findable (persist : Persist) (dir : Dir) (name : Name) (sector : ℕ)
    (r : Option (Bool × Session)) : Type 0 where
  pub after : Session
  pub returned : r ≡ some (true, after)
  pub unlocked_again : after.held dir.inode ≡ false
  pub finds_it :
      (f : Buffer) → (z : Session) × (dir_lookup persist after dir name f ≡ some (some sector, z))

files_of : FileSystem → Option (Bool × FileSystem) → FileSystem
files_of d none = d
files_of d (some r) = r.1

same_files :
    {a b : FileSystem}
    → ◌≡◌ {A = Option (Bool × FileSystem)} (some (true, a)) (some (true, b))
    → a ≡ b
unfolding files_of
same_files {a} e = ap (files_of a) e

findable_lem :
    (persist : Persist) (y : Session) (dir : Dir) (i : Inode) (name : Name) (sector : ℕ)
    → dir_inode y.files dir ≡ some i
    → length name ≢ 0
    → length name ≤ 14
    → ((k : ℕ) → k < i.length / 20 → is_named name (entry y.files.sectors i.sector k) ≡ false)
    → {r : Option (Bool × Session)} → Added y dir i name sector r
    → Findable persist dir name sector r
unfolding dir_inode
findable_lem persist y dir i name sector open_dir some_name short all (invalid bad g) =
    absurd (ground arith)
findable_lem persist y dir i name sector open_dir some_name short all (present k h n g) =
    absurd (true-ne-false (sym n ∙ all k h))
findable_lem persist y dir i name sector open_dir some_name short all (added files none_named x g) =
    let w' : FileSystem = record y.files {
      sectors = x.after;
      open_inodes = update_open y.files.open_inodes x.inode;
    } in
    let after : Session = record { files = w'; held = unlocked y dir.inode } in
    let free : after.held dir.inode ≡ false = rw (==-refl dir.inode) refl in
    let reopened : dir_inode w' dir ≡ some x.inode =
      found_again y.files.open_inodes i x.inode dir.inode open_dir x.same_inode in
    record {
      after = after;
      returned =
          g
          ∙ ap (λ (w : FileSystem). some (true, record { files = w; held = unlocked y dir.inode }))
              (same_files x.returned);
      unlocked_again = free;
      finds_it = λ f.
          let r = finds persist y dir i name sector files all x short f in
          look_returns persist after dir x.inode name f r.0 r.1 sector free reopened r.2 r.3;
    }

-- On an open directory of whole entries that is not locked, whose blocks, and that of one more
-- entry behind them, have sectors of their own already, and whose writing is not denied, with a
-- sector number of 32 bits: a name of 1 to 14 characters that is not there is added, and looking it
-- up then gives the inode of its sector.
pub dir_lookup-dir_add :
    (persist : Persist) (y : Session) (dir : Dir) (i : Inode) (name : Name) (sector : ℕ)
    (l e : Buffer)
    → y.held dir.inode ≡ false
    → dir_inode y.files dir ≡ some i
    → IsDirectory y.files.sectors i
    → sector < 2 ^ 32
    → length name ≢ 0
    → length name ≤ 14
    → ((k : ℕ) → k < i.length / 20 → is_named name (entry y.files.sectors i.sector k) ≡ false)
    → Findable persist dir name sector (dir_add persist y dir name sector l e)
dir_lookup-dir_add persist y dir i name sector l e free open_dir d small some_name short all =
    findable_lem persist y dir i name sector open_dir some_name short all
      (dir_add-Added persist y dir i free open_dir d name sector small l e)
