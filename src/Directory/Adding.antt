-- ===== src/Directory/Adding.antt =====
-- `dir_add` of src/filesys/directory.c, and `dir_lookup` after it.
use kernel_dev.Prelude.{
  ℕ, ◌+◌, ◌-◌, ◌*◌, ◌/◌, ◌%◌, ◌^◌, ◌<◌, ◌≤◌, ◌≡◌, ◌≢◌, refl, ◌∙◌, Bool, true, false, Option, some,
  ltb, leb, ◌&&◌, length, arith, max,
}
use kernel_dev.Sector.{Sector, word_at, word_at-eq}
use kernel_dev.FileSystem.{FileSystem, Inode, Persist}
use kernel_dev.Inode.Data.{Buffer, inode_write_at}
use kernel_dev.Inode.Data.Mapped.{IsMapped}
use kernel_dev.Inode.Data.Chunks.{IsOwnRange}
use kernel_dev.Inode.Data.Range.{inode_write_at-mapped}
use kernel_dev.Inode.Open.{update_open}
use kernel_dev.Directory.{Name, in_use, slot_loop, add_entry, fill_entry}
use kernel_dev.Directory.Entries.{entry, is_named, is_named-eq, Slotted, slot}
use kernel_dev.Directory.Names.{fill_entry-named, word_at-fill_entry}

-- Whole entries, in blocks of their own up to one more entry, that may be written.
pub record IsDirectory (sectors : ℕ → Sector) (i : Inode) : Type 0 where
  pub whole : i.length % 20 ≡ 0
  pub room : IsOwnRange sectors i.sector 0 (i.length + 20)
  pub writable : i.deny_write_cnt ≡ 0

pub whole_mapped :
    {sectors : ℕ → Sector} {i : Inode}
    → IsDirectory sectors i
    → IsMapped sectors i.sector 0 i.length
whole_mapped d pos p q = d.room.mapped pos p (omega arith)

-- What filling a free slot did: entry `k`, which was not in use, or was the end, has the name and the
-- sector; the other entries are as before.
pub record Filled (w : FileSystem) (i : Inode) (name : Name) (sector : ℕ)
    (r : Option (Bool × FileSystem)) : Type 0 where
  pub k : ℕ
  pub after : ℕ → Sector
  pub inode : Inode
  pub returned :
      r ≡ some (true, record w { sectors = after; open_inodes = update_open w.open_inodes inode })
  pub named : is_named name (entry after i.sector k) ≡ true
  pub names_sector : word_at (entry after i.sector k) 0 ≡ sector
  pub place : k ≤ i.length / 20
  pub was_free : k < i.length / 20 → in_use (entry w.sectors i.sector k) ≡ false
  pub others : (j b : ℕ) → j ≢ k → b < 20 → entry after i.sector j b ≡ entry w.sectors i.sector j b
  pub same_inode : inode.sector ≡ i.sector
  pub longer : inode.length / 20 ≡ max (i.length / 20) (k + 1)
  pub mapped : IsMapped after i.sector 0 inode.length

module _ (persist : Persist) (w : FileSystem) (i : Inode) (d : IsDirectory w.sectors i) where
  own_slot : (k : ℕ) → k ≤ i.length / 20 → IsOwnRange w.sectors i.sector (20 * k) (20 * k + 20)
  own_slot k h = record {
    mapped = λ pos p q. d.room.mapped pos (omega arith) (omega arith);
    is_data = λ pos p q. d.room.is_data pos (omega arith) (omega arith);
    own = λ pos b p q. d.room.own pos b (omega arith) (omega arith);
  }

  add_returns :
      (name : Name) (sector k : ℕ) (e e' : Buffer) (i' : Inode) (after : ℕ → Sector)
      → slot_loop persist (i.length / 20 + 1) w i e 0 ≡ some (e', 20 * k, w)
      → inode_write_at persist w i (fill_entry e' name sector) 20 (20 * k)
        ≡ some (20, i', record w { sectors = after })
      → add_entry persist w i name sector e
        ≡ some (true, record w { sectors = after; open_inodes = update_open w.open_inodes i' })
  unfolding add_entry
  add_returns name sector k e e' i' after f g = rw f (rw g refl)

  pub add_entry-Filled :
      (name : Name) (sector : ℕ) (e : Buffer) {r : Option (Buffer × ℕ × FileSystem)}
      → length name ≤ 14
      → sector < 2 ^ 32
      → slot_loop persist (i.length / 20 + 1) w i e 0 ≡ r
      → Slotted persist w i (whole_mapped d) r
      → Filled w i name sector (add_entry persist w i name sector e)
  add_entry-Filled name sector e short small f (slot k e' h before free g) =
      let x =
        inode_write_at-mapped persist w i (fill_entry e' name sector) 20 (20 * k) d.writable
          (own_slot k h) in
      let new : (b : ℕ) → b < 20 → entry x.0 i.sector k b ≡ fill_entry e' name sector b = λ b q.
        let inside : (leb (20 * k) (20 * k + b) && ltb (20 * k + b) (20 * k + 20)) ≡ true =
          ground arith in
        let place : 0 + (20 * k + b - 20 * k) ≡ b = omega arith in
        (x.3).bytes (20 * k + b) ∙ rw inside (rw place refl) in
      record {
        k = k;
        after = x.0;
        inode = x.1;
        returned = add_returns name sector k e e' x.1 x.0 (f ∙ g) x.2;
        named =
            is_named-eq name (entry x.0 i.sector k) (fill_entry e' name sector) short new
            ∙ fill_entry-named e' name sector short;
        names_sector =
            word_at-eq (entry x.0 i.sector k) (fill_entry e' name sector) 0
              (λ b p q. new b (omega arith))
            ∙ word_at-fill_entry e' name sector small;
        place = h;
        was_free = free;
        others = λ j b n q.
            let outside : (leb (20 * k) (20 * j + b) && ltb (20 * j + b) (20 * k + 20)) ≡ false =
              apart j b n q in
            (x.3).bytes (20 * j + b) ∙ rw outside refl;
        same_inode = x.5;
        longer = omega (arith, x.4, d.whole);
        mapped = λ pos p q. rw ((x.3).index (pos / 512)) (d.room.mapped pos p (omega (arith, x.4)));
      }
    where
      apart :
          (j b : ℕ)
          → j ≢ k
          → b < 20
          → (leb (20 * k) (20 * j + b) && ltb (20 * j + b) (20 * k + 20)) ≡ false
      apart j b n q = ground arith
