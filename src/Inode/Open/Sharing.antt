-- ===== src/Inode/Open/Sharing.antt =====
-- `inode_open` and `inode_close` of src/filesys/inode.c: the openers of a sector share one inode,
-- which lives until the last of them closes it.
use kernel_dev.Prelude.{
  ℕ, ◌+◌, ◌-◌, ◌^◌, ◌≡◌, ◌≢◌, ◌<◌, refl, sym, ap, ◌∙◌, false, Option, none, some, List, ◌==◌,
  if◌then◌else◌, arith, subst, Bool-cases, inl, inr, ne→==, ==-refl,
}
use kernel_dev.Sector.{word_at, word_at-put_word}
use kernel_dev.FileSystem.{FileSystem, Inode, Persist}
use kernel_dev.Inode.Field
use kernel_dev.Inode.Open.{
  find_open, update_open, remove_open, inode_open, inode_reopen, open_found, inode_close,
  write_length, read_inode,
}
use kernel_dev.Inode.Open.Counts.{
  IsTable, one_more, opens, opens_found, opens-none, find_open-sector, find_open-update_open,
  find_open-update_open-other, find_open-remove_open-other, update_open-IsTable,
  remove_open-IsTable, remove_open-gone,
}

-- What opening sector `s` did: an inode of the table is shared as it is, with one opener more, and a
-- new one is read from the disk. The inode returned is the one in the table, its count is one more than
-- the sector was open before, and the table for all other sectors, the disk and the map are as before.
pub record Opened (w : FileSystem) (s : ℕ) (r : Inode × FileSystem) : Type 0 where
  pub table : IsTable (r.1).open_inodes
  pub here : find_open (r.1).open_inodes s ≡ some r.0
  pub count : (r.0).open_cnt ≡ opens w.open_inodes s + 1
  pub others : (t : ℕ) → t ≢ s → find_open (r.1).open_inodes t ≡ find_open w.open_inodes t
  pub shared :
      (i : Inode)
      → find_open w.open_inodes s ≡ some i
      → r.0 ≡ record i { open_cnt = i.open_cnt + 1 }
  pub fresh : find_open w.open_inodes s ≡ none → r.0 ≡ read_inode w s
  pub disk : (r.1).sectors ≡ w.sectors
  pub map_kept : (r.1).free_map ≡ w.free_map

new_inode_lem :
    (w : FileSystem) (s : ℕ)
    → IsTable w.open_inodes
    → find_open w.open_inodes s ≡ none
    → Opened w s (open_found w s none)
unfolding open_found read_inode find_open opens
new_inode_lem w s t e = record {
  table = one_more (read_inode w s) w.open_inodes (omega arith) e t;
  here = rw (==-refl s) refl;
  count = omega (arith, opens-none w.open_inodes s e);
  others = λ u n. rw (ne→== s u (λ x. n (sym x))) refl;
  shared = λ i f. cc;
  fresh = λ f. refl;
  disk = refl;
  map_kept = refl;
}

shared_inode_lem :
    (w : FileSystem) (s : ℕ) (i : Inode)
    → IsTable w.open_inodes
    → find_open w.open_inodes s ≡ some i
    → Opened w s (open_found w s (some i))
unfolding open_found inode_reopen opens
shared_inode_lem w s i t e =
    let i' : Inode = record i { open_cnt = i.open_cnt + 1 } in
    let same : i.sector ≡ s = find_open-sector w.open_inodes s i e in
    record {
      table = update_open-IsTable w.open_inodes i' (omega arith) t;
      here =
          subst (λ (k : ℕ). find_open (update_open w.open_inodes i') k ≡ some i') same
            (find_open-update_open w.open_inodes i' i
              (subst (λ (k : ℕ). find_open w.open_inodes k ≡ some i) (sym same) e));
      count = omega (arith, opens_found w.open_inodes s i e);
      others = λ u n. find_open-update_open-other w.open_inodes i' u (λ x. n (sym x ∙ same));
      shared = λ j f. ap (λ (k : Inode). record k { open_cnt = k.open_cnt + 1 }) cc;
      fresh = λ f. cc;
      disk = refl;
      map_kept = refl;
    }

open_found_lem :
    (w : FileSystem) (s : ℕ) (f : Option Inode)
    → IsTable w.open_inodes
    → find_open w.open_inodes s ≡ f
    → Opened w s (open_found w s f)
open_found_lem w s none t e = new_inode_lem w s t e
open_found_lem w s (some i) t e = shared_inode_lem w s i t e

-- With one entry in the table for each open sector, opening a sector that is open gives the inode
-- of the table as it is, with one opener more; opening any other reads a new inode from the sector.
-- The table has the inode that is returned, keeps one entry for each open sector, and its other
-- entries, the disk and the free map are as before.
pub inode_open-Opened :
    (w : FileSystem) (s : ℕ) → IsTable w.open_inodes → Opened w s (inode_open w s)
unfolding inode_open
inode_open-Opened w s t = open_found_lem w s (find_open w.open_inodes s) t refl

-- What closing the open inode `i` did.
pub record Closed (w : FileSystem) (i : Inode) (r : Option FileSystem) : Type 0 where
  pub after : FileSystem
  pub returned : r ≡ some after
  pub table : IsTable after.open_inodes
  pub count : opens after.open_inodes i.sector ≡ i.open_cnt - 1
  pub others : (t : ℕ) → t ≢ i.sector → find_open after.open_inodes t ≡ find_open w.open_inodes t
  pub saved :
      word_at (after.sectors i.sector) Field.length
      ≡ (if i.dirty then i.length else word_at (w.sectors i.sector) Field.length)
  pub elsewhere : (t : ℕ) → t ≢ i.sector → after.sectors t ≡ w.sectors t
  pub map_kept : after.free_map ≡ w.free_map

write_length-saved :
    (w : FileSystem) (i : Inode)
    → i.length < 2 ^ 32
    → word_at ((write_length w i).sectors i.sector) Field.length
      ≡ (if i.dirty then i.length else word_at (w.sectors i.sector) Field.length)
unfolding write_length
write_length-saved w i h = elim (Bool-cases i.dirty) [
  | inl d ↦ rw d (
      rw (==-refl i.sector)
        (word_at-put_word (w.sectors i.sector) Field.length Field.length i.length h))
  | inr c ↦ rw c refl
]

write_length-elsewhere :
    (w : FileSystem) (i : Inode) (t : ℕ) → t ≢ i.sector → (write_length w i).sectors t ≡ w.sectors t
unfolding write_length
write_length-elsewhere w i t n = elim (Bool-cases i.dirty) [
  | inl d ↦ rw d (rw (ne→== i.sector t (λ e. n (sym e))) refl)
  | inr c ↦ rw c refl
]

write_length-rest :
    (w : FileSystem) (i : Inode)
    → ((write_length w i).open_inodes ≡ w.open_inodes) × ((write_length w i).free_map ≡ w.free_map)
unfolding write_length
write_length-rest w i = elim (Bool-cases i.dirty) [
  | inl d ↦ rw d (refl, refl)
  | inr c ↦ rw c (refl, refl)
]

-- The table `l` that closing leaves, before it is put in the state.
table_left_lem :
    (w : FileSystem) (i : Inode) (l : List Inode) {r : Option FileSystem}
    → i.length < 2 ^ 32
    → IsTable l
    → opens l i.sector ≡ i.open_cnt - 1
    → ((t : ℕ) → t ≢ i.sector → find_open l t ≡ find_open w.open_inodes t)
    → r ≡ some (record (write_length w i) { open_inodes = l })
    → Closed w i r
table_left_lem w i l h t c o r = record {
  after = record (write_length w i) { open_inodes = l };
  returned = r;
  table = t;
  count = c;
  others = o;
  saved = write_length-saved w i h;
  elsewhere = write_length-elsewhere w i;
  map_kept = (write_length-rest w i).1;
}

-- Closing an inode of the table that is not removed, of a length of 32 bits, does not panic: it has one opener less, and no
-- entry once the last is gone; its length is on disk if it had changed, and other sectors, their
-- entries and the free map are as before.
pub inode_close-Closed :
    (persist : Persist) (w : FileSystem) (i : Inode)
    → IsTable w.open_inodes
    → find_open w.open_inodes i.sector ≡ some i
    → i.removed ≡ false
    → i.length < 2 ^ 32
    → Closed w i (inode_close persist w i)
unfolding inode_close
inode_close-Closed persist w i t here kept small = elim (Bool-cases (i.open_cnt - 1 == 0)) [
  | inl last ↦
      let gone : find_open (remove_open w.open_inodes i.sector) i.sector ≡ none =
        remove_open-gone w.open_inodes i.sector t in
      table_left_lem w i (remove_open w.open_inodes i.sector) small
        (remove_open-IsTable w.open_inodes i.sector t)
        (ground (arith, opens-none (remove_open w.open_inodes i.sector) i.sector gone, last))
        (λ u n. find_open-remove_open-other w.open_inodes i.sector u (λ e. n (sym e)))
        (rw (last, kept, (write_length-rest w i).0) refl)
  | inr more ↦
      let i' : Inode = record i { dirty = false; open_cnt = i.open_cnt - 1 } in
      let still : find_open (update_open w.open_inodes i') i.sector ≡ some i' =
        find_open-update_open w.open_inodes i' i here in
      table_left_lem w i (update_open w.open_inodes i') small
        (update_open-IsTable w.open_inodes i' (ground arith) t)
        (opens_found (update_open w.open_inodes i') i.sector i' still)
        (λ u n. find_open-update_open-other w.open_inodes i' u (λ e. n (sym e)))
        (rw (more, (write_length-rest w i).0) refl)
]
