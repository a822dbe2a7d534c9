-- ===== src/MapFile/Growth.antt =====
-- `MLI_translate` of src/filesys/inode.c at an entry that is empty: the file grows by a sector.
use kernel_dev.Prelude.{
  ℕ, ◌/◌, ◌^◌, ◌≡◌, ◌≢◌, ◌<◌, refl, sym, ◌∙◌, true, false, Option, none, some, ◌==◌, if◌then◌else◌,
  arith, ==-refl, ne→==, ==→eq, true-ne-false, ap, Bool-cases, inl, inr,
}
use kernel_dev.Bitmap.{byte_cnt}
use kernel_dev.Bitmap.View.{bit, IsValid}
use kernel_dev.Sector.{Sector, zeros, word_at, put_word, word_at-put_word}
use kernel_dev.FileSystem.{FileSystem}
use kernel_dev.FreeMap.{free_map_allocate, free_map_sector}
use kernel_dev.Inode.Index.{entry, expand_by_one, set_word}
use kernel_dev.Inode.Index.Lookup.{block_sector}
use kernel_dev.MapFile.{write_map}
use kernel_dev.MapFile.Allocate.{HasMapFile, Allocated, fresh, full, free_map_allocate-Allocated}

-- Sector `t` holds no part of the free map's file.
abbrev pub IsOutside : FileSystem → ℕ → Type 0
IsOutside w t =
    (pos : ℕ)
    → pos < byte_cnt w.free_map.bit_cnt
    → t ≢ block_sector w.sectors free_map_sector (pos / 512)

-- What using entry `i` of the index in sector `s` did. `grew`: the entry names a sector that was free
-- and is marked and zeroed. `no_space`: no sector was free.
pub data Grown (w : FileSystem) (s i : ℕ) (r : Option (ℕ × FileSystem)) : Type 0 where
  grew :
      (k : ℕ) (after : FileSystem)
      → bit w.free_map k ≡ false
      → ((j : ℕ) → bit after.free_map j ≡ (if k == j then true else bit w.free_map j))
      → after.sectors k ≡ zeros
      → ((j : ℕ) → word_at (after.sectors s) j ≡ (if i == j then k else word_at (w.sectors s) j))
      → ((t : ℕ) → t ≢ s → t ≢ k → IsOutside w t → after.sectors t ≡ w.sectors t)
      → r ≡ some (k, after)
      → Grown w s i r
  no_space :
      (after : FileSystem)
      → ((k : ℕ) → k < w.free_map.bit_cnt → bit w.free_map k ≡ true)
      → ((j : ℕ) → word_at (after.sectors s) j ≡ word_at (w.sectors s) j)
      → ((t : ℕ) → t ≢ s → after.sectors t ≡ w.sectors t)
      → r ≡ some (0, after)
      → Grown w s i r

entry_returns :
    (w : FileSystem) (s i k : ℕ) (w1 : FileSystem)
    → word_at (w.sectors s) i ≡ 0
    → k < 2 ^ 32
    → expand_by_one write_map w ≡ some (k, w1)
    → entry write_map w s i ≡ some (k, set_word w1 s i k)
unfolding entry set_word
entry_returns w s i k w1 empty small e =
    let stored : word_at (put_word (w1.sectors s) i k) i ≡ k =
      word_at-put_word (w1.sectors s) i i k small ∙ rw (==-refl i) refl in
    rw empty (rw e (rw (==-refl s) (rw stored refl)))

expand_returns :
    (w : FileSystem) (k : ℕ) (w1 : FileSystem)
    → free_map_allocate write_map w ≡ some (some k, w1)
    → expand_by_one write_map w
      ≡ some (k, record w1 { sectors = λ t. if k == t then zeros else w1.sectors t })
unfolding expand_by_one
expand_returns w k w1 e = rw e refl

expand_fails :
    (w w1 : FileSystem)
    → free_map_allocate write_map w ≡ some (none, w1)
    → expand_by_one write_map w ≡ some (0, w1)
unfolding expand_by_one
expand_fails w w1 e = rw e refl

in_use_ne : (w : FileSystem) (k s : ℕ) → bit w.free_map k ≡ false → bit w.free_map s ≡ true → k ≢ s
in_use_ne w k s free in_use e =
    true-ne-false (sym in_use ∙ ap (λ (j : ℕ). bit w.free_map j) (sym e) ∙ free)

empty_word :
    (d : Sector) (i j : ℕ) → word_at d i ≡ 0 → (if i == j then 0 else word_at d j) ≡ word_at d j
empty_word d i j e = elim (Bool-cases (i == j)) [
  | inl here ↦ rw here (sym (ap (word_at d) (sym (==→eq i j here)) ∙ e))
  | inr other ↦ rw other refl
]

-- After the allocation.
grown_lem :
    (w : FileSystem) (s i : ℕ) (r : Option (Option ℕ × FileSystem))
    → word_at (w.sectors s) i ≡ 0
    → bit w.free_map s ≡ true
    → IsOutside w s
    → IsValid w.free_map
    → free_map_allocate write_map w ≡ r
    → Allocated w r
    → Grown w s i (entry write_map w s i)
unfolding set_word
grown_lem w s i r empty in_use out v found
      (fresh k after inside free least bits valid saved elsewhere e) =
    let other : (k == s) ≡ false = ne→== k s (λ x. in_use_ne w k s free in_use x) in
    let other' : (s == k) ≡ false = ne→== s k (λ x. in_use_ne w k s free in_use (sym x)) in
    let kept : after.sectors s ≡ w.sectors s = elsewhere s out in
    grew k _ free bits (rw (other', ==-refl k) refl)
      (λ j.
        rw (==-refl s, other, kept)
          (word_at-put_word (w.sectors s) i j k (omega (arith, v.small, inside))))
      (λ t a b o. rw (ne→== s t (λ x. a (sym x)), ne→== k t (λ x. b (sym x))) (elsewhere t o))
      (entry_returns w s i k _ empty (omega (arith, v.small, inside))
        (expand_returns w k after (found ∙ e)))
grown_lem w s i r empty in_use out v found (full all e) =
    no_space _ all
      (λ j.
        rw (==-refl s)
          (word_at-put_word (w.sectors s) i j 0 (omega arith) ∙ empty_word (w.sectors s) i j empty))
      (λ t a. rw (ne→== s t (λ x. a (sym x))) refl)
      (entry_returns w s i 0 w empty (omega arith) (expand_fails w w (found ∙ e)))

-- Using an empty entry of an index block whose sector is in use and outside the map's file, with
-- initialisation complete, the lock of the map free, the map valid, and its file open and laid out in
-- sectors of its own: a
-- sector that was free is marked in the map, zeroed and named by the entry; all other entries of the
-- block, and all sectors but these and the map's file, are as before. With no free sector the result
-- is 0, and no entry and no other sector changes. It does not panic.
pub entry-Grown :
    (w : FileSystem) (s i : ℕ)
    → w.init_complete ≡ true
    → w.map_locked ≡ false
    → HasMapFile w
    → IsValid w.free_map
    → bit w.free_map s ≡ true
    → IsOutside w s
    → word_at (w.sectors s) i ≡ 0
    → Grown w s i (entry write_map w s i)
entry-Grown w s i done free f v in_use out empty =
    grown_lem w s i (free_map_allocate write_map w) empty in_use out v refl
      (free_map_allocate-Allocated w done free f v)
