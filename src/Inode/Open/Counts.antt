-- ===== src/Inode/Open/Counts.antt =====
-- The table of open inodes of src/filesys/inode.c: one entry for each sector, with its count.
use kernel_dev.Prelude.{
  subst, sym, ℕ, ◌≡◌, ◌≢◌, ◌<◌, refl, ◌∙◌, Option, none, some, List, [], ◌∷◌, ◌==◌, arith,
  Bool-cases, inl, inr, ==→eq, ==-refl, ap,
}
use kernel_dev.FileSystem.{Inode}
use kernel_dev.Inode.Open.{find_open, update_open, remove_open}

-- Each sector is open at most once, and no entry has a count of 0.
pub data IsTable : List Inode → Type 0 where
  none_open : IsTable []
  one_more :
      (i : Inode) (l : List Inode)
      → 0 < i.open_cnt
      → find_open l i.sector ≡ none
      → IsTable l
      → IsTable (i ∷ l)

abbrev count_of : Option Inode → ℕ
count_of none = 0
count_of (some i) = i.open_cnt

-- How often a sector is open.
unfoldable pub opens : List Inode → ℕ → ℕ
opens l s = count_of (find_open l s)

pub opens_found :
    (l : List Inode) (s : ℕ) (i : Inode) → find_open l s ≡ some i → opens l s ≡ i.open_cnt
unfolding opens
opens_found l s i e = ap count_of e

pub opens-none : (l : List Inode) (s : ℕ) → find_open l s ≡ none → opens l s ≡ 0
unfolding opens
opens-none l s e = ap count_of e

pub find_open-sector : (l : List Inode) (s : ℕ) (i : Inode) → find_open l s ≡ some i → i.sector ≡ s
unfolding find_open
find_open-sector [] s i e = cc
find_open-sector (j ∷ l) s i e = ground (arith, find_open-sector l s i)

pub find_open-update_open-other :
    (l : List Inode) (i : Inode) (t : ℕ)
    → i.sector ≢ t
    → find_open (update_open l i) t ≡ find_open l t
unfolding find_open update_open
find_open-update_open-other [] i t h = refl
find_open-update_open-other (j ∷ l) i t h = ground (arith, find_open-update_open-other l i t h)

pub find_open-update_open :
    (l : List Inode) (i j : Inode)
    → find_open l i.sector ≡ some j
    → find_open (update_open l i) i.sector ≡ some i
unfolding find_open update_open
find_open-update_open [] i j h = cc
find_open-update_open (k ∷ l) i j h = elim (Bool-cases (k.sector == i.sector)) [
  | inl same ↦ rw same (rw (==-refl i.sector) refl)
  | inr other ↦ rw other (rw other (find_open-update_open l i j (rw other at h)))
]

-- A look-up finds what an update of the entry stored.
pub found_again :
    (l : List Inode) (i i' : Inode) (s : ℕ)
    → find_open l s ≡ some i
    → i'.sector ≡ i.sector
    → find_open (update_open l i') s ≡ some i'
found_again l i i' s e same =
    let this : i'.sector ≡ s = same ∙ find_open-sector l s i e in
    subst (λ (k : ℕ). find_open (update_open l i') k ≡ some i') this
      (find_open-update_open l i' i (subst (λ (k : ℕ). find_open l k ≡ some i) (sym this) e))

pub find_open-remove_open-other :
    (l : List Inode) (s t : ℕ) → s ≢ t → find_open (remove_open l s) t ≡ find_open l t
unfolding find_open remove_open
find_open-remove_open-other [] s t h = refl
find_open-remove_open-other (j ∷ l) s t h = ground (arith, find_open-remove_open-other l s t h)

pub update_open-IsTable :
    (l : List Inode) (i : Inode) → 0 < i.open_cnt → IsTable l → IsTable (update_open l i)
unfolding update_open
update_open-IsTable [] i p t = t
update_open-IsTable (j ∷ l) i p (one_more _ _ q e t) = elim (Bool-cases (j.sector == i.sector)) [
  | inl same ↦ rw same (one_more i l p (rw (← ==→eq j.sector i.sector same) e) t)
  | inr other ↦ rw other (
      one_more j (update_open l i) q (find_open-update_open-other l i j.sector (ground arith) ∙ e)
        (update_open-IsTable l i p t))
]

pub remove_open-IsTable : (l : List Inode) (s : ℕ) → IsTable l → IsTable (remove_open l s)
unfolding remove_open
remove_open-IsTable [] s t = t
remove_open-IsTable (j ∷ l) s (one_more _ _ q e t) = elim (Bool-cases (j.sector == s)) [
  | inl same ↦ rw same t
  | inr other ↦ rw other (
      one_more j (remove_open l s) q (find_open-remove_open-other l s j.sector (ground arith) ∙ e)
        (remove_open-IsTable l s t))
]

pub remove_open-gone : (l : List Inode) (s : ℕ) → IsTable l → find_open (remove_open l s) s ≡ none
unfolding find_open remove_open
remove_open-gone [] s t = refl
remove_open-gone (j ∷ l) s (one_more _ _ q e t) = elim (Bool-cases (j.sector == s)) [
  | inl same ↦ rw same (rw (← ==→eq j.sector s same) e)
  | inr other ↦ rw other (rw other (remove_open-gone l s t))
]
