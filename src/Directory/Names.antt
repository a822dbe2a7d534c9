-- ===== src/Directory/Names.antt =====
-- The names in the entries of src/filesys/directory.c: what `strlcpy` stores, `strcmp` finds.
use kernel_dev.Prelude.{
  ℕ, zero, suc, ◌+◌, ◌^◌, ◌<◌, ◌≤◌, ◌≡◌, refl, ◌∙◌, true, [], ◌∷◌, length, arith, ==-refl,
}
use kernel_dev.Sector.{word_at, put_word, word_at-put_word, put_word-behind}
use kernel_dev.Inode.Data.{Buffer}
use kernel_dev.Directory.{Name, same_string, set_byte, strlcpy, fill_entry}
use kernel_dev.Directory.Entries.{is_named, same_string-eq}

strlcpy_before :
    (name : Name) (e : Buffer) (at size k : ℕ) → k < at → strlcpy e at name size k ≡ e k
unfolding strlcpy
strlcpy_before name e at zero k h = refl
strlcpy_before name e at (suc zero) k h = ground arith
strlcpy_before [] e at (suc (suc n)) k h = ground arith
strlcpy_before (c ∷ name) e at (suc (suc n)) k h =
    strlcpy_before name (set_byte e at c) (at + 1) (suc n) k (omega arith) ∙ ground arith

strlcpy_behind :
    (name : Name) (e : Buffer) (at size k : ℕ) → at + size ≤ k → strlcpy e at name size k ≡ e k
unfolding strlcpy
strlcpy_behind name e at zero k h = refl
strlcpy_behind name e at (suc zero) k h = ground arith
strlcpy_behind [] e at (suc (suc n)) k h = ground arith
strlcpy_behind (c ∷ name) e at (suc (suc n)) k h =
    strlcpy_behind name (set_byte e at c) (at + 1) (suc n) k (omega arith) ∙ ground arith

-- A name for which there is room is stored whole.
pub same_string-strlcpy :
    (name : Name) (e : Buffer) (at n : ℕ)
    → length name ≤ n
    → same_string name (strlcpy e at name (suc n)) at ≡ true
unfolding same_string strlcpy
same_string-strlcpy [] e at zero h = ground arith
same_string-strlcpy [] e at (suc n) h = ground arith
same_string-strlcpy (c ∷ name) e at zero h = absurd (omega arith)
same_string-strlcpy (c ∷ name) e at (suc n) h =
    let first : strlcpy (set_byte e at c) (at + 1) name (suc n) at ≡ c =
      strlcpy_before name (set_byte e at c) (at + 1) (suc n) at (omega arith) ∙ ground arith in
    rw first (rw (==-refl c) (same_string-strlcpy name (set_byte e at c) (at + 1) n (omega arith)))

-- The entry that `dir_add` writes is in use, has the name, and names the sector.
pub fill_entry-named :
    (e : Buffer) (name : Name) (sector : ℕ)
    → length name ≤ 14
    → is_named name (fill_entry e name sector) ≡ true
unfolding fill_entry
fill_entry-named e name sector h =
    let filled = strlcpy (set_byte e 19 1) 4 name 15 in
    let mark : put_word filled 0 sector 19 ≡ 1 =
      put_word-behind filled 0 sector 19 (omega arith)
      ∙ strlcpy_behind name (set_byte e 19 1) 4 15 19 (omega arith) in
    let same : same_string name (put_word filled 0 sector) 4 ≡ same_string name filled 4 =
      same_string-eq name (put_word filled 0 sector) filled 4
        (λ k p q. put_word-behind filled 0 sector k (omega arith)) in
    rw mark (same ∙ same_string-strlcpy name (set_byte e 19 1) 4 14 h)

pub word_at-fill_entry :
    (e : Buffer) (name : Name) (sector : ℕ)
    → sector < 2 ^ 32
    → word_at (fill_entry e name sector) 0 ≡ sector
unfolding fill_entry
word_at-fill_entry e name sector h =
    word_at-put_word (strlcpy (set_byte e 19 1) 4 name 15) 0 0 sector h ∙ refl
