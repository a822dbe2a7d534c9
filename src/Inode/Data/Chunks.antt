-- ===== src/Inode/Data/Chunks.antt =====
-- One round of the loop of `inode_write_at` of src/filesys/inode.c, and rounds in sequence: what they
-- leave of the file and of the disk.
use kernel_dev.Prelude.{
  ℕ, ◌+◌, ◌-◌, ◌/◌, ◌%◌, ◌≡◌, ◌≢◌, ◌<◌, ◌≤◌, refl, sym, ap, ◌∙◌, true, false, ◌==◌, ltb, leb, ◌&&◌,
  if◌then◌else◌, arith, Bool-cases, inl, inr, true-ne-false, ne→==, ==→eq, ==-refl,
}
use kernel_dev.Sector.{Sector, copy, word_at}
use kernel_dev.FileSystem.{set_sector}
use kernel_dev.Inode.Field
use kernel_dev.Inode.Index.Lookup.{block_sector}
use kernel_dev.Inode.Data.{Buffer}
use kernel_dev.Inode.Data.Mapped.{byte_at, IsMapped}

-- Sector `t` is none of the index blocks of the file: neither its inode, nor one that the inode or
-- the second level names.
pub record IsData (sectors : ℕ → Sector) (inode t : ℕ) : Type 0 where
  pub not_inode : t ≢ inode
  pub not_indirect : t ≢ word_at (sectors inode) Field.indirect
  pub not_two : t ≢ word_at (sectors inode) Field.indirect_two
  pub not_second :
      (j : ℕ)
      → word_at (sectors inode) Field.indirect_two ≢ 0
      → t ≢ word_at (sectors (word_at (sectors inode) Field.indirect_two)) j

-- The positions from `lo` up to `hi` are in data sectors of the file, each of one block alone.
pub record IsOwnRange (sectors : ℕ → Sector) (inode lo hi : ℕ) : Type 0 where
  pub mapped : IsMapped sectors inode lo hi
  pub is_data :
      (pos : ℕ)
      → lo ≤ pos
      → pos < hi
      → IsData sectors inode (block_sector sectors inode (pos / 512))
  pub own :
      (pos b : ℕ)
      → lo ≤ pos
      → pos < hi
      → block_sector sectors inode b ≡ block_sector sectors inode (pos / 512)
      → b ≡ pos / 512

-- A store to a data sector leaves the index.
pub block_sector-set :
    (sectors : ℕ → Sector) (inode t : ℕ) (d : Sector) (b : ℕ)
    → IsData sectors inode t
    → block_sector (set_sector sectors t d) inode b ≡ block_sector sectors inode b
unfolding block_sector
block_sector-set sectors inode t d b i =
    let e1 : (t == inode) ≡ false = ne→== _ _ i.not_inode in
    let e2 : (t == word_at (sectors inode) Field.indirect) ≡ false = ne→== _ _ i.not_indirect in
    let e3 : (t == word_at (sectors inode) Field.indirect_two) ≡ false = ne→== _ _ i.not_two in
    elim (Bool-cases (word_at (sectors inode) Field.indirect_two == 0)) [
      | inl no_second ↦ rw (e1, e2, e3) (rw no_second refl)
      | inr second ↦
          let j = (b - 123 - 128) / 128 in
          let e4 : (t == word_at (sectors (word_at (sectors inode) Field.indirect_two)) j) ≡ false =
            ne→== _ _ (i.not_second j (ground arith)) in
          rw (e1, e2, e3, e4) refl
    ]

IsData-set :
    (sectors : ℕ → Sector) (inode t u : ℕ) (d : Sector)
    → IsData sectors inode t
    → IsData sectors inode u
    → IsData (set_sector sectors t d) inode u
IsData-set sectors inode t u d i k =
    let e1 : (t == inode) ≡ false = ne→== _ _ i.not_inode in
    let e3 : (t == word_at (sectors inode) Field.indirect_two) ≡ false = ne→== _ _ i.not_two in
    record {
      not_inode = k.not_inode;
      not_indirect = rw e1 k.not_indirect;
      not_two = rw e1 k.not_two;
      not_second = λ j. rw (e1, e3) (k.not_second j);
    }

-- `n` bytes of the buffer, from `at` on, went to the file from `offset` on; the index and the rest
-- of the file are as before, and so are all sectors that are none of the range.
pub record IsWritten (before after : ℕ → Sector) (inode : ℕ) (buffer : Buffer) (at offset n : ℕ)
    : Type 0 where
  pub index : (b : ℕ) → block_sector after inode b ≡ block_sector before inode b
  pub bytes :
      (pos : ℕ)
      → byte_at after inode pos ≡ (
          if leb offset pos && ltb pos (offset + n)
          then buffer (at + (pos - offset))
          else byte_at before inode pos)
  pub still_data : (u : ℕ) → IsData before inode u → IsData after inode u
  pub elsewhere :
      (t : ℕ)
      → ((pos : ℕ) → offset ≤ pos → pos < offset + n → t ≢ block_sector before inode (pos / 512))
      → after t ≡ before t

copied_byte :
    (d : Sector) (buffer : Buffer) (at offset n pos : ℕ)
    → offset % 512 + n ≤ 512
    → pos / 512 ≡ offset / 512
    → copy d (offset % 512) buffer at n (pos % 512) ≡ (
        if leb offset pos && ltb pos (offset + n)
        then buffer (at + (pos - offset))
        else d (pos % 512))
unfolding copy
copied_byte d buffer at offset n pos h e =
    elim (Bool-cases (leb offset pos && ltb pos (offset + n))) [
      | inl t ↦
          let inside : (leb (offset % 512) (pos % 512) && ltb (pos % 512) (offset % 512 + n))
              ≡ true =
            ground arith in
          let place : pos % 512 - offset % 512 ≡ pos - offset = ground arith in
          rw (t, inside, place) refl
      | inr t ↦
          let outside : (leb (offset % 512) (pos % 512) && ltb (pos % 512) (offset % 512 + n))
              ≡ false =
            ground arith in
          rw (t, outside) refl
    ]

-- One round writes a part of one block.
pub chunk-IsWritten :
    (sectors : ℕ → Sector) (inode : ℕ) (buffer : Buffer) (at offset n hi : ℕ)
    → 0 < n
    → offset % 512 + n ≤ 512
    → offset + n ≤ hi
    → IsOwnRange sectors inode offset hi
    → IsWritten sectors
        (set_sector sectors
          (block_sector sectors inode (offset / 512))
          (copy (sectors (block_sector sectors inode (offset / 512))) (offset % 512) buffer at n))
        inode
        buffer
        at
        offset
        n
unfolding byte_at
chunk-IsWritten sectors inode buffer at offset n hi pos_n h k own =
    let t = block_sector sectors inode (offset / 512) in
    let d = copy (sectors t) (offset % 512) buffer at n in
    let i : IsData sectors inode t = own.is_data offset (omega arith) (omega arith) in
    record {
      index = λ b. block_sector-set sectors inode t d b i;
      bytes = λ pos.
          rw (block_sector-set sectors inode t d (pos / 512) i)
            (elim (Bool-cases (t == block_sector sectors inode (pos / 512))) [
              | inl same ↦
                  let this : block_sector sectors inode (pos / 512) ≡ t = sym (==→eq t _ same) in
                  rw same (
                    copied_byte (sectors t) buffer at offset n pos h
                      (own.own offset (pos / 512) (omega arith) (omega arith) this)
                    ∙ ap
                        (λ (s : ℕ).
                          if leb offset pos && ltb pos (offset + n)
                          then buffer (at + (pos - offset))
                          else sectors s (pos % 512))
                        (sym this))
              | inr other ↦
                  let out : (leb offset pos && ltb pos (offset + n)) ≡ false =
                    elim (Bool-cases (leb offset pos && ltb pos (offset + n))) [
                      | inl within ↦
                          let near : offset / 512 ≡ pos / 512 = ground arith in
                          absurd (
                            true-ne-false (
                              sym (==-refl t)
                              ∙ ap (λ (b : ℕ). t == block_sector sectors inode b) near
                              ∙ other))
                      | inr without ↦ without
                    ] in
                  rw (other, out) refl
            ]);
      still_data = λ u x. IsData-set sectors inode t u d i x;
      elsewhere = λ u x. rw (ne→== t u (λ e. x offset (omega arith) (omega arith) (sym e))) refl;
    }

pub IsWritten-append :
    (a b c : ℕ → Sector) (inode : ℕ) (buffer : Buffer) (at offset m n : ℕ)
    → IsWritten a b inode buffer at offset m
    → IsWritten b c inode buffer (at + m) (offset + m) n
    → IsWritten a c inode buffer at offset (m + n)
IsWritten-append a b c inode buffer at offset m n f s = record {
  index = λ k. s.index k ∙ f.index k;
  bytes = λ pos. ground (arith, f.bytes pos, s.bytes pos);
  still_data = λ u x. s.still_data u (f.still_data u x);
  elsewhere = λ t x.
      s.elsewhere t (λ pos p q. rw (f.index (pos / 512)) (x pos (omega arith) (omega arith)))
      ∙ f.elsewhere t (λ pos p q. x pos p (omega arith));
}

pub nothing-IsWritten :
    (a : ℕ → Sector) (inode : ℕ) (buffer : Buffer) (at offset n : ℕ)
    → n ≡ 0
    → IsWritten a a inode buffer at offset n
nothing-IsWritten a inode buffer at offset n e = record {
  index = λ b. refl;
  bytes = λ pos. ground arith;
  still_data = λ u x. x;
  elsewhere = λ t x. refl;
}

pub IsOwnRange-after :
    {a b : ℕ → Sector} {inode : ℕ} {buffer : Buffer} {at offset n hi : ℕ}
    → IsWritten a b inode buffer at offset n
    → IsOwnRange a inode offset hi
    → IsOwnRange b inode (offset + n) hi
IsOwnRange-after {a} {b} {inode} w o = record {
  mapped = λ pos p q. rw (w.index (pos / 512)) (o.mapped pos (omega arith) q);
  is_data = λ pos p q. rw (w.index (pos / 512)) (w.still_data _ (o.is_data pos (omega arith) q));
  own = λ pos k p q e. o.own pos k (omega arith) q (sym (w.index k) ∙ e ∙ w.index (pos / 512));
}
