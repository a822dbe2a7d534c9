-- ===== src/Inode/Data/Range.antt =====
-- Writing over the part of a file whose blocks have sectors, and reading it back:
-- `inode_write_at` and `inode_read_at` of src/filesys/inode.c.
use mathlib.Core.Path.{ap₂}
use kernel_dev.Prelude.{
  ℕ, zero, suc, ◌+◌, ◌-◌, ◌/◌, ◌%◌, ◌≡◌, ◌≢◌, ◌<◌, ◌≤◌, subst, ap, ◌∙◌, true, false, Option, some,
  ◌==◌, ltb, if◌then◌else◌, arith, Bool-cases, inl, inr, ne→==, min, max,
}
use kernel_dev.Sector.{Sector, copy}
use kernel_dev.FileSystem.{FileSystem, Inode, set_sector, Persist}
use kernel_dev.Inode.Index.Lookup.{block_sector}
use kernel_dev.Inode.Data.{Buffer, sector_left, write_loop, inode_write_at, inode_read_at}
use kernel_dev.Inode.Data.Mapped.{IsMapped, IsRead, byte_to_sector-mapped, inode_read_at-mapped}
use kernel_dev.Inode.Data.Chunks.{
  IsOwnRange, IsWritten, chunk-IsWritten, nothing-IsWritten, IsWritten-append, IsOwnRange-after,
}

module _ (persist : Persist) (inode : ℕ) (buffer : Buffer) where
  abbrev chunk : ℕ → ℕ → ℕ
  chunk size offset = if ltb size (sector_left offset) then size else sector_left offset

  chunk_bounds :
      (size offset : ℕ)
      → size ≢ 0
      → (0 < chunk size offset)
        × (chunk size offset ≤ size)
        × (offset % 512 + chunk size offset ≤ 512)
  chunk_bounds size offset p = ground arith

  -- What a call that starts at `at` and writes `size` bytes returns.
  abbrev Writes : FileSystem → ℕ → ℕ → ℕ → Option (ℕ × ℕ × ℕ × FileSystem) → Type 0
  Writes w at offset size r =
      (after : ℕ → Sector) × (r ≡ some (at + size, 0, offset + size, record w { sectors = after }))
      × IsWritten w.sectors after inode buffer at offset size

  no_bytes_left :
      (w : FileSystem) (at offset size : ℕ)
      → size ≡ 0
      → Writes w at offset size (some (at, size, offset, w))
  no_bytes_left w at offset size e =
      (w.sectors, ground arith, nothing-IsWritten w.sectors inode buffer at offset size e)

  first_round :
      (w : FileSystem) (b : ℕ → Sector) (at offset c n : ℕ) {r : Option (ℕ × ℕ × ℕ × FileSystem)}
      (size : ℕ)
      → c + n ≡ size
      → IsWritten w.sectors b inode buffer at offset c
      → Writes (record w { sectors = b }) (at + c) (offset + c) n r
      → Writes w at offset size r
  first_round w b at offset c n size e first rest = (
    rest.0,
    rest.1
        ∙ ap₂ (λ (m k : ℕ). some (m, 0, k, record w { sectors = rest.0 })) (omega arith)
            (omega arith),
    subst (λ (k : ℕ). IsWritten w.sectors rest.0 inode buffer at offset k) e
        (IsWritten-append w.sectors b rest.0 inode buffer at offset c n first rest.2),
  )

  write_loop_lem :
      (fuel : ℕ) (w : FileSystem) (size offset at : ℕ)
      → size ≤ fuel
      → IsOwnRange w.sectors inode offset (offset + size)
      → Writes w at offset size (write_loop persist fuel w inode buffer size offset at)
  unfolding write_loop
  write_loop_lem zero w size offset at h o = no_bytes_left w at offset size (omega arith)
  write_loop_lem (suc fuel) w size offset at h o = elim (Bool-cases (size == 0)) [
    | inl e ↦ rw e (no_bytes_left w at offset size (ground arith))
    | inr more ↦
        let bounds : (0 < chunk size offset)
            × (chunk size offset ≤ size)
            × (offset % 512 + chunk size offset ≤ 512) =
          chunk_bounds size offset (ground arith) in
        let c = chunk size offset in
        let mapped : block_sector w.sectors inode (offset / 512) ≢ 0 =
          o.mapped offset (omega arith) (omega arith) in
        let some_bytes : (c == 0) ≡ false = ground arith in
        let t = block_sector w.sectors inode (offset / 512) in
        let b : ℕ → Sector =
          set_sector w.sectors t (copy (w.sectors t) (offset % 512) buffer at c) in
        let first : IsWritten w.sectors b inode buffer at offset c =
          chunk-IsWritten w.sectors inode buffer at offset c (offset + size) bounds.0 bounds.2
            (omega arith) o in
        let left : offset + c + (size - c) ≡ offset + size = omega arith in
        rw more (
          rw (byte_to_sector-mapped persist w inode offset mapped) (
            rw (ne→== _ _ mapped, some_bytes)
              (first_round w b at offset c (size - c) size (omega arith) first (
                write_loop_lem fuel (record w { sectors = b }) (size - c) (offset + c) (at + c)
                  (omega arith) (rw left (IsOwnRange-after first o))))))
  ]

-- A write, not denied, over a part of a file whose blocks have sectors of their own puts out all
-- the bytes, also beyond the end of the file, makes exactly those bytes of the file the buffer's,
-- and leaves the index, all other bytes and all sectors outside the range; it does not panic. The
-- length becomes the end of the range if that is beyond it.
pub inode_write_at-mapped :
    (persist : Persist) (w : FileSystem) (i : Inode) (buffer : Buffer) (size offset : ℕ)
    → i.deny_write_cnt ≡ 0
    → IsOwnRange w.sectors i.sector offset (offset + size)
    → (after : ℕ → Sector) × (i' : Inode) × (inode_write_at persist w i buffer size offset
        ≡ some (size, i', record w { sectors = after }))
      × IsWritten w.sectors after i.sector buffer 0 offset size
      × (i'.length ≡ max i.length (offset + size))
      × (i'.sector ≡ i.sector)
unfolding inode_write_at
inode_write_at-mapped persist w i buffer size offset allowed o =
    let r = write_loop_lem persist i.sector buffer size w size offset 0 (omega arith) o in
    (
      r.0,
      (if ltb i.length (0 + (offset + size))
          then record i { dirty = true; length = 0 + (offset + size) }
          else i),
      rw allowed (rw r.1 (ground arith)),
      r.2,
      ground arith,
      ground arith,
    )

read_byte :
    {before after : ℕ → Sector} {inode : ℕ} {buffer back : Buffer} {size offset : ℕ}
    (other : Buffer) (k : ℕ)
    → k < size
    → IsWritten before after inode buffer 0 offset size
    → IsRead after inode other 0 offset size back
    → back k ≡ buffer k
read_byte {offset = offset} other k h written r =
    ground (arith, r k, written.bytes (offset + (k - 0)))

-- Reading the range where a buffer went, in any state with these sectors.
pub inode_read_at-written :
    (persist : Persist) (w : FileSystem) (i : Inode) (before : ℕ → Sector) (buffer other : Buffer)
    (size offset : ℕ)
    → IsWritten before w.sectors i.sector buffer 0 offset size
    → IsMapped before i.sector offset (offset + size)
    → offset + size ≤ i.length
    → (back : Buffer) × (inode_read_at persist w i other size offset ≡ some (size, back, w))
      × ((k : ℕ) → k < size → back k ≡ buffer k)
inode_read_at-written persist w i before buffer other size offset written mapped inside =
    let whole : min size (i.length - offset) ≡ size = omega arith in
    let r =
      inode_read_at-mapped persist w i other size offset
        (rw whole (λ pos p q. rw (written.index (pos / 512)) (mapped pos p q))) in
    (
      r.0,
      r.1 ∙ ap (λ (n : ℕ). some (n, r.0, w)) whole,
      λ k h.
          read_byte other k h written
            (subst (λ (n : ℕ). IsRead w.sectors i.sector other 0 offset n r.0) whole r.2),
    )

-- What was written is read back: after a write, not denied, to a part of a file whose blocks have sectors of
-- their own, reading the same part gives all of the bytes that were written.
pub inode_read_at-inode_write_at :
    (persist : Persist) (w : FileSystem) (i : Inode) (buffer other : Buffer) (size offset : ℕ)
    → i.deny_write_cnt ≡ 0
    → IsOwnRange w.sectors i.sector offset (offset + size)
    → (w' : FileSystem) × (i' : Inode) × (back : Buffer) × (inode_write_at persist w i buffer size
          offset
        ≡ some (size, i', w'))
      × (inode_read_at persist w' i' other size offset ≡ some (size, back, w'))
      × ((k : ℕ) → k < size → back k ≡ buffer k)
inode_read_at-inode_write_at persist w i buffer other size offset allowed o =
    let x = inode_write_at-mapped persist w i buffer size offset allowed o in
    let w' : FileSystem = record w { sectors = x.0 } in
    let r =
      inode_read_at-written persist w' x.1 w.sectors buffer other size offset (rw x.5 x.3)
        (rw x.5 o.mapped) (omega (arith, x.4)) in
    (w', x.1, r.0, x.2, r.1, r.2)
