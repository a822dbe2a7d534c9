-- ===== src/Inode/Data/Mapped.antt =====
-- Reading the part of a file whose blocks have sectors.
use kernel_dev.Prelude.{
  ℕ, zero, suc, ◌+◌, ◌-◌, ◌/◌, ◌%◌, ◌≡◌, ◌≢◌, ◌<◌, ◌≤◌, refl, subst, ap, ◌∙◌, false, Option, some,
  ◌==◌, ltb, leb, ◌&&◌, if◌then◌else◌, arith, Bool-cases, inl, inr, min,
}
use kernel_dev.Sector.{Sector, copy}
use kernel_dev.FileSystem.{FileSystem, Inode, Persist}
use kernel_dev.Inode.Index.{byte_to_sector}
use kernel_dev.Inode.Index.Lookup.{block_sector, mli_translate-mapped}
use kernel_dev.Inode.Data.{Buffer, sector_left, read_loop, inode_read_at}

-- The byte at a position of a file.
unfoldable pub byte_at : (ℕ → Sector) → ℕ → ℕ → ℕ
byte_at sectors inode pos = sectors (block_sector sectors inode (pos / 512)) (pos % 512)

-- Every position from `lo` up to `hi` is in a block that has a sector.
abbrev pub IsMapped : (ℕ → Sector) → ℕ → ℕ → ℕ → Type 0
IsMapped sectors inode lo hi =
    (pos : ℕ) → lo ≤ pos → pos < hi → block_sector sectors inode (pos / 512) ≢ 0

pub byte_to_sector-mapped :
    (persist : Persist) (w : FileSystem) (inode pos : ℕ)
    → block_sector w.sectors inode (pos / 512) ≢ 0
    → byte_to_sector persist w inode pos ≡ some (block_sector w.sectors inode (pos / 512), w)
unfolding byte_to_sector
byte_to_sector-mapped persist w inode pos h = mli_translate-mapped persist w inode (pos / 512) h

-- The buffer after `n` bytes of the file from `offset` on went to it from `at` on.
abbrev pub IsRead : (ℕ → Sector) → ℕ → Buffer → ℕ → ℕ → ℕ → Buffer → Type 0
IsRead sectors inode buffer at offset n buffer' =
    (k : ℕ)
    → buffer' k
      ≡ (if leb at k && ltb k (at + n) then byte_at sectors inode (offset + (k - at)) else buffer k)

module _ (persist : Persist) (w : FileSystem) (inode length : ℕ) where
  abbrev chunk : ℕ → ℕ → ℕ
  chunk size offset =
      let left = length - offset in
      let min_left = if ltb left (sector_left offset) then left else sector_left offset in
      if ltb size min_left then size else min_left

  -- One round reads a part of one block.
  copied :
      (buffer : Buffer) (at offset n : ℕ)
      → offset % 512 + n ≤ 512
      → IsRead w.sectors inode buffer at offset n (
          copy buffer at (w.sectors (block_sector w.sectors inode (offset / 512))) (offset % 512) n)
  unfolding copy byte_at
  copied buffer at offset n h k = elim (Bool-cases (leb at k && ltb k (at + n))) [
    | inl t ↦
        let same_block : (offset + (k - at)) / 512 ≡ offset / 512 = ground arith in
        let place : (offset + (k - at)) % 512 ≡ offset % 512 + (k - at) = ground arith in
        rw t (rw (same_block, place) refl)
    | inr t ↦ rw t refl
  ]

  chunk_bounds :
      (size offset : ℕ)
      → size ≢ 0
      → offset < length
      → (0 < chunk size offset)
        × (chunk size offset ≤ min size (length - offset))
        × (offset % 512 + chunk size offset ≤ 512)
  chunk_bounds size offset p q = ground arith

  IsRead-append :
      (buffer first second : Buffer) (at offset c n : ℕ)
      → IsRead w.sectors inode buffer at offset c first
      → IsRead w.sectors inode first (at + c) (offset + c) n second
      → IsRead w.sectors inode buffer at offset (c + n) second
  IsRead-append buffer first second at offset c n f s k = ground (arith, f k, s k)

  -- What a call that starts at `at` and reads `n` bytes returns.
  abbrev Reads : ℕ → Buffer → ℕ → ℕ → Option (ℕ × Buffer × FileSystem) → Type 0
  Reads at buffer offset n r =
      (buffer' : Buffer) × (r ≡ some (at + n, buffer', w))
      × IsRead w.sectors inode buffer at offset n buffer'

  no_bytes_left :
      (buffer : Buffer) (at offset n : ℕ) → n ≡ 0 → Reads at buffer offset n (some (at, buffer, w))
  no_bytes_left buffer at offset n e = (buffer, ground arith, λ k. ground arith)

  read_loop_lem :
      (fuel : ℕ) (buffer : Buffer) (size offset at : ℕ)
      → size ≤ fuel
      → IsMapped w.sectors inode offset (offset + min size (length - offset))
      → Reads at buffer offset
          (min size (length - offset))
          (read_loop persist fuel w inode length buffer size offset at)
  unfolding read_loop
  read_loop_lem zero buffer size offset at h m =
      no_bytes_left buffer at offset (min size (length - offset)) (omega arith)
  read_loop_lem (suc fuel) buffer size offset at h m = elim (Bool-cases (size == 0)) [
    | inl e ↦ rw e (no_bytes_left buffer at offset (min size (length - offset)) (ground arith))
    | inr more ↦ elim (Bool-cases (leb length offset)) [
      | inl past ↦
          rw (more, past)
            (no_bytes_left buffer at offset (min size (length - offset)) (ground arith))
      | inr inside ↦
          let b : (0 < chunk size offset)
              × (chunk size offset ≤ min size (length - offset))
              × (offset % 512 + chunk size offset ≤ 512) =
            chunk_bounds size offset (ground arith) (ground arith) in
          let mapped : block_sector w.sectors inode (offset / 512) ≢ 0 =
            m offset (omega arith) (omega arith) in
          let c = chunk size offset in
          let some_bytes : (c == 0) ≡ false = ground arith in
          let first : Buffer =
            copy buffer at (w.sectors (block_sector w.sectors inode (offset / 512))) (offset % 512)
              c in
          let n = min (size - c) (length - (offset + c)) in
          let total : c + n ≡ min size (length - offset) = omega arith in
          let rest : Reads (at + c) first (offset + c) n
              (read_loop persist fuel w inode length first (size - c) (offset + c) (at + c)) =
            read_loop_lem fuel first (size - c) (offset + c) (at + c) (omega arith)
              (λ pos p q. m pos (omega arith) (omega arith)) in
          (
            rest.0,
            rw (more, inside)
                (rw (byte_to_sector-mapped persist w inode offset mapped)
                  (rw some_bytes (rest.1 ∙ ap (λ (k : ℕ). some (k, rest.0, w)) (omega arith)))),
            subst (λ (k : ℕ). IsRead w.sectors inode buffer at offset k rest.0) total
                (IsRead-append buffer first rest.0 at offset c n (copied buffer at offset c b.2)
                  rest.2),
          )
    ]
  ]

-- Reading a part of a file whose blocks have sectors returns as many bytes as the size asks for and
-- the file has, puts exactly the bytes of the file at those positions into the buffer, and changes
-- nothing; it does not panic.
pub inode_read_at-mapped :
    (persist : Persist) (w : FileSystem) (i : Inode) (buffer : Buffer) (size offset : ℕ)
    → IsMapped w.sectors i.sector offset (offset + min size (i.length - offset))
    → (buffer' : Buffer) × (inode_read_at persist w i buffer size offset
        ≡ some (min size (i.length - offset), buffer', w))
      × IsRead w.sectors i.sector buffer 0 offset (min size (i.length - offset)) buffer'
unfolding inode_read_at
inode_read_at-mapped persist w i buffer size offset m =
    let r = read_loop_lem persist w i.sector i.length size buffer size offset 0 (omega arith) m in
    (r.0, r.1 ∙ ap (λ (k : ℕ). some (k, r.0, w)) (omega arith), r.2)
