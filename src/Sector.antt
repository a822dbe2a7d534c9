-- ===== src/Sector.antt =====
-- The 512 bytes of a sector, and the little-endian 32-bit words that src/filesys/inode.c overlays
-- on them (`struct inode_disk`, `struct index_block`).
use kernel_dev.Prelude.{
  ℕ, ◌+◌, ◌-◌, ◌*◌, ◌/◌, ◌%◌, ◌^◌, ◌<◌, ◌≤◌, ◌≡◌, ◌&&◌, ◌==◌, ltb, leb, if◌then◌else◌, arith,
}

-- The byte at each offset.
abbrev pub Sector : Type 0
Sector = ℕ → ℕ

-- A sector of zeros.
abbrev pub zeros : Sector
zeros k = 0

abbrev pub sector_size : ℕ
sector_size = 512

-- Word `i`, at offset `4 * i`.
pub word_at : Sector → ℕ → ℕ
word_at d i = d (4 * i) + 256 * d (4 * i + 1) + 65536 * d (4 * i + 2) + 16777216 * d (4 * i + 3)

-- A store of `w` to word `i`.
pub put_word : Sector → ℕ → ℕ → Sector
put_word d i w k =
    if k == 4 * i
    then w % 256
    else if k == 4 * i + 1
    then w / 256 % 256
    else if k == 4 * i + 2
    then w / 65536 % 256
    else if k == 4 * i + 3
    then w / 16777216 % 256
    else d k

-- `memcpy (to + at, from + pos, n)`
unfoldable pub copy : Sector → ℕ → (ℕ → ℕ) → ℕ → ℕ → Sector
copy to at from pos n k = if leb at k && ltb k (at + n) then from (pos + (k - at)) else to k

pub word_at-put_word :
    (d : Sector) (i j w : ℕ)
    → w < 2 ^ 32
    → word_at (put_word d i w) j ≡ (if i == j then w else word_at d j)
unfolding word_at put_word
word_at-put_word d i j w h = ground arith

pub word_at-zeros : (i : ℕ) → word_at zeros i ≡ 0
unfolding word_at
word_at-zeros i = omega arith

-- A word depends only on its four bytes.
pub word_at-eq :
    (d e : Sector) (i : ℕ)
    → ((k : ℕ) → 4 * i ≤ k → k < 4 * i + 4 → d k ≡ e k)
    → word_at d i ≡ word_at e i
unfolding word_at
word_at-eq d e i h =
    let a = h (4 * i) (omega arith) (omega arith) in
    let b = h (4 * i + 1) (omega arith) (omega arith) in
    let c = h (4 * i + 2) (omega arith) (omega arith) in
    let f = h (4 * i + 3) (omega arith) (omega arith) in omega (arith, a, b, c, f)

-- A store to a word leaves the bytes behind it.
pub put_word-behind : (d : Sector) (i w k : ℕ) → 4 * i + 4 ≤ k → put_word d i w k ≡ d k
unfolding put_word
put_word-behind d i w k h = ground arith
