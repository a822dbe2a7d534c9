-- ===== src/Directory/Entries.antt =====
-- The entries of a directory of src/filesys/directory.c, and what `lookup` finds among them.
use kernel_dev.Prelude.{
  ℕ, zero, suc, ◌+◌, ◌-◌, ◌*◌, ◌/◌, ◌<◌, ◌≤◌, ◌≡◌, refl, sym, ◌∙◌, ap, subst, Bool, true, false,
  not, Option, none, some, [], ◌∷◌, ◌==◌, ltb, leb, ◌&&◌, length, arith, Bool-cases, inl, inr, min,
  ==→eq,
}
use kernel_dev.Sector.{Sector}
use kernel_dev.FileSystem.{FileSystem, Inode, Persist}
use kernel_dev.Inode.Data.{Buffer, inode_read_at}
use kernel_dev.Inode.Data.Mapped.{byte_at, IsMapped, inode_read_at-mapped}
use kernel_dev.Directory.{Name, in_use, same_string, lookup_loop, lookup, slot_loop}

-- Entry `k` of the directory whose inode is in a sector.
abbrev pub entry : (ℕ → Sector) → ℕ → ℕ → Buffer
entry sectors inode k j = byte_at sectors inode (20 * k + j)

abbrev pub is_named : Name → Buffer → Bool
is_named name e = in_use e && same_string name e 4

pub same_string-eq :
    (name : Name) (e f : Buffer) (at : ℕ)
    → ((k : ℕ) → at ≤ k → k ≤ at + length name → e k ≡ f k)
    → same_string name e at ≡ same_string name f at
unfolding same_string
same_string-eq [] e f at h = rw (h at (omega arith) (omega arith)) refl
same_string-eq (c ∷ name) e f at h =
    rw
      (
        h at (omega arith) (omega arith),
        same_string-eq name e f (at + 1) (λ k p q. h k (omega arith) (omega arith)),
      )
      refl

-- A name that is not too long is compared inside the entry.
pub is_named-eq :
    (name : Name) (e f : Buffer)
    → length name ≤ 14
    → ((k : ℕ) → k < 20 → e k ≡ f k)
    → is_named name e ≡ is_named name f
is_named-eq name e f h same =
    rw (same 19 (omega arith), same_string-eq name e f 4 (λ k p q. same k (omega arith))) refl

module _ (persist : Persist) (w : FileSystem) (i : Inode)
    (mapped : IsMapped w.sectors i.sector 0 i.length) where
  -- A read of an entry inside the file, and one at or behind the last whole entry.
  pub read_inside :
      (e : Buffer) (k : ℕ)
      → k < i.length / 20
      → (e' : Buffer) × (inode_read_at persist w i e 20 (20 * k) ≡ some (20, e', w))
        × ((j : ℕ) → j < 20 → e' j ≡ entry w.sectors i.sector k j)
  read_inside e k h =
      let whole : min 20 (i.length - 20 * k) ≡ 20 = omega arith in
      let r =
        inode_read_at-mapped persist w i e 20 (20 * k)
          (λ pos p q. mapped pos (omega arith) (omega arith)) in
      (
        r.0,
        r.1 ∙ ap (λ (n : ℕ). some (n, r.0, w)) whole,
        λ j g.
            let here : (leb 0 j && ltb j (0 + min 20 (i.length - 20 * k))) ≡ true =
              ground (arith, whole) in
            let same : j - 0 ≡ j = omega arith in r.2 j ∙ rw here (rw same refl),
      )

  pub read_outside :
      (e : Buffer) (k : ℕ)
      → i.length / 20 ≤ k
      → (n : ℕ) × (e' : Buffer) × (inode_read_at persist w i e 20 (20 * k) ≡ some (n, e', w))
        × ((n == 20) ≡ false)
  read_outside e k h =
      let r =
        inode_read_at-mapped persist w i e 20 (20 * k)
          (λ pos p q. mapped pos (omega arith) (omega arith)) in
      (min 20 (i.length - 20 * k), r.0, r.1, ground arith)

  -- What a search for a name returned. `there`: the first entry in use of that name, and its offset.
  pub data Looked (name : Name) (r : Option (Option (Buffer × ℕ) × FileSystem)) : Type 0 where
    there :
        (k : ℕ) (e : Buffer)
        → k < i.length / 20
        → is_named name (entry w.sectors i.sector k) ≡ true
        → ((j : ℕ) → j < k → is_named name (entry w.sectors i.sector j) ≡ false)
        → ((j : ℕ) → j < 20 → e j ≡ entry w.sectors i.sector k j)
        → r ≡ some (some (e, 20 * k), w)
        → Looked name r
    missing :
        ((k : ℕ) → k < i.length / 20 → is_named name (entry w.sectors i.sector k) ≡ false)
        → r ≡ some (none, w)
        → Looked name r

  module _ (name : Name) (short : length name ≤ 14) where
    lookup_loop-Looked :
        (fuel : ℕ) (e : Buffer) (k : ℕ)
        → i.length / 20 < fuel + k
        → ((j : ℕ) → j < k → j < i.length / 20 → is_named name (entry w.sectors i.sector j) ≡ false)
        → Looked name (lookup_loop persist fuel w i name e (20 * k))
    unfolding lookup_loop
    lookup_loop-Looked zero e k f before = missing (λ j h. before j (omega arith) h) refl
    lookup_loop-Looked (suc fuel) e k f before = elim (Bool-cases (ltb k (i.length / 20))) [
      | inl inside ↦
          let r = read_inside e k (ground arith) in
          let same = is_named-eq name r.0 (entry w.sectors i.sector k) short r.2 in
          elim (Bool-cases (is_named name r.0)) [
            | inl y ↦ rw r.1 (
                rw y (
                  there k r.0 (ground arith) (sym same ∙ y)
                    (λ j h. before j h (ground (arith, h, inside))) r.2 refl))
            | inr n ↦
                let after : (j : ℕ)
                    → j < suc k
                    → j < i.length / 20
                    → is_named name (entry w.sectors i.sector j) ≡ false =
                  λ j p q. elim (Bool-cases (k == j)) [
                    | inl here ↦ rw (← ==→eq k j here) (sym same ∙ n)
                    | inr other ↦ before j (ground arith) q
                  ] in
                rw r.1 (
                  rw n (
                    subst (λ (o : ℕ). Looked name (lookup_loop persist fuel w i name r.0 o))
                      (omega arith) (lookup_loop-Looked fuel r.0 (suc k) (omega arith) after)))
          ]
      | inr outside ↦
          let r = read_outside e k (ground arith) in
          rw r.2 (rw r.3 (missing (λ j h. before j (ground arith) h) refl))
    ]

    -- In a directory whose blocks have sectors, `lookup` of a name of at most 14 characters finds the first
    -- entry in use of that name, if there is one; it changes nothing and does not panic.
    pub lookup-Looked : (e : Buffer) → Looked name (lookup persist w i name e)
    unfolding lookup
    lookup-Looked e =
        lookup_loop-Looked (i.length / 20 + 1) e 0 (omega arith) (λ j p q. absurd (omega arith))

  -- What the search for a free slot returned: the first entry that is not in use, or the end.
  pub data Slotted (r : Option (Buffer × ℕ × FileSystem)) : Type 0 where
    slot :
        (k : ℕ) (e : Buffer)
        → k ≤ i.length / 20
        → ((j : ℕ) → j < k → in_use (entry w.sectors i.sector j) ≡ true)
        → (k < i.length / 20 → in_use (entry w.sectors i.sector k) ≡ false)
        → r ≡ some (e, 20 * k, w)
        → Slotted r

  slot_loop-Slotted :
      (fuel : ℕ) (e : Buffer) (k : ℕ)
      → i.length / 20 < fuel + k
      → k ≤ i.length / 20
      → ((j : ℕ) → j < k → in_use (entry w.sectors i.sector j) ≡ true)
      → Slotted (slot_loop persist fuel w i e (20 * k))
  unfolding slot_loop
  slot_loop-Slotted zero e k f g before = absurd (omega arith)
  slot_loop-Slotted (suc fuel) e k f g before = elim (Bool-cases (ltb k (i.length / 20))) [
    | inl inside ↦
        let r = read_inside e k (ground arith) in
        let same : r.0 19 ≡ entry w.sectors i.sector k 19 = r.2 19 (omega arith) in
        elim (Bool-cases (in_use r.0)) [
          | inl y ↦
              let used : in_use (entry w.sectors i.sector k) ≡ true =
                ap (λ (b : ℕ). not (b == 0)) (sym same) ∙ y in
              let after : (j : ℕ) → j < suc k → in_use (entry w.sectors i.sector j) ≡ true = λ j p.
                elim (Bool-cases (k == j)) [
                  | inl here ↦ rw (← ==→eq k j here) used
                  | inr other ↦ before j (ground arith)
                ] in
              rw r.1 (
                rw y (
                  subst (λ (o : ℕ). Slotted (slot_loop persist fuel w i r.0 o)) (omega arith)
                    (slot_loop-Slotted fuel r.0 (suc k) (omega arith) (ground arith) after)))
          | inr n ↦
              rw r.1
                (rw n (slot k r.0 g before (λ h. ap (λ (b : ℕ). not (b == 0)) (sym same) ∙ n) refl))
        ]
    | inr outside ↦
        let r = read_outside e k (ground arith) in
        rw r.2 (rw r.3 (slot k r.1 g before (λ h. absurd (ground arith)) refl))
  ]

  pub free_slot : (e : Buffer) → Slotted (slot_loop persist (i.length / 20 + 1) w i e 0)
  free_slot e =
      slot_loop-Slotted (i.length / 20 + 1) e 0 (omega arith) (omega arith)
        (λ j h. absurd (omega arith))
