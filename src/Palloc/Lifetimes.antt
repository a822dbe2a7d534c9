-- ===== src/Palloc/Lifetimes.antt =====
-- The life of the pages that src/threads/palloc.c hands out: they overlap with no others in use, and
-- go back.
use kernel_dev.Prelude.{
  ℕ, ◌+◌, ◌*◌, ◌<◌, ◌≤◌, ◌≡◌, ◌≢◌, refl, sym, ◌∙◌, ap, Bool, true, false, Option, none, some, ◌==◌,
  leb, bool_eq, subst, true-ne-false, ◌&&◌, if◌then◌else◌, arith, Bool-cases, inl, inr, ◌⊎◌,
}
use kernel_dev.Bitmap.Ranges.{within, Uniform}
use kernel_dev.Palloc.{Flags, Memory, palloc_get_multiple, palloc_free_multiple}
use kernel_dev.Palloc.Pools.{IsMemory}
use kernel_dev.Palloc.Marks.{is_used, page_cnt_of, Marked, bool_eq_refl}
use kernel_dev.Palloc.Pages.{Got, got, no_pages, out_of_pages, get_none, palloc_get_multiple-Got}
use kernel_dev.Palloc.Release.{Freed, freed, refused, address, palloc_free_multiple-Freed}

-- What is stored at an option of pages and memory, if anything.
pages_of : Option (ℕ × Memory) → ℕ
pages_of none = 0
pages_of (some (pages, m)) = pages

memory_of : Memory → Option (ℕ × Memory) → Memory
memory_of d none = d
memory_of d (some (pages, m)) = m

none-ne-some {ℓ} : {A : Type ℓ} {a : A} → none ≢ some a
none-ne-some e = cc

-- A call that returned pages took them in one pool.
record Taken (m : Memory) (flags : Flags) (n pages : ℕ) (after : Memory) : Type 0 where
  index : ℕ
  place : pages ≡ address m flags.pal_user index
  inside : index + n ≤ page_cnt_of m flags.pal_user
  were_free : Uniform (is_used m flags.pal_user) index n false
  marked : Marked m flags.pal_user index n true after

null_lem :
    (m : Memory) (assert : Bool) (pages : ℕ) (after : Memory)
    → (if◌then◌else◌ {A = Option (ℕ × Memory)} assert none (some (0, m))) ≡ some (pages, after)
    → pages ≡ 0
unfolding pages_of
null_lem m true pages after e = absurd (none-ne-some e)
null_lem m false pages after e = sym (ap pages_of e)

taken_lem :
    {m : Memory} {flags : Flags} {n pages : ℕ} {after : Memory} {r : Option (ℕ × Memory)}
    → Got m flags n r
    → r ≡ some (pages, after)
    → pages ≢ 0
    → Taken m flags n pages after
unfolding pages_of memory_of
taken_lem {m} {flags} {n} {pages} {after} (got i p a e h u least k c g) f z =
    let same : some (p, a) ≡ some (pages, after) = sym g ∙ f in
    record {
      index = i;
      place = sym (ap pages_of same) ∙ e;
      inside = h;
      were_free = u;
      marked = subst (λ (x : Memory). Marked m flags.pal_user i n true x) (ap (memory_of m) same) k;
    }
taken_lem (no_pages e g) f z = absurd (z (sym (ap pages_of (sym g ∙ f))))
taken_lem {m} {flags} {pages} {after} (out_of_pages all g) f z =
    absurd (z (null_lem m flags.pal_assert pages after (sym g ∙ f)))

asked_lem :
    (m : Memory) (flags : Flags) (page_cnt pages : ℕ) (after : Memory)
    → palloc_get_multiple m flags page_cnt ≡ some (pages, after)
    → pages ≢ 0
    → 0 < page_cnt
unfolding pages_of
asked_lem m flags page_cnt pages after e z = elim (Bool-cases (page_cnt == 0)) [
  | inl n ↦ absurd (z (ap pages_of (sym e ∙ get_none m flags page_cnt n)))
  | inr n ↦ ground arith
]

-- A group that is in use and a group that is free are apart.
groups_apart :
    (f : ℕ → Bool) (i n k cnt : ℕ)
    → 0 < n
    → 0 < cnt
    → Uniform f i n true
    → Uniform f k cnt false
    → (i + n ≤ k) ⊎ (k + cnt ≤ i)
groups_apart f i n k cnt p q used free = elim (Bool-cases (leb (i + n) k)) [
  | inl a ↦ inl (ground arith)
  | inr a ↦ elim (Bool-cases (leb (k + cnt) i)) [
    | inl b ↦ inr (ground arith)
    | inr b ↦ elim (Bool-cases (leb i k)) [
      | inl c ↦ absurd (
          true-ne-false
            (sym (used k (ground arith) (ground arith)) ∙ free k (omega arith) (omega arith)))
      | inr c ↦ absurd (
          true-ne-false
            (sym (used i (omega arith) (omega arith)) ∙ free i (ground arith) (ground arith)))
    ]
  ]
]

addresses_apart :
    (m : Memory) (user other : Bool) (i n k cnt : ℕ)
    → IsMemory m
    → 0 < n
    → 0 < cnt
    → i + n ≤ page_cnt_of m user
    → k + cnt ≤ page_cnt_of m other
    → Uniform (is_used m user) i n true
    → Uniform (is_used m other) k cnt false
    → (address m user i + 4096 * n ≤ address m other k)
      ⊎ (address m other k + 4096 * cnt ≤ address m user i)
addresses_apart m true true i n k cnt v p q h g used free =
    elim (groups_apart (is_used m true) i n k cnt p q used free) [
      | inl a ↦ inl (omega arith)
      | inr a ↦ inr (omega arith)
    ]
addresses_apart m false false i n k cnt v p q h g used free =
    elim (groups_apart (is_used m false) i n k cnt p q used free) [
      | inl a ↦ inl (omega arith)
      | inr a ↦ inr (omega arith)
    ]
addresses_apart m false true i n k cnt v p q h g used free = inl (omega (arith, v.apart))
addresses_apart m true false i n k cnt v p q h g used free = inr (omega (arith, v.apart))

-- In well-formed pools, the pages that a call returns do not overlap with a group of pages in use.
pub palloc_get_multiple-apart :
    (m : Memory) (flags : Flags) (page_cnt pages : ℕ) (after : Memory) (user : Bool) (i n : ℕ)
    → IsMemory m
    → palloc_get_multiple m flags page_cnt ≡ some (pages, after)
    → pages ≢ 0
    → 0 < n
    → i + n ≤ page_cnt_of m user
    → Uniform (is_used m user) i n true
    → (address m user i + 4096 * n ≤ pages) ⊎ (pages + 4096 * page_cnt ≤ address m user i)
palloc_get_multiple-apart m flags page_cnt pages after user i n v e z p h used =
    let t = taken_lem (palloc_get_multiple-Got m flags page_cnt v) e z in
    let q = asked_lem m flags page_cnt pages after e z in
    rw t.place
      (addresses_apart m user flags.pal_user i n t.index page_cnt v p q h t.inside used t.were_free)

-- A pool of which a group was marked in use and then as free.
module _ {m after : Memory} (user : Bool) (i n : ℕ) (free : Uniform (is_used m user) i n false)
    (k : Marked m user i n true after) where
  in_use : (j : ℕ) → within i n j ≡ true → is_used after user j ≡ true
  in_use j h =
      let same : bool_eq user user ≡ true = bool_eq_refl user in k.marks user j ∙ rw (same, h) refl

  back :
      {m' : Memory}
      → Marked after user i n false m'
      → (u : Bool) (j : ℕ) → is_used m' u j ≡ is_used m u j
  back c u j = elim (Bool-cases (bool_eq u user && within i n j)) [
    | inl e ↦
        let here : u ≡ user = ground arith in
        let this : is_used m u j ≡ false = rw here (free j (ground arith) (ground arith)) in
        c.marks u j ∙ rw (e, this) refl
    | inr e ↦ c.marks u j ∙ rw e (k.marks u j ∙ rw e refl)
  ]

  freed_lem :
      {r : Option Memory}
      → Freed after user i n r
      → (m' : Memory) × (r ≡ some m')
        × IsMemory m'
        × ((u : Bool) (j : ℕ) → is_used m' u j ≡ is_used m u j)
  freed_lem (freed m' all c x g) = (m', g, c.is_memory, back c)
  freed_lem (refused j w unused g) = absurd (true-ne-false (sym (in_use j w) ∙ unused))

-- In well-formed pools, freeing the pages that a call returned does not panic and undoes the call: the
-- same pages are in use as before it, and the pools are well formed.
pub palloc_free_multiple-palloc_get_multiple :
    (m : Memory) (flags : Flags) (page_cnt pages : ℕ) (after : Memory)
    → IsMemory m
    → palloc_get_multiple m flags page_cnt ≡ some (pages, after)
    → pages ≢ 0
    → (m' : Memory) × (palloc_free_multiple after pages page_cnt ≡ some m')
      × IsMemory m'
      × ((user : Bool) (j : ℕ) → is_used m' user j ≡ is_used m user j)
palloc_free_multiple-palloc_get_multiple m flags n pages after v e z =
    let t = taken_lem (palloc_get_multiple-Got m flags n v) e z in
    let at : pages ≡ address after flags.pal_user t.index =
      t.place ∙ ap (λ (x : ℕ). x + 4096 * t.index) (sym (t.marked.same_base flags.pal_user)) in
    let f =
      palloc_free_multiple-Freed flags.pal_user t.index n t.marked.is_memory
        (rw (t.marked.same_cnt flags.pal_user) t.inside) (asked_lem m flags n pages after e z) in
    rw at (freed_lem flags.pal_user t.index n t.were_free t.marked f)
