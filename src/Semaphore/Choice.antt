-- ===== src/Semaphore/Choice.antt =====
-- Which waiter `sema_up` of src/threads/synch.c wakes.
use mathlib.Core.List.{append_assoc, append-nil}
use kernel_dev.Prelude.{
  ℕ, ◌<◌, ◌≤◌, ◌≡◌, refl, ◌∙◌, ap, subst, false, List, [], ◌∷◌, ◌++◌, ◌==◌, ltb, if◌then◌else◌,
  arith, Bool-cases, inl, inr, ◌⊎◌, ==→eq,
}
use kernel_dev.Prelude.Count.{count, count-append, count-push}
use kernel_dev.Thread.{Thread}
use kernel_dev.Semaphore.{choose_loop}

-- `t` is the first of the highest priority in the list.
pub record IsFirstHighest (thread : ℕ → Thread) (l : List ℕ) (t : ℕ) : Type 0 where
  pub before : List ℕ
  pub after : List ℕ
  pub split : l ≡ before ++ (t ∷ after)
  pub below : (u : ℕ) → 0 < count u before → (thread u).priority < (thread t).priority
  pub no_higher : (u : ℕ) → 0 < count u after → (thread u).priority ≤ (thread t).priority

module _ (thread : ℕ → Thread) where
  start : (t : ℕ) → IsFirstHighest thread (t ∷ []) t
  start t = record {
    before = [];
    after = [];
    split = refl;
    below = λ u h. absurd (omega arith);
    no_higher = λ u h. absurd (omega arith);
  }

  in_split :
      (u t : ℕ) (before after : List ℕ) {l : List ℕ}
      → l ≡ before ++ (t ∷ after)
      → 0 < count u l
      → (0 < count u before) ⊎ ((u ≡ t) ⊎ (0 < count u after))
  in_split u t before after e h = ground (arith, ap (count u) e, count-append u before (t ∷ after))

  highest :
      (l : List ℕ) (t u : ℕ)
      → IsFirstHighest thread l t
      → 0 < count u l
      → (thread u).priority ≤ (thread t).priority
  highest l t u b h = elim (in_split u t b.before b.after b.split h) [
    | inl x ↦ omega (arith, b.below u x)
    | inr x ↦ elim x [ inl e ↦ rw e (omega arith) | inr z ↦ b.no_higher u z ]
  ]

  extend :
      (l : List ℕ) (t u : ℕ)
      → IsFirstHighest thread l t
      → IsFirstHighest thread
          (l ++ (u ∷ []))
          (if ltb (thread t).priority (thread u).priority then u else t)
  extend l t u b = elim (Bool-cases (ltb (thread t).priority (thread u).priority)) [
    | inl e ↦ rw e (record {
      before = l;
      after = [];
      split = refl;
      below = λ w h. ground (arith, highest l t w b h);
      no_higher = λ w h. absurd (omega arith);
    })
    | inr e ↦ rw e (record {
      before = b.before;
      after = b.after ++ (u ∷ []);
      split =
          ap (λ (m : List ℕ). m ++ (u ∷ [])) b.split ∙ append_assoc b.before (t ∷ b.after) (u ∷ []);
      below = b.below;
      no_higher = λ w h. elim (Bool-cases (u == w)) [
        | inl same ↦ rw (← ==→eq u w same) (ground arith)
        | inr other ↦ b.no_higher w (ground (arith, count-push w u b.after))
      ];
    })
  ]

  choose_loop-IsFirstHighest :
      (rest l : List ℕ) (t : ℕ)
      → IsFirstHighest thread l t
      → IsFirstHighest thread (l ++ rest) (choose_loop thread t rest)
  unfolding choose_loop
  choose_loop-IsFirstHighest [] l t b = rw (append-nil l) b
  choose_loop-IsFirstHighest (u ∷ rest) l t b =
      subst (λ (m : List ℕ). IsFirstHighest thread m (choose_loop thread t (u ∷ rest)))
        (append_assoc l (u ∷ []) rest)
        (choose_loop-IsFirstHighest rest (l ++ (u ∷ [])) _ (extend l t u b))

-- The loop of `sema_up` chooses, of the threads that wait, the one that has waited longest of those
-- with the highest priority.
pub choose_loop-first :
    (thread : ℕ → Thread) (front : ℕ) (rest : List ℕ)
    → IsFirstHighest thread (front ∷ rest) (choose_loop thread front (front ∷ rest))
unfolding choose_loop
choose_loop-first thread front rest =
    let no : ltb (thread front).priority (thread front).priority ≡ false = ground arith in
    rw no (choose_loop-IsFirstHighest thread rest (front ∷ []) front (start thread front))

pub first-count :
    {thread : ℕ → Thread} {l : List ℕ} {t : ℕ} → IsFirstHighest thread l t → 0 < count t l
first-count {thread} {l} {t} b =
    ground (arith, ap (count t) b.split, count-append t b.before (t ∷ b.after))
