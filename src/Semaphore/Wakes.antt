-- ===== src/Semaphore/Wakes.antt =====
-- `sema_up` of src/threads/synch.c in a state that meets the invariant: it wakes the right thread and
-- does not fail.
use kernel_dev.Prelude.{
  ℕ, ◌+◌, ◌%◌, ◌^◌, ◌<◌, ◌≡◌, ◌≢◌, refl, sym, ◌∙◌, ap, subst, Bool, true, false, Option, none, some,
  List, [], ◌∷◌, ◌==◌, arith, Bool-cases, inl, inr, ==→eq, ==-refl, true-ne-false, ◌>>=◌,
}
use kernel_dev.Prelude.Count.{count, remove}
use kernel_dev.Thread.{Kernel, set_at, thread_unblock}
use kernel_dev.Thread.Switch.{Switched, blocked_in}
use kernel_dev.Thread.Operations.{with_current}
use kernel_dev.Thread.Wakeups.{without, thread_unblock-Switched}
use kernel_dev.Semaphore.{System, sema_up, wake_waiter, choose_loop}
use kernel_dev.Semaphore.Choice.{IsFirstHighest, choose_loop-first, first-count}
use kernel_dev.Semaphore.Sound.{
  IsSound, is_on, on-not_idle, on-not_current, rescheduled-IsSound, valued-IsSound, woken-IsSound,
}

-- The system after the waiter `t` of `s` was woken, and the threads switched to those of `k`.
abbrev pub after_wake : System → ℕ → ℕ → Kernel → System
after_wake y s t k = record {
  kernel = k;
  sema =
      set_at y.sema s
        (record { value = ((y.sema s).value + 1) % 2 ^ 32; waiters = remove t (y.sema s).waiters });
}

-- What a call of `sema_up` at `s` did. `nobody`: nobody waited there. `woke`: the first thread of the
-- highest priority that waited there is no longer blocked, and waits no more. The invariant is kept.
pub data Upped (y : System) (s : ℕ) (r : Option System) : Type 0 where
  nobody :
      (after : System)
      → (y.sema s).waiters ≡ []
      → after ≡ record y {
        sema = set_at y.sema s (record { value = ((y.sema s).value + 1) % 2 ^ 32; waiters = [] });
      }
      → IsSound after
      → r ≡ some after
      → Upped y s r
  woke :
      (t : ℕ) (k : Kernel)
      → IsFirstHighest y.kernel.thread (y.sema s).waiters t
      → blocked_in k t ≡ false
      → IsSound (after_wake y s t k)
      → r ≡ some (after_wake y s t k)
      → Upped y s r

or_else {ℓ} : {A : Type ℓ} → A → Option A → A
or_else d none = d
or_else d (some x) = x

pub some_lem {ℓ} : {A : Type ℓ} {a b : A} {r : Option A} → r ≡ some a → r ≡ some b → a ≡ b
unfolding or_else
some_lem {a} e f = ap (or_else a) (sym e ∙ f)

-- The kernel after an operation of the scheduler.
pub kernel_step :
    (y : System) (v : IsSound y) {b : ℕ → Bool} {r : Option Kernel} {k : Kernel}
    → Switched y.kernel b r
    → ((s t : ℕ) → is_on (v.on t) s ≡ true → b t ≡ true)
    → r ≡ some k
    → IsSound (record y { kernel = k })
kernel_step y v w keeps e =
    subst (λ (k : Kernel). IsSound (record y { kernel = k })) (some_lem w.returned e)
      (rescheduled-IsSound y v w keeps)

pub keeps_current :
    (y : System) (v : IsSound y) (b : Bool) (s t : ℕ)
    → is_on (v.on t) s ≡ true
    → with_current y.kernel b t ≡ true
unfolding with_current
keeps_current y v b s t h = elim (Bool-cases (y.kernel.current == t)) [
  | inl e ↦ absurd (
      true-ne-false (
        sym h
        ∙ ap (λ (i : ℕ). is_on (v.on i) s) (sym (==→eq y.kernel.current t e))
        ∙ on-not_current v s))
  | inr e ↦ rw e (v.asleep s t h)
]

pub keeps_others :
    (y : System) (v : IsSound y) (u : ℕ)
    → ((s : ℕ) → is_on (v.on u) s ≡ false)
    → (s t : ℕ) → is_on (v.on t) s ≡ true
    → without y.kernel u t ≡ true
unfolding without
keeps_others y v u nowhere s t h = elim (Bool-cases (u == t)) [
  | inl e ↦
      absurd
        (true-ne-false (sym h ∙ ap (λ (i : ℕ). is_on (v.on i) s) (sym (==→eq u t e)) ∙ nowhere s))
  | inr e ↦ rw e (v.asleep s t h)
]

pub uncounted :
    (y : System) (v : IsSound y) (t s : ℕ)
    → count t (y.sema s).waiters ≡ 0
    → is_on (v.on t) s ≡ false
uncounted y v t s e = elim (Bool-cases (is_on (v.on t) s)) [
  | inl h ↦ absurd (ground (arith, v.waits s t, h, e))
  | inr h ↦ h
]

counted :
    (y : System) (v : IsSound y) (t s : ℕ)
    → 0 < count t (y.sema s).waiters
    → is_on (v.on t) s ≡ true
counted y v t s e = elim (Bool-cases (is_on (v.on t) s)) [
  | inl h ↦ h
  | inr h ↦ absurd (ground (arith, v.waits s t, h, e))
]

without_self : (k : Kernel) (t : ℕ) → without k t t ≡ false
unfolding without
without_self k t = rw (==-refl t) refl

wake_lem :
    (intr_context : Bool) (y : System) (s t : ℕ) (l : List ℕ)
    → IsSound y
    → (y.sema s).waiters ≡ l
    → IsFirstHighest y.kernel.thread (y.sema s).waiters t
    → Upped y s (
        thread_unblock intr_context y.kernel t >>= λ k. some (record {
          kernel = k;
          sema =
              set_at y.sema s
                (record { value = ((y.sema s).value + 1) % 2 ^ 32; waiters = remove t l });
        }))
wake_lem intr y s t l v e first =
    let on : is_on (v.on t) s ≡ true = counted y v t s (first-count first) in
    let other : t ≢ y.kernel.idle_thread = on-not_idle v s t on in
    let w : Switched y.kernel (without y.kernel t) (thread_unblock intr y.kernel t) =
      thread_unblock-Switched intr y.kernel t v.sched other (v.asleep s t on) in
    subst
      (λ (m : List ℕ). Upped y s (
        thread_unblock intr y.kernel t >>= λ k. some (record {
          kernel = k;
          sema =
              set_at y.sema s
                (record { value = ((y.sema s).value + 1) % 2 ^ 32; waiters = remove t m });
        })))
      e
      (woke t w.after first (w.blocked t other ∙ without_self y.kernel t)
        (woken-IsSound y s (((y.sema s).value + 1) % 2 ^ 32) t v on w) (rw w.returned refl))

wake_waiter-Upped :
    (intr_context : Bool) (y : System) (s : ℕ) (l : List ℕ)
    → IsSound y
    → (y.sema s).waiters ≡ l
    → Upped y s (
        wake_waiter intr_context y s
          (record (y.sema s) { value = ((y.sema s).value + 1) % 2 ^ 32 })
          l)
unfolding wake_waiter
wake_waiter-Upped intr y s [] v e =
    nobody _ e (rw e refl) (valued-IsSound y s (((y.sema s).value + 1) % 2 ^ 32) v) refl
wake_waiter-Upped intr y s (front ∷ rest) v e =
    wake_lem intr y s (choose_loop y.kernel.thread front (front ∷ rest)) (front ∷ rest) v e (
      subst
        (λ (m : List ℕ).
          IsFirstHighest y.kernel.thread m (choose_loop y.kernel.thread front (front ∷ rest)))
        (sym e) (choose_loop-first y.kernel.thread front rest))

-- `sema_up` ends without a failed assertion and keeps the invariant; of the threads that wait, it wakes
-- the one that has waited longest of those with the highest priority.
pub sema_up-Upped :
    (intr_context : Bool) (y : System) (s : ℕ) → IsSound y → Upped y s (sema_up intr_context y s)
unfolding sema_up
sema_up-Upped intr y s v = wake_waiter-Upped intr y s (y.sema s).waiters v refl

pub Upped-IsSound :
    {y : System} {s : ℕ} {r : Option System} {y' : System} → Upped y s r → r ≡ some y' → IsSound y'
Upped-IsSound (nobody after e f v g) h = subst IsSound (some_lem g h) v
Upped-IsSound (woke t k first b v g) h = subst IsSound (some_lem g h) v
