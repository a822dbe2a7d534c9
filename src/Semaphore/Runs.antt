-- ===== src/Semaphore/Runs.antt =====
-- Threads and semaphores of src/threads/thread.c and src/threads/synch.c, in any order of steps.
use kernel_dev.Prelude.{
  ℕ, ◌-◌, ◌≤◌, ◌≡◌, ◌≢◌, refl, sym, ◌∙◌, ap, subst, Bool, true, false, none, some, [], ◌∷◌, ◌++◌,
  ◌==◌, ltb, Bool-cases, inl, inr, true-ne-false, Option-cases,
}
use kernel_dev.Prelude.Count.{count}
use kernel_dev.Thread.{
  Kernel, thread_dying, is_blocked, set_at, thread_block, thread_unblock, thread_yield, thread_tick,
  thread_exit, thread_create, thread_set_priority_without_lower,
}
use kernel_dev.Thread.Switch.{Switched}
use kernel_dev.Thread.Operations.{
  with_current, thread_block-returned, thread_yield-Switched, thread_exit-Switched,
}
use kernel_dev.Thread.Wakeups.{
  thread_unblock-returned, thread_create-returned, thread_tick-Switched,
  thread_set_priority-Switched,
}
use kernel_dev.Semaphore.{System, sema_down, sema_try_down, sema_up}
use kernel_dev.Semaphore.Sound.{IsSound, is_on, valued-IsSound, waiting-IsSound}
use kernel_dev.Semaphore.Wakes.{
  sema_up-Upped, Upped-IsSound, some_lem, kernel_step, keeps_current, keeps_others, uncounted,
}

-- A step of the running thread, or of an interrupt handler. The idle thread only yields; a thread that
-- is woken or created is one that waits at no semaphore.
pub data Step (y : System) : System → Type 0 where
  downs :
      (s : ℕ) {b : Bool} {y' : System}
      → y.kernel.current ≢ y.kernel.idle_thread
      → sema_down false y s ≡ some (b, y')
      → Step y y'
  tries : (s : ℕ) → Step y (sema_try_down y s).1
  ups : (intr_context : Bool) (s : ℕ) {y' : System} → sema_up intr_context y s ≡ some y' → Step y y'
  yields : {k : Kernel} → thread_yield y.kernel ≡ some k → Step y (record y { kernel = k })
  ticks : {k : Kernel} → thread_tick y.kernel ≡ some k → Step y (record y { kernel = k })
  blocks : {k : Kernel} → thread_block y.kernel ≡ some k → Step y (record y { kernel = k })
  unblocks :
      (intr_context : Bool) (t : ℕ) {k : Kernel}
      → t ≢ y.kernel.idle_thread
      → ((s : ℕ) → count t (y.sema s).waiters ≡ 0)
      → thread_unblock intr_context y.kernel t ≡ some k
      → Step y (record y { kernel = k })
  exits :
      {k : Kernel}
      → y.kernel.current ≢ y.kernel.idle_thread
      → thread_exit y.kernel ≡ some k
      → Step y (record y { kernel = k })
  creates :
      (priority : ℕ) {k : Kernel}
      → (y.kernel.thread y.kernel.next_tid).status ≡ thread_dying
      → y.kernel.next_tid ≢ y.kernel.idle_thread
      → thread_create y.kernel priority ≡ some k
      → Step y (record y { kernel = k })
  sets_priority :
      (priority : ℕ) {k : Kernel}
      → priority ≤ 63
      → thread_set_priority_without_lower y.kernel priority ≡ some k
      → Step y (record y { kernel = k })

-- The two ways in which a test of `sema_down` ends.
down_waits :
    (y : System) (s : ℕ) (k : Kernel)
    → ((y.sema s).value == 0) ≡ true
    → thread_block y.kernel ≡ some k
    → sema_down false y s
      ≡ some (
        false,
        record {
          kernel = k;
          sema =
              set_at y.sema s
                (record (y.sema s) { waiters = (y.sema s).waiters ++ (y.kernel.current ∷ []) });
        },
      )
unfolding sema_down
down_waits y s k z e = rw z (rw e refl)

down_fails :
    (y : System) (s : ℕ)
    → ((y.sema s).value == 0) ≡ true
    → thread_block y.kernel ≡ none
    → sema_down false y s ≡ none
unfolding sema_down
down_fails y s z e = rw z (rw e refl)

down_passes :
    (y : System) (s : ℕ)
    → ((y.sema s).value == 0) ≡ false
    → sema_down false y s
      ≡ some (
        true,
        record y { sema = set_at y.sema s (record (y.sema s) { value = (y.sema s).value - 1 }) },
      )
unfolding sema_down
down_passes y s z = rw z refl

none-ne-some {ℓ} : {A : Type ℓ} {a : A} → none ≢ some a
none-ne-some e = cc

sema_down-IsSound :
    (y y' : System) (s : ℕ) (b : Bool)
    → IsSound y
    → y.kernel.current ≢ y.kernel.idle_thread
    → sema_down false y s ≡ some (b, y')
    → IsSound y'
sema_down-IsSound y y' s b v other e = elim (Bool-cases ((y.sema s).value == 0)) [
  | inl z ↦ elim (Option-cases (thread_block y.kernel)) [
    | inl n ↦ absurd (none-ne-some (sym (down_fails y s z n) ∙ e))
    | inr k ↦
        let w : Switched y.kernel (with_current y.kernel true) (thread_block y.kernel) =
          thread_block-returned y.kernel k.0 v.sched k.1 in
        subst (λ (x : Bool × System). IsSound x.1)
          (some_lem (down_waits y s w.after z w.returned) e) (waiting-IsSound y s v other w)
  ]
  | inr z ↦
      subst (λ (x : Bool × System). IsSound x.1) (some_lem (down_passes y s z) e)
        (valued-IsSound y s ((y.sema s).value - 1) v)
]

sema_try_down-IsSound : (y : System) (s : ℕ) → IsSound y → IsSound (sema_try_down y s).1
unfolding sema_try_down
sema_try_down-IsSound y s v = elim (Bool-cases (ltb 0 (y.sema s).value)) [
  | inl e ↦ rw e (valued-IsSound y s ((y.sema s).value - 1) v)
  | inr e ↦ rw e v
]

dying_nowhere :
    (y : System) (v : IsSound y) (s : ℕ)
    → (y.kernel.thread y.kernel.next_tid).status ≡ thread_dying
    → is_on (v.on y.kernel.next_tid) s ≡ false
dying_nowhere y v s fresh = elim (Bool-cases (is_on (v.on y.kernel.next_tid) s)) [
  | inl e ↦ absurd (true-ne-false (sym (v.asleep s y.kernel.next_tid e) ∙ ap is_blocked fresh))
  | inr e ↦ e
]

-- No step breaks the invariant.
pub Step-IsSound : {y y' : System} → Step y y' → IsSound y → IsSound y'
Step-IsSound {y} (downs s {b} {y'} other e) v = sema_down-IsSound y y' s b v other e
Step-IsSound {y} (tries s) v = sema_try_down-IsSound y s v
Step-IsSound {y} (ups intr s e) v = Upped-IsSound (sema_up-Upped intr y s v) e
Step-IsSound {y} (yields e) v =
    kernel_step y v (thread_yield-Switched y.kernel v.sched) (λ s t h. v.asleep s t h) e
Step-IsSound {y} (ticks e) v =
    kernel_step y v (thread_tick-Switched y.kernel v.sched) (λ s t h. v.asleep s t h) e
Step-IsSound {y} (blocks {k} e) v =
    kernel_step y v (thread_block-returned y.kernel k v.sched e) (keeps_current y v true) e
Step-IsSound {y} (unblocks intr t {k} other nowhere e) v =
    kernel_step y v (thread_unblock-returned intr y.kernel k t v.sched other e)
      (keeps_others y v t (λ s. uncounted y v t s (nowhere s))) e
Step-IsSound {y} (exits other e) v =
    kernel_step y v (thread_exit-Switched y.kernel v.sched) (keeps_current y v false) e
Step-IsSound {y} (creates priority {k} fresh other e) v =
    kernel_step y v (thread_create-returned y.kernel k priority v.sched fresh other e)
      (keeps_others y v y.kernel.next_tid (λ s. dying_nowhere y v s fresh)) e
Step-IsSound {y} (sets_priority priority h e) v =
    kernel_step y v (thread_set_priority-Switched y.kernel priority v.sched h)
      (λ s t g. v.asleep s t g) e

pub data Reach (y : System) : System → Type 0 where
  here : Reach y y
  next : {z z' : System} → Reach y z → Step z z' → Reach y z'

pub Reach-IsSound : {y z : System} → IsSound y → Reach y z → IsSound z
Reach-IsSound v here = v
Reach-IsSound v (next r s) = Step-IsSound s (Reach-IsSound v r)
