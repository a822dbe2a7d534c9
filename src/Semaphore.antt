-- ===== src/Semaphore.antt =====
-- Semaphores of src/threads/synch.c over the scheduler. A semaphore is named by a number. Interrupts are
-- off in each operation, so that it is one step up to a switch of threads. `none` is a failed
-- assertion.
pub mod Choice
pub mod Sound
pub mod Wakes
pub mod Runs
pub mod Elements
use kernel_dev.Prelude.{
  ℕ, ◌+◌, ◌-◌, ◌%◌, ◌^◌, Bool, true, false, Option, none, some, List, [], ◌∷◌, ◌++◌, ◌==◌, ltb,
  if◌then◌else◌, ◌>>=◌,
}
use kernel_dev.Prelude.Count.{remove}
use kernel_dev.Thread.{Thread, Kernel, set_at, thread_block, thread_unblock}

-- `value` is an `unsigned`.
pub record Semaphore : Type 0 where
  pub value : ℕ
  pub waiters : List ℕ

pub record System : Type 0 where
  pub kernel : Kernel
  pub sema : ℕ → Semaphore

unfoldable pub sema_init : System → ℕ → ℕ → System
sema_init y s value = record y { sema = set_at y.sema s (record { value = value; waiters = [] }) }

-- One test of the loop of `sema_down` by the current thread: whether it went through, or the thread
-- waits and tests again when it is woken.
unfoldable pub sema_down : Bool → System → ℕ → Option (Bool × System)
sema_down intr_context y s =
    let sm = y.sema s in
    let waits = thread_block y.kernel >>= λ k. some (
      false,
      record {
        kernel = k;
        sema = set_at y.sema s (record sm { waiters = sm.waiters ++ (y.kernel.current ∷ []) });
      },
    ) in
    if intr_context
    then none
    else if sm.value == 0
    then waits
    else some (true, record y { sema = set_at y.sema s (record sm { value = sm.value - 1 }) })

unfoldable pub sema_try_down : System → ℕ → Bool × System
sema_try_down y s =
    let sm = y.sema s in
    if ltb 0 sm.value
    then (true, record y { sema = set_at y.sema s (record sm { value = sm.value - 1 }) })
    else (false, y)

-- The loop of `sema_up` over the waiters, `t` being the one chosen so far.
unfoldable pub choose_loop : (ℕ → Thread) → ℕ → List ℕ → ℕ
choose_loop thread t [] = t
choose_loop thread t (u ∷ l) =
    choose_loop thread (if ltb (thread t).priority (thread u).priority then u else t) l

unfoldable pub wake_waiter : Bool → System → ℕ → Semaphore → List ℕ → Option System
wake_waiter intr_context y s sm [] = some (record y { sema = set_at y.sema s sm })
wake_waiter intr_context y s sm (front ∷ rest) =
    let t = choose_loop y.kernel.thread front (front ∷ rest) in
    thread_unblock intr_context y.kernel t >>= λ k. some (record {
      kernel = k;
      sema = set_at y.sema s (record sm { waiters = remove t (front ∷ rest) });
    })

unfoldable pub sema_up : Bool → System → ℕ → Option System
sema_up intr_context y s =
    let sm = y.sema s in
    wake_waiter intr_context y s (record sm { value = (sm.value + 1) % 2 ^ 32 }) sm.waiters
