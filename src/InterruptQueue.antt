-- ===== src/InterruptQueue.antt =====
-- src/devices/intq.c: the circular buffer between the interrupt handlers and the threads of the
-- serial port and the keyboard. Interrupts are off throughout. Threads are named by numbers. Another
-- thread can run where a thread sleeps, in `lock_acquire` and `thread_block`, and in `thread_unblock`,
-- which may switch to the thread that it wakes; the code is cut into parts there.
pub mod Order
use kernel_dev.Prelude.{ℕ, ◌+◌, ◌%◌, Bool, true, false, Option, none, some, ◌==◌, if◌then◌else◌}

abbrev pub intq_bufsize : ℕ
intq_bufsize = 64

-- `lock` is the thread that holds the lock.
pub record Intq : Type 0 where
  pub lock : Option ℕ
  pub not_full : Option ℕ
  pub not_empty : Option ℕ
  pub buf : ℕ → ℕ
  pub head : ℕ
  pub tail : ℕ

abbrev pub next : ℕ → ℕ
next pos = (pos + 1) % intq_bufsize

-- `buf` is whatever the storage holds.
unfoldable pub intq_init : (ℕ → ℕ) → Intq
intq_init buf = record {
  lock = none;
  not_full = none;
  not_empty = none;
  buf = buf;
  head = 0;
  tail = 0;
}

unfoldable pub intq_empty : Intq → Bool
intq_empty q = q.head == q.tail

unfoldable pub intq_full : Intq → Bool
intq_full q = next q.head == q.tail

-- The two conditions that a thread waits for, with the members of the queue that name the thread.
pub data Waiter : Type 0 where
  for_space : Waiter
  for_byte : Waiter

unfoldable pub waiter : Waiter → Intq → Option ℕ
waiter for_space q = q.not_full
waiter for_byte q = q.not_empty

-- `*waiter = t`
unfoldable pub set_waiter : Waiter → Option ℕ → Intq → Intq
set_waiter for_space t q = record q { not_full = t }
set_waiter for_byte t q = record q { not_empty = t }

-- The thread has to wait.
unfoldable pub must_wait : Waiter → Intq → Bool
must_wait for_space q = intq_full q
must_wait for_byte q = intq_empty q

-- Where the current thread stands at the end of a part of a call.
pub data Ended (A : Type 0) : Type 0 where
  -- the call returns
  finishes : A → Intq → Ended A
  -- in `signal`, at `thread_unblock` of the thread that waits: `*waiter = NULL` and the return are left
  wakes : A → (woken : ℕ) → Intq → Ended A
  -- in `lock_acquire`, asleep until the lock is free
  wants_lock : Intq → Ended A
  -- in `thread_block`, asleep until it is woken, with the lock held
  blocks : Intq → Ended A
  -- before the test of the loop
  tests_again : Intq → Ended A
  panics : Ended A

-- `signal` up to the return of `thread_unblock`.
unfoldable pub signal : {A : Type 0} → Waiter → A → Intq → Ended A
signal {A} w a q = if must_wait w q then panics else wake (waiter w q)
  where
    wake : Option ℕ → Ended A
    wake none = finishes a q
    wake (some t) = wakes a t q

-- The rest of `signal`, once the caller goes on after `thread_unblock`: a thread that has begun to wait
-- meanwhile is forgotten.
unfoldable pub signal_rest : {A : Type 0} → Waiter → A → Intq → Ended A
signal_rest w a q = finishes a (set_waiter w none q)

-- `wait` by thread `current`, which has just got the lock: `thread_block` puts it to sleep.
unfoldable pub wait : {A : Type 0} → Waiter → ℕ → Intq → Ended A
wait w current q = if must_wait w q then blocks (set_waiter w (some current) q) else panics

-- The body of the loop from `lock_acquire` on; a thread that holds the lock must not ask for it. A thread
-- that slept in `lock_acquire` looks at the lock again when it is woken, so it goes on here.
unfoldable pub acquire_and_wait : {A : Type 0} → Waiter → ℕ → Intq → Ended A
acquire_and_wait {A} w current q = by_holder q.lock
  where
    by_holder : Option ℕ → Ended A
    by_holder none = wait w current (record q { lock = some current })
    by_holder (some t) = if t == current then panics else wants_lock q

-- The body of the loop after `wait`: `lock_release`, which asserts that the thread
-- holds the lock.
unfoldable pub release : {A : Type 0} → ℕ → Intq → Ended A
release {A} current q = by_holder q.lock
  where
    by_holder : Option ℕ → Ended A
    by_holder none = panics
    by_holder (some t) = if t == current then tests_again (record q { lock = none }) else panics

-- `intq_getc` by thread `current`, or in an interrupt handler, from a test of the loop on.
unfoldable pub intq_getc : Bool → ℕ → Intq → Ended ℕ
intq_getc intr_context current q =
    if intq_empty q
    then if intr_context then panics else acquire_and_wait for_byte current q
    else signal for_space (q.buf q.tail) (record q { tail = next q.tail })

-- `intq_putc` from a test of the loop on.
unfoldable pub intq_putc : Bool → ℕ → ℕ → Intq → Ended (Unit {0})
intq_putc intr_context current byte q =
    if intq_full q
    then if intr_context then panics else acquire_and_wait for_space current q
    else signal for_byte tt
        (record q { buf = λ i. if q.head == i then byte else q.buf i; head = next q.head })
