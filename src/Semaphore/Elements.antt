-- ===== src/Semaphore/Elements.antt =====
-- What holds of threads and semaphores in every state that the kernel can reach from its start. The
-- thread's `elem` serves both the ready lists of src/threads/thread.c and the lists of waiters of
-- src/threads/synch.c.
use kernel_dev.Prelude.{
  ℕ, ◌<◌, ◌≡◌, refl, ◌∙◌, ap, Bool, true, Option, none, some, List, [], ◌∷◌, ◌==◌, if◌then◌else◌,
  arith, ◌&&◌,
}
use kernel_dev.Prelude.Count.{count}
use kernel_dev.Thread.{
  Status, thread_running, thread_ready, thread_blocked, thread_dying, is_ready, is_blocked,
  pri_default, pri_min,
}
use kernel_dev.Thread.Queues.{is_queued}
use kernel_dev.Semaphore.{System, sema_up}
use kernel_dev.Semaphore.Sound.{IsSound, is_on}
use kernel_dev.Semaphore.Wakes.{Upped, sema_up-Upped}
use kernel_dev.Semaphore.Runs.{Reach, Reach-IsSound}

-- The kernel when `thread_start` returns: the initial thread 1 runs, the idle thread 2 is blocked.
-- The semaphores have any values and no waiters.
unfoldable pub thread_start : (ℕ → ℕ) → System
thread_start values = record {
  kernel = record {
    thread = λ t.
        if t == 1
        then record { status = thread_running; priority = pri_default }
        else if t == 2
        then record { status = thread_blocked; priority = pri_min }
        else record { status = thread_dying; priority = 0 };
    ready_list = λ p. [];
    highest_priority = pri_default;
    ready_threads = 1;
    all_list = 1 ∷ 2 ∷ [];
    current = 1;
    idle_thread = 2;
    initial_thread = 1;
    thread_ticks = 0;
    next_tid = 3;
  };
  sema = λ s. record { value = values s; waiters = [] };
}

pub thread_start-IsSound : (values : ℕ → ℕ) → IsSound (thread_start values)
unfolding thread_start is_queued
thread_start-IsSound values = record {
  sched = record {
    queues = record { queued = λ p t. ground arith; small = λ t. ground arith };
    running = λ t. ground arith;
  };
  on = λ t. none;
  waits = λ s t. refl;
  asleep = λ s t h. cc;
  not_idle = λ s. refl;
}

-- The lists that a thread's `elem` can be in.
pub data Place : Type 0 where
  ready_at : ℕ → Place
  waiting_at : ℕ → Place

abbrev pub list_at : System → Place → List ℕ
list_at y (ready_at p) = y.kernel.ready_list p
list_at y (waiting_at s) = (y.sema s).waiters

-- The place that the state of a thread names.
home : {y : System} → IsSound y → ℕ → Place → Bool
home {y} v t (ready_at p) = is_queued y.kernel.thread y.kernel.idle_thread p t
home v t (waiting_at s) = is_on (v.on t) s

home_lem :
    {y : System} (v : IsSound y) (t : ℕ) (a : Place)
    → count t (list_at y a) ≡ (if home v t a then 1 else 0)
unfolding home
home_lem v t (ready_at p) = v.sched.queues.queued p t
home_lem v t (waiting_at s) = v.waits s t

ready_and_blocked : (s : Status) (b : Bool) → (is_ready s && b) ≡ true → is_blocked s ≡ true → ⊥
ready_and_blocked thread_running b h g = cc
ready_and_blocked thread_ready b h g = cc
ready_and_blocked thread_blocked b h g = cc
ready_and_blocked thread_dying b h g = cc

same_on : (o : Option ℕ) (s r : ℕ) → is_on o s ≡ true → is_on o r ≡ true → s ≡ r
same_on none s r h g = cc
same_on (some q) s r h g = ground arith

home_unique :
    {y : System} (v : IsSound y) (t : ℕ) (a b : Place)
    → home v t a ≡ true
    → home v t b ≡ true
    → a ≡ b
unfolding home is_queued
home_unique v t (ready_at p) (ready_at q) h g = ap ready_at (ground arith)
home_unique {y} v t (ready_at p) (waiting_at s) h g =
    absurd (ready_and_blocked (y.kernel.thread t).status _ h (v.asleep s t g))
home_unique {y} v t (waiting_at s) (ready_at p) h g =
    absurd (ready_and_blocked (y.kernel.thread t).status _ g (v.asleep s t h))
home_unique v t (waiting_at s) (waiting_at r) h g = ap waiting_at (same_on (v.on t) s r h g)

-- In every state that the kernel reaches, a thread stands in at most one of all ready lists and lists
-- of waiters, and at most once in it.
pub elem-once :
    (values : ℕ → ℕ) {y : System}
    → Reach (thread_start values) y
    → (t : ℕ) (a b : Place) → 0 < count t (list_at y a)
    → 0 < count t (list_at y b)
    → (a ≡ b) × (count t (list_at y a) ≡ 1)
elem-once values {y} r t a b h g =
    let v = Reach-IsSound (thread_start-IsSound values) r in
    let at_a : home v t a ≡ true = ground (arith, home_lem v t a) in
    let at_b : home v t b ≡ true = ground (arith, home_lem v t b) in
    (home_unique v t a b at_a at_b, home_lem v t a ∙ rw at_a refl)

-- In every state that the kernel reaches, `sema_up` ends without a failed assertion, and of the
-- threads that wait it wakes the one that has waited longest of those with the highest priority.
pub sema_up-reached :
    (values : ℕ → ℕ) {y : System}
    → Reach (thread_start values) y
    → (intr_context : Bool) (s : ℕ) → Upped y s (sema_up intr_context y s)
sema_up-reached values {y} r intr s =
    sema_up-Upped intr y s (Reach-IsSound (thread_start-IsSound values) r)
