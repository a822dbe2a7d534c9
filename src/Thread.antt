-- ===== src/Thread.antt =====
-- src/threads/thread.c: the threads of the kernel and its scheduler, `thread_mlfqs` being false. A
-- thread is named by its identifier. Stacks, switch_threads and the page of a thread are not state
-- here; a call of `schedule` ends in the thread that was switched to. `none` is a failed assertion.
pub mod Next
pub mod Queues
pub mod Switch
pub mod Operations
pub mod Wakeups
pub mod Priority
use kernel_dev.Prelude.{
  ℕ, zero, suc, ◌+◌, ◌-◌, Bool, true, false, not, Option, none, some, List, [], ◌∷◌, ◌++◌, ◌==◌,
  ltb, leb, ◌&&◌, if◌then◌else◌, ◌>>=◌,
}
use kernel_dev.Prelude.Count.{remove}

pub data Status : Type 0 where
  thread_running : Status
  thread_ready : Status
  thread_blocked : Status
  thread_dying : Status

abbrev pub is_running : Status → Bool
is_running thread_running = true
is_running _ = false

abbrev pub is_ready : Status → Bool
is_ready thread_ready = true
is_ready _ = false

abbrev pub is_blocked : Status → Bool
is_blocked thread_blocked = true
is_blocked _ = false

abbrev pub is_dying : Status → Bool
is_dying thread_dying = true
is_dying _ = false

abbrev pub pri_min : ℕ
pri_min = 0

abbrev pub pri_default : ℕ
pri_default = 31

abbrev pub pri_max : ℕ
pri_max = 63

abbrev pub time_slice : ℕ
time_slice = 4

-- Of `struct thread` what the scheduler uses.
pub record Thread : Type 0 where
  pub status : Status
  pub priority : ℕ

pub record Kernel : Type 0 where
  pub thread : ℕ → Thread
  pub ready_list : ℕ → List ℕ
  pub highest_priority : ℕ
  pub ready_threads : ℕ
  pub all_list : List ℕ
  -- the running thread, which the code finds by its stack
  pub current : ℕ
  pub idle_thread : ℕ
  pub initial_thread : ℕ
  pub thread_ticks : ℕ
  pub next_tid : ℕ

abbrev pub set_at {ℓ} : {A : Type ℓ} → (ℕ → A) → ℕ → A → ℕ → A
set_at f i a j = if i == j then a else f j

abbrev pub set_status : (ℕ → Thread) → ℕ → Status → ℕ → Thread
set_status f t s = set_at f t (record (f t) { status = s })

-- `list_push_back (&ready_list[priority], &t->elem)` and `t->status = THREAD_READY`
abbrev pub enqueue : Kernel → ℕ → Kernel
enqueue k t =
    let p = (k.thread t).priority in
    record k {
      ready_list = set_at k.ready_list p (k.ready_list p ++ (t ∷ []));
      thread = set_status k.thread t thread_ready;
    }

abbrev pub list_empty : List ℕ → Bool
list_empty [] = true
list_empty (t ∷ l) = false

-- The loop of `next_thread_to_run` over the priorities below `n`, downwards, once `next` is found.
unfoldable pub lower_loop : ℕ → Kernel → Kernel
lower_loop zero k = k
lower_loop (suc i) k =
    let rest = lower_loop i k in
    if list_empty (k.ready_list i) then rest else record k { highest_priority = i }

-- The same loop before `next` is found: at priority `i` the front of the list is taken. If more
-- threads are left there, the loop ends. `lower` is what the rest of the loop finds.
unfoldable pub next_at : Kernel → ℕ → List ℕ → Option ℕ × Kernel → Option ℕ × Kernel
next_at k i [] lower = lower
next_at k i (next ∷ l) lower =
    let k' : Kernel = record k { ready_list = set_at k.ready_list i l } in
    (some next, if list_empty l then lower_loop i k' else k')

unfoldable pub next_loop : ℕ → Kernel → Option ℕ × Kernel
next_loop zero k = (none, k)
next_loop (suc i) k = next_at k i (k.ready_list i) (next_loop i k)

unfoldable pub or_idle : Option ℕ → Kernel → ℕ × Kernel
or_idle none k = (k.idle_thread, record k { highest_priority = pri_min })
or_idle (some next) k = (next, k)

unfoldable pub next_thread_to_run : Kernel → ℕ × Kernel
next_thread_to_run k = let (found, k') = next_loop (pri_max + 1) k in or_idle found k'

-- The thread that was switched to runs on; a thread that died is no longer counted.
unfoldable pub thread_schedule_tail : Kernel → ℕ → Kernel
thread_schedule_tail k prev =
    let k' : Kernel = record k {
      thread = set_status k.thread k.current thread_running;
      thread_ticks = 0;
    } in
    if not (prev == k.current)
      && (is_dying (k'.thread prev).status && not (prev == k.initial_thread))
    then record k' { ready_threads = k.ready_threads - 1 }
    else k'

unfoldable pub schedule : Kernel → Option Kernel
schedule k =
    let (next, k') = next_thread_to_run k in
    if is_running (k.thread k.current).status
    then none
    else some (thread_schedule_tail (record k' { current = next }) k.current)

unfoldable pub thread_block : Kernel → Option Kernel
thread_block k =
    let k' : Kernel = record k { thread = set_status k.thread k.current thread_blocked } in
    if k.current == k.idle_thread
    then schedule k'
    else if k.ready_threads == 0
    then none
    else schedule (record k' { ready_threads = k.ready_threads - 1 })

unfoldable pub thread_yield : Kernel → Option Kernel
thread_yield k = schedule (
    if k.current == k.idle_thread
    then record k { thread = set_status k.thread k.current thread_ready }
    else enqueue k k.current)

-- In an interrupt handler the running thread goes on.
unfoldable pub thread_unblock : Bool → Kernel → ℕ → Option Kernel
thread_unblock intr_context k t =
    let k' : Kernel = record (enqueue k t) {
      ready_threads = if t == k.idle_thread then k.ready_threads else k.ready_threads + 1;
    } in
    if is_blocked (k.thread t).status
    then (if ltb k.highest_priority (k.thread t).priority
        then (let k'' : Kernel = record k' { highest_priority = (k.thread t).priority } in
            if intr_context then some k'' else thread_yield k'')
        else some k')
    else none

unfoldable pub thread_exit : Kernel → Option Kernel
thread_exit k = schedule (record k {
  all_list = remove k.current k.all_list;
  thread = set_status k.thread k.current thread_dying;
})

-- `thread_create` where pages and the other allocations are given, up to its end: the new thread
-- is blocked, then unblocked.
unfoldable pub thread_create : Kernel → ℕ → Option Kernel
thread_create k priority =
    if leb priority pri_max
    then thread_unblock false
        (record k {
          thread =
              set_at k.thread k.next_tid (record { status = thread_blocked; priority = priority });
          all_list = k.all_list ++ (k.next_tid ∷ []);
          next_tid = k.next_tid + 1;
        })
        k.next_tid
    else none

-- The loop of `update_highest_priority`.
unfoldable pub highest_loop : ℕ → (ℕ → List ℕ) → ℕ
highest_loop zero lists = 0
highest_loop (suc i) lists =
    let rest = highest_loop i lists in if list_empty (lists i) then rest else i

unfoldable pub update_highest_priority : Kernel → Kernel
update_highest_priority k = record k { highest_priority = highest_loop (pri_max + 1) k.ready_list }

unfoldable pub thread_set_priority_without_lower : Kernel → ℕ → Option Kernel
thread_set_priority_without_lower k new_priority =
    let k' : Kernel = record k {
      thread = set_at k.thread k.current (record (k.thread k.current) { priority = new_priority });
    } in
    if ltb new_priority k.highest_priority
    then thread_yield (update_highest_priority k')
    else some k'

-- A tick of the timer, and the yield that it may ask for on the return from the interrupt.
unfoldable pub thread_tick : Kernel → Option Kernel
thread_tick k =
    let k' : Kernel = record k { thread_ticks = k.thread_ticks + 1 } in
    if leb time_slice k'.thread_ticks then thread_yield k' else some k'
