-- ===== src/Tests/ThreadRuns.antt =====
-- Runs of the scheduler and of semaphores: src/threads/thread.c and src/threads/synch.c.
use kernel_dev.Prelude.{
  ◌<◌, ◌≤◌, ◌≡◌, ◌≢◌, refl, Bool, true, false, Option, none, some, [], ◌∷◌, ◌==◌, if◌then◌else◌,
  arith,
}
use kernel_dev.Prelude.Count.{count}
use kernel_dev.Thread.{
  Kernel, thread_running, thread_ready, thread_blocked, next_thread_to_run, thread_yield, or_idle,
  next_loop, next_at, thread_block, schedule,
}
use kernel_dev.Thread.Next.{Chosen, next_thread_to_run-Chosen}
use kernel_dev.Thread.Queues.{is_queued}
use kernel_dev.Thread.Switch.{IsScheduled}
use kernel_dev.Thread.Priority.{IsServed, next_thread_to_run-IsServed, thread_yield_gives_way}
use kernel_dev.Semaphore.{System, sema_down, sema_up}
use kernel_dev.Semaphore.Runs.{Reach, here, next, downs}
use kernel_dev.Semaphore.Wakes.{Upped}
use kernel_dev.Semaphore.Elements.{thread_start, waiting_at, list_at, elem-once, sema_up-reached}

-- Thread 1 runs, thread 2 is the idle thread, 3 and 4 are ready.
abbrev busy : Kernel
busy = record {
  thread = λ t.
      if t == 1
      then record { status = thread_running; priority = 31 }
      else if t == 3
      then record { status = thread_ready; priority = 31 }
      else if t == 4
      then record { status = thread_ready; priority = 7 }
      else record { status = thread_blocked; priority = 0 };
  ready_list = λ p. if p == 31 then 3 ∷ [] else if p == 7 then 4 ∷ [] else [];
  highest_priority = 31;
  ready_threads = 3;
  all_list = 1 ∷ 2 ∷ 3 ∷ 4 ∷ [];
  current = 1;
  idle_thread = 2;
  initial_thread = 1;
  thread_ticks = 0;
  next_tid = 5;
}

busy-IsScheduled : IsScheduled busy
unfolding is_queued
busy-IsScheduled = record {
  queues = record { queued = λ p t. ground arith; small = λ t. ground arith };
  running = λ t. ground arith;
}

next_of_busy : (next_thread_to_run busy).0 ≡ 3
unfolding next_thread_to_run or_idle next_loop next_at
next_of_busy = refl

next_thread_to_run-Chosen_example : Chosen busy (next_thread_to_run busy)
next_thread_to_run-Chosen_example = next_thread_to_run-Chosen busy

next_thread_to_run-IsServed_example : IsServed busy 4 (next_thread_to_run busy).0
next_thread_to_run-IsServed_example =
    next_thread_to_run-IsServed busy 4 busy-IsScheduled.queues refl (λ e. ground arith)

thread_yield_gives_way_example :
    (k : Kernel) × (thread_yield busy ≡ some k)
    × (k.current ≢ 1)
    × (31 ≤ (busy.thread k.current).priority)
thread_yield_gives_way_example =
    thread_yield_gives_way busy 3 busy-IsScheduled refl (λ e. ground arith) (omega arith)

abbrev started : System
started = thread_start (λ s. 0)

system_of : Option (Bool × System) → System
system_of none = started
system_of (some r) = r.1

-- Thread 1 waits at semaphore 5, and the idle thread runs.
abbrev waiting : System
waiting = system_of (sema_down false started 5)

waiting-Reach : Reach started waiting
unfolding system_of sema_down thread_start thread_block schedule
waiting-Reach = next here (downs 5 (λ e. ground arith) refl)

one_waits : 0 < count 1 (list_at waiting (waiting_at 5))
unfolding system_of sema_down thread_start thread_block schedule
one_waits = omega arith

elem-once_example : (waiting_at 5 ≡ waiting_at 5) × (count 1 (list_at waiting (waiting_at 5)) ≡ 1)
elem-once_example =
    elem-once (λ s. 0) waiting-Reach 1 (waiting_at 5) (waiting_at 5) one_waits one_waits

sema_up-reached_example : Upped waiting 5 (sema_up true waiting 5)
sema_up-reached_example = sema_up-reached (λ s. 0) waiting-Reach true 5
