-- ===== src/Thread/Switch.antt =====
-- `schedule` of src/threads/thread.c: another thread runs, and the queues stay in order.
use kernel_dev.Prelude.{
  ℕ, ◌-◌, ◌≡◌, ◌≢◌, refl, sym, ◌∙◌, ap, Bool, true, false, not, Option, none, some, ◌==◌, ◌⊎◌, ◌&&◌,
  arith, Bool-cases, inl, inr, ==→eq,
}
use kernel_dev.Thread.{
  Kernel, Thread, Status, is_running, is_ready, is_blocked, is_dying, thread_running, thread_ready,
  thread_blocked, thread_dying, set_status, next_thread_to_run, thread_schedule_tail, schedule,
  pri_min,
}
use kernel_dev.Thread.Next.{Chosen, picked, idles, taken, next_thread_to_run-Chosen}
use kernel_dev.Thread.Queues.{
  IsQueued, taken-IsQueued, idle-IsQueued, set_status-status, is_queued, front_lem,
}

-- Exactly the current thread runs.
pub record IsScheduled (k : Kernel) : Type 0 where
  pub queues : IsQueued k.thread k.idle_thread k.ready_list
  pub running : (t : ℕ) → is_running (k.thread t).status ≡ (t == k.current)

-- The running thread has been taken off, and no other runs yet.
pub record IsHalted (k : Kernel) : Type 0 where
  pub queues : IsQueued k.thread k.idle_thread k.ready_list
  pub halted : (t : ℕ) → is_running (k.thread t).status ≡ false

abbrev pub blocked_in : Kernel → ℕ → Bool
blocked_in k t = is_blocked (k.thread t).status

-- A switch of threads: one thread runs, and those that are blocked, but for the idle thread, are `b`.
pub record Switched (k : Kernel) (b : ℕ → Bool) (r : Option Kernel) : Type 0 where
  pub after : Kernel
  pub returned : r ≡ some after
  pub scheduled : IsScheduled after
  pub same_idle : after.idle_thread ≡ k.idle_thread
  pub blocked : (t : ℕ) → t ≢ k.idle_thread → is_blocked (after.thread t).status ≡ b t

tail_lem :
    (k : Kernel) (prev : ℕ)
    → (n : ℕ) × (thread_schedule_tail k prev ≡ record k {
      thread = set_status k.thread k.current thread_running;
      thread_ticks = 0;
      ready_threads = n;
    })
unfolding thread_schedule_tail
tail_lem k prev =
    elim (Bool-cases (
      not (prev == k.current)
      && (is_dying (set_status k.thread k.current thread_running prev).status
          && not (prev == k.initial_thread)))) [
            | inl e ↦ (k.ready_threads - 1, rw e refl)
            | inr e ↦ (k.ready_threads, rw e refl)
          ]

switched_lem :
    (k mid : Kernel) (next : ℕ)
    → next_thread_to_run k ≡ (next, mid)
    → mid.thread ≡ k.thread
    → mid.idle_thread ≡ k.idle_thread
    → IsHalted k
    → IsQueued (set_status k.thread next thread_running) k.idle_thread mid.ready_list
    → ((next ≡ k.idle_thread) ⊎ (is_blocked (k.thread next).status ≡ false))
    → Switched k (blocked_in k) (schedule k)
unfolding schedule
switched_lem k mid next found same_thread same_idle v q b =
    let r = tail_lem (record mid { current = next }) k.current in
    let no : is_running (k.thread k.current).status ≡ false = v.halted k.current in
    record {
      after = record mid {
        current = next;
        thread = set_status mid.thread next thread_running;
        thread_ticks = 0;
        ready_threads = r.0;
      };
      returned = rw found (rw no (ap some r.1));
      scheduled = record {
        queues = rw (same_thread, same_idle) q;
        running = λ t.
            rw (set_status-status mid.thread next thread_running t) (elim (Bool-cases (next == t)) [
              | inl e ↦ rw e (ground arith)
              | inr e ↦ rw (e, same_thread) (v.halted t ∙ ground arith)
            ]);
      };
      same_idle = same_idle;
      blocked = λ t n.
          rw (set_status-status mid.thread next thread_running t, same_thread)
            (elim (Bool-cases (next == t)) [
              | inl e ↦ rw e (not_blocked t n (==→eq next t e) b)
              | inr e ↦ rw e refl
            ]);
    }
  where
    not_blocked :
        (t : ℕ)
        → t ≢ k.idle_thread
        → next ≡ t
        → ((next ≡ k.idle_thread) ⊎ (is_blocked (k.thread next).status ≡ false))
        → false ≡ is_blocked (k.thread t).status
    not_blocked t n e (inl i) = absurd (n (sym e ∙ i))
    not_blocked t n e (inr u) = rw (← e) (sym u)

ready-not_blocked :
    (thread : ℕ → Thread) (idle p t : ℕ)
    → is_queued thread idle p t ≡ true
    → is_blocked (thread t).status ≡ false
unfolding is_queued
ready-not_blocked thread idle p t h = by_status (thread t).status h
  where
    by_status :
        (s : Status)
        → (is_ready s && (not (t == idle) && ((thread t).priority == p))) ≡ true
        → is_blocked s ≡ false
    by_status thread_running h = refl
    by_status thread_ready h = refl
    by_status thread_blocked h = cc
    by_status thread_dying h = refl

by_choice :
    (k : Kernel)
    → IsHalted k
    → Chosen k (next_thread_to_run k)
    → Switched k (blocked_in k) (schedule k)
by_choice k v (picked p t l h small e top found) =
    let f = front_lem p t l e v.queues in
    switched_lem k (taken k p l h) t found refl refl v (taken-IsQueued p t l e v.queues)
      (inr (ready-not_blocked k.thread k.idle_thread p t f.0))
by_choice k v (idles none_ready found) =
    switched_lem k (record k { highest_priority = pri_min }) k.idle_thread found refl refl v
      (idle-IsQueued thread_running v.queues) (inl refl)

-- Once the running thread is taken off, `schedule` does not fail: another thread runs, alone, and the
-- ready lists hold the other ready threads. No thread is blocked or unblocked by it.
pub schedule-Switched : (k : Kernel) → IsHalted k → Switched k (blocked_in k) (schedule k)
schedule-Switched k v = by_choice k v (next_thread_to_run-Chosen k)

current_of : Option Kernel → ℕ
current_of none = 0
current_of (some k) = k.current

none-ne-some : {k : Kernel} → none ≢ some k
none-ne-some e = cc

-- The thread that runs then is the one that `next_thread_to_run` chose.
pub schedule-current :
    (k k' : Kernel) → schedule k ≡ some k' → k'.current ≡ (next_thread_to_run k).0
unfolding schedule current_of
schedule-current k k' e = elim (Bool-cases (is_running (k.thread k.current).status)) [
  | inl f ↦ absurd (none-ne-some (rw f at e))
  | inr g ↦
      let r =
        tail_lem (record (next_thread_to_run k).1 { current = (next_thread_to_run k).0 })
          k.current in
      let e' : some (
            thread_schedule_tail
              (record (next_thread_to_run k).1 { current = (next_thread_to_run k).0 }) k.current)
          ≡ some k' =
        rw g at e in
      sym (ap current_of e') ∙ ap (λ (x : Kernel). x.current) r.1
]
