-- ===== src/Thread/Operations.antt =====
-- The operations of src/threads/thread.c keep the queues in order: exactly one thread runs, every ready
-- thread stands once in the list of its priority, and nothing else stands there.
use kernel_dev.Prelude.{
  ℕ, ◌<◌, ◌≡◌, ◌≢◌, refl, sym, ◌∙◌, ap, Bool, true, false, none, some, ◌==◌, subst, if◌then◌else◌,
  arith, ◌⊎◌, Bool-cases, inl, inr, ==→eq, ==-refl,
}
use kernel_dev.Thread.{
  Kernel, Thread, Status, is_running, is_ready, is_blocked, thread_running, thread_ready,
  thread_blocked, thread_dying, set_status, enqueue, schedule, thread_block, thread_yield,
  thread_exit,
}
use kernel_dev.Thread.Queues.{
  IsQueued, enqueued-IsQueued, idle-IsQueued, replaced-IsQueued, set_status-status,
}
use kernel_dev.Thread.Switch.{IsScheduled, IsHalted, Switched, blocked_in, schedule-Switched}

pub running-not_ready : (s : Status) → is_running s ≡ true → is_ready s ≡ false
running-not_ready thread_running e = refl
running-not_ready thread_ready e = cc
running-not_ready thread_blocked e = refl
running-not_ready thread_dying e = refl

pub running-not_blocked : (s : Status) → is_running s ≡ true → is_blocked s ≡ false
running-not_blocked thread_running e = refl
running-not_blocked thread_ready e = refl
running-not_blocked thread_blocked e = cc
running-not_blocked thread_dying e = refl

pub blocked-not_ready : (s : Status) → is_blocked s ≡ true → is_ready s ≡ false
blocked-not_ready thread_running e = refl
blocked-not_ready thread_ready e = cc
blocked-not_ready thread_blocked e = refl
blocked-not_ready thread_dying e = refl

pub blocked-not_running : (s : Status) → is_blocked s ≡ true → is_running s ≡ false
blocked-not_running thread_running e = cc
blocked-not_running thread_ready e = refl
blocked-not_running thread_blocked e = refl
blocked-not_running thread_dying e = refl

-- The running thread gets a status in which it does not run.
pub halted_lem :
    (k : Kernel) (s : Status)
    → is_running s ≡ false
    → IsScheduled k
    → (t : ℕ) → is_running (set_status k.thread k.current s t).status ≡ false
halted_lem k s n v t =
    rw (set_status-status k.thread k.current s t) (elim (Bool-cases (k.current == t)) [
      | inl e ↦ rw e n
      | inr e ↦ rw e (v.running t ∙ ground arith)
    ])

pub restatus_blocked :
    (thread : ℕ → Thread) (c : ℕ) (s : Status) (t : ℕ)
    → is_blocked (set_status thread c s t).status
      ≡ (if c == t then is_blocked s else is_blocked (thread t).status)
restatus_blocked thread c s t = elim (Bool-cases (c == t)) [ inl e ↦ rw e refl | inr e ↦ rw e refl ]

-- The blocked threads after the running one got a status in which it is `b`.
unfoldable pub with_current : Kernel → Bool → ℕ → Bool
with_current k b t = if k.current == t then b else blocked_in k t

-- `schedule` after such a change of the running thread.
reschedule :
    (k k' : Kernel) (s : Status) (b : ℕ → Bool)
    → k'.thread ≡ set_status k.thread k.current s
    → k'.idle_thread ≡ k.idle_thread
    → IsHalted k'
    → ((t : ℕ) → is_blocked (set_status k.thread k.current s t).status ≡ b t)
    → Switched k b (schedule k')
reschedule k k' s b e i h x =
    let r = schedule-Switched k' h in
    record {
      after = r.after;
      returned = r.returned;
      scheduled = r.scheduled;
      same_idle = r.same_idle ∙ i;
      blocked =
          λ t n. r.blocked t (rw i n) ∙ ap (λ (f : ℕ → Thread). is_blocked (f t).status) e ∙ x t;
    }

pub current_lem : (k : Kernel) → IsScheduled k → is_running (k.thread k.current).status ≡ true
current_lem k v = v.running k.current ∙ ==-refl k.current

yield_blocked :
    (k : Kernel)
    → IsScheduled k
    → (t : ℕ) → is_blocked (set_status k.thread k.current thread_ready t).status ≡ blocked_in k t
yield_blocked k v t =
    restatus_blocked k.thread k.current thread_ready t ∙ (elim (Bool-cases (k.current == t)) [
      | inl e ↦ rw e (
          rw (← ==→eq k.current t e)
            (sym (running-not_blocked (k.thread k.current).status (current_lem k v))))
      | inr e ↦ rw e refl
    ])

-- The kernel that `thread_yield` hands to `schedule`.
unfoldable pub yielding : Kernel → Kernel
yielding k =
    if k.current == k.idle_thread
    then record k { thread = set_status k.thread k.current thread_ready }
    else enqueue k k.current

pub yielding_lem :
    (k : Kernel)
    → IsScheduled k
    → ((yielding k).thread ≡ set_status k.thread k.current thread_ready)
      × ((yielding k).idle_thread ≡ k.idle_thread)
      × IsHalted (yielding k)
unfolding yielding
yielding_lem k v = elim (Bool-cases (k.current == k.idle_thread)) [
  | inl e ↦ rw e (
    refl,
    refl,
    record {
      queues =
          subst
            (λ (i : ℕ). IsQueued (set_status k.thread i thread_ready) k.idle_thread k.ready_list)
            (sym (==→eq k.current k.idle_thread e)) (idle-IsQueued thread_ready v.queues);
      halted = halted_lem k thread_ready refl v;
    },
  )
  | inr e ↦ rw e (
    refl,
    refl,
    record {
      queues =
          enqueued-IsQueued k.current (ground arith)
            (running-not_ready (k.thread k.current).status (current_lem k v)) v.queues;
      halted = halted_lem k thread_ready refl v;
    },
  )
]

-- A thread that yields goes to the end of its ready list, and no thread is blocked or unblocked.
pub thread_yield-Switched :
    (k : Kernel) → IsScheduled k → Switched k (blocked_in k) (thread_yield k)
unfolding thread_yield yielding
thread_yield-Switched k v =
    let y = yielding_lem k v in
    reschedule k (yielding k) thread_ready (blocked_in k) y.0 y.1 y.2 (yield_blocked k v)

-- The running thread leaves the processor in a status in which it is not ready.
stops_lem :
    (k k' : Kernel) (s : Status)
    → is_running s ≡ false
    → is_ready s ≡ false
    → k'.thread ≡ set_status k.thread k.current s
    → k'.idle_thread ≡ k.idle_thread
    → k'.ready_list ≡ k.ready_list
    → IsScheduled k
    → Switched k (with_current k (is_blocked s)) (schedule k')
unfolding with_current
stops_lem k k' s n m e i r v =
    reschedule k k' s (with_current k (is_blocked s)) e i
      (record {
        queues =
            rw (e, i, r)
              (replaced-IsQueued k.current (record (k.thread k.current) { status = s })
                (running-not_ready (k.thread k.current).status (current_lem k v)) m
                ((v.queues).small k.current) v.queues);
        halted = rw e (halted_lem k s n v);
      })
      (restatus_blocked k.thread k.current s)

-- A thread that blocks, while a thread is counted as ready or it is the idle thread, is blocked then,
-- and no other thread is blocked or unblocked.
pub thread_block-Switched :
    (k : Kernel)
    → IsScheduled k
    → ((k.current ≡ k.idle_thread) ⊎ (0 < k.ready_threads))
    → Switched k (with_current k true) (thread_block k)
unfolding thread_block
thread_block-Switched k v h = elim (Bool-cases (k.current == k.idle_thread)) [
  | inl e ↦ rw e (stops_lem k _ thread_blocked refl refl refl refl refl v)
  | inr e ↦
      let some_ready : (k.ready_threads == 0) ≡ false = counted k h e in
      rw e (rw some_ready (stops_lem k _ thread_blocked refl refl refl refl refl v))
]
  where
    counted :
        (k : Kernel)
        → ((k.current ≡ k.idle_thread) ⊎ (0 < k.ready_threads))
        → (k.current == k.idle_thread) ≡ false
        → (k.ready_threads == 0) ≡ false
    counted k (inl a) e = absurd (ground arith)
    counted k (inr a) e = ground arith

none-ne-some : {k : Kernel} → none ≢ some k
none-ne-some e = cc

block_fails :
    (k : Kernel)
    → (k.current == k.idle_thread) ≡ false
    → (k.ready_threads == 0) ≡ true
    → thread_block k ≡ none
unfolding thread_block
block_fails k i z = rw i (rw z refl)

-- A call that does not fail found such a count.
pub thread_block-returned :
    (k k' : Kernel)
    → IsScheduled k
    → thread_block k ≡ some k'
    → Switched k (with_current k true) (thread_block k)
thread_block-returned k k' v e = elim (Bool-cases (k.current == k.idle_thread)) [
  | inl i ↦ thread_block-Switched k v (inl (==→eq k.current k.idle_thread i))
  | inr i ↦ elim (Bool-cases (k.ready_threads == 0)) [
    | inl z ↦ absurd (none-ne-some (sym (block_fails k i z) ∙ e))
    | inr z ↦ thread_block-Switched k v (inr (ground arith))
  ]
]

-- A thread that exits is in no list, and no other thread is blocked or unblocked.
pub thread_exit-Switched :
    (k : Kernel) → IsScheduled k → Switched k (with_current k false) (thread_exit k)
unfolding thread_exit
thread_exit-Switched k v = stops_lem k _ thread_dying refl refl refl refl refl v
