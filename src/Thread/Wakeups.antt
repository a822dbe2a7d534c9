-- ===== src/Thread/Wakeups.antt =====
-- Operations of src/threads/thread.c that make a thread ready or change a priority, and may yield.
use kernel_dev.Prelude.{
  ℕ, ◌+◌, ◌≤◌, ◌≡◌, ◌≢◌, refl, sym, ◌∙◌, ap, Bool, true, false, none, some, [], ◌∷◌, ◌==◌, ◌++◌,
  if◌then◌else◌, Bool-cases, inl, inr, ==→eq, ==-refl, ltb, leb, le→leb, leb→le,
}
use kernel_dev.Thread.{
  Kernel, Thread, is_running, is_ready, is_blocked, thread_ready, thread_blocked, thread_dying,
  set_at, enqueue, thread_yield, thread_unblock, thread_create, thread_tick, time_slice,
  thread_set_priority_without_lower, update_highest_priority,
}
use kernel_dev.Thread.Queues.{IsQueued, enqueued-IsQueued, replaced-IsQueued, set_status-status}
use kernel_dev.Thread.Switch.{IsScheduled, Switched, blocked_in}
use kernel_dev.Thread.Operations.{
  blocked-not_ready, blocked-not_running, running-not_ready, restatus_blocked, current_lem,
  thread_yield-Switched,
}

-- The blocked threads without `t`.
unfoldable pub without : Kernel → ℕ → ℕ → Bool
without k t u = if t == u then false else blocked_in k u

-- The kernel goes on with the running thread.
goes_on :
    (k k' : Kernel) {b : ℕ → Bool}
    → IsScheduled k'
    → k'.idle_thread ≡ k.idle_thread
    → ((t : ℕ) → is_blocked (k'.thread t).status ≡ b t)
    → Switched k b (some k')
goes_on k k' v i x = record {
  after = k';
  returned = refl;
  scheduled = v;
  same_idle = i;
  blocked = λ t n. x t;
}

yields :
    (k k' : Kernel) {b : ℕ → Bool}
    → IsScheduled k'
    → k'.idle_thread ≡ k.idle_thread
    → ((t : ℕ) → is_blocked (k'.thread t).status ≡ b t)
    → Switched k b (thread_yield k')
yields k k' v i x =
    let r = thread_yield-Switched k' v in
    record {
      after = r.after;
      returned = r.returned;
      scheduled = r.scheduled;
      same_idle = r.same_idle ∙ i;
      blocked = λ t n. r.blocked t (rw i n) ∙ x t;
    }

goes_on_or_yields :
    (k k' k'' : Kernel) (intr_context : Bool) {b : ℕ → Bool} (c : Bool)
    → IsScheduled k'
    → IsScheduled k''
    → k'.idle_thread ≡ k.idle_thread
    → k''.idle_thread ≡ k.idle_thread
    → ((t : ℕ) → is_blocked (k'.thread t).status ≡ b t)
    → ((t : ℕ) → is_blocked (k''.thread t).status ≡ b t)
    → Switched k b (if c then (if intr_context then some k'' else thread_yield k'') else some k')
goes_on_or_yields k k' k'' true true v w i j x y = goes_on k k'' w j y
goes_on_or_yields k k' k'' false true v w i j x y = yields k k'' w j y
goes_on_or_yields k k' k'' intr false v w i j x y = goes_on k k' v i x

enqueue-IsScheduled :
    (k : Kernel) (t n h : ℕ)
    → IsScheduled k
    → t ≢ k.idle_thread
    → blocked_in k t ≡ true
    → IsScheduled (record (enqueue k t) { ready_threads = n; highest_priority = h })
enqueue-IsScheduled k t n h v other b = record {
  queues = enqueued-IsQueued t other (blocked-not_ready (k.thread t).status b) v.queues;
  running = λ u. rw (set_status-status k.thread t thread_ready u) (elim (Bool-cases (t == u)) [
    | inl e ↦
        rw e (rw (← ==→eq t u e) (sym (blocked-not_running (k.thread t).status b) ∙ v.running t))
    | inr e ↦ rw e (v.running u)
  ]);
}

-- Waking a blocked thread, other than the idle thread, does not fail: the thread is ready or runs, and
-- no other thread is blocked or unblocked.
pub thread_unblock-Switched :
    (intr_context : Bool) (k : Kernel) (t : ℕ)
    → IsScheduled k
    → t ≢ k.idle_thread
    → blocked_in k t ≡ true
    → Switched k (without k t) (thread_unblock intr_context k t)
unfolding thread_unblock without
thread_unblock-Switched intr k t v other b = rw b (
    goes_on_or_yields k _ _ intr (ltb k.highest_priority (k.thread t).priority)
      (enqueue-IsScheduled k t _ _ v other b) (enqueue-IsScheduled k t _ _ v other b) refl refl
      (restatus_blocked k.thread t thread_ready) (restatus_blocked k.thread t thread_ready))

-- A new thread, under an identifier of no living thread, becomes ready or runs.
pub thread_create-Switched :
    (k : Kernel) (priority : ℕ)
    → IsScheduled k
    → priority ≤ 63
    → (k.thread k.next_tid).status ≡ thread_dying
    → k.next_tid ≢ k.idle_thread
    → Switched k (without k k.next_tid) (thread_create k priority)
unfolding thread_create without
thread_create-Switched k priority v h fresh other =
    let x : Thread = record { status = thread_blocked; priority = priority } in
    let k1 : Kernel = record k {
      thread = set_at k.thread k.next_tid x;
      all_list = k.all_list ++ (k.next_tid ∷ []);
      next_tid = k.next_tid + 1;
    } in
    let sched : IsScheduled k1 = record {
      queues = replaced-IsQueued k.next_tid x (ap is_ready fresh) refl h v.queues;
      running = λ u. elim (Bool-cases (k.next_tid == u)) [
        | inl e ↦
            rw e (rw (← ==→eq k.next_tid u e) (sym (ap is_running fresh) ∙ v.running k.next_tid))
        | inr e ↦ rw e (v.running u)
      ];
    } in
    let r =
      thread_unblock-Switched false k1 k.next_tid sched other (rw (==-refl k.next_tid) refl) in
    let small : leb priority 63 ≡ true = le→leb priority 63 h in
    rw small (record {
      after = r.after;
      returned = r.returned;
      scheduled = r.scheduled;
      same_idle = r.same_idle;
      blocked = λ u n.
          r.blocked u n
          ∙ (elim (Bool-cases (k.next_tid == u)) [ inl e ↦ rw e refl | inr e ↦ rw e refl ]);
    })

same_status :
    (thread : ℕ → Thread) (c p t : ℕ)
    → (set_at thread c (record (thread c) { priority = p }) t).status ≡ (thread t).status
same_status thread c p t = elim (Bool-cases (c == t)) [
  | inl e ↦ rw e (ap (λ (i : ℕ). (thread i).status) (==→eq c t e))
  | inr e ↦ rw e refl
]

-- Setting the priority of the running thread without regard to donations keeps the order.
pub thread_set_priority-Switched :
    (k : Kernel) (priority : ℕ)
    → IsScheduled k
    → priority ≤ 63
    → Switched k (blocked_in k) (thread_set_priority_without_lower k priority)
unfolding thread_set_priority_without_lower update_highest_priority
thread_set_priority-Switched k priority v h =
    let x : Thread = record (k.thread k.current) { priority = priority } in
    let idle : is_ready (k.thread k.current).status ≡ false =
      running-not_ready (k.thread k.current).status (current_lem k v) in
    let queues : IsQueued (set_at k.thread k.current x) k.idle_thread k.ready_list =
      replaced-IsQueued k.current x idle idle h v.queues in
    let running : (t : ℕ) → is_running (set_at k.thread k.current x t).status ≡ (t == k.current) =
      λ t. ap is_running (same_status k.thread k.current priority t) ∙ v.running t in
    goes_on_or_yields k _ _ false (ltb priority k.highest_priority)
      (record { queues = queues; running = running })
      (record { queues = queues; running = running }) refl refl
      (λ t. ap is_blocked (same_status k.thread k.current priority t))
      (λ t. ap is_blocked (same_status k.thread k.current priority t))

none-ne-some : {k : Kernel} → none ≢ some k
none-ne-some e = cc

unblock_fails :
    (intr_context : Bool) (k : Kernel) (t : ℕ)
    → blocked_in k t ≡ false
    → thread_unblock intr_context k t ≡ none
unfolding thread_unblock
unblock_fails intr k t e = rw e refl

create_fails :
    (k : Kernel) (priority : ℕ) → leb priority 63 ≡ false → thread_create k priority ≡ none
unfolding thread_create
create_fails k priority e = rw e refl

-- Calls that do not fail met their assertions.
pub thread_unblock-returned :
    (intr_context : Bool) (k k' : Kernel) (t : ℕ)
    → IsScheduled k
    → t ≢ k.idle_thread
    → thread_unblock intr_context k t ≡ some k'
    → Switched k (without k t) (thread_unblock intr_context k t)
thread_unblock-returned intr k k' t v other e = elim (Bool-cases (blocked_in k t)) [
  | inl b ↦ thread_unblock-Switched intr k t v other b
  | inr n ↦ absurd (none-ne-some (sym (unblock_fails intr k t n) ∙ e))
]

pub thread_create-returned :
    (k k' : Kernel) (priority : ℕ)
    → IsScheduled k
    → (k.thread k.next_tid).status ≡ thread_dying
    → k.next_tid ≢ k.idle_thread
    → thread_create k priority ≡ some k'
    → Switched k (without k k.next_tid) (thread_create k priority)
thread_create-returned k k' priority v fresh other e = elim (Bool-cases (leb priority 63)) [
  | inl b ↦ thread_create-Switched k priority v (leb→le priority 63 b) fresh other
  | inr n ↦ absurd (none-ne-some (sym (create_fails k priority n) ∙ e))
]

-- A tick of the timer.
pub thread_tick-Switched : (k : Kernel) → IsScheduled k → Switched k (blocked_in k) (thread_tick k)
unfolding thread_tick
thread_tick-Switched k v =
    goes_on_or_yields k _ _ false (leb time_slice (k.thread_ticks + 1))
      (record { queues = v.queues; running = v.running })
      (record { queues = v.queues; running = v.running }) refl refl (λ t. refl) (λ t. refl)
