-- ===== src/Thread/Priority.antt =====
-- Which threads get the processor in src/threads/thread.c: the highest priority first, and threads of
-- one priority in turn.
use kernel_dev.Prelude.{
  ℕ, ◌<◌, ◌≤◌, ◌≡◌, ◌≢◌, refl, sym, ◌∙◌, ap, subst, true, false, some, List, [], ◌∷◌, ◌++◌, ◌==◌,
  ◌&&◌, not, arith, Bool-cases, inl, inr, ==→eq, ==-refl, true-ne-false,
}
use kernel_dev.Prelude.Count.{count}
use kernel_dev.Thread.{Kernel, Thread, is_ready, thread_ready, next_thread_to_run, thread_yield}
use kernel_dev.Thread.Next.{Chosen, picked, idles, next_thread_to_run-Chosen}
use kernel_dev.Thread.Queues.{
  IsQueued, is_queued, front_lem, not_ready, set_status-status, set_status-priority,
}
use kernel_dev.Thread.Switch.{IsScheduled, schedule-Switched, schedule-current}
use kernel_dev.Thread.Operations.{
  running-not_ready, current_lem, yielding, yielding_lem, current_lem, running-not_ready,
}

-- `t` is ready, is not the idle thread, and has at least the priority of `u`.
pub record IsServed (k : Kernel) (u t : ℕ) : Type 0 where
  pub ready : is_ready (k.thread t).status ≡ true
  pub not_idle : t ≢ k.idle_thread
  pub not_lower : (k.thread u).priority ≤ (k.thread t).priority

queued_lem :
    (thread : ℕ → Thread) (idle p t : ℕ)
    → is_queued thread idle p t ≡ true
    → (is_ready (thread t).status ≡ true) × (t ≢ idle) × ((thread t).priority ≡ p)
unfolding is_queued
queued_lem thread idle p t h = elim (Bool-cases (is_ready (thread t).status)) [
  | inl r ↦
      let g : (not (t == idle) && ((thread t).priority == p)) ≡ true = rw r at h in
      (r, ground arith, ground arith)
  | inr n ↦ absurd (true-ne-false (sym (rw n at h)))
]

in_queue :
    (thread : ℕ → Thread) (idle u : ℕ)
    → is_ready (thread u).status ≡ true
    → u ≢ idle
    → is_queued thread idle (thread u).priority u ≡ true
unfolding is_queued
in_queue thread idle u r n = rw r (ground arith)

-- The list of a ready thread is not empty.
filled :
    (k : Kernel) (u : ℕ)
    → IsQueued k.thread k.idle_thread k.ready_list
    → is_ready (k.thread u).status ≡ true
    → u ≢ k.idle_thread
    → k.ready_list (k.thread u).priority ≢ []
filled k u v ready n e =
    let q : is_queued k.thread k.idle_thread (k.thread u).priority u ≡ true =
      in_queue k.thread k.idle_thread u ready n in
    let one : count u [] ≡ 1 =
      ap (count u) (sym e) ∙ v.queued (k.thread u).priority u ∙ rw q refl in
    absurd (omega (arith, one))

served_lem :
    (k : Kernel) (u : ℕ)
    → IsQueued k.thread k.idle_thread k.ready_list
    → is_ready (k.thread u).status ≡ true
    → u ≢ k.idle_thread
    → {r : ℕ × Kernel} → Chosen k r
    → IsServed k u r.0
served_lem k u v ready n (picked p t l h small e top found) =
    let f = front_lem p t l e v in
    let q = queued_lem k.thread k.idle_thread p t f.0 in
    let x : p < (k.thread u).priority → ⊥ =
      λ lower. filled k u v ready n (top (k.thread u).priority lower (v.small u)) in
    rw found (record { ready = q.0; not_idle = q.1; not_lower = ground (arith, q.2, x) })
served_lem k u v ready n (idles none_ready found) =
    absurd (filled k u v ready n (none_ready (k.thread u).priority (v.small u)))

-- With the ready lists in order: while a thread other than the idle thread is ready, the scheduler
-- chooses a ready thread of at least its priority, and not the idle thread.
pub next_thread_to_run-IsServed :
    (k : Kernel) (u : ℕ)
    → IsQueued k.thread k.idle_thread k.ready_list
    → is_ready (k.thread u).status ≡ true
    → u ≢ k.idle_thread
    → IsServed k u (next_thread_to_run k).0
next_thread_to_run-IsServed k u v ready n = served_lem k u v ready n (next_thread_to_run-Chosen k)

-- The thread that yields stands at the end of its list.
pushed :
    (k : Kernel) (p : ℕ)
    → (k.current == k.idle_thread) ≡ false
    → (k.thread k.current).priority ≡ p
    → (yielding k).ready_list p ≡ k.ready_list p ++ (k.current ∷ [])
unfolding yielding
pushed k p other e = rw (other, e, ==-refl p) refl

-- The front of a list with a thread at its end is not that thread, if the list held another one only.
front_of :
    (m : List ℕ) (c t : ℕ) (l : List ℕ) → m ≢ [] → count c m ≡ 0 → m ++ (c ∷ []) ≡ t ∷ l → t ≢ c
front_of [] c t l some_there absent e same = absurd (some_there refl)
front_of (a ∷ m) c t l some_there absent e same =
    let first : a ≡ t = cc in absurd (ground (arith, absent, first, same))

not_first :
    (k : Kernel) (v : IsScheduled k) (u p t : ℕ) (l : List ℕ)
    → (k.current == k.idle_thread) ≡ false
    → is_ready (k.thread u).status ≡ true
    → u ≢ k.idle_thread
    → (k.thread u).priority ≡ p
    → (k.thread k.current).priority ≡ p
    → (yielding k).ready_list p ≡ t ∷ l
    → t ≢ k.current
not_first k v u p t l other ready n eu ec e =
    let no =
      not_ready k.thread k.idle_thread p k.current
        (running-not_ready (k.thread k.current).status (current_lem k v)) in
    front_of (k.ready_list p) k.current t l
      (subst (λ (i : ℕ). k.ready_list i ≢ []) eu (filled k u v.queues ready n))
      ((v.queues).queued p k.current ∙ rw no refl) (sym (pushed k p other ec) ∙ e)

yield_priority :
    (k : Kernel)
    → IsScheduled k
    → (t : ℕ) → ((yielding k).thread t).priority ≡ (k.thread t).priority
yield_priority k v t =
    ap (λ (f : ℕ → Thread). (f t).priority) (yielding_lem k v).0
    ∙ set_status-priority k.thread k.current thread_ready t

yield_ready :
    (k : Kernel)
    → IsScheduled k
    → (t : ℕ) → is_ready (k.thread t).status ≡ true
    → is_ready ((yielding k).thread t).status ≡ true
yield_ready k v t ready =
    ap (λ (f : ℕ → Thread). is_ready (f t).status) (yielding_lem k v).0
    ∙ ap is_ready (set_status-status k.thread k.current thread_ready t)
    ∙ (elim (Bool-cases (k.current == t)) [ inl e ↦ rw e refl | inr e ↦ rw e ready ])

not_again :
    (k : Kernel) (u : ℕ)
    → IsScheduled k
    → is_ready (k.thread u).status ≡ true
    → u ≢ k.idle_thread
    → (k.thread k.current).priority ≤ (k.thread u).priority
    → (k.current == k.idle_thread) ≡ false
    → {r : ℕ × Kernel} → Chosen (yielding k) r
    → (k.thread u).priority ≤ (k.thread r.0).priority
    → r.0 ≢ k.current
not_again k u v ready n h other (picked p t l hp small e top found) low same =
    let y = yielding_lem k v in
    let f = front_lem p t l e y.2.queues in
    let q = queued_lem (yielding k).thread (yielding k).idle_thread p t f.0 in
    let is : t ≡ k.current = ap (λ (x : ℕ × Kernel). x.0) (sym found) ∙ same in
    let low' : (k.thread u).priority ≤ (k.thread k.current).priority = rw (← same) low in
    let pc : (k.thread k.current).priority ≡ p =
      ap (λ (i : ℕ). (k.thread i).priority) (sym is) ∙ sym (yield_priority k v t) ∙ q.2 in
    not_first k v u p t l other ready n (ground (arith, pc, low', h)) pc e is
not_again k u v ready n h other (idles none_ready found) low same =
    let is : k.idle_thread ≡ k.current =
      sym (yielding_lem k v).1 ∙ ap (λ (x : ℕ × Kernel). x.0) (sym found) ∙ same in
    absurd (ground (arith, is, other))

-- What the scheduler chooses after a yield: neither the thread that yielded nor one of lower priority.
gives_way :
    (k : Kernel) (u : ℕ)
    → IsScheduled k
    → is_ready (k.thread u).status ≡ true
    → u ≢ k.idle_thread
    → (k.thread k.current).priority ≤ (k.thread u).priority
    → {r : ℕ × Kernel} → Chosen (yielding k) r
    → IsServed (yielding k) u r.0
    → (r.0 ≢ k.current) × ((k.thread u).priority ≤ (k.thread r.0).priority)
gives_way k u v ready n h {r} c served =
    let low : (k.thread u).priority ≤ (k.thread r.0).priority =
      rw (← yield_priority k v u, ← yield_priority k v r.0) served.not_lower in
    (
      elim (Bool-cases (k.current == k.idle_thread)) [
        | inl e ↦ λ same.
            served.not_idle (same ∙ ==→eq k.current k.idle_thread e ∙ sym (yielding_lem k v).1)
        | inr e ↦ not_again k u v ready n h e c low
      ],
      low,
    )

-- A thread that yields gives way: with it alone running and the ready lists in order, if a thread other
-- than the idle thread and of at least its priority is ready, `thread_yield` does not fail an assertion,
-- and a thread of at least that priority runs then, which is not the one that yielded.
pub thread_yield_gives_way :
    (k : Kernel) (u : ℕ)
    → IsScheduled k
    → is_ready (k.thread u).status ≡ true
    → u ≢ k.idle_thread
    → (k.thread k.current).priority ≤ (k.thread u).priority
    → (k' : Kernel) × (thread_yield k ≡ some k')
      × (k'.current ≢ k.current)
      × ((k.thread u).priority ≤ (k.thread k'.current).priority)
unfolding thread_yield yielding
thread_yield_gives_way k u v ready n h =
    let y = yielding_lem k v in
    let r = schedule-Switched (yielding k) y.2 in
    let now = schedule-current (yielding k) r.after r.returned in
    let served =
      next_thread_to_run-IsServed (yielding k) u y.2.queues (yield_ready k v u ready) (rw y.1 n) in
    let g = gives_way k u v ready n h (next_thread_to_run-Chosen (yielding k)) served in
    (r.after, r.returned, rw now g.0, rw now g.1)
