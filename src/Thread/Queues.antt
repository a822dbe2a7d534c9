-- ===== src/Thread/Queues.antt =====
-- The queues of src/threads/thread.c: every ready thread stands once in the list of its priority, and
-- nothing else stands in a ready list. `schedule` switches threads within that.
use kernel_dev.Prelude.{
  ℕ, ◌+◌, ◌≤◌, ◌≡◌, ◌≢◌, refl, sym, ◌∙◌, ap, Bool, true, false, not, List, [], ◌∷◌, ◌==◌, ◌&&◌,
  ◌++◌, subst, if◌then◌else◌, arith, Bool-cases, inl, inr, ==→eq, ne→==, ==-refl,
}
use kernel_dev.Prelude.Count.{count, count-push}
use kernel_dev.Thread.{Thread, Status, is_ready, thread_running, thread_ready, set_at, set_status}

module _ (thread : ℕ → Thread) (idle : ℕ) where
  -- Whether `t` belongs into the ready list `p`. The idle thread is in none.
  unfoldable pub is_queued : ℕ → ℕ → Bool
  is_queued p t = is_ready (thread t).status && (not (t == idle) && ((thread t).priority == p))

  pub record IsQueued (ready : ℕ → List ℕ) : Type 0 where
    pub queued : (p t : ℕ) → count t (ready p) ≡ (if is_queued p t then 1 else 0)
    pub small : (t : ℕ) → (thread t).priority ≤ 63

pub set_status-priority :
    (f : ℕ → Thread) (t : ℕ) (s : Status) (u : ℕ) → (set_status f t s u).priority ≡ (f u).priority
set_status-priority f t s u = elim (Bool-cases (t == u)) [
  | inl e ↦ rw e (ap (λ (i : ℕ). (f i).priority) (==→eq t u e))
  | inr e ↦ rw e refl
]

pub set_status-status :
    (f : ℕ → Thread) (t : ℕ) (s : Status) (u : ℕ)
    → (set_status f t s u).status ≡ (if t == u then s else (f u).status)
set_status-status f t s u = elim (Bool-cases (t == u)) [ inl e ↦ rw e refl | inr e ↦ rw e refl ]

other_list :
    (thread : ℕ → Thread) (idle p q t : ℕ)
    → is_queued thread idle p t ≡ true
    → (p == q) ≡ false
    → is_queued thread idle q t ≡ false
unfolding is_queued
other_list thread idle p q t h n = ground arith

pub not_ready :
    (thread : ℕ → Thread) (idle q t : ℕ)
    → is_ready (thread t).status ≡ false
    → is_queued thread idle q t ≡ false
unfolding is_queued
not_ready thread idle q t r = rw r refl

idle_out : (thread : ℕ → Thread) (idle q : ℕ) → is_queued thread idle q idle ≡ false
unfolding is_queued
idle_out thread idle q = ground arith

push_count :
    (ready : ℕ → List ℕ) (p q t u : ℕ)
    → count u (set_at ready p (ready p ++ (t ∷ [])) q)
      ≡ count u (ready q) + (if p == q then if t == u then 1 else 0 else 0)
push_count ready p q t u = elim (Bool-cases (p == q)) [
  | inl e ↦ rw e (rw (← ==→eq p q e) (count-push u t (ready p)))
  | inr e ↦ rw e (omega arith)
]

module _ {thread : ℕ → Thread} {idle : ℕ} {ready : ℕ → List ℕ} where
  -- The front of a ready list belongs there, and stands there once.
  pub front_lem :
      (p t : ℕ) (l : List ℕ)
      → ready p ≡ t ∷ l
      → IsQueued thread idle ready
      → (is_queued thread idle p t ≡ true) × (count t l ≡ 0)
  front_lem p t l e v =
      let c : count t (t ∷ l) ≡ (if is_queued thread idle p t then 1 else 0) =
        ap (count t) (sym e) ∙ v.queued p t in
      elim (Bool-cases (is_queued thread idle p t)) [
        | inl y ↦ (y, ground (arith, c, y))
        | inr n ↦ absurd (ground (arith, c, n))
      ]

  -- The front of a ready list is taken out to run.
  pub taken-IsQueued :
      (p t : ℕ) (l : List ℕ)
      → ready p ≡ t ∷ l
      → IsQueued thread idle ready
      → IsQueued (set_status thread t thread_running) idle (set_at ready p l)
  unfolding is_queued
  taken-IsQueued p t l e v = record {
    queued = λ q u.
        let f = front_lem p t l e v in
        let c : count u (ready p) ≡ count u (t ∷ l) = ap (count u) e in
        elim (Bool-cases (t == u)) [
          | inl same ↦
              let here : t ≡ u = ==→eq t u same in
              elim (Bool-cases (p == q)) [
                | inl x ↦ rw (same, x) (rw (← here) f.1)
                | inr x ↦
                    rw (same, x)
                      (rw (← here) (v.queued q t ∙ rw (other_list thread idle p q t f.0 x) refl))
              ]
          | inr other ↦ elim (Bool-cases (p == q)) [
            | inl here ↦
                let rest : count u l ≡ count u (ready p) = sym (c ∙ rw other (omega arith)) in
                let this : p ≡ q = ==→eq p q here in
                rw (other, here)
                  (rest
                    ∙ subst
                        (λ (i : ℕ).
                          count u (ready p) ≡ (if is_queued thread idle i u then 1 else 0))
                        this (v.queued p u))
            | inr there ↦ rw (other, there) (v.queued q u)
          ]
        ];
    small = λ u. rw (set_status-priority thread t thread_running u) (v.small u);
  }

  -- A thread that is not queued becomes ready, at the end of the list of its priority.
  pub enqueued-IsQueued :
      (t : ℕ)
      → t ≢ idle
      → is_ready (thread t).status ≡ false
      → IsQueued thread idle ready
      → IsQueued
          (set_status thread t thread_ready)
          idle
          (set_at ready (thread t).priority (ready (thread t).priority ++ (t ∷ [])))
  unfolding is_queued
  enqueued-IsQueued t n r v = record {
    queued = λ q u.
        let p = (thread t).priority in
        let no_idle : (t == idle) ≡ false = ne→== t idle n in
        let none : count t (ready q) ≡ 0 = v.queued q t ∙ rw (not_ready thread idle q t r) refl in
        elim (Bool-cases (t == u)) [
          | inl same ↦ rw (← ==→eq t u same) (
              rw (==-refl t, no_idle)
                (push_count ready p q t t ∙ rw (none, ==-refl t) (ground arith)))
          | inr other ↦
              rw other (push_count ready p q t u ∙ rw other (ground (arith, v.queued q u)))
        ];
    small = λ u. rw (set_status-priority thread t thread_ready u) (v.small u);
  }

  -- Only whether a thread is ready matters, and for the idle thread not even that.
  pub restatus-IsQueued :
      (t : ℕ) (s : Status)
      → is_ready s ≡ is_ready (thread t).status
      → IsQueued thread idle ready
      → IsQueued (set_status thread t s) idle ready
  unfolding is_queued
  restatus-IsQueued t s same v = record {
    queued = λ q u. elim (Bool-cases (t == u)) [
      | inl e ↦ rw (← ==→eq t u e) (rw (==-refl t, same) (v.queued q t))
      | inr e ↦ rw e (v.queued q u)
    ];
    small = λ u. rw (set_status-priority thread t s u) (v.small u);
  }

  pub idle-IsQueued :
      (s : Status) → IsQueued thread idle ready → IsQueued (set_status thread idle s) idle ready
  unfolding is_queued
  idle-IsQueued s v = record {
    queued = λ q u. elim (Bool-cases (idle == u)) [
      | inl e ↦ rw (← ==→eq idle u e) (
          v.queued q idle
          ∙ rw (idle_out thread idle q, idle_out (set_status thread idle s) idle q) refl)
      | inr e ↦ rw e (v.queued q u)
    ];
    small = λ u. rw (set_status-priority thread idle s u) (v.small u);
  }

  -- A thread that is in no ready list changes, and is in none after it.
  pub replaced-IsQueued :
      (t : ℕ) (x : Thread)
      → is_ready (thread t).status ≡ false
      → is_ready x.status ≡ false
      → x.priority ≤ 63
      → IsQueued thread idle ready
      → IsQueued (set_at thread t x) idle ready
  unfolding is_queued
  replaced-IsQueued t x old new h v = record {
    queued = λ q u. elim (Bool-cases (t == u)) [
      | inl e ↦
          rw (← ==→eq t u e)
            (rw (==-refl t, new) (v.queued q t ∙ rw (not_ready thread idle q t old) refl))
      | inr e ↦ rw e (v.queued q u)
    ];
    small = λ u. elim (Bool-cases (t == u)) [ inl e ↦ rw e h | inr e ↦ rw e (v.small u) ];
  }
