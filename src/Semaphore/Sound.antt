-- ===== src/Semaphore/Sound.antt =====
-- The invariant of threads and semaphores: the list element that a thread shares between
-- src/threads/thread.c and src/threads/synch.c is in one list at most. The operations keep it.
use kernel_dev.Prelude.{
  ℕ, ◌+◌, ◌-◌, ◌≡◌, ◌≢◌, refl, sym, ◌∙◌, ap, Bool, true, false, Option, none, some, [], ◌∷◌, ◌++◌,
  ◌==◌, if◌then◌else◌, arith, Bool-cases, inl, inr, ==→eq, ne→==, ==-refl, true-ne-false,
}
use kernel_dev.Prelude.Count.{count, count-push, count-remove, remove}
use kernel_dev.Thread.{Kernel, set_at}
use kernel_dev.Thread.Switch.{IsScheduled, Switched, blocked_in}
use kernel_dev.Thread.Operations.{with_current, running-not_blocked, current_lem}
use kernel_dev.Thread.Wakeups.{without}
use kernel_dev.Semaphore.{System}

abbrev pub is_on : Option ℕ → ℕ → Bool
is_on none s = false
is_on (some r) s = r == s

-- Each waiter of a semaphore is blocked, waits there once, and nowhere else: `on` says where.
pub record IsSound (y : System) : Type 0 where
  pub sched : IsScheduled y.kernel
  pub on : ℕ → Option ℕ
  pub waits : (s t : ℕ) → count t (y.sema s).waiters ≡ (if is_on (on t) s then 1 else 0)
  pub asleep : (s t : ℕ) → is_on (on t) s ≡ true → blocked_in y.kernel t ≡ true
  pub not_idle : (s : ℕ) → is_on (on y.kernel.idle_thread) s ≡ false

pub on-not_idle :
    {y : System} (v : IsSound y) (s t : ℕ) → is_on (v.on t) s ≡ true → t ≢ y.kernel.idle_thread
on-not_idle v s t h e = true-ne-false (sym h ∙ ap (λ (i : ℕ). is_on (v.on i) s) e ∙ v.not_idle s)

pub on-not_current : {y : System} (v : IsSound y) (s : ℕ) → is_on (v.on y.kernel.current) s ≡ false
on-not_current {y} v s = elim (Bool-cases (is_on (v.on y.kernel.current) s)) [
  | inl e ↦ absurd (
      true-ne-false (
        sym (v.asleep s y.kernel.current e)
        ∙ running-not_blocked (y.kernel.thread y.kernel.current).status
            (current_lem y.kernel v.sched)))
  | inr e ↦ e
]

-- A switch of threads that leaves blocked those that wait.
pub rescheduled-IsSound :
    (y : System) (v : IsSound y) {b : ℕ → Bool} {r : Option Kernel} (w : Switched y.kernel b r)
    → ((s t : ℕ) → is_on (v.on t) s ≡ true → b t ≡ true)
    → IsSound (record y { kernel = w.after })
rescheduled-IsSound y v w keeps = record {
  sched = w.scheduled;
  on = v.on;
  waits = v.waits;
  asleep = λ s t h. w.blocked t (on-not_idle v s t h) ∙ keeps s t h;
  not_idle = λ s. rw w.same_idle (v.not_idle s);
}

-- Only the value of a semaphore changes.
pub valued-IsSound :
    (y : System) (s n : ℕ)
    → IsSound y
    → IsSound (record y { sema = set_at y.sema s (record (y.sema s) { value = n }) })
valued-IsSound y s n v = record {
  sched = v.sched;
  on = v.on;
  waits = λ r t. elim (Bool-cases (s == r)) [
    | inl e ↦ rw e (rw (← ==→eq s r e) (v.waits s t))
    | inr e ↦ rw e (v.waits r t)
  ];
  asleep = v.asleep;
  not_idle = v.not_idle;
}

pushed_count :
    (y : System) (s c t r : ℕ)
    → count t
        (set_at y.sema s (record (y.sema s) { waiters = (y.sema s).waiters ++ (c ∷ []) }) r).waiters
      ≡ count t (y.sema r).waiters + (if s == r then if c == t then 1 else 0 else 0)
pushed_count y s c t r = elim (Bool-cases (s == r)) [
  | inl e ↦ rw e (rw (← ==→eq s r e) (count-push t c (y.sema s).waiters))
  | inr e ↦ rw e (omega arith)
]

removed_count :
    (y : System) (s n t u r : ℕ)
    → count u
        (set_at y.sema s (record { value = n; waiters = remove t (y.sema s).waiters }) r).waiters
      ≡ count u (y.sema r).waiters - (if s == r then if t == u then 1 else 0 else 0)
removed_count y s n t u r = elim (Bool-cases (s == r)) [
  | inl e ↦ rw e (rw (← ==→eq s r e) (count-remove u t (y.sema s).waiters ∙ ground arith))
  | inr e ↦ rw e (omega arith)
]

on_unique : (o : Option ℕ) (s r : ℕ) → is_on o s ≡ true → (s == r) ≡ false → is_on o r ≡ false
on_unique none s r h e = refl
on_unique (some q) s r h e = ground arith

-- The running thread waits at `s`.
pub waiting-IsSound :
    (y : System) (s : ℕ) (v : IsSound y) {r : Option Kernel}
    → y.kernel.current ≢ y.kernel.idle_thread
    → (w : Switched y.kernel (with_current y.kernel true) r)
    → IsSound (record {
      kernel = w.after;
      sema =
          set_at y.sema s
            (record (y.sema s) { waiters = (y.sema s).waiters ++ (y.kernel.current ∷ []) });
    })
unfolding with_current
waiting-IsSound y s v other w =
    let c = y.kernel.current in
    record {
      sched = w.scheduled;
      on = set_at v.on c (some s);
      waits = λ r t. pushed_count y s c t r ∙ (elim (Bool-cases (c == t)) [
        | inl e ↦
            let nowhere : count c (y.sema r).waiters ≡ 0 =
              v.waits r c ∙ rw (on-not_current v r) refl in
            rw (← ==→eq c t e) (rw (==-refl c, nowhere) (ground arith))
        | inr e ↦ rw e (ground (arith, v.waits r t))
      ]);
      asleep = λ r t h. elim (Bool-cases (c == t)) [
        | inl e ↦
            let t_other : t ≢ y.kernel.idle_thread = λ i. other (==→eq c t e ∙ i) in
            w.blocked t t_other ∙ rw e refl
        | inr e ↦
            let g : is_on (v.on t) r ≡ true = rw e at h in
            w.blocked t (on-not_idle v r t g) ∙ rw e (v.asleep r t g)
      ];
      not_idle = λ r. rw (w.same_idle, ne→== c y.kernel.idle_thread other) (v.not_idle r);
    }

-- The waiter `t` of `s` is woken.
pub woken-IsSound :
    (y : System) (s n t : ℕ) (v : IsSound y) {r : Option Kernel}
    → is_on (v.on t) s ≡ true
    → (w : Switched y.kernel (without y.kernel t) r)
    → IsSound (record {
      kernel = w.after;
      sema = set_at y.sema s (record { value = n; waiters = remove t (y.sema s).waiters });
    })
unfolding without
woken-IsSound y s n t v h w = record {
  sched = w.scheduled;
  on = set_at v.on t none;
  waits = λ r u. removed_count y s n t u r ∙ (elim (Bool-cases (t == u)) [
    | inl e ↦ rw (← ==→eq t u e) (
        rw (==-refl t) (elim (Bool-cases (s == r)) [
          | inl same ↦
              let once : count t (y.sema r).waiters ≡ 1 =
                v.waits r t ∙ rw (← ==→eq s r same) (rw h refl) in
              rw (same, once) refl
          | inr apart ↦
              let nowhere : count t (y.sema r).waiters ≡ 0 =
                v.waits r t ∙ rw (on_unique (v.on t) s r h apart) refl in
              rw (apart, nowhere) refl
        ]))
    | inr e ↦ rw e (ground (arith, v.waits r u))
  ]);
  asleep = λ r u g. elim (Bool-cases (t == u)) [
    | inl e ↦ absurd (true-ne-false (sym (rw e at g)))
    | inr e ↦
        let g' : is_on (v.on u) r ≡ true = rw e at g in
        w.blocked u (on-not_idle v r u g') ∙ rw e (v.asleep r u g')
  ];
  not_idle =
      λ r. rw (w.same_idle, ne→== t y.kernel.idle_thread (on-not_idle v s t h)) (v.not_idle r);
}
