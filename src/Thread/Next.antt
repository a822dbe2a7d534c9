-- ===== src/Thread/Next.antt =====
-- `next_thread_to_run` of src/threads/thread.c: which thread the scheduler picks.
use kernel_dev.Prelude.{
  ℕ, zero, suc, ◌<◌, ◌≤◌, ◌≡◌, refl, ap, Bool, true, false, Option, none, some, List, [], ◌∷◌, ◌==◌,
  if◌then◌else◌, arith, Bool-cases, inl, inr, ==→eq,
}
use kernel_dev.Thread.{
  Kernel, set_at, list_empty, lower_loop, next_at, next_loop, or_idle, next_thread_to_run, pri_max,
  pri_min,
}

-- The front `t` of the list of priority `p` is taken, and only `highest_priority` may change beside.
abbrev pub taken : Kernel → ℕ → List ℕ → ℕ → Kernel
taken k p l h = record k { ready_list = set_at k.ready_list p l; highest_priority = h }

lower_loop_lem :
    (n : ℕ) (k : Kernel) → (h : ℕ) × (lower_loop n k ≡ record k { highest_priority = h })
unfolding lower_loop
lower_loop_lem zero k = (k.highest_priority, refl)
lower_loop_lem (suc i) k = elim (Bool-cases (list_empty (k.ready_list i))) [
  | inl e ↦ let r = lower_loop_lem i k in (r.0, rw e r.1)
  | inr e ↦ (i, rw e refl)
]

after_front :
    (k : Kernel) (i : ℕ) (l : List ℕ) (b : Bool)
    → let k' : Kernel = record k { ready_list = set_at k.ready_list i l } in
      (h : ℕ) × ((if b then lower_loop i k' else k') ≡ taken k i l h)
after_front k i l true = lower_loop_lem i (record k { ready_list = set_at k.ready_list i l })
after_front k i l false = (k.highest_priority, refl)

-- What a search for the next thread found among the priorities below `n`.
pub data Found (n : ℕ) (k : Kernel) (r : Option ℕ × Kernel) : Type 0 where
  nothing : ((q : ℕ) → q < n → k.ready_list q ≡ []) → r ≡ (none, k) → Found n k r
  front :
      (p t : ℕ) (l : List ℕ) (h : ℕ)
      → p < n
      → k.ready_list p ≡ t ∷ l
      → ((q : ℕ) → p < q → q < n → k.ready_list q ≡ [])
      → r ≡ (some t, taken k p l h)
      → Found n k r

wider :
    (i : ℕ) (k : Kernel) {r : Option ℕ × Kernel}
    → k.ready_list i ≡ []
    → Found i k r
    → Found (suc i) k r
wider i k e (nothing all x) =
    nothing
      (λ q h. elim (Bool-cases (i == q)) [
        | inl s ↦ rw (← ==→eq i q s) e
        | inr o ↦ all q (ground arith)
      ])
      x
wider i k e (front p t l h a b c x) =
    front p t l h (omega arith) b
      (λ q g h'. elim (Bool-cases (i == q)) [
        | inl s ↦ rw (← ==→eq i q s) e
        | inr o ↦ c q g (ground arith)
      ])
      x

next_at-Found :
    (i : ℕ) (k : Kernel) (l : List ℕ) {lower : Option ℕ × Kernel}
    → k.ready_list i ≡ l
    → Found i k lower
    → Found (suc i) k (next_at k i l lower)
unfolding next_at
next_at-Found i k [] e f = wider i k e f
next_at-Found i k (t ∷ l) e f =
    let a = after_front k i l (list_empty l) in
    front i t l a.0 (omega arith) e (λ q g h. absurd (omega arith))
      (ap (λ (x : Kernel). (some t, x)) a.1)

next_loop-Found : (n : ℕ) (k : Kernel) → Found n k (next_loop n k)
unfolding next_loop
next_loop-Found zero k = nothing (λ q h. absurd (omega arith)) refl
next_loop-Found (suc i) k = next_at-Found i k (k.ready_list i) refl (next_loop-Found i k)

-- Which thread runs next. `picked`: the front of the highest ready list that is not empty.
-- `idles`: no thread is ready, and it is the idle thread.
pub data Chosen (k : Kernel) (r : ℕ × Kernel) : Type 0 where
  picked :
      (p t : ℕ) (l : List ℕ) (h : ℕ)
      → p ≤ pri_max
      → k.ready_list p ≡ t ∷ l
      → ((q : ℕ) → p < q → q ≤ pri_max → k.ready_list q ≡ [])
      → r ≡ (t, taken k p l h)
      → Chosen k r
  idles :
      ((q : ℕ) → q ≤ pri_max → k.ready_list q ≡ [])
      → r ≡ (k.idle_thread, record k { highest_priority = pri_min })
      → Chosen k r

chosen_lem : (k : Kernel) (r : Option ℕ × Kernel) → Found 64 k r → Chosen k (or_idle r.0 r.1)
unfolding or_idle
chosen_lem k r (nothing all e) =
    idles (λ q h. all q (omega arith)) (ap (λ (x : Option ℕ × Kernel). or_idle x.0 x.1) e)
chosen_lem k r (front p t l h a b c e) =
    picked p t l h (omega arith) b (λ q g x. c q g (omega arith))
      (ap (λ (x : Option ℕ × Kernel). or_idle x.0 x.1) e)

-- The scheduler takes the first thread of the highest priority that has a ready thread, and leaves
-- all others in their order; only if no thread is ready it takes the idle thread.
pub next_thread_to_run-Chosen : (k : Kernel) → Chosen k (next_thread_to_run k)
unfolding next_thread_to_run
next_thread_to_run-Chosen k = chosen_lem k (next_loop 64 k) (next_loop-Found 64 k)
