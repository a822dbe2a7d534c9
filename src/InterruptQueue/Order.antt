-- ===== src/InterruptQueue/Order.antt =====
-- The interrupt queue of src/devices/intq.c as a list of at most 63 bytes, first in, first out.
use kernel_dev.Prelude.{
  ℕ, zero, suc, ◌+◌, ◌-◌, ◌%◌, ◌≡◌, ◌<◌, refl, ap, ◌∙◌, Bool, true, false, none, some, ◌==◌,
  if◌then◌else◌, arith, Bool-cases, Option-cases, ==→eq, ◌≢◌, Option, inl, inr, List, [], ◌∷◌, ◌++◌,
  length,
}
use kernel_dev.InterruptQueue.{
  Intq, Ended, finishes, wakes, wants_lock, blocks, panics, next, intq_empty, intq_full, Waiter,
  for_space, for_byte, waiter, set_waiter, must_wait, signal, wait, acquire_and_wait, intq_getc,
  intq_putc,
}

pub record IsIntq (q : Intq) : Type 0 where
  pub head_inside : q.head < 64
  pub tail_inside : q.tail < 64

unfoldable pub used : Intq → ℕ
used q = (q.head + 64 - q.tail) % 64

-- The `n` bytes from `pos` on, around the end of the buffer.
abbrev pub collect : (ℕ → ℕ) → ℕ → ℕ → List ℕ
collect buf pos zero = []
collect buf pos (suc n) = buf pos ∷ collect buf (next pos) n

-- The bytes in the queue, the oldest first.
unfoldable pub contents : Intq → List ℕ
contents q = collect q.buf q.tail (used q)

length-collect : (buf : ℕ → ℕ) (pos n : ℕ) → length (collect buf pos n) ≡ n
length-collect buf pos zero = refl
length-collect buf pos (suc n) = ap suc (length-collect buf (next pos) n)

collect-append :
    (n : ℕ) (buf : ℕ → ℕ) (pos head byte : ℕ)
    → n < 64
    → pos < 64
    → (pos + n) % 64 ≡ head
    → collect (λ i. if head == i then byte else buf i) pos (suc n)
      ≡ collect buf pos n ++ (byte ∷ [])
collect-append zero buf pos head byte h p e =
    let here : (head == pos) ≡ true = ground arith in rw here refl
collect-append (suc n) buf pos head byte h p e =
    let not_here : (head == pos) ≡ false = ground arith in
    rw not_here (
      ap (λ l. buf pos ∷ l)
        (collect-append n buf (next pos) head byte (omega arith) (omega arith) (omega arith)))

-- The call returns if nobody waits; else the thread that waits is woken, and it is still to be
-- forgotten.
abbrev pub signalled : {A : Type 0} → A → Option ℕ → Intq → Ended A
signalled a none q = finishes a q
signalled a (some t) q = wakes a t q

signal_lem :
    {A : Type 0} (w : Waiter) (a : A) (q : Intq)
    → must_wait w q ≡ false
    → signal w a q ≡ signalled a (waiter w q) q
unfolding signal
signal_lem w a q e = elim (Option-cases (waiter w q)) [
  | inl n ↦ rw (e, n) refl
  | inr (t, m) ↦ rw (e, m) refl
]

-- How a call on a queue ends that makes the caller wait. `handler`: in an interrupt handler it fails an
-- assertion. `sleeps_on`: with the lock free, the caller takes it, is the thread that waits, and blocks.
-- `locked_out`: with the lock held, the caller sleeps until it is free, and the thread that waits is
-- kept. `held_already`: the lock is the caller's own, which fails an assertion.
pub data Waits (intr_context : Bool) (w : Waiter) (current : ℕ) (q : Intq) {A : Type 0}
    (r : Ended A) : Type 0 where
  handler : intr_context ≡ true → r ≡ panics → Waits intr_context w current q r
  sleeps_on :
      intr_context ≡ false
      → q.lock ≡ none
      → r ≡ blocks (set_waiter w (some current) (record q { lock = some current }))
      → Waits intr_context w current q r
  locked_out :
      (holder : ℕ)
      → intr_context ≡ false
      → q.lock ≡ some holder
      → holder ≢ current
      → r ≡ wants_lock q
      → Waits intr_context w current q r
  held_already :
      intr_context ≡ false → q.lock ≡ some current → r ≡ panics → Waits intr_context w current q r

waits_lem :
    {A : Type 0} (intr_context : Bool) (w : Waiter) (current : ℕ) (q : Intq)
    → ((l : Option ℕ) → must_wait w (record q { lock = l }) ≡ true)
    → Waits intr_context w current q {A = A}
        (if intr_context then panics else acquire_and_wait w current q)
unfolding acquire_and_wait wait
waits_lem true w current q full = handler refl refl
waits_lem false w current q full = elim (Option-cases q.lock) [
  | inl free ↦ sleeps_on refl free (rw free (rw (full (some current)) refl))
  | inr (t, held) ↦ elim (Bool-cases (t == current)) [
    | inl own ↦ held_already refl (held ∙ ap some (==→eq t current own)) (rw held (rw own refl))
    | inr other ↦ locked_out t refl held (ground arith) (rw held (rw other refl))
  ]
]

-- What taking a byte did. `took`: the oldest byte is gone, the lock and the threads that wait are as
-- they were, and the one that waits for space is being woken. `must_sleep`: the queue is empty.
pub data Took (intr_context : Bool) (current : ℕ) (q : Intq) (r : Ended ℕ) : Type 0 where
  took :
      (byte : ℕ) (after : Intq)
      → contents q ≡ byte ∷ contents after
      → IsIntq after
      → after.lock ≡ q.lock
      → after.not_full ≡ q.not_full
      → after.not_empty ≡ q.not_empty
      → r ≡ signalled byte q.not_full after
      → Took intr_context current q r
  must_sleep :
      contents q ≡ [] → Waits intr_context for_byte current q r → Took intr_context current q r

pub data WasPut (intr_context : Bool) (current byte : ℕ) (q : Intq) (r : Ended (Unit {0}))
    : Type 0 where
  put :
      (after : Intq)
      → contents after ≡ contents q ++ (byte ∷ [])
      → IsIntq after
      → after.lock ≡ q.lock
      → after.not_full ≡ q.not_full
      → after.not_empty ≡ q.not_empty
      → r ≡ signalled tt q.not_empty after
      → WasPut intr_context current byte q r
  must_sleep :
      length (contents q) ≡ 63
      → Waits intr_context for_space current q r
      → WasPut intr_context current byte q r

-- With the head and the tail inside the buffer: taking a byte from a queue that is not empty
-- returns the oldest, leaves the others in order, and returns, or wakes the thread that waits
-- for space, which is not forgotten yet; the lock and the threads that wait are as before. On an
-- empty queue an interrupt handler panics; a thread takes the lock and blocks as the thread that
-- waits for a byte if the lock is free, sleeps until it is free if another thread has it, and
-- panics if it has it itself.
pub intq_getc-Took :
    (intr_context : Bool) (current : ℕ) (q : Intq)
    → IsIntq q
    → Took intr_context current q (intq_getc intr_context current q)
unfolding intq_getc intq_empty must_wait intq_full waiter contents used
intq_getc-Took intr current q v = elim (Bool-cases (q.head == q.tail)) [
  | inl empty ↦
      let none_used : (q.head + 64 - q.tail) % 64 ≡ 0 = ground arith in
      must_sleep (rw none_used refl) (rw empty (waits_lem intr for_byte current q (λ l. empty)))
  | inr more ↦
      let n = (q.head + 64 - next q.tail) % 64 in
      let one_more : (q.head + 64 - q.tail) % 64 ≡ suc n =
        ground (arith, v.head_inside, v.tail_inside) in
      let space : (next q.head == next q.tail) ≡ false =
        ground (arith, v.head_inside, v.tail_inside) in
      took (q.buf q.tail) (record q { tail = next q.tail }) (rw one_more refl)
        (record { head_inside = v.head_inside; tail_inside = omega arith }) refl refl refl
        (rw more (signal_lem for_space (q.buf q.tail) (record q { tail = next q.tail }) space))
]

-- With the head and the tail inside the buffer: adding a byte to a queue of fewer than 63 bytes
-- puts it behind the others, and returns, or wakes the thread that waits for a byte, which is
-- not forgotten yet; the lock and the threads that wait are as before. With 63 bytes in the
-- queue an interrupt handler panics; a thread takes the lock and blocks as the thread that waits
-- for space if the lock is free, sleeps until it is free if another thread has it, and panics if
-- it has it itself.
pub intq_putc-WasPut :
    (intr_context : Bool) (current byte : ℕ) (q : Intq)
    → IsIntq q
    → WasPut intr_context current byte q (intq_putc intr_context current byte q)
unfolding intq_putc intq_full must_wait intq_empty waiter contents used
intq_putc-WasPut intr current byte q v = elim (Bool-cases (next q.head == q.tail)) [
  | inl full ↦
      let all_used : (q.head + 64 - q.tail) % 64 ≡ 63 =
        ground (arith, v.head_inside, v.tail_inside) in
      must_sleep (length-collect q.buf q.tail ((q.head + 64 - q.tail) % 64) ∙ all_used)
        (rw full (waits_lem intr for_space current q (λ l. full)))
  | inr room ↦
      let n = (q.head + 64 - q.tail) % 64 in
      let one_more : (next q.head + 64 - q.tail) % 64 ≡ suc n =
        ground (arith, v.head_inside, v.tail_inside) in
      let after : Intq = record q {
        buf = λ i. if q.head == i then byte else q.buf i;
        head = next q.head;
      } in
      put after
        (rw one_more (
          collect-append n q.buf q.tail q.head byte (omega arith) v.tail_inside
            (omega (arith, v.head_inside, v.tail_inside))))
        (record { head_inside = omega arith; tail_inside = v.tail_inside }) refl refl refl
        (rw room (signal_lem for_byte tt after room))
]
