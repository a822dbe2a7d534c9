-- ===== src/Tests/QueueRuns.antt =====
-- src/devices/intq.c with three bytes around the end of the buffer, and a thread that waits.
use kernel_dev.Prelude.{◌≡◌, refl, true, false, some, none, arith, [], ◌∷◌}
use kernel_dev.InterruptQueue.{Intq, intq_getc, intq_putc}
use kernel_dev.InterruptQueue.Order.{
  IsIntq, Took, WasPut, contents, used, intq_getc-Took, intq_putc-WasPut,
}

abbrev queue : Intq
queue = record {
  lock = none;
  not_full = none;
  not_empty = some 3;
  buf = λ i. i;
  head = 1;
  tail = 62;
}

queue-IsIntq : IsIntq queue
queue-IsIntq = record { head_inside = omega arith; tail_inside = omega arith }

contents_run : contents queue ≡ 62 ∷ 63 ∷ 0 ∷ []
unfolding contents used
contents_run = refl

intq_getc-Took_example : Took true 5 queue (intq_getc true 5 queue)
intq_getc-Took_example = intq_getc-Took true 5 queue queue-IsIntq

intq_putc-WasPut_example : WasPut false 5 97 queue (intq_putc false 5 97 queue)
intq_putc-WasPut_example = intq_putc-WasPut false 5 97 queue queue-IsIntq
