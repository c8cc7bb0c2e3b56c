-- ===== src/Notifier/Runs.antt =====
-- How often a notification is sent, and that none goes missing.
use system_design.Common.{ℕ, ◌+◌, ◌*◌, ◌≤◌, ◌≡◌, refl, Option, if◌then◌else◌, arith}
use system_design.Common.Bytes.{Bytes}
use system_design.Notifier.{
  Notification, Dispatcher, new_dispatcher, enqueue, receive, finish, retry, drain_dlq, max_retries,
}
use system_design.Common.Taking.{tally}
use system_design.Notifier.Account.{
  is_of, one_try, whereabouts, efforts, Within, drained, enqueue-Within, receive_from-Within,
  finish-Within, retry-Within, drain_from-Within,
}

module _ (k : Bytes) where
  -- A dispatcher that any events lead to, how many notifications of the id it has accepted, and how
  -- many it has drained k from the dead-letter queue.
  pub data Runs : Dispatcher → ℕ → ℕ → Type 0 where
    started : Runs new_dispatcher 0 0
    enqueued :
        (n : Notification) {d : Dispatcher} {a m : ℕ}
        → Runs d a m
        → Runs (enqueue n d).1 (if (enqueue n d).0 then a + is_of k n else a) m
    received : {d : Dispatcher} {a m : ℕ} → Runs d a m → Runs (receive d) a m
    finished :
        (providers : Bytes → Option Bytes) (answer : Option Bytes) (i : ℕ) {d : Dispatcher}
        {a m : ℕ}
        → Runs d a m
        → Runs (finish providers answer i d) a m
    retried : (i : ℕ) {d : Dispatcher} {a m : ℕ} → Runs d a m → Runs (retry i d) a m
    dead_drained :
        {d : Dispatcher} {a m : ℕ} → Runs d a m → Runs (drain_dlq d) a (m + drained k d.dlq)

  Runs-Within : {d : Dispatcher} {a m : ℕ} → Runs d a m → Within k d a m
  unfolding new_dispatcher whereabouts efforts tally receive drain_dlq
  Runs-Within started = record {
    queue = tt;
    held = tt;
    waiting = tt;
    conserved = omega arith;
    budget = omega arith;
  }
  Runs-Within (enqueued n {d} {a} {m} r) = enqueue-Within k n d a m (Runs-Within r)
  Runs-Within (received {d} {a} {m} r) = receive_from-Within k d.queue d a m refl (Runs-Within r)
  Runs-Within (finished providers answer i {d} {a} {m} r) =
      finish-Within k providers answer i d a m (Runs-Within r)
  Runs-Within (retried i {d} {a} {m} r) = retry-Within k i d a m (Runs-Within r)
  Runs-Within (dead_drained {d} {a} {m} r) = drain_from-Within k d.dlq d a m refl (Runs-Within r)

  -- Whatever the providers answer, whichever queues are full and in whatever order the workers, the
  -- back-off timers and the drain of the dead-letter queue run: the attempts recorded for an id are
  -- at most three times the notifications of that id that were accepted.
  pub Runs-attempts_le :
      {d : Dispatcher} {a m : ℕ} → Runs d a m → tally (one_try k) d.attempts ≤ max_retries * a
  unfolding efforts
  Runs-attempts_le {d} r = omega (arith, (Runs-Within r).budget)

  -- Whatever the providers answer, whichever queues are full and in whatever order the workers, the
  -- back-off timers and the drain of the dead-letter queue run, from a new dispatcher on: no
  -- notification goes missing. Those of an id that were accepted are as many as those of it that stand in the queue, with a worker, in a back-off or in the dead-letter queue,
  -- that were delivered, that the log says were dropped for want of a provider or of room in the
  -- dead-letter queue, or that were drained from it.
  pub Runs-conserved : {d : Dispatcher} {a m : ℕ} → Runs d a m → a ≡ whereabouts k d + m
  Runs-conserved r = (Runs-Within r).conserved
