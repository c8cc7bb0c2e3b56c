-- ===== src/Notifier/Account.antt =====
-- What each event of the dispatcher does to the jobs of an id and to the attempts they may make.
use system_design.Common.{
  ℕ, ◌+◌, ◌-◌, ◌*◌, ◌≤◌, ◌≡◌, ap, subst, List, [], ◌∷◌, Option, none, some, ltb, if◌then◌else◌,
  length, All, All-append, arith, Bool-cases, Option-cases, inl, inr,
}
use system_design.Common.Bytes.{Bytes, beq}
use system_design.Notifier.{
  Notification, Job, Attempt, Dispatcher, enqueue, send_to_dlq, update_status, insert_attempt,
  dispatch, receive_from, drain_from, finish, retry, max_retries,
}
use system_design.Common.Taking.{take_out, tally, tally-append, tally-take_out, All-take_out}

module _ (k : Bytes) where
  unfoldable pub is_of : Notification → ℕ
  is_of n = if beq n.id k then 1 else 0

  unfoldable pub one_job : Job → ℕ
  unfolding is_of
  one_job j = is_of j.notification

  -- The attempts that a job may still make.
  unfoldable pub tries_left : Job → ℕ
  tries_left j = if beq j.notification.id k then max_retries + 1 - j.attempt_num else 0

  unfoldable pub one_try : Attempt → ℕ
  one_try a = if beq a.notification_id k then 1 else 0

  unfoldable pub one_delivery : Attempt → ℕ
  one_delivery a = if beq a.notification_id k then (elim a.error [ none ↦ 1 | some _ ↦ 0 ]) else 0

  -- The notifications under this id that the dispatcher has somewhere or has settled.
  unfoldable pub whereabouts : Dispatcher → ℕ
  unfolding tally one_job one_delivery is_of
  whereabouts d =
      tally one_job d.queue
      + tally one_job d.held
      + tally (λ w. one_job w.1) d.waiting
      + tally one_job d.dlq
      + tally one_delivery d.attempts
      + tally is_of d.dropped

  -- The attempts made, and those that may still be made.
  unfoldable pub efforts : Dispatcher → ℕ
  unfolding tally one_try tries_left
  efforts d =
      tally one_try d.attempts
      + tally tries_left d.queue
      + tally tries_left d.held
      + tally (λ w. tries_left w.1) d.waiting

  abbrev pub Tried : Job → Type 0
  Tried j = j.attempt_num ≤ max_retries

  pub record Within (d : Dispatcher) (accepted drained : ℕ) : Type 0 where
    pub queue : All Tried d.queue
    pub held : All Tried d.held
    pub waiting : All (λ w. Tried w.1) d.waiting
    pub conserved : accepted ≡ whereabouts d + drained
    pub budget : efforts d ≤ max_retries * accepted

  pub enqueue-Within :
      (n : Notification) (d : Dispatcher) (a m : ℕ)
      → Within d a m
      → Within (enqueue n d).1 (if (enqueue n d).0 then a + is_of n else a) m
  unfolding enqueue whereabouts efforts one_job tries_left is_of
  enqueue-Within n d a m h = elim (Bool-cases (ltb (length d.queue) 1024)) [
    | inr full ↦ rw full h
    | inl room ↦ rw room (record {
      queue = All-append Tried d.queue _ h.queue (omega arith, tt);
      held = h.held;
      waiting = h.waiting;
      conserved = ground (
        arith,
        tally-append one_job d.queue (record { notification = n; attempt_num = 1 }),
        h.conserved,
      );
      budget = ground (
        arith,
        tally-append tries_left d.queue (record { notification = n; attempt_num = 1 }),
        h.budget,
      );
    })
  ]

  send_to_dlq-Within :
      (n : Notification) (d : Dispatcher) (a m : ℕ)
      → All Tried d.queue
      → All Tried d.held
      → All (λ w. Tried w.1) d.waiting
      → a ≡ whereabouts d + is_of n + m
      → efforts d ≤ max_retries * a
      → Within (send_to_dlq n d) a m
  unfolding send_to_dlq whereabouts efforts one_job tries_left is_of
  send_to_dlq-Within n d a m hq hh hw c b = elim (Bool-cases (ltb (length d.dlq) 256)) [
    | inr full ↦
        rw full
          (record { queue = hq; held = hh; waiting = hw; conserved = ground arith; budget = b })
    | inl room ↦ rw room (record {
      queue = hq;
      held = hh;
      waiting = hw;
      conserved =
          ground (arith, tally-append one_job d.dlq (record { notification = n; attempt_num = 0 }));
      budget = b;
    })
  ]

  -- A job that a worker has taken and not yet dispatched.
  dispatch-Within :
      (providers : Bytes → Option Bytes) (answer : Option Bytes) (j : Job) (d : Dispatcher)
      (a m : ℕ)
      → Tried j
      → All Tried d.queue
      → All Tried d.held
      → All (λ w. Tried w.1) d.waiting
      → a ≡ whereabouts d + one_job j + m
      → efforts d + tries_left j ≤ max_retries * a
      → Within (dispatch providers answer j d) a m
  unfolding dispatch whereabouts efforts one_job tries_left is_of one_try one_delivery
      insert_attempt update_status
  dispatch-Within providers none j d a m t hq hh hw c b =
      elim (Option-cases (providers j.notification.channel)) [
        | inl unknown ↦
            rw (unknown, dispatch)
              (record {
                queue = hq;
                held = hh;
                waiting = hw;
                conserved = ground arith;
                budget = ground arith;
              })
        | inr (name, known) ↦
            rw (known, dispatch)
              (record {
                queue = hq;
                held = hh;
                waiting = hw;
                conserved = ground arith;
                budget = ground arith;
              })
      ]
  dispatch-Within providers (some err) j d a m t hq hh hw c b =
      elim (Option-cases (providers j.notification.channel)) [
        | inl unknown ↦
            rw (unknown, dispatch)
              (record {
                queue = hq;
                held = hh;
                waiting = hw;
                conserved = ground arith;
                budget = ground arith;
              })
        | inr (name, known) ↦
            rw (known, dispatch)
              (elim (Bool-cases (ltb j.attempt_num max_retries)) [
                | inl again ↦ rw again (record {
                  queue = hq;
                  held = hh;
                  waiting = (ground arith, hw);
                  conserved = ground arith;
                  budget = ground arith;
                })
                | inr over ↦ rw over (
                    send_to_dlq-Within j.notification (insert_attempt j name (some err) d) a m hq hh
                      hw (ground arith) (ground arith))
              ])
      ]

  pub finish-Within :
      (providers : Bytes → Option Bytes) (answer : Option Bytes) (i : ℕ) (d : Dispatcher) (a m : ℕ)
      → Within d a m
      → Within (finish providers answer i d) a m
  unfolding finish whereabouts efforts
  finish-Within providers answer i d a m h = elim (Option-cases (take_out i d.held)) [
    | inl out ↦ rw (out, finish) h
    | inr ((j, rest), found) ↦
        let (tried, others) = All-take_out Tried i d.held found h.held in
        rw (found, finish)
          (dispatch-Within providers answer j (record d { held = rest }) a m tried h.queue others
            h.waiting (ground (arith, tally-take_out one_job i d.held found, h.conserved))
            (ground (arith, tally-take_out tries_left i d.held found, h.budget)))
  ]

  pub retry-Within : (i : ℕ) (d : Dispatcher) (a m : ℕ) → Within d a m → Within (retry i d) a m
  unfolding retry whereabouts efforts
  retry-Within i d a m h = elim (Option-cases (take_out i d.waiting)) [
    | inl out ↦ rw (out, retry) h
    | inr (((delay, j), rest), found) ↦
        let (tried, others) = All-take_out (λ w. Tried w.1) i d.waiting found h.waiting in
        let jobs = tally-take_out (λ w. one_job w.1) i d.waiting found in
        let tries = tally-take_out (λ w. tries_left w.1) i d.waiting found in
        rw (found, retry)
          (elim (Bool-cases (ltb (length d.queue) 1024)) [
            | inl room ↦ rw room (record {
              queue = All-append Tried d.queue (j ∷ []) h.queue (tried, tt);
              held = h.held;
              waiting = others;
              conserved = omega (arith, jobs, h.conserved, tally-append one_job d.queue j);
              budget = omega (arith, tries, h.budget, tally-append tries_left d.queue j);
            })
            | inr full ↦ rw full (
                send_to_dlq-Within j.notification (record d { waiting = rest }) a m h.queue h.held
                  others (omega (arith, jobs, h.conserved)) (omega (arith, tries, h.budget)))
          ])
  ]

  pub receive_from-Within :
      (q : List Job) (d : Dispatcher) (a m : ℕ)
      → d.queue ≡ q
      → Within d a m
      → Within (receive_from q d) a m
  unfolding receive_from whereabouts efforts tally
  receive_from-Within [] d a m e h = h
  receive_from-Within (j ∷ js) d a m e h =
      let tried : All Tried (j ∷ js) = subst (All Tried) e h.queue in
      elim (Bool-cases (ltb (length d.held) 4)) [
        | inr busy ↦ rw busy h
        | inl free ↦ rw free (record {
          queue = tried.1;
          held = (tried.0, h.held);
          waiting = h.waiting;
          conserved = omega (arith, ap (tally one_job) e, h.conserved);
          budget = omega (arith, ap (tally tries_left) e, h.budget);
        })
      ]

  unfoldable pub drained : List Job → ℕ
  drained [] = 0
  drained (j ∷ js) = one_job j

  pub drain_from-Within :
      (q : List Job) (d : Dispatcher) (a m : ℕ)
      → d.dlq ≡ q
      → Within d a m
      → Within (drain_from q d) a (m + drained q)
  unfolding drain_from whereabouts efforts update_status tally drained
  drain_from-Within [] d a m e h = record {
    queue = h.queue;
    held = h.held;
    waiting = h.waiting;
    conserved = omega (arith, h.conserved);
    budget = h.budget;
  }
  drain_from-Within (j ∷ js) d a m e h = record {
    queue = h.queue;
    held = h.held;
    waiting = h.waiting;
    conserved = omega (arith, ap (tally one_job) e, h.conserved);
    budget = h.budget;
  }
