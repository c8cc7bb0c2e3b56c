-- ===== src/Notifier.antt =====
-- The notification dispatcher (projects/10-notification-system/worker/dispatcher.go) and the quiet
-- hours of notification/notification.go. The channels are lists with the capacities of the source;
-- a job that a worker holds, and one that waits for its back-off, stand in lists of their own. Every
-- event is one step, and any sequence of events may happen. Metrics are left out; the lines that
-- the log gets when a notification is dropped are kept.
pub mod Account
pub mod Runs
mod Tests
use system_design.Common.{
  ℕ, zero, suc, ◌+◌, ◌-◌, ◌*◌, ◌^◌, Bool, true, false, ◌&&◌, ◌||◌, not, List, [], ◌∷◌, ◌++◌, Option,
  none, some, ltb, leb, ◌==◌, if◌then◌else◌, length,
}
use system_design.Common.Bytes.{Bytes}
use system_design.Common.Taking.{take_out}
use system_design.Common.Assoc.{insert}

abbrev pub max_retries : ℕ
max_retries = 3

abbrev pub base_backoff_ms : ℕ
base_backoff_ms = 200

abbrev pub queue_size : ℕ
queue_size = 1024

abbrev pub dlq_size : ℕ
dlq_size = 256

abbrev pub num_workers : ℕ
num_workers = 4

pub data Status : Type 0 where
  pending queued delivered undelivered dlq skipped : Status

pub record Notification : Type 0 where
  pub id : Bytes
  pub channel : Bytes

pub record Job : Type 0 where
  pub notification : Notification
  pub attempt_num : ℕ

-- `error` is `none` for a delivery.
pub record Attempt : Type 0 where
  pub notification_id : Bytes
  pub provider : Bytes
  pub attempt_number : ℕ
  pub error : Option Bytes

-- `held` are the jobs that workers have; `waiting` those of time.AfterFunc, each with its delay.
-- `statuses` and `attempts` are the tables of the store; `dropped` is what the log says is lost and
-- what has no provider.
pub record Dispatcher : Type 0 where
  pub queue : List Job
  pub held : List Job
  pub waiting : List (ℕ × Job)
  pub dlq : List Job
  pub statuses : List (Bytes × Status)
  pub attempts : List Attempt
  pub dropped : List Notification

unfoldable pub new_dispatcher : Dispatcher
new_dispatcher = record {
  queue = [];
  held = [];
  waiting = [];
  dlq = [];
  statuses = [];
  attempts = [];
  dropped = [];
}

-- Whether the job was taken; if not, the caller has the error that the queue is full.
unfoldable pub enqueue : Notification → Dispatcher → Bool × Dispatcher
enqueue n d =
    if ltb (length d.queue) queue_size
    then (true, record d { queue = d.queue ++ record { notification = n; attempt_num = 1 } ∷ [] })
    else (false, d)

-- A worker that is free takes the first job of the queue.
unfoldable pub receive_from : List Job → Dispatcher → Dispatcher
receive_from [] d = d
receive_from (j ∷ js) d =
    if ltb (length d.held) num_workers then record d { queue = js; held = j ∷ d.held } else d

unfoldable pub receive : Dispatcher → Dispatcher
unfolding receive_from
receive d = receive_from d.queue d

unfoldable pub send_to_dlq : Notification → Dispatcher → Dispatcher
send_to_dlq n d =
    if ltb (length d.dlq) dlq_size
    then record d { dlq = d.dlq ++ record { notification = n; attempt_num = 0 } ∷ [] }
    else record d { dropped = n ∷ d.dropped }

unfoldable pub update_status : Notification → Status → Dispatcher → Dispatcher
unfolding insert
update_status n st d = record d { statuses = insert n.id st d.statuses }

unfoldable pub insert_attempt : Job → Bytes → Option Bytes → Dispatcher → Dispatcher
insert_attempt j name error d = record d {
  attempts =
      record {
        notification_id = j.notification.id;
        provider = name;
        attempt_number = j.attempt_num;
        error = error;
      }
      ∷ d.attempts;
}

-- 1 << attempt, in milliseconds
unfoldable pub backoff : ℕ → ℕ
backoff attempt = base_backoff_ms * 2 ^ attempt

-- dispatch of a job that is no longer held. The providers are a map by channel, and what Send
-- answers is an argument.
unfoldable pub dispatch : (Bytes → Option Bytes) → Option Bytes → Job → Dispatcher → Dispatcher
unfolding send_to_dlq update_status insert_attempt backoff
dispatch providers answer j d =
    let n = j.notification in
    elim (providers n.channel) [
      | none ↦ record d { dropped = n ∷ d.dropped }
      | some name ↦
          let tried = insert_attempt j name answer d in
          elim answer [
            | none ↦ update_status n delivered tried
            | some _ ↦
                if ltb j.attempt_num max_retries
                then update_status n queued (record tried {
                  waiting =
                      (
                        backoff j.attempt_num,
                        record { notification = n; attempt_num = j.attempt_num + 1 },
                      )
                      ∷ tried.waiting;
                })
                else send_to_dlq n tried
          ]
    ]

unfoldable pub finish : (Bytes → Option Bytes) → Option Bytes → ℕ → Dispatcher → Dispatcher
unfolding dispatch take_out
finish providers answer i d = elim (take_out i d.held) [
  | none ↦ d
  | some (j, rest) ↦ dispatch providers answer j (record d { held = rest })
]

-- The function of time.AfterFunc: back to the queue, or to the dead-letter queue if it is full.
unfoldable pub retry : ℕ → Dispatcher → Dispatcher
unfolding send_to_dlq take_out
retry i d = elim (take_out i d.waiting) [
  | none ↦ d
  | some ((_, j), rest) ↦
      let fired = record d { waiting = rest } in
      if ltb (length d.queue) queue_size
      then record fired { queue = fired.queue ++ j ∷ [] }
      else send_to_dlq j.notification fired
]

unfoldable pub drain_from : List Job → Dispatcher → Dispatcher
unfolding update_status
drain_from [] d = d
drain_from (j ∷ js) d = update_status j.notification Status.dlq (record d { dlq = js })

unfoldable pub drain_dlq : Dispatcher → Dispatcher
unfolding drain_from
drain_dlq d = drain_from d.dlq d

pub record Preference : Type 0 where
  pub quiet_start : Option ℕ
  pub quiet_end : Option ℕ

-- The hour of the day is an argument; `none` is a negative hour.
unfoldable pub is_quiet_hour : Preference → ℕ → Bool
is_quiet_hour pref h = elim pref.quiet_start [
  | none ↦ false
  | some start ↦ elim pref.quiet_end [
    | none ↦ false
    | some end ↦ if leb start end then leb start h && ltb h end else leb start h || ltb h end
  ]
]
