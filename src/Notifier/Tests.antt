-- ===== src/Notifier/Tests.antt =====
-- Runs of the dispatcher, and its theorems at one input each.
use system_design.Common.{ℕ, ◌+◌, ◌≡◌, refl, if◌then◌else◌, [], ◌∷◌, Option, none, some}
use system_design.Common.Bytes.{Bytes, codes, beq}
use system_design.Notifier.{
  Notification, Dispatcher, new_dispatcher, enqueue, receive, finish, retry, is_quiet_hour,
  delivered,
}
use system_design.Common.Taking.{tally}
use system_design.Notifier.Account.{one_try, whereabouts, is_of}
use system_design.Notifier.Runs.{
  Runs, started, enqueued, received, finished, retried, Runs-conserved,
}

abbrev hello : Notification
hello = record { id = codes "n1"; channel = codes "email" }

abbrev providers : Bytes → Option Bytes
providers c = some (codes "mock")

-- Accepted, failed once, put back and delivered.
abbrev after : Dispatcher
after = finish providers none 0 (
    receive (
      retry 0
        (finish providers (some (codes "timeout")) 0 (receive (enqueue hello new_dispatcher).1))))

after_statuses : after.statuses ≡ (codes "n1", delivered) ∷ []
unfolding finish receive retry enqueue new_dispatcher beq
after_statuses = refl

after_attempts : tally (one_try (codes "n1")) after.attempts ≡ 2
unfolding finish receive retry enqueue new_dispatcher tally one_try beq
after_attempts = refl

abbrev accepted : ℕ
accepted = if (enqueue hello new_dispatcher).0 then 0 + is_of (codes "n1") hello else 0

after-Runs : Runs (codes "n1") after accepted 0
after-Runs = finished providers none 0 (
    received (
      retried 0
        (finished providers (some (codes "timeout")) 0 (received (enqueued hello started)))))

Runs-conserved_example : accepted ≡ whereabouts (codes "n1") after + 0
Runs-conserved_example = Runs-conserved (codes "n1") after-Runs

quiet_night :
    is_quiet_hour (record { quiet_start = some 22; quiet_end = some 7 }) 23
    ≡ is_quiet_hour (record { quiet_start = some 22; quiet_end = some 7 }) 6
unfolding is_quiet_hour
quiet_night = refl
