-- ===== src/MessageQueue/Handler/Bound.antt =====
-- What a poll request hands out.
use system_design.Common.{
  ℕ, ◌≤◌, Bool, List, Option, none, some, ◌==◌, length, arith, Bool-cases, inl, inr,
}
use system_design.Common.Bytes.{Bytes}
use system_design.MessageQueue.Delivery.{length-poll_messages-le}
use system_design.MessageQueue.Handler.{Server, Health, Reply, polled, PollBody, poll, poll_request}

-- What a reply hands out.
abbrev pub size : Reply → ℕ
size (polled ms) = length ms
size _ = 0

poll_request-le :
    (topic : Bytes) (asked : Bool) (b : PollBody) → (poll_request topic asked b).max_messages ≤ 100
unfolding poll_request
poll_request-le topic asked b = ground arith

-- Whatever limit a poll request asks for, the reply has at most 100 messages.
pub size-poll-le :
    (h : Health) (now : ℕ) (locked : List Bytes) (topic : Bytes) (asked : Bool)
    (body : Option PollBody) (s : Server)
    → size (poll h now locked topic asked body s).0 ≤ 100
unfolding poll
size-poll-le h now locked topic asked none s = omega arith
size-poll-le h now locked topic asked (some b) s =
    elim (Bool-cases (length b.consumer_group == 0)) [
      | inl nobody ↦ rw nobody (omega arith)
      | inr named ↦ rw named (elim (Bool-cases h.db_up) [
        | inr down ↦ rw down (omega arith)
        | inl up ↦ rw up (
            omega (
              arith,
              length-poll_messages-le (poll_request topic asked b) now locked s.table,
              poll_request-le topic asked b,
            ))
      ])
    ]
