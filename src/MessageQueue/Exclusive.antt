-- ===== src/MessageQueue/Exclusive.antt =====
-- That a message that was handed out stays with whom it was handed to until its timeout.
use system_design.Common.{
  ℕ, ◌+◌, ◌≤◌, ◌<◌, ◌≡◌, refl, sym, ◌∙◌, ap, subst, true, false, List, [], ◌∷◌, none, some,
  if◌then◌else◌, arith, Bool-cases, inl, inr,
}
use system_design.Common.Bytes.{Bytes}
use system_design.Common.Assoc.{contains}
use system_design.MessageQueue.{
  Message, Table, PollRequest, ids, poll_messages, candidates, claim, ack_message, exhausted,
  overdue, owned_unacked, move_expired_to_dead_letter, restore_expired_messages,
}
use system_design.MessageQueue.Rows.{find, find-id, IsKeyed, find-append, find-update_where}
use system_design.MessageQueue.Delivery.{
  poll_messages_sound, poll_messages-row, poll_messages-IsKeyed, poll_messages-ids,
  claim-visible_at,
}
use system_design.MessageQueue.Reached.{
  Step, publish, poll, ack, bury, restore, Step-IsKeyed, publish-row,
}

-- A step that reads the clock before this time.
abbrev pub Before : ℕ → {t u : Table} → Step t u → Type 0
Before d (publish topics offset m t e) = Unit {0}
Before d (poll req now locked t) = now < d
Before d (ack id group now t) = Unit {0}
Before d (bury now t) = now < d
Before d (restore now t) = now < d

-- Steps of the queue before this time.
pub data Until (d : ℕ) (s : Table) : Table → Type 0 where
  start : Until d s s
  further : {t u : Table} → Until d s t → (st : Step t u) → Before d st → Until d s u

-- A row that is not visible before this time.
abbrev HiddenAt : ℕ → Bytes → Table → Type 0
HiddenAt d k t = (n : Message) × (find k t ≡ some n) × (d ≤ n.visible_at)

HiddenAt-poll_messages :
    (d : ℕ) (k : Bytes) (req : PollRequest) (now : ℕ) (locked : List Bytes) (t : Table)
    → now < d
    → IsKeyed t
    → HiddenAt d k t
    → contains k (ids (poll_messages req now locked t).1) ≡ false
HiddenAt-poll_messages d k req now locked t soon keyed (n, found, hidden) =
    elim (Bool-cases (contains k (ids (poll_messages req now locked t).1))) [
      | inr free ↦ free
      | inl again ↦
          let (m, row, _, seen, _, _, _, _, _) =
            poll_messages_sound req now locked k t keyed again in
          let one : n ≡ m = cc (sym found ∙ row) in
          let same : n.visible_at ≡ m.visible_at = ap (λ (x : Message). x.visible_at) one in
          absurd (omega (arith, same, seen, hidden, soon))
    ]

Step-HiddenAt :
    (d : ℕ) (k : Bytes) {t u : Table} (st : Step t u)
    → Before d st
    → IsKeyed t
    → HiddenAt d k t
    → HiddenAt d k u
unfolding ack_message move_expired_to_dead_letter restore_expired_messages exhausted overdue
Step-HiddenAt d k (publish topics offset x t e) _ keyed (m, found, hidden) =
    let (n, same, new, grown) = publish-row topics offset x t e in
    subst (HiddenAt d k) grown (m, find-append k t (n ∷ []) found, hidden)
Step-HiddenAt d k (poll req now locked t) soon keyed (m, found, hidden) =
    let left : contains m.id (ids (candidates req now locked t)) ≡ false =
      ap (λ j. contains j (ids (candidates req now locked t))) (find-id k t found)
      ∙ sym (ap (contains k) (poll_messages-ids req now locked t))
      ∙ HiddenAt-poll_messages d k req now locked t soon keyed (m, found, hidden) in
    (
      m,
      poll_messages-row req now locked k t found
          ∙ ap (λ b. some (if b then claim req now m else m)) left,
      hidden,
    )
Step-HiddenAt d k (ack id group now t) _ keyed (m, found, hidden) = (
  _,
  find-update_where (owned_unacked id group) (λ m. record m { acked_at = some now }) (λ m. refl) k t
      found,
  ground arith,
)
Step-HiddenAt d k (bury now t) soon keyed (m, found, hidden) = (
  _,
  find-update_where (exhausted now) (λ m. record m { dead_lettered = true }) (λ m. refl) k t found,
  ground arith,
)
Step-HiddenAt d k (restore now t) soon keyed (m, found, hidden) = (
  _,
  find-update_where (overdue now) (λ m. record m { visible_at = now; consumer_group = none })
      (λ m. refl) k t found,
  ground arith,
)

Until-HiddenAt :
    (d : ℕ) (k : Bytes) {t u : Table}
    → Until d t u
    → IsKeyed t
    → HiddenAt d k t
    → IsKeyed u × HiddenAt d k u
Until-HiddenAt d k start keyed h = (keyed, h)
Until-HiddenAt d k (further r st soon) keyed h =
    let (keyed', h') = Until-HiddenAt d k r keyed h in
    (Step-IsKeyed st keyed', Step-HiddenAt d k st soon keyed' h')

-- A message that a poll handed out, of a table without two equal ids, is handed out by no other poll
-- before its visibility timeout has passed: whatever publishes, polls, acknowledgements and rounds
-- of the reaper come in between, of any group, with clocks that read less than the end of the
-- timeout, no poll with such a clock returns it.
pub poll_messages_exclusive :
    (req other : PollRequest) (now later : ℕ) (locked locked' : List Bytes) (k : Bytes) (t : Table)
    {u : Table}
    → IsKeyed t
    → contains k (ids (poll_messages req now locked t).1) ≡ true
    → Until (now + req.visibility_timeout) (poll_messages req now locked t).0 u
    → later < now + req.visibility_timeout
    → contains k (ids (poll_messages other later locked' u).1) ≡ false
poll_messages_exclusive req other now later locked locked' k t {u} keyed taken steps soon =
    let (m, _, _, _, _, _, _, _, row) = poll_messages_sound req now locked k t keyed taken in
    let (keyed', hidden) =
      Until-HiddenAt (now + req.visibility_timeout) k steps
        (poll_messages-IsKeyed req now locked t keyed)
        (claim req now m, row, omega (arith, claim-visible_at req now m refl)) in
    HiddenAt-poll_messages (now + req.visibility_timeout) k other later locked' u soon keyed' hidden
