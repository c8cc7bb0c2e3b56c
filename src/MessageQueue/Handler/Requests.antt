-- ===== src/MessageQueue/Handler/Requests.antt =====
-- That every message stands in a partition that its topic has: the requests and the reaper.
use system_design.Common.{
  ℕ, ◌&&◌, ◌<◌, ◌≡◌, refl, ◌∙◌, ap, Bool, true, false, not, List, [], ◌∷◌, Option, none, some, ◌==◌,
  if◌then◌else◌, length, All-append, arith, Bool-cases, inl, inr, ◌⊎◌,
}
use system_design.Common.Bytes.{Bytes}
use system_design.Common.Assoc.{lookup, contains, is_some}
use system_design.MessageQueue.{
  Topic, Message, ids, update_where, count_where, publish_message, poll_messages, ack_message,
  claim, owned_unacked, move_expired_to_dead_letter, restore_expired_messages, exhausted, overdue,
  sweep,
}
use system_design.MessageQueue.Partition.{partition_for-lt}
use system_design.MessageQueue.Handler.{
  Server, Health, PollBody, incr_publish_counter, partitions_of, counter_for, store_message,
  create_topic, publish_with, publish, poll, poll_request, ack,
}
use system_design.MessageQueue.Handler.Served.{
  placed, IsServed, All-update_where, if-left, create_topic-IsServed, Known, partitions_of-Known,
}

counter_for-IsServed :
    (hl : Health) (topic key : Bytes) (s : Server)
    → IsServed s
    → IsServed (counter_for hl topic key s).1
unfolding counter_for incr_publish_counter
counter_for-IsServed hl topic [] s h = elim (Bool-cases hl.cache_up) [
  | inl e ↦ rw e (record { positive = h.positive; cached = h.cached; rows = h.rows })
  | inr e ↦ rw e h
]
counter_for-IsServed hl topic (b ∷ bs) s h = h

store_message-IsServed :
    (hl : Health) (now : ℕ) (id : Bytes) (offset : ℕ) (topic key payload : Bytes) (p : ℕ)
    (s : Server) (t : Topic)
    → IsServed s
    → lookup topic s.topics ≡ some t
    → p < t.partitions
    → IsServed (store_message hl now id offset topic key payload p s).1
unfolding store_message publish_message placed
store_message-IsServed hl now id offset topic key payload p s t h found lt =
    elim (Bool-cases hl.insert_up) [
      | inr down ↦ rw down h
      | inl up ↦
          rw up
            (elim (Bool-cases
              (is_some (lookup topic s.topics) && not (contains id (ids s.table)))) [
                | inr refused ↦ rw refused h
                | inl fit ↦ rw fit (record {
                  positive = h.positive;
                  cached = h.cached;
                  rows =
                      All-append (λ m. placed s.topics m ≡ true) s.table _ h.rows
                        (ground arith, tt);
                })
              ])
    ]

counter_for-topics :
    (hl : Health) (topic key : Bytes) (s : Server)
    → (counter_for hl topic key s).1.topics ≡ s.topics
unfolding counter_for incr_publish_counter
counter_for-topics hl topic [] s = elim (Bool-cases hl.cache_up) [
  | inl e ↦ rw e refl
  | inr e ↦ rw e refl
]
counter_for-topics hl topic (b ∷ bs) s = refl

publish_with-IsServed :
    (hl : Health) (now : ℕ) (id : Bytes) (offset : ℕ) (topic key payload : Bytes) (s : Server)
    (r : ℕ ⊎ (ℕ × Server))
    → IsServed s
    → Known topic r
    → IsServed (publish_with hl now id offset topic key payload s r).1
unfolding publish_with
publish_with-IsServed hl now id offset topic key payload s (inl status) h known = h
publish_with-IsServed hl now id offset topic key payload s (inr (n, s1)) h (t, found, count, h1) =
    store_message-IsServed hl now id offset topic key payload _ (counter_for hl topic key s1).1 t
      (counter_for-IsServed hl topic key s1 h1)
      (ap (lookup topic) (counter_for-topics hl topic key s1) ∙ found)
      (omega (
        arith,
        count,
        h1.positive topic t found,
        partition_for-lt key n (counter_for hl topic key s1).0,
      ))

publish-IsServed :
    (hl : Health) (now : ℕ) (id : Bytes) (offset : ℕ) (topic : Bytes)
    (body : Option (Bytes × Bytes)) (s : Server)
    → IsServed s
    → IsServed (publish hl now id offset topic body s).1
unfolding publish
publish-IsServed hl now id offset topic none s h = h
publish-IsServed hl now id offset topic (some (key, payload)) s h =
    if-left IsServed (length payload == 0) _ _ h (λ given.
      publish_with-IsServed hl now id offset topic key payload s (partitions_of hl topic s) h
        (partitions_of-Known hl topic s h))

-- A change of some rows that leaves their topics and partitions alone.
rows-IsServed :
    (p : Message → Bool) (f : Message → Message) (s : Server)
    → ((m : Message) → placed s.topics (f m) ≡ placed s.topics m)
    → IsServed s
    → IsServed (record s { table = update_where p f s.table })
rows-IsServed p f s keeps h = record {
  positive = h.positive;
  cached = h.cached;
  rows =
      All-update_where (λ m. placed s.topics m ≡ true) p f (λ m there. keeps m ∙ there) s.table
        h.rows;
}

poll-IsServed :
    (hl : Health) (now : ℕ) (locked : List Bytes) (topic : Bytes) (asked : Bool)
    (body : Option PollBody) (s : Server)
    → IsServed s
    → IsServed (poll hl now locked topic asked body s).1
unfolding poll poll_messages claim placed
poll-IsServed hl now locked topic asked none s h = h
poll-IsServed hl now locked topic asked (some b) s h =
    if-left IsServed (length b.consumer_group == 0) _ _ h (λ named. elim (Bool-cases hl.db_up) [
      | inr down ↦ rw down h
      | inl up ↦ rw up (rows-IsServed _ (claim (poll_request topic asked b) now) s (λ m. refl) h)
    ])

ack-IsServed :
    (hl : Health) (now : ℕ) (id : Bytes) (body : Option Bytes) (s : Server)
    → IsServed s
    → IsServed (ack hl now id body s).1
unfolding ack ack_message placed
ack-IsServed hl now id none s h = h
ack-IsServed hl now id (some group) s h = if-left IsServed (length group == 0) _ _ h (λ named.
    if-left IsServed (not hl.db_up) _ _ h (λ up.
      elim (Bool-cases (not (count_where (owned_unacked id group) s.table == 0))) [
        | inr miss ↦ rw miss h
        | inl hit ↦ rw hit (
            rows-IsServed (owned_unacked id group) (λ m. record m { acked_at = some now }) s
              (λ m. refl) h)
      ]))

buried :
    (ok : Bool) (now : ℕ) (s : Server)
    → IsServed s
    → IsServed
        (record s { table = if ok then (move_expired_to_dead_letter now s.table).0 else s.table })
unfolding move_expired_to_dead_letter placed
buried false now s h = h
buried true now s h =
    rows-IsServed (exhausted now) (λ m. record m { dead_lettered = true }) s (λ m. refl) h

freed :
    (ok : Bool) (later : ℕ) (s : Server)
    → IsServed s
    → IsServed
        (record s { table = if ok then (restore_expired_messages later s.table).0 else s.table })
unfolding restore_expired_messages placed
freed false later s h = h
freed true later s h =
    rows-IsServed (overdue later) (λ m. record m { visible_at = later; consumer_group = none }) s
      (λ m. refl) h

sweep-IsServed :
    (first_ok second_ok : Bool) (now later : ℕ) (s : Server)
    → IsServed s
    → IsServed (record s { table = sweep first_ok second_ok now later s.table })
unfolding sweep
sweep-IsServed first_ok second_ok now later s h =
    let first : IsServed (record s {
      table = if first_ok then (move_expired_to_dead_letter now s.table).0 else s.table;
    }) =
      buried first_ok now s h in
    freed second_ok later _ first

-- A server that any requests and rounds of the reaper lead to.
pub data Serves (s : Server) : Server → Type 0 where
  started : Serves s s
  topic_created :
      (hl : Health) (now : ℕ) (body : Option (Bytes × ℕ × ℕ)) {u : Server}
      → Serves s u
      → Serves s (create_topic hl now body u).1
  message_published :
      (hl : Health) (now : ℕ) (id : Bytes) (offset : ℕ) (topic : Bytes)
      (body : Option (Bytes × Bytes)) {u : Server}
      → Serves s u
      → Serves s (publish hl now id offset topic body u).1
  messages_polled :
      (hl : Health) (now : ℕ) (locked : List Bytes) (topic : Bytes) (asked : Bool)
      (body : Option PollBody) {u : Server}
      → Serves s u
      → Serves s (poll hl now locked topic asked body u).1
  message_acked :
      (hl : Health) (now : ℕ) (id : Bytes) (body : Option Bytes) {u : Server}
      → Serves s u
      → Serves s (ack hl now id body u).1
  swept :
      (first_ok second_ok : Bool) (now later : ℕ) {u : Server}
      → Serves s u
      → Serves s (record u { table = sweep first_ok second_ok now later u.table })

-- From a server where every topic has a partition, every cached number of partitions is that of
-- its topic and every message stands in a partition below its topic's number, the same holds after
-- any requests to create topics, publish, poll and acknowledge and any rounds of the reaper,
-- whichever services fail.
pub Serves-IsServed : {s u : Server} → IsServed s → Serves s u → IsServed u
Serves-IsServed h started = h
Serves-IsServed h (topic_created hl now body {u = u} r) =
    create_topic-IsServed hl now body u (Serves-IsServed h r)
Serves-IsServed h (message_published hl now id offset topic body {u = u} r) =
    publish-IsServed hl now id offset topic body u (Serves-IsServed h r)
Serves-IsServed h (messages_polled hl now locked topic asked body {u = u} r) =
    poll-IsServed hl now locked topic asked body u (Serves-IsServed h r)
Serves-IsServed h (message_acked hl now id body {u = u} r) =
    ack-IsServed hl now id body u (Serves-IsServed h r)
Serves-IsServed h (swept first_ok second_ok now later {u = u} r) =
    sweep-IsServed first_ok second_ok now later u (Serves-IsServed h r)
