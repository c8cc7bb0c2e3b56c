-- ===== src/MessageQueue/Handler.antt =====
-- The requests (projects/13-message-queue/api/handler.go) over the table, with the counters and
-- partition counts that store/cache.go keeps in Redis. A body is what the JSON decoder made of it,
-- none if it refused. Metrics and log lines are left out.
pub mod Served
pub mod Requests
pub mod Bound
use system_design.Common.{
  ℕ, ◌+◌, ◌*◌, ◌≤◌, ◌<◌, ◌≡◌, refl, sym, ◌∙◌, ap, Bool, true, false, ◌&&◌, ◌⊎◌, inl, inr, List, [],
  ◌∷◌, Option, none, some, ltb, leb, ◌==◌, not, if◌then◌else◌, length, arith, Bool-cases,
  Option-cases,
}
use system_design.Common.Bytes.{Bytes, beq, beq_iff}
use system_design.Common.Assoc.{lookup, insert, is_some, lookup-insert}
use system_design.MessageQueue.{
  Topic, Message, Table, PollRequest, second, default_visibility_timeout, publish_message,
  poll_messages, ack_message,
}
use system_design.MessageQueue.Partition.{partition_for, partition_for-lt}
use system_design.MessageQueue.Delivery.{length-poll_messages-le}

pub record Server : Type 0 where
  pub topics : List (Bytes × Topic)
  pub table : Table
  pub cached_partitions : List (Bytes × ℕ)
  pub counters : List (Bytes × ℕ)

-- Which of the services answer during a request.
pub record Health : Type 0 where
  pub cache_up : Bool
  pub db_up : Bool
  pub insert_up : Bool

pub data Reply : Type 0 where
  failed : ℕ → Reply
  created : Topic → Reply
  published : Bytes → Bytes → ℕ → ℕ → Reply
  polled : Table → Reply
  acked : Bytes → Reply

-- IncrPublishCounter; on an error the counter is 0.
unfoldable pub incr_publish_counter : Bool → Bytes → Server → ℕ × Server
unfolding lookup insert
incr_publish_counter up topic s =
    let val = (elim (lookup topic s.counters) [ none ↦ 0 | some c ↦ c ]) + 1 in
    if up then (val, record s { counters = insert topic val s.counters }) else (0, s)

unfoldable pub set_topic_partitions : Bool → Bytes → ℕ → Server → Server
unfolding insert
set_topic_partitions up topic n s =
    if up then record s { cached_partitions = insert topic n s.cached_partitions } else s

-- 0 on a miss, and here also on an error, which publish treats alike.
unfoldable pub get_topic_partitions : Bool → Bytes → Server → ℕ
unfolding lookup
get_topic_partitions up topic s =
    if up then (elim (lookup topic s.cached_partitions) [ none ↦ 0 | some n ↦ n ]) else 0

-- The body is a name, a number of partitions and a number of hours, 0 for those below 1.
unfoldable pub create_topic : Health → ℕ → Option (Bytes × ℕ × ℕ) → Server → Reply × Server
unfolding set_topic_partitions lookup insert
create_topic h now none s = (failed 400, s)
create_topic h now (some (name, partitions, hours)) s =
    let t : Topic = record {
      name = name;
      partitions = if partitions == 0 then 1 else partitions;
      retention_period = (if hours == 0 then 24 else hours) * 3600 * second;
      created_at = now;
    } in
    if length name == 0
    then (failed 400, s)
    else if not h.db_up
    then (failed 500, s)
    else if is_some (lookup name s.topics)
    then (failed 409, s)
    else (
      created t,
      set_topic_partitions h.cache_up name t.partitions
          (record s { topics = insert name t s.topics }),
    )

-- The number of partitions, from the cache or else from the database; or the status that ends the
-- request.
unfoldable pub partitions_of : Health → Bytes → Server → ℕ ⊎ (ℕ × Server)
unfolding get_topic_partitions set_topic_partitions lookup
partitions_of h topic s =
    let cached = get_topic_partitions h.cache_up topic s in
    if cached == 0
    then (if h.db_up
        then (elim (lookup topic s.topics) [
          | none ↦ inl 404
          | some t ↦ inr (t.partitions, set_topic_partitions h.cache_up topic t.partitions s)
        ])
        else inl 500)
    else inr (cached, s)

unfoldable pub counter_for : Health → Bytes → Bytes → Server → ℕ × Server
unfolding incr_publish_counter
counter_for h topic [] s = incr_publish_counter h.cache_up topic s
counter_for h topic (b ∷ bs) s = (0, s)

unfoldable pub store_message :
    Health → ℕ → Bytes → ℕ → Bytes → Bytes → Bytes → ℕ → Server → Reply × Server
unfolding publish_message
store_message h now id offset topic key payload partition s =
    let m : Message = record {
      id = id;
      topic = topic;
      partition = partition;
      offset = 0;
      key = key;
      payload = payload;
      published_at = now;
      visible_at = now;
      delivery_attempts = 0;
      acked_at = none;
      dead_lettered = false;
      consumer_group = none;
    } in
    if h.insert_up
    then (elim (publish_message s.topics offset m s.table) [
      | none ↦ (failed 500, s)
      | some (t, off) ↦ (published id topic partition off, record s { table = t })
    ])
    else (failed 500, s)

-- The rest of publish, from the number of partitions on.
unfoldable pub publish_with :
    Health → ℕ → Bytes → ℕ → Bytes → Bytes → Bytes → Server → ℕ ⊎ (ℕ × Server) → Reply × Server
unfolding counter_for store_message partition_for
publish_with h now id offset topic key payload s (inl status) = (failed status, s)
publish_with h now id offset topic key payload s (inr (n, s1)) =
    let (counter, s2) = counter_for h topic key s1 in
    store_message h now id offset topic key payload (partition_for key n counter) s2

-- The body is a key and a payload; the new id and the offset that the database gives are arguments.
unfoldable pub publish :
    Health → ℕ → Bytes → ℕ → Bytes → Option (Bytes × Bytes) → Server → Reply × Server
unfolding partitions_of publish_with
publish h now id offset topic none s = (failed 400, s)
publish h now id offset topic (some (key, payload)) s =
    let rest = publish_with h now id offset topic key payload s (partitions_of h topic s) in
    if length payload == 0 then (failed 400, s) else rest

pub record PollBody : Type 0 where
  pub consumer_group : Bytes
  pub partition : Option ℕ
  pub max_messages : ℕ
  pub visibility_timeout : ℕ

-- `asked` tells whether the query names a partition. A limit or timeout below 1 is 0 here.
unfoldable pub poll_request : Bytes → Bool → PollBody → PollRequest
poll_request topic asked b = record {
  topic = topic;
  consumer_group = b.consumer_group;
  partition = elim b.partition [
    | none ↦ none
    | some p ↦ if p == 0 && not asked then none else some p
  ];
  max_messages =
      if b.max_messages == 0 then 10 else if ltb 100 b.max_messages then 100 else b.max_messages;
  visibility_timeout =
      if b.visibility_timeout == 0
      then default_visibility_timeout
      else b.visibility_timeout * second;
}

unfoldable pub poll :
    Health → ℕ → List Bytes → Bytes → Bool → Option PollBody → Server → Reply × Server
unfolding poll_request poll_messages
poll h now locked topic asked none s = (failed 400, s)
poll h now locked topic asked (some b) s =
    if length b.consumer_group == 0
    then (failed 400, s)
    else if h.db_up
    then (let (t, ms) = poll_messages (poll_request topic asked b) now locked s.table in
        (polled ms, record s { table = t }))
    else (failed 500, s)

unfoldable pub ack : Health → ℕ → Bytes → Option Bytes → Server → Reply × Server
unfolding ack_message
ack h now id none s = (failed 400, s)
ack h now id (some group) s =
    let (t, found) = ack_message id group now s.table in
    if length group == 0
    then (failed 400, s)
    else if not h.db_up
    then (failed 500, s)
    else if found
    then (acked id, record s { table = t })
    else (failed 404, s)
