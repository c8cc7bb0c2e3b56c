-- ===== src/MessageQueue.antt =====
-- The message queue (projects/13-message-queue): the statements of store/db.go on the table of
-- messages, each of which the database runs as one step, and PartitionFor of queue/queue.go. A
-- statement is read as SQL says: the rows that WHERE keeps, in the order of ORDER BY, at most LIMIT
-- of them. The clock is an argument.
pub mod Partition
pub mod Rows
pub mod Delivery
pub mod Redelivery
pub mod Reached
pub mod Exclusive
pub mod Stats
pub mod Handler
mod Tests
use system_design.Common.{
  ℕ, ◌+◌, ◌-◌, ◌*◌, ◌^◌, Bool, true, false, not, ◌&&◌, ◌||◌, List, [], ◌∷◌, ◌++◌, map, Option, none,
  some, ltb, leb, ◌==◌, if◌then◌else◌, length, take,
}
use system_design.Common.Bytes.{Bytes, beq}
use system_design.Common.Assoc.{lookup, insert, contains, is_some}
use system_design.Common.Words.{u64}

abbrev pub max_delivery_attempts : ℕ
max_delivery_attempts = 5

-- Seconds in the unit of the clock, nanoseconds.
abbrev pub second : ℕ
second = 1000000000

abbrev pub default_visibility_timeout : ℕ
default_visibility_timeout = 30 * second

pub record Topic : Type 0 where
  pub name : Bytes
  pub partitions : ℕ
  pub retention_period : ℕ
  pub created_at : ℕ

-- `acked_at` and `consumer_group` are `none` for NULL.
pub record Message : Type 0 where
  pub id : Bytes
  pub topic : Bytes
  pub partition : ℕ
  pub offset : ℕ
  pub key : Bytes
  pub payload : Bytes
  pub published_at : ℕ
  pub visible_at : ℕ
  pub delivery_attempts : ℕ
  pub acked_at : Option ℕ
  pub dead_lettered : Bool
  pub consumer_group : Option Bytes

abbrev pub Table : Type 0
Table = List Message

-- `partition` is `none` for a negative one, which means any.
pub record PollRequest : Type 0 where
  pub topic : Bytes
  pub consumer_group : Bytes
  pub partition : Option ℕ
  pub max_messages : ℕ
  pub visibility_timeout : ℕ

abbrev pub ids : Table → List Bytes
ids = map (λ m. m.id)

unfoldable pub select : (Message → Bool) → Table → Table
select p [] = []
select p (m ∷ t) = let rest = select p t in if p m then m ∷ rest else rest

unfoldable pub update_where : (Message → Bool) → (Message → Message) → Table → Table
update_where p f [] = []
update_where p f (m ∷ t) = (if p m then f m else m) ∷ update_where p f t

unfoldable pub count_where : (Message → Bool) → Table → ℕ
count_where p [] = 0
count_where p (m ∷ t) = let rest = count_where p t in if p m then rest + 1 else rest

-- ORDER BY partition, offset
unfoldable pub precedes : Message → Message → Bool
precedes a b = ltb a.partition b.partition || (a.partition == b.partition) && leb a.offset b.offset

unfoldable pub place : Message → Table → Table
unfolding precedes
place m [] = m ∷ []
place m (n ∷ t) = let rest = place m t in if precedes m n then m ∷ n ∷ t else n ∷ rest

unfoldable pub in_order : Table → Table
unfolding place
in_order [] = []
in_order (m ∷ t) = place m (in_order t)

-- Neither acknowledged nor in the dead-letter queue.
unfoldable pub live : Message → Bool
live m = not m.dead_lettered && not (is_some m.acked_at)

unfoldable pub free_for : Bytes → Message → Bool
unfolding beq
free_for group m = elim m.consumer_group [ none ↦ true | some g ↦ beq g group ]

unfoldable pub in_partition : Option ℕ → Message → Bool
in_partition none m = true
in_partition (some p) m = m.partition == p

-- The rows that a poll may take: those that no other transaction has locked.
unfoldable pub pollable : PollRequest → ℕ → List Bytes → Message → Bool
unfolding live free_for in_partition contains
pollable req now locked m =
    beq m.topic req.topic
    && in_partition req.partition m
    && live m
    && leb m.visible_at now
    && free_for req.consumer_group m
    && not (contains m.id locked)

unfoldable pub claim : PollRequest → ℕ → Message → Message
claim req now m = record m {
  visible_at = now + req.visibility_timeout;
  consumer_group = some req.consumer_group;
  delivery_attempts = m.delivery_attempts + 1;
}

unfoldable pub candidates : PollRequest → ℕ → List Bytes → Table → Table
unfolding pollable select in_order
candidates req now locked t = take req.max_messages (in_order (select (pollable req now locked) t))

unfoldable pub poll_messages : PollRequest → ℕ → List Bytes → Table → Table × Table
unfolding candidates claim update_where contains
poll_messages req now locked t =
    let chosen = candidates req now locked t in
    (update_where (λ m. contains m.id (ids chosen)) (claim req now) t, map (claim req now) chosen)

-- The database gives the offset, and refuses a topic or an id that breaks a key: `none`.
unfoldable pub publish_message : List (Bytes × Topic) → ℕ → Message → Table → Option (Table × ℕ)
unfolding lookup contains
publish_message topics offset m t =
    if is_some (lookup m.topic topics) && not (contains m.id (ids t))
    then some (
      t
          ++ record m {
            offset = offset;
            delivery_attempts = 0;
            acked_at = none;
            dead_lettered = false;
            consumer_group = none;
          }
            ∷ [],
      offset,
    )
    else none

unfoldable pub owned_unacked : Bytes → Bytes → Message → Bool
unfolding beq
owned_unacked id group m =
    beq m.id id
    && elim m.consumer_group [ none ↦ false | some g ↦ beq g group ]
    && not (is_some m.acked_at)

-- The table, and whether a row was found: if none was, the call returns ErrMessageNotFound.
unfoldable pub ack_message : Bytes → Bytes → ℕ → Table → Table × Bool
unfolding owned_unacked update_where count_where
ack_message id group now t = (
  update_where (owned_unacked id group) (λ m. record m { acked_at = some now }) t,
  not (count_where (owned_unacked id group) t == 0),
)

unfoldable pub exhausted : ℕ → Message → Bool
unfolding live
exhausted now m = live m && leb m.visible_at now && leb max_delivery_attempts m.delivery_attempts

unfoldable pub move_expired_to_dead_letter : ℕ → Table → Table × ℕ
unfolding exhausted update_where count_where
move_expired_to_dead_letter now t = (
  update_where (exhausted now) (λ m. record m { dead_lettered = true }) t,
  count_where (exhausted now) t,
)

unfoldable pub overdue : ℕ → Message → Bool
unfolding live
overdue now m = live m && leb m.visible_at now && ltb m.delivery_attempts max_delivery_attempts

unfoldable pub restore_expired_messages : ℕ → Table → Table × ℕ
unfolding overdue update_where count_where
restore_expired_messages now t = (
  update_where (overdue now) (λ m. record m { visible_at = now; consumer_group = none }) t,
  count_where (overdue now) t,
)

-- The reaper's round; a statement that fails changes nothing.
unfoldable pub sweep : Bool → Bool → ℕ → ℕ → Table → Table
unfolding move_expired_to_dead_letter restore_expired_messages
sweep first_ok second_ok now later t =
    let moved = if first_ok then (move_expired_to_dead_letter now t).0 else t in
    if second_ok then (restore_expired_messages later moved).0 else moved

pub record QueueStats : Type 0 where
  pub total : ℕ
  pub acked : ℕ
  pub dlq : ℕ
  pub inflight : ℕ
  pub pending : ℕ

-- `pending` is an int64, written as a word.
unfoldable pub get_stats : ℕ → Table → QueueStats
unfolding count_where live
get_stats now t =
    let total = count_where (λ m. true) t in
    let acked = count_where (λ m. is_some m.acked_at) t in
    let dlq = count_where (λ m. m.dead_lettered) t in
    let inflight = count_where (λ m. live m && ltb now m.visible_at) t in
    record {
      total = total;
      acked = acked;
      dlq = dlq;
      inflight = inflight;
      pending = u64 (total + 3 * 2 ^ 64 - acked - dlq - inflight);
    }

unfoldable pub get_queue_depth : Bytes → ℕ → Table → ℕ
unfolding count_where live beq
get_queue_depth topic partition t =
    count_where (λ m. beq m.topic topic && live m && m.partition == partition) t

unfoldable pub get_dlq_depth : Bytes → Table → ℕ
unfolding count_where beq
get_dlq_depth topic t = count_where (λ m. beq m.topic topic && m.dead_lettered) t
