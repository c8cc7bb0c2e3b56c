-- ===== src/MessageQueue/Tests.antt =====
-- Runs of the queue, and its theorems at one input each.
use system_design.Common.{ℕ, ◌-◌, ◌^◌, ◌≡◌, refl, true, false, [], ◌∷◌, none, some, arith}
use system_design.Common.Bytes.{codes, beq}
use system_design.Common.Assoc.{contains, lookup}
use system_design.MessageQueue.{
  Message, Table, PollRequest, ids, poll_messages, ack_message, restore_expired_messages, sweep,
  live, get_stats, in_partition, pollable,
}
use system_design.MessageQueue.Rows.{find, IsKeyed}
use system_design.MessageQueue.Partition.{partition_for}
use system_design.MessageQueue.Exclusive.{start, further, poll_messages_exclusive}
use system_design.MessageQueue.Redelivery.{sweep_redelivers}
use system_design.MessageQueue.Reached.{ack, poll, restore, here, next, Reach-never_again}
use system_design.MessageQueue.Handler.{Server, Health, publish, create_topic}
use system_design.MessageQueue.Handler.Served.{IsServed}
use system_design.MessageQueue.Handler.Requests.{
  started, topic_created, message_published, Serves-IsServed,
}

abbrev order : ℕ → ℕ → Message
order n attempts = record {
  id = n ∷ [];
  topic = codes "orders";
  partition = 0;
  offset = n;
  key = [];
  payload = codes "x";
  published_at = 0;
  visible_at = 10;
  delivery_attempts = attempts;
  acked_at = none;
  dead_lettered = false;
  consumer_group = none;
}

abbrev rows : Table
rows = order 2 0 ∷ order 1 0 ∷ order 3 6 ∷ []

abbrev request : PollRequest
request = record {
  topic = codes "orders";
  consumer_group = codes "g";
  partition = none;
  max_messages = 2;
  visibility_timeout = 30;
}

abbrev wide : PollRequest
wide = record request { max_messages = 9 }

rows-IsKeyed : IsKeyed rows
unfolding contains beq
rows-IsKeyed = (refl, (refl, (refl, tt)))

poll_runs : ids (poll_messages request 10 [] rows).1 ≡ (1 ∷ []) ∷ (2 ∷ []) ∷ []
unfolding poll_messages
poll_runs = refl

polled_one : contains (1 ∷ []) (ids (poll_messages request 10 [] rows).1) ≡ true
unfolding poll_messages
polled_one = refl

row_one : find (1 ∷ []) rows ≡ some (order 1 0)
unfolding find beq
row_one = refl

row_three : find (3 ∷ []) rows ≡ some (order 3 6)
unfolding find beq
row_three = refl

three_pollable : pollable wide 10 [] (order 3 6) ≡ true
unfolding pollable
three_pollable = refl

-- A round of the reaper, a poll of another group and an acknowledgement come in between.
abbrev held : Table
held = (poll_messages request 10 [] rows).0

abbrev after_reaper : Table
after_reaper = (restore_expired_messages 20 held).0

abbrev after_other : Table
after_other = (poll_messages wide 30 [] after_reaper).0

poll_messages_exclusive_example :
    contains (1 ∷ []) (ids (poll_messages wide 39 [] after_other).1) ≡ false
poll_messages_exclusive_example =
    poll_messages_exclusive request wide 10 39 [] [] (1 ∷ []) rows {u = after_other} rows-IsKeyed
      polled_one
      (further (further start (restore 20 held) (omega arith)) (poll wide 30 [] after_reaper)
        (omega arith))
      (omega arith)

one_live : live (order 1 0) ≡ true
unfolding live
one_live = refl

one_anywhere : in_partition none (order 1 0) ≡ true
unfolding in_partition
one_anywhere = refl

sweep_redelivers_example :
    contains (1 ∷ []) (ids (poll_messages wide 14 [] (sweep true true 11 12 rows)).1) ≡ true
sweep_redelivers_example =
    sweep_redelivers wide (1 ∷ []) 11 12 14 rows row_one one_live (omega arith) (omega arith) refl
      one_anywhere (omega arith) (omega arith) (omega arith)

three_live : live (order 3 6) ≡ true
unfolding live
three_live = refl

abbrev done : Message
done = record (order 1 1) { acked_at = some 20; consumer_group = some (codes "g") }

done_settled : live done ≡ false
unfolding live
done_settled = refl

done_row : find (1 ∷ []) (done ∷ []) ≡ some done
unfolding find beq
done_row = refl

done-IsKeyed : IsKeyed (done ∷ [])
unfolding contains
done-IsKeyed = (refl, tt)

Reach-never_again_example :
    contains
      (1 ∷ [])
      (ids (poll_messages wide 50 [] (ack_message (1 ∷ []) (codes "g") 30 (done ∷ [])).0).1)
    ≡ false
Reach-never_again_example =
    Reach-never_again (1 ∷ []) done done-IsKeyed done_row done_settled
      (next here (ack (1 ∷ []) (codes "g") 30 (done ∷ []))) wide 50 []

-- Dead, and acknowledged after.
abbrev both : Message
both = record done { dead_lettered = true }

stats_negative : (get_stats 50 (both ∷ [])).pending ≡ 2 ^ 64 - 1
unfolding get_stats
stats_negative = refl

partition_runs : partition_for (codes "order-123") 4 0 ≡ partition_for (codes "order-123") 4 99
unfolding partition_for
partition_runs = refl

abbrev empty : Server
empty = record { topics = []; table = []; cached_partitions = []; counters = [] }

abbrev well : Health
well = record { cache_up = true; db_up = true; insert_up = true }

empty-IsServed : IsServed empty
unfolding lookup
empty-IsServed = record {
  positive = λ k t e. absurd (cc e);
  cached = λ k n e. absurd (cc e);
  rows = tt;
}

abbrev after : Server
after =
    (publish well 7 (9 ∷ []) 1 (codes "orders") (some ([], codes "x"))
      (create_topic well 5 (some (codes "orders", 4, 0)) empty).1).1

Serves-IsServed_example : IsServed after
Serves-IsServed_example = Serves-IsServed empty-IsServed (
    message_published well 7 (9 ∷ []) 1 (codes "orders") (some ([], codes "x"))
      (topic_created well 5 (some (codes "orders", 4, 0)) started))
