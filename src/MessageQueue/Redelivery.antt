-- ===== src/MessageQueue/Redelivery.antt =====
-- The rounds of the reaper (worker/worker.go), and that a message is delivered again.
use system_design.Common.{
  ℕ, ◌≤◌, ◌<◌, ◌≡◌, refl, ◌∙◌, ap, true, false, [], Option, none, some, leb, if◌then◌else◌, length,
  arith,
}
use system_design.Common.Bytes.{Bytes, beq_iff}
use system_design.Common.Assoc.{contains}
use system_design.MessageQueue.{
  Message, Table, PollRequest, ids, update_where, live, free_for, in_partition, pollable,
  poll_messages, exhausted, overdue, move_expired_to_dead_letter, restore_expired_messages, sweep,
  max_delivery_attempts,
}
use system_design.MessageQueue.Rows.{length-update_where, find, find-update_where}
use system_design.MessageQueue.Delivery.{poll_messages_complete}

abbrev bury : Message → Message
bury m = record m { dead_lettered = true }

abbrev free : ℕ → Message → Message
free later m = record m { visible_at = later; consumer_group = none }

swept :
    (now later : ℕ) (m : Message)
    → live m ≡ true
    → m.visible_at ≤ now
    → now ≤ later
    → let moved = (if exhausted now m then bury m else m) in
      (if overdue later moved then free later moved else moved)
      ≡ (if leb max_delivery_attempts m.delivery_attempts then bury m else free later m)
unfolding exhausted overdue live
swept now later m alive passed after = ground arith

-- A round of the reaper whose two statements succeed, the second not before the first: a row that
-- is neither acknowledged nor dead and whose timeout has passed goes to the dead-letter queue after
-- five deliveries or more, and is otherwise visible at once and free for every group.
pub sweep-row :
    (k : Bytes) (now later : ℕ) (t : Table) {m : Message}
    → find k t ≡ some m
    → live m ≡ true
    → m.visible_at ≤ now
    → now ≤ later
    → find k (sweep true true now later t)
      ≡ some (
          if leb max_delivery_attempts m.delivery_attempts
          then record m { dead_lettered = true }
          else record m { visible_at = later; consumer_group = none })
unfolding sweep move_expired_to_dead_letter restore_expired_messages
sweep-row k now later t {m} e alive passed after =
    let moved = update_where (exhausted now) bury t in
    find-update_where (overdue later) (free later) (λ m. refl) k moved
      (find-update_where (exhausted now) bury (λ m. refl) k t e)
    ∙ ap some (swept now later m alive passed after)

length-sweep : (now later : ℕ) (t : Table) → length (sweep true true now later t) ≡ length t
unfolding sweep move_expired_to_dead_letter restore_expired_messages
length-sweep now later t =
    length-update_where (overdue later) (free later) (λ m. refl)
      (update_where (exhausted now) bury t)
    ∙ length-update_where (exhausted now) bury (λ m. refl) t

few_le :
    (m : Message)
    → m.delivery_attempts < max_delivery_attempts
    → leb max_delivery_attempts m.delivery_attempts ≡ false
few_le m h = ground arith

in_partition-free :
    (p : Option ℕ) (later : ℕ) (m : Message) → in_partition p (free later m) ≡ in_partition p m
unfolding in_partition
in_partition-free none later m = refl
in_partition-free (some p) later m = refl

-- A row that the reaper has freed may be taken by a poll of any group.
fits :
    (req : PollRequest) (later again : ℕ) (m : Message)
    → live m ≡ true
    → m.topic ≡ req.topic
    → in_partition req.partition m ≡ true
    → later ≤ again
    → pollable req again [] (free later m) ≡ true
unfolding pollable live free_for contains
fits req later again m alive topic part last =
    ground (arith, in_partition-free req.partition later m, beq_iff m.topic req.topic)

-- At least once: a row that is neither acknowledged nor dead, whose timeout has passed and that was
-- delivered fewer than five times, is handed out again, after a round of the reaper whose two
-- statements succeed, by a poll of any group for its topic and partition that locks no row out and
-- whose limit is at least the number of rows.
pub sweep_redelivers :
    (req : PollRequest) (k : Bytes) (now later again : ℕ) (t : Table) {m : Message}
    → find k t ≡ some m
    → live m ≡ true
    → m.visible_at ≤ now
    → m.delivery_attempts < max_delivery_attempts
    → m.topic ≡ req.topic
    → in_partition req.partition m ≡ true
    → now ≤ later
    → later ≤ again
    → length t ≤ req.max_messages
    → contains k (ids (poll_messages req again [] (sweep true true now later t)).1) ≡ true
sweep_redelivers req k now later again t {m} e alive passed few topic part after last room =
    poll_messages_complete req again [] k (sweep true true now later t)
      (rw (length-sweep now later t) room)
      (sweep-row k now later t e alive passed after
        ∙ ap (λ b. some (if b then bury m else free later m)) (few_le m few))
      (fits req later again m alive topic part last)
