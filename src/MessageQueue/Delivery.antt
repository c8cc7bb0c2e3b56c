-- ===== src/MessageQueue/Delivery.antt =====
-- What a poll hands out.
use system_design.Common.{
  ℕ, suc, ◌+◌, ◌≤◌, ◌≡◌, refl, sym, ◌∙◌, ap, true, false, List, [], ◌∷◌, map, some, if◌then◌else◌,
  length, length-take-le, arith,
}
use system_design.Common.Bytes.{Bytes, beq_iff}
use system_design.Common.Assoc.{contains}
use system_design.MessageQueue.{
  Message, Table, PollRequest, ids, select, in_order, live, free_for, in_partition, pollable, claim,
  candidates, poll_messages,
}
use system_design.MessageQueue.Rows.{
  find, find-id, IsKeyed, find-update_where, update_where-IsKeyed, contains-in_order,
  length-in_order, length-select, contains-take, take_all, select-find, contains-select,
}

module _ (req : PollRequest) (now : ℕ) where
  claim-id : (m : Message) → (claim req now m).id ≡ m.id
  unfolding claim
  claim-id m = refl

  pub ids-map_claim : (t : Table) → ids (map (claim req now) t) ≡ ids t
  unfolding claim
  ids-map_claim [] = refl
  ids-map_claim (m ∷ t) = ap (◌∷◌ m.id) (ids-map_claim t)

  module _ (locked : List Bytes) where
    pub poll_messages-ids :
        (t : Table) → ids (poll_messages req now locked t).1 ≡ ids (candidates req now locked t)
    unfolding poll_messages
    poll_messages-ids t = ids-map_claim (candidates req now locked t)

    pub candidates-find :
        (k : Bytes) (t : Table)
        → IsKeyed t
        → contains k (ids (candidates req now locked t)) ≡ true
        → (m : Message) × (find k t ≡ some m) × (pollable req now locked m ≡ true)
    unfolding candidates
    candidates-find k t h e = select-find (pollable req now locked) k t h (
        sym (contains-in_order k (select (pollable req now locked) t))
        ∙ contains-take k req.max_messages (in_order (select (pollable req now locked) t)) e)

    pub poll_messages-row :
        (k : Bytes) (t : Table) {m : Message}
        → find k t ≡ some m
        → find k (poll_messages req now locked t).0
          ≡ some (if contains m.id (ids (candidates req now locked t)) then claim req now m else m)
    unfolding poll_messages
    poll_messages-row k t e =
        find-update_where (λ m. contains m.id (ids (candidates req now locked t))) (claim req now)
          claim-id k t e

    pub poll_messages-IsKeyed : (t : Table) → IsKeyed t → IsKeyed (poll_messages req now locked t).0
    unfolding poll_messages
    poll_messages-IsKeyed t h =
        update_where-IsKeyed (λ m. contains m.id (ids (candidates req now locked t)))
          (claim req now) claim-id t h

    pollable-parts :
        (m : Message)
        → pollable req now locked m ≡ true
        → (m.topic ≡ req.topic)
          × (in_partition req.partition m ≡ true)
          × (live m ≡ true)
          × (m.visible_at ≤ now)
          × (free_for req.consumer_group m ≡ true)
          × (contains m.id locked ≡ false)
    unfolding pollable
    pollable-parts m fit = ground (arith, beq_iff m.topic req.topic)

    -- A poll of a table without two equal ids hands out exactly rows that were there: each message
    -- handed out is a row that was neither acknowledged nor dead, visible by now, in the topic and
    -- the partition asked for, free for the group and not locked; in the table after, that row is
    -- hidden until the timeout, belongs to the group and counts one delivery more.
    pub poll_messages_sound :
        (k : Bytes) (t : Table)
        → IsKeyed t
        → contains k (ids (poll_messages req now locked t).1) ≡ true
        → (m : Message) × (find k t ≡ some m)
          × (live m ≡ true)
          × (m.visible_at ≤ now)
          × (m.topic ≡ req.topic)
          × (in_partition req.partition m ≡ true)
          × (free_for req.consumer_group m ≡ true)
          × (contains k locked ≡ false)
          × (find k (poll_messages req now locked t).0 ≡ some (claim req now m))
    poll_messages_sound k t h e =
        let chosen = sym (ap (contains k) (poll_messages-ids t)) ∙ e in
        let (m, found, fit) = candidates-find k t h chosen in
        let same : m.id ≡ k = find-id k t found in
        let (topic, partition, alive, seen, free, unlocked) = pollable-parts m fit in
        let taken : contains m.id (ids (candidates req now locked t)) ≡ true =
          ap (λ j. contains j (ids (candidates req now locked t))) same ∙ chosen in
        let row : find k (poll_messages req now locked t).0 ≡ some (claim req now m) =
          poll_messages-row k t found ∙ ap (λ b. some (if b then claim req now m else m)) taken in
        (
          m,
          found,
          alive,
          seen,
          topic,
          partition,
          free,
          sym (ap (λ j. contains j locked) same) ∙ unlocked,
          row,
        )

    -- When the limit is at least the number of rows, a poll hands out every row that it may take.
    pub poll_messages_complete :
        (k : Bytes) (t : Table) {m : Message}
        → length t ≤ req.max_messages
        → find k t ≡ some m
        → pollable req now locked m ≡ true
        → contains k (ids (poll_messages req now locked t).1) ≡ true
    unfolding candidates
    poll_messages_complete k t room found fit =
        ap (contains k) (poll_messages-ids t)
        ∙ ap (λ u. contains k (ids u))
            (take_all req.max_messages (in_order (select (pollable req now locked) t)) (
              omega (
                arith,
                length-in_order (select (pollable req now locked) t),
                length-select (pollable req now locked) t,
              )))
        ∙ contains-in_order k (select (pollable req now locked) t)
        ∙ contains-select (pollable req now locked) k t found fit

pub claim-visible_at :
    (req : PollRequest) (now : ℕ) (m : Message) {n : Message}
    → some (claim req now m) ≡ some n
    → n.visible_at ≡ now + req.visibility_timeout
unfolding claim
claim-visible_at req now m e = ground arith

length-map : (f : Message → Message) (t : Table) → length (map f t) ≡ length t
length-map f [] = refl
length-map f (m ∷ t) = ap suc (length-map f t)

-- A poll hands out at most as many messages as its limit.
pub length-poll_messages-le :
    (req : PollRequest) (now : ℕ) (locked : List Bytes) (t : Table)
    → length (poll_messages req now locked t).1 ≤ req.max_messages
unfolding poll_messages candidates
length-poll_messages-le req now locked t = omega (
  arith,
  length-map (claim req now) (candidates req now locked t),
  length-take-le req.max_messages (in_order (select (pollable req now locked) t)),
)
