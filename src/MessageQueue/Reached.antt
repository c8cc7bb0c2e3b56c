-- ===== src/MessageQueue/Reached.antt =====
-- What stays as the queue runs: every sequence of publishes, polls, acknowledgements and rounds of
-- the reaper, by any clients at any times.
use system_design.Common.{
  ℕ, ◌≡◌, refl, sym, subst, ◌∙◌, ap, true, false, not, ◌&&◌, List, [], ◌∷◌, ◌++◌, none, some, arith,
  Bool-cases, inl, inr,
}
use system_design.Common.Bytes.{Bytes, beq_iff}
use system_design.Common.Assoc.{lookup, contains, contains-append, is_some}
use system_design.MessageQueue.{
  Topic, Message, Table, PollRequest, ids, live, poll_messages, claim, publish_message, ack_message,
  exhausted, overdue, owned_unacked, move_expired_to_dead_letter, restore_expired_messages,
}
use system_design.MessageQueue.Rows.{
  find, IsKeyed, find-append, find-update_where, update_where-IsKeyed,
}
use system_design.MessageQueue.Delivery.{
  poll_messages_sound, poll_messages-row, poll_messages-IsKeyed,
}

pub data Step : Table → Table → Type 0 where
  publish :
      (topics : List (Bytes × Topic)) (offset : ℕ) (m : Message) (t : Table) {out : Table × ℕ}
      → publish_message topics offset m t ≡ some out
      → Step t out.0
  poll :
      (req : PollRequest) (now : ℕ) (locked : List Bytes) (t : Table)
      → Step t (poll_messages req now locked t).0
  ack : (id group : Bytes) (now : ℕ) (t : Table) → Step t (ack_message id group now t).0
  bury : (now : ℕ) (t : Table) → Step t (move_expired_to_dead_letter now t).0
  restore : (now : ℕ) (t : Table) → Step t (restore_expired_messages now t).0

pub data Reach (s : Table) : Table → Type 0 where
  here : Reach s s
  next : {t u : Table} → Reach s t → Step t u → Reach s u

ids_append : (t : Table) (n : Message) → ids (t ++ n ∷ []) ≡ ids t ++ n.id ∷ []
ids_append [] n = refl
ids_append (x ∷ t) n = ap (◌∷◌ x.id) (ids_append t n)

dead_or_alive : (n x : Message) → some n ≡ some x → live n ≡ false → live x ≡ true → ⊥
dead_or_alive n x e gone alive =
    let same : n ≡ x = cc e in absurd (cc (sym gone ∙ ap live same ∙ alive))

pub publish-row :
    (topics : List (Bytes × Topic)) (offset : ℕ) (m : Message) (t : Table) {out : Table × ℕ}
    → publish_message topics offset m t ≡ some out
    → (n : Message) × (n.id ≡ m.id) × (contains m.id (ids t) ≡ false) × (t ++ n ∷ [] ≡ out.0)
unfolding publish_message
publish-row topics offset m t e =
    elim (Bool-cases (is_some (lookup m.topic topics) && not (contains m.id (ids t)))) [
      | inl fit ↦ (
        record m {
          offset = offset;
          delivery_attempts = 0;
          acked_at = none;
          dead_lettered = false;
          consumer_group = none;
        },
        refl,
        ground arith,
        cc (rw (fit, publish_message) at e),
      )
      | inr unfit ↦ absurd (cc (rw (unfit, publish_message) at e))
    ]

append-IsKeyed :
    (t : Table) (m n : Message)
    → n.id ≡ m.id
    → IsKeyed t
    → contains m.id (ids t) ≡ false
    → IsKeyed (t ++ n ∷ [])
unfolding contains
append-IsKeyed [] m n same h new = (refl, tt)
append-IsKeyed (x ∷ t) m n same h new = (
  ap (contains x.id) (ids_append t n)
      ∙ ground (
        arith,
        contains-append x.id (ids t) n.id,
        h.0,
        beq_iff n.id x.id,
        beq_iff x.id m.id,
        beq_iff x.id n.id,
      ),
  append-IsKeyed t m n same h.1 (ground arith),
)

pub Step-IsKeyed : {t u : Table} → Step t u → IsKeyed t → IsKeyed u
unfolding ack_message move_expired_to_dead_letter restore_expired_messages
Step-IsKeyed (publish topics offset m t e) h =
    let (n, same, new, grown) = publish-row topics offset m t e in
    subst IsKeyed grown (append-IsKeyed t m n same h new)
Step-IsKeyed (poll req now locked t) h = poll_messages-IsKeyed req now locked t h
Step-IsKeyed (ack id group now t) h =
    update_where-IsKeyed (owned_unacked id group) (λ m. record m { acked_at = some now })
      (λ m. refl) t h
Step-IsKeyed (bury now t) h =
    update_where-IsKeyed (exhausted now) (λ m. record m { dead_lettered = true }) (λ m. refl) t h
Step-IsKeyed (restore now t) h =
    update_where-IsKeyed (overdue now) (λ m. record m { visible_at = now; consumer_group = none })
      (λ m. refl) t h

-- A row, and that it is settled.
abbrev SettledAt : Bytes → Table → Type 0
SettledAt k t = (n : Message) × (find k t ≡ some n) × (live n ≡ false)

Step-SettledAt : (k : Bytes) {t u : Table} → Step t u → SettledAt k t → SettledAt k u
unfolding ack_message move_expired_to_dead_letter restore_expired_messages live claim
Step-SettledAt k (publish topics offset x t e) (m, found, dead) =
    let (n, same, new, grown) = publish-row topics offset x t e in
    subst (SettledAt k) grown (m, find-append k t (n ∷ []) found, dead)
Step-SettledAt k (poll req now locked t) (m, found, dead) =
    (_, poll_messages-row req now locked k t found, ground arith)
Step-SettledAt k (ack id group now t) (m, found, dead) = (
  _,
  find-update_where (owned_unacked id group) (λ m. record m { acked_at = some now }) (λ m. refl) k t
      found,
  ground arith,
)
Step-SettledAt k (bury now t) (m, found, dead) = (
  _,
  find-update_where (exhausted now) (λ m. record m { dead_lettered = true }) (λ m. refl) k t found,
  ground arith,
)
Step-SettledAt k (restore now t) (m, found, dead) = (
  _,
  find-update_where (overdue now) (λ m. record m { visible_at = now; consumer_group = none })
      (λ m. refl) k t found,
  ground arith,
)

Reach-SettledAt :
    (k : Bytes) {t u : Table} → Reach t u → IsKeyed t → SettledAt k t → IsKeyed u × SettledAt k u
Reach-SettledAt k here h s = (h, s)
Reach-SettledAt k (next r st) h s =
    let (h', s') = Reach-SettledAt k r h s in (Step-IsKeyed st h', Step-SettledAt k st s')

-- A message that is acknowledged or dead, in a table without two equal ids, is never handed out
-- again: after any steps of the queue, no poll of any group at any time returns it.
pub Reach-never_again :
    (k : Bytes) {t u : Table} (m : Message)
    → IsKeyed t
    → find k t ≡ some m
    → live m ≡ false
    → Reach t u
    → (req : PollRequest) (now : ℕ) (locked : List Bytes)
    → contains k (ids (poll_messages req now locked u).1) ≡ false
Reach-never_again k {u = u} m h found dead r req now locked =
    let (keyed, (n, row, gone)) = Reach-SettledAt k r h (m, found, dead) in
    elim (Bool-cases (contains k (ids (poll_messages req now locked u).1))) [
      | inr free ↦ free
      | inl again ↦
          let (x, found', alive, _, _, _, _, _, _) =
            poll_messages_sound req now locked k u keyed again in
          absurd (dead_or_alive n x (sym row ∙ found') gone alive)
    ]
