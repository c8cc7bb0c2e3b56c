-- ===== src/MessageQueue/Handler/Served.antt =====
-- That every message stands in a partition that its topic has: the invariant, and topics.
use system_design.Common.{
  ℕ, ◌*◌, ◌<◌, ◌≡◌, refl, sym, subst, ◌∙◌, ap, Bool, true, false, not, List, [], ◌∷◌, Option, none,
  some, ltb, ◌==◌, if◌then◌else◌, length, All, arith, Bool-cases, Option-cases, inl, inr, ◌⊎◌,
}
use system_design.Common.Bytes.{Bytes, beq, beq_iff}
use system_design.Common.Assoc.{lookup, insert, is_some, lookup-insert}
use system_design.MessageQueue.{Topic, Message, Table, second, update_where}
use system_design.MessageQueue.Handler.{
  Server, Health, Reply, set_topic_partitions, get_topic_partitions, partitions_of, create_topic,
}

unfoldable pub placed : List (Bytes × Topic) → Message → Bool
placed topics m = elim (lookup m.topic topics) [
  | none ↦ false
  | some t ↦ ltb m.partition t.partitions
]

-- Every topic has a partition, a cached number is that of the topic, and every row stands in one
-- of its topic's partitions.
pub record IsServed (s : Server) : Type 0 where
  pub positive : (k : Bytes) (t : Topic) → lookup k s.topics ≡ some t → 0 < t.partitions
  pub cached :
      (k : Bytes) (n : ℕ)
      → lookup k s.cached_partitions ≡ some n
      → (t : Topic) × (lookup k s.topics ≡ some t) × (n ≡ t.partitions)
  pub rows : All (λ m. placed s.topics m ≡ true) s.table

pub All-update_where {κ} :
    (P : Message → Type κ) (p : Message → Bool) (f : Message → Message)
    → ((m : Message) → P m → P (f m))
    → (t : Table) → All P t
    → All P (update_where p f t)
unfolding update_where
All-update_where P p f keeps [] h = tt
All-update_where P p f keeps (m ∷ t) h = elim (Bool-cases (p m)) [
  | inl e ↦ rw e (keeps m h.0, All-update_where P p f keeps t h.1)
  | inr e ↦ rw e (h.0, All-update_where P p f keeps t h.1)
]

All-mono {κ} :
    (P Q : Message → Type κ) → ((m : Message) → P m → Q m) → (t : Table) → All P t → All Q t
All-mono P Q f [] h = tt
All-mono P Q f (m ∷ t) h = (f m h.0, All-mono P Q f t h.1)

placed-insert :
    (k : Bytes) (x : Topic) (topics : List (Bytes × Topic)) (m : Message)
    → lookup k topics ≡ none
    → placed topics m ≡ true
    → placed (insert k x topics) m ≡ true
unfolding placed
placed-insert k x topics m new h =
    ground (arith, lookup-insert k m.topic x topics, beq_iff k m.topic)

pub set-IsServed :
    (up : Bool) (k : Bytes) (t : Topic) (s : Server)
    → lookup k s.topics ≡ some t
    → IsServed s
    → IsServed (set_topic_partitions up k t.partitions s)
unfolding set_topic_partitions
set-IsServed false k t s e h = h
set-IsServed true k t s e h = record {
  positive = h.positive;
  cached = λ j n found. elim (Bool-cases (beq k j)) [
    | inl same ↦ (
      t,
      ap (λ i. lookup i s.topics) (sym ((beq_iff k j).0 same)) ∙ e,
      ground (arith, lookup-insert k j t.partitions s.cached_partitions),
    )
    | inr other ↦ h.cached j n (ground (arith, lookup-insert k j t.partitions s.cached_partitions))
  ];
  rows = h.rows;
}

absent : (o : Option Topic) → is_some o ≡ false → o ≡ none
absent none e = refl
absent (some t) e = absurd (cc e)

set-topics :
    (up : Bool) (k : Bytes) (n : ℕ) (s : Server)
    → lookup k (set_topic_partitions up k n s).topics ≡ lookup k s.topics
unfolding set_topic_partitions
set-topics true k n s = refl
set-topics false k n s = refl

from_cache :
    (up : Bool) (k : Bytes) (s : Server)
    → IsServed s
    → (get_topic_partitions up k s == 0) ≡ false
    → (t : Topic) × (lookup k s.topics ≡ some t)
      × (get_topic_partitions up k s ≡ t.partitions)
      × IsServed s
unfolding get_topic_partitions
from_cache false k s h e = absurd (cc e)
from_cache true k s h e = elim (Option-cases (lookup k s.cached_partitions)) [
  | inl miss ↦ absurd (ground (arith, miss))
  | inr (n, hit) ↦ let (t, found, same) = h.cached k n hit in rw hit (t, found, same, h)
]

add-IsServed :
    (k : Bytes) (t : Topic) (s : Server)
    → lookup k s.topics ≡ none
    → 0 < t.partitions
    → IsServed s
    → IsServed (record s { topics = insert k t s.topics })
add-IsServed k t s new pos h = record {
  positive = λ j x found. elim (Bool-cases (beq k j)) [
    | inl same ↦
        let it : some t ≡ some x = ground (arith, found, lookup-insert k j t s.topics) in
        subst (λ o. elim o [ none ↦ ⊥ | some y ↦ 0 < y.partitions ]) it pos
    | inr other ↦ h.positive j x (ground (arith, lookup-insert k j t s.topics))
  ];
  cached = λ j n found.
      let (x, known, count) = h.cached j n found in
      (x, ground (arith, lookup-insert k j t s.topics, beq_iff k j), count);
  rows =
      All-mono (λ m. placed s.topics m ≡ true) (λ m. placed (insert k t s.topics) m ≡ true)
        (λ m. placed-insert k t s.topics m new) s.table h.rows;
}

register-IsServed :
    (up : Bool) (k : Bytes) (t : Topic) (s : Server)
    → is_some (lookup k s.topics) ≡ false
    → 0 < t.partitions
    → IsServed s
    → IsServed (set_topic_partitions up k t.partitions (record s { topics = insert k t s.topics }))
register-IsServed up k t s new pos h =
    set-IsServed up k t (record s { topics = insert k t s.topics })
      (ground (arith, lookup-insert k k t s.topics, beq_iff k k))
      (add-IsServed k t s (absent (lookup k s.topics) new) pos h)

-- After a test, by what either branch leaves.
pub if-left :
    (P : Server → Type 0) (b : Bool) (x y : Reply × Server)
    → P x.1
    → (b ≡ false → P y.1)
    → P (if b then x else y).1
if-left P true x y hx hy = hx
if-left P false x y hx hy = hy refl

pub create_topic-IsServed :
    (hl : Health) (now : ℕ) (body : Option (Bytes × ℕ × ℕ)) (s : Server)
    → IsServed s
    → IsServed (create_topic hl now body s).1
unfolding create_topic
create_topic-IsServed hl now none s h = h
create_topic-IsServed hl now (some (name, partitions, hours)) s h =
    if-left IsServed (length name == 0) _ _ h (λ named. if-left IsServed (not hl.db_up) _ _ h (λ up.
      if-left IsServed (is_some (lookup name s.topics)) _ _ h (λ new.
        register-IsServed hl.cache_up name
          (record {
            name = name;
            partitions = if partitions == 0 then 1 else partitions;
            retention_period = (if hours == 0 then 24 else hours) * 3600 * second;
            created_at = now;
          })
          s new (ground arith) h)))

-- What a request for the number of partitions of a topic comes back with.
abbrev pub Known : Bytes → ℕ ⊎ (ℕ × Server) → Type 0
Known topic (inl status) = Unit
Known topic (inr (n, s1)) =
    (t : Topic) × (lookup topic s1.topics ≡ some t) × (n ≡ t.partitions) × IsServed s1

pub partitions_of-Known :
    (hl : Health) (topic : Bytes) (s : Server) → IsServed s → Known topic (partitions_of hl topic s)
unfolding partitions_of
partitions_of-Known hl topic s h =
    elim (Bool-cases (get_topic_partitions hl.cache_up topic s == 0)) [
      | inr hit ↦ rw hit (from_cache hl.cache_up topic s h hit)
      | inl miss ↦ rw miss (elim (Bool-cases hl.db_up) [
        | inr down ↦ rw down tt
        | inl up ↦ rw up (elim (Option-cases (lookup topic s.topics)) [
          | inl unknown ↦ rw unknown tt
          | inr (t, found) ↦ rw found (
            t,
            set-topics hl.cache_up topic t.partitions s ∙ found,
            refl,
            set-IsServed hl.cache_up topic t s found h,
          )
        ])
      ])
    ]
