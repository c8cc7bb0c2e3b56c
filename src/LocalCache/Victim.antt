-- ===== src/LocalCache/Victim.antt =====
-- Which key an eviction takes.
use system_design.Common.{
  ◌≡◌, refl, ◌∙◌, ap, Bool, true, false, not, ◌&&◌, List, [], ◌∷◌, none, some, ◌==◌, arith, length,
  Bool-cases, Option-cases, inl, inr,
}
use system_design.Common.Bytes.{beq, beq_refl, beq_iff}
use system_design.Common.Assoc.{lookup, lookup-remove, contains, is_some}
use system_design.LocalCache.{
  Key, Item, Policy, lru, lfu, Cache, evict_key, evict_one, victim, back, least, without_key, less,
}
use system_design.LocalCache.Account.{total}

-- Under LRU, the list has the keys of the map and no others.
abbrev pub Listed : Policy → Cache → Type 0
Listed lru c = (k : Key) → contains k c.recent ≡ is_some (lookup k c.items)
Listed lfu c = Unit

abbrev pub IsTracked : Cache → Type 0
IsTracked c = Listed c.policy c

pub contains-without_key :
    (j k : Key) (ks : List Key) → contains j (without_key k ks) ≡ (contains j ks && not (beq k j))
unfolding contains without_key
contains-without_key j k [] = refl
contains-without_key j k (i ∷ ks) =
    ground (arith, beq_iff i k, beq_iff i j, beq_iff k j, contains-without_key j k ks)

pub Listed-evict_key : (k : Key) (p : Policy) (c : Cache) → Listed p c → Listed p (evict_key k c)
unfolding evict_key
Listed-evict_key k lfu c h = tt
Listed-evict_key k lru c h = elim (Option-cases (lookup k c.items)) [
  | inl e ↦ rw (e, evict_key) h
  | inr (it, e) ↦
      rw (e, evict_key)
        (λ j. ground (arith, contains-without_key j k c.recent, lookup-remove k j c.items, h j))
]

back-contains : (ks : List Key) (k : Key) → back ks ≡ some k → contains k ks ≡ true
unfolding back contains
back-contains [] k e = cc
back-contains (j ∷ js) k e = ground (arith, beq_refl j, back-contains js k)

back-none : (ks : List Key) → back ks ≡ none → ks ≡ []
unfolding back
back-none [] e = refl
back-none (j ∷ js) e = ground arith

-- A map that is not empty has a key to evict.
least-some :
    (k : Key) (it : Item) (m : List (Key × Item))
    → (j : Key) × (w : Item) × (least ((k, it) ∷ m) ≡ some (j, w))
      × (is_some (lookup j ((k, it) ∷ m)) ≡ true)
unfolding least lookup
least-some k it [] = (k, it, refl, ground (arith, beq_refl k))
least-some k it ((i, x) ∷ m) =
    let (j, w, e, has) = least-some i x m in
    elim (Bool-cases (less w it)) [
      | inl smaller ↦ (j, w, rw e (rw smaller refl), ground (arith, has))
      | inr larger ↦ (k, it, rw e (rw larger refl), ground (arith, beq_refl k))
    ]

lookup-head :
    (k : Key) (it : Item) (m : List (Key × Item)) → is_some (lookup k ((k, it) ∷ m)) ≡ true
unfolding lookup
lookup-head k it m = rw (beq_refl k) refl

clash : (b : Bool) → b ≡ false → b ≡ true → ⊥
clash b no_key yes_key = cc

victim-some :
    (p : Policy) (c : Cache)
    → c.policy ≡ p
    → Listed p c
    → (length c.items == 0) ≡ false
    → (k : Key) × (it : Item) × (victim c ≡ some k) × (lookup k c.items ≡ some it)
unfolding victim
victim-some lfu c e h some_there = heap c.items some_there refl
  where
    heap :
        (m : List (Key × Item))
        → (length m == 0) ≡ false
        → c.items ≡ m
        → (k : Key) × (it : Item) × (victim c ≡ some k) × (lookup k c.items ≡ some it)
    heap [] some_there same = absurd (ground arith)
    heap ((i, x) ∷ m) some_there same =
        let (k, w, found, has) = least-some i x m in
        elim (Option-cases (lookup k c.items)) [
          | inl missing ↦ absurd (ground (arith, same, has))
          | inr (it, there) ↦
              (k, it, rw (e, victim) (rw (same, victim) (rw (found, victim) refl)), there)
        ]
victim-some lru c e h some_there = elim (Option-cases (back c.recent)) [
  | inl missing ↦ absurd (empty c.items some_there refl (back-none c.recent missing))
  | inr (k, found) ↦ elim (Option-cases (lookup k c.items)) [
    | inl absent ↦ absurd (ground (arith, h k, back-contains c.recent k found))
    | inr (it, there) ↦ (k, it, rw (e, victim) found, there)
  ]
]
  where
    empty : (m : List (Key × Item)) → (length m == 0) ≡ false → c.items ≡ m → c.recent ≡ [] → ⊥
    empty [] some_there same none_listed = ground arith
    empty ((i, x) ∷ m) some_there same none_listed =
        clash (contains i c.recent) (ap (contains i) none_listed ∙ unfold contains in refl)
          (h i ∙ ap (λ q. is_some (lookup i q)) same ∙ lookup-head i x m)

pub evict_one-empty : (c : Cache) → (length c.items == 0) ≡ true → evict_one c ≡ (c, false)
unfolding evict_one
evict_one-empty c empty = rw empty refl

pub total-empty : (m : List (Key × Item)) → (length m == 0) ≡ true → total m ≡ 0
total-empty [] empty = refl
total-empty ((k, it) ∷ m) empty = absurd (ground arith)

pub evict_one-victim :
    (c : Cache)
    → IsTracked c
    → (length c.items == 0) ≡ false
    → (k : Key) × (it : Item) × (lookup k c.items ≡ some it) × (evict_one c ≡ (evict_key k c, true))
unfolding evict_one
evict_one-victim c h some_there =
    let (k, it, v, there) = victim-some c.policy c refl h some_there in
    (k, it, there, rw some_there (rw (v, evict_one) refl))
