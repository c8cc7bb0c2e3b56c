-- ===== src/LocalCache/Room.antt =====
-- How much the cache holds after a Set.
use system_design.Common.{
  ℕ, zero, suc, ◌+◌, ◌-◌, ◌<◌, ◌≤◌, ◌≡◌, ◌⊎◌, refl, sym, subst, ◌∙◌, true, false, List, [], ◌∷◌,
  none, some, ltb, ◌==◌, arith, length, Bool-cases, inl, inr,
}
use system_design.Common.Bytes.{beq_refl}
use system_design.Common.Assoc.{lookup, lookup-remove}
use system_design.LocalCache.{
  Key, Item, Cache, Ttl, evict_key, evict_one, victim, make_room, store_item, set, size_of,
}
use system_design.LocalCache.Account.{IsCounted, total-remove, evict_key-IsCounted}
use system_design.LocalCache.Victim.{
  Listed, IsTracked, Listed-evict_key, evict_one-victim, evict_one-empty, total-empty,
}

evict_key-some :
    (k : Key) (it : Item) (c : Cache)
    → IsCounted c
    → lookup k c.items ≡ some it
    → (suc (length (evict_key k c).items) ≡ length c.items)
      × ((evict_key k c).max_bytes ≡ c.max_bytes)
      × ((evict_key k c).policy ≡ c.policy)
unfolding evict_key
evict_key-some k it c h e = rw (e, evict_key) ((total-remove k it c.items h.map e).1, refl, refl)

-- After the loop of Set the bytes fit, or the cache is empty.
make_room-room :
    (fuel size old : ℕ) (c : Cache)
    → IsCounted c
    → IsTracked c
    → length c.items < fuel
    → ((make_room fuel size old c).mem_bytes + size ≤ c.max_bytes + old)
      ⊎ ((make_room fuel size old c).mem_bytes ≡ 0)
unfolding make_room
make_room-room zero size old c counted tracked h = absurd (omega arith)
make_room-room (suc fuel) size old c counted tracked h =
    elim (Bool-cases (ltb (c.max_bytes + old) (c.mem_bytes + size))) [
      | inr fits ↦ inl (rw fits (ground arith))
      | inl over ↦ elim (Bool-cases (length c.items == 0)) [
        | inl empty ↦
            inr (rw over (rw (evict_one-empty c empty) (counted.sized ∙ total-empty c.items empty)))
        | inr some_there ↦
            let (k, it, there, step) = evict_one-victim c tracked some_there in
            let (shorter, same, policy) = evict_key-some k it c counted there in
            let tracked' : IsTracked (evict_key k c) =
              subst (λ p. Listed p (evict_key k c)) (sym policy)
                (Listed-evict_key k c.policy c tracked) in
            rw over (
              rw step (
                subst
                  (λ n.
                    ((make_room fuel size old (evict_key k c)).mem_bytes + size ≤ n + old)
                    ⊎ ((make_room fuel size old (evict_key k c)).mem_bytes ≡ 0))
                  same
                  (make_room-room fuel size old (evict_key k c) (evict_key-IsCounted k c counted)
                    tracked' (omega arith))))
      ]
    ]

-- The cache has a maximum, its count of bytes is exact, and under LRU its list has the keys of the
-- map. After a Set of an entry no larger than the maximum, the count is at most the maximum and the
-- size of the entry that stood under the key before: at most the maximum for a new key.
pub set-bounded :
    (now : ℕ) (key value : Key) (ttl : Ttl) (c : Cache)
    → IsCounted c
    → IsTracked c
    → 0 < c.max_bytes
    → length key + length value ≤ c.max_bytes
    → (set now key value ttl c).mem_bytes ≤ c.max_bytes + size_of (lookup key c.items)
unfolding set store_item
set-bounded now key value ttl c counted tracked limited small =
    let on : ltb 0 c.max_bytes ≡ true = ground arith in
    rw on
      (elim (make_room-room (suc (length c.items)) (length key + length value)
        (size_of (lookup key c.items)) c counted tracked (omega arith)) [
          | inl fits ↦ omega (arith, fits)
          | inr none_left ↦ omega (arith, none_left)
        ])

make_room-stop :
    (fuel size old : ℕ) (c : Cache)
    → c.mem_bytes + size ≤ c.max_bytes + old
    → make_room fuel size old c ≡ c
unfolding make_room
make_room-stop zero size old c fits = refl
make_room-stop (suc fuel) size old c fits =
    let off : ltb (c.max_bytes + old) (c.mem_bytes + size) ≡ false = ground arith in rw off refl

lookup-some-length :
    (k : Key) (it : Item) (m : List (Key × Item)) → lookup k m ≡ some it → (length m == 0) ≡ false
unfolding lookup
lookup-some-length k it [] e = cc
lookup-some-length k it ((j, w) ∷ m) e = ground arith

evict_key_self :
    (k : Key) (it : Item) (c : Cache)
    → lookup k c.items ≡ some it
    → ((evict_key k c).mem_bytes ≡ c.mem_bytes - it.size_bytes)
      × ((evict_key k c).max_bytes ≡ c.max_bytes)
      × (lookup k (evict_key k c).items ≡ none)
unfolding evict_key
evict_key_self k it c e =
    rw (e, evict_key) (refl, refl, rw (lookup-remove k k c.items) (rw (beq_refl k) refl))

-- One turn that takes the key itself, after which the loop stops.
make_room_self :
    (fuel size : ℕ) (k : Key) (it : Item) (c : Cache)
    → lookup k c.items ≡ some it
    → victim c ≡ some k
    → c.max_bytes + it.size_bytes < c.mem_bytes + size
    → c.mem_bytes - it.size_bytes + size ≤ c.max_bytes + it.size_bytes
    → make_room (suc fuel) size it.size_bytes c ≡ evict_key k c
unfolding make_room
make_room_self fuel size k it c there next over passes =
    let on : ltb (c.max_bytes + it.size_bytes) (c.mem_bytes + size) ≡ true = ground arith in
    let step : evict_one c ≡ (evict_key k c, true) =
      unfold evict_one in rw (lookup-some-length k it c.items there) (rw (next, evict_one) refl) in
    let (left, same, gone) = evict_key_self k it c there in
    rw on (
      rw step (
        make_room-stop fuel size it.size_bytes (evict_key k c) (omega (arith, left, same, passes))))

-- The entry itself can be the one that is evicted, and the loop goes on counting its old size as
-- room: when the key is the next to be evicted, the new entry does not fit beside the others, and
-- what is left after the eviction passes the test of the loop, the cache holds more than the
-- maximum after the Set.
pub set-overflows :
    (now : ℕ) (key value : Key) (ttl : Ttl) (c : Cache) (it : Item)
    → 0 < c.max_bytes
    → lookup key c.items ≡ some it
    → victim c ≡ some key
    → it.size_bytes ≤ c.mem_bytes
    → c.mem_bytes - it.size_bytes + (length key + length value) ≤ c.max_bytes + it.size_bytes
    → c.max_bytes < c.mem_bytes - it.size_bytes + (length key + length value)
    → c.max_bytes < (set now key value ttl c).mem_bytes
unfolding set store_item make_room
set-overflows now key value ttl c it limited there next counted passes exceeds =
    let on : ltb 0 c.max_bytes ≡ true = ground arith in
    let (left, same, gone) = evict_key_self key it c there in
    rw on (
      rw there (
        rw
          (make_room_self (length c.items) (length key + length value) key it c there next
            (omega (arith, counted, exceeds)) passes)
          (rw gone (omega (arith, left, exceeds)))))
