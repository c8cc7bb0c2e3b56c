-- ===== src/LocalCache/Tracking.antt =====
-- The LRU list has the keys of the map and no others.
use system_design.Common.{
  ℕ, zero, suc, ◌+◌, ◌≡◌, sym, subst, ltb, ◌==◌, arith, length, refl, Bool-cases, Option-cases, inl,
  inr,
}
use system_design.Common.Assoc.{lookup, lookup-insert, contains}
use system_design.LocalCache.{
  Key, Policy, lru, lfu, Cache, Ttl, evict_key, evict_one, victim, touch, make_room, store_item,
  stored, set, size_of,
}
use system_design.LocalCache.Victim.{Listed, IsTracked, Listed-evict_key, contains-without_key}

evict_key-policy : (k : Key) (c : Cache) → (evict_key k c).policy ≡ c.policy
unfolding evict_key
evict_key-policy k c = ground arith

evict_key-IsTracked : (k : Key) (c : Cache) → IsTracked c → IsTracked (evict_key k c)
evict_key-IsTracked k c h =
    subst (λ p. Listed p (evict_key k c)) (sym (evict_key-policy k c))
      (Listed-evict_key k c.policy c h)

evict_one-IsTracked : (c : Cache) → IsTracked c → IsTracked (evict_one c).0
unfolding evict_one
evict_one-IsTracked c h = elim (Bool-cases (length c.items == 0)) [
  | inl e ↦ rw e h
  | inr e ↦ rw e (elim (Option-cases (victim c)) [
    | inl v ↦ rw v h
    | inr (k, v) ↦ rw v (evict_key-IsTracked k c h)
  ])
]

make_room-IsTracked :
    (fuel size old : ℕ) (c : Cache) → IsTracked c → IsTracked (make_room fuel size old c)
unfolding make_room
make_room-IsTracked zero size old c h = h
make_room-IsTracked (suc fuel) size old c h =
    let h' = evict_one-IsTracked c h in
    elim (Bool-cases (ltb (c.max_bytes + old) (c.mem_bytes + size))) [
      | inr e ↦ rw e h
      | inl e ↦ rw e (elim (Bool-cases (evict_one c).1) [
        | inl v ↦ rw v (make_room-IsTracked fuel size old (evict_one c).0 h')
        | inr v ↦ rw v h'
      ])
    ]

Listed-store_item :
    (p : Policy) (now : ℕ) (key value : Key) (ttl : Ttl) (c : Cache)
    → c.policy ≡ p
    → Listed p c
    → Listed p (store_item now key value ttl c)
unfolding store_item touch contains
Listed-store_item lfu now key value ttl c e h = tt
Listed-store_item lru now key value ttl c e h = λ j.
    rw (e, touch)
      (ground (
        arith,
        contains-without_key j key c.recent,
        lookup-insert key j (stored now key value ttl c (lookup key c.items)) c.items,
        h j,
      ))

store_item-IsTracked :
    (now : ℕ) (key value : Key) (ttl : Ttl) (c : Cache)
    → IsTracked c
    → IsTracked (store_item now key value ttl c)
unfolding store_item
store_item-IsTracked now key value ttl c h = Listed-store_item c.policy now key value ttl c refl h

-- Set keeps the LRU list in step with the map: after it the list has the keys of the map and no
-- others, if it had them before.
pub set-IsTracked :
    (now : ℕ) (key value : Key) (ttl : Ttl) (c : Cache)
    → IsTracked c
    → IsTracked (set now key value ttl c)
unfolding set
set-IsTracked now key value ttl c h = elim (Bool-cases (ltb 0 c.max_bytes)) [
  | inr off ↦ rw off (store_item-IsTracked now key value ttl c h)
  | inl on ↦ rw on (
      store_item-IsTracked now key value ttl _ (
        make_room-IsTracked (suc (length c.items)) (length key + length value)
          (size_of (lookup key c.items)) c h))
]
