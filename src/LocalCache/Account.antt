-- ===== src/LocalCache/Account.antt =====
-- The byte count of the cache is the sum of the sizes of its items.
use system_design.Common.{
  ℕ, zero, suc, ◌+◌, ◌≤◌, ◌≡◌, refl, Bool, ◌==◌, true, false, List, [], ◌∷◌, Option, none, some,
  ltb, if◌then◌else◌, arith, length, Bool-cases, Option-cases, inl, inr,
}
use system_design.Common.Bytes.{beq, beq_iff}
use system_design.Common.Assoc.{lookup, insert, remove, lookup-insert, lookup-remove}
use system_design.LocalCache.{
  Key, Item, Cache, Ttl, evict_key, evict_one, victim, make_room, store_item, set, get, expired,
  size_of, stored,
}

abbrev pub total : List (Key × Item) → ℕ
total [] = 0
total ((k, it) ∷ m) = it.size_bytes + total m

abbrev pub IsSized : Cache → Type 0
IsSized c = c.mem_bytes ≡ total c.items

total-insert :
    (k : Key) (it : Item) (m : List (Key × Item))
    → (size_of (lookup k m) ≤ total m)
      × (total (insert k it m) + size_of (lookup k m) ≡ total m + it.size_bytes)
unfolding insert lookup
total-insert k it [] = (omega arith, omega arith)
total-insert k it ((j, w) ∷ m) = ground (arith, beq_iff j k, total-insert k it m)

-- A map with each key once.
abbrev pub IsMap : List (Key × Item) → Type 0
IsMap [] = Unit
IsMap ((k, it) ∷ m) = (lookup k m ≡ none) × IsMap m

remove-absent : (k : Key) (m : List (Key × Item)) → lookup k m ≡ none → remove k m ≡ m
unfolding remove lookup
remove-absent k [] h = refl
remove-absent k ((j, w) ∷ m) h = ground (arith, remove-absent k m)

pub total-remove :
    (k : Key) (it : Item) (m : List (Key × Item))
    → IsMap m
    → lookup k m ≡ some it
    → (it.size_bytes + total (remove k m) ≡ total m) × (suc (length (remove k m)) ≡ length m)
unfolding remove lookup
total-remove k it [] h e = cc
total-remove k it ((j, w) ∷ m) h e = elim (Bool-cases (beq j k)) [
  | inl p ↦
      let absent : lookup k m ≡ none = ground (arith, beq_iff j k, h.0) in
      ground (arith, remove-absent k m absent)
  | inr p ↦ ground (arith, total-remove k it m h.1)
]

lookup-insert_other :
    (k j : Key) (it : Item) (m : List (Key × Item))
    → beq k j ≡ false
    → lookup j m ≡ none
    → lookup j (insert k it m) ≡ none
lookup-insert_other k j it m other absent = ground (arith, lookup-insert k j it m)

lookup-remove-none :
    (k j : Key) (m : List (Key × Item)) → lookup j m ≡ none → lookup j (remove k m) ≡ none
lookup-remove-none k j m absent = ground (arith, lookup-remove k j m)

insert-IsMap : (k : Key) (it : Item) (m : List (Key × Item)) → IsMap m → IsMap (insert k it m)
unfolding insert lookup
insert-IsMap k it [] h = (refl, tt)
insert-IsMap k it ((j, w) ∷ m) h = elim (Bool-cases (beq j k)) [
  | inl p ↦ rw p (ground (arith, beq_iff j k, h.0), h.1)
  | inr p ↦ rw p (
    lookup-insert_other k j it m (ground (arith, beq_iff j k, beq_iff k j)) h.0,
    insert-IsMap k it m h.1,
  )
]

remove-IsMap : (k : Key) (m : List (Key × Item)) → IsMap m → IsMap (remove k m)
unfolding remove
remove-IsMap k [] h = tt
remove-IsMap k ((j, w) ∷ m) h = elim (Bool-cases (beq j k)) [
  | inl p ↦ rw p (remove-IsMap k m h.1)
  | inr p ↦ rw p (lookup-remove-none k j m h.0, remove-IsMap k m h.1)
]

-- Each key once, and the count is the sum.
pub record IsCounted (c : Cache) : Type 0 where
  pub map : IsMap c.items
  pub sized : c.mem_bytes ≡ total c.items

pub evict_key-IsCounted : (k : Key) (c : Cache) → IsCounted c → IsCounted (evict_key k c)
unfolding evict_key
evict_key-IsCounted k c h = elim (Option-cases (lookup k c.items)) [
  | inl e ↦ rw (e, evict_key) h
  | inr (it, e) ↦
      rw (e, evict_key)
        (record {
          map = remove-IsMap k c.items h.map;
          sized = omega (arith, h.sized, total-remove k it c.items h.map e);
        })
]

pub evict_one-IsCounted : (c : Cache) → IsCounted c → IsCounted (evict_one c).0
unfolding evict_one
evict_one-IsCounted c h = elim (Bool-cases (length c.items == 0)) [
  | inl e ↦ rw e h
  | inr e ↦ rw e (elim (Option-cases (victim c)) [
    | inl v ↦ rw v h
    | inr (k, v) ↦ rw v (evict_key-IsCounted k c h)
  ])
]

pub make_room-IsCounted :
    (fuel size old : ℕ) (c : Cache) → IsCounted c → IsCounted (make_room fuel size old c)
unfolding make_room
make_room-IsCounted zero size old c h = h
make_room-IsCounted (suc fuel) size old c h =
    let h' = evict_one-IsCounted c h in
    elim (Bool-cases (ltb (c.max_bytes + old) (c.mem_bytes + size))) [
      | inr e ↦ rw e h
      | inl e ↦ rw e (elim (Bool-cases (evict_one c).1) [
        | inl v ↦ rw v (make_room-IsCounted fuel size old (evict_one c).0 h')
        | inr v ↦ rw v h'
      ])
    ]

size_bytes-stored :
    (now : ℕ) (key value : Key) (ttl : Ttl) (c : Cache) (old : Option Item)
    → (stored now key value ttl c old).size_bytes ≡ length key + length value
size_bytes-stored now key value ttl c none = refl
size_bytes-stored now key value ttl c (some it) = refl

pub store_item-IsCounted :
    (now : ℕ) (key value : Key) (ttl : Ttl) (c : Cache)
    → IsCounted c
    → IsCounted (store_item now key value ttl c)
unfolding store_item
store_item-IsCounted now key value ttl c h = record {
  map = insert-IsMap key _ c.items h.map;
  sized =
      let it = stored now key value ttl c (lookup key c.items) in
      omega (
        arith,
        h.sized,
        total-insert key it c.items,
        size_bytes-stored now key value ttl c (lookup key c.items),
      );
}

-- If each key stands once in the map and the count of bytes is the sum of the sizes of the items,
-- both are so after a Set, whatever it evicts.
pub set-IsCounted :
    (now : ℕ) (key value : Key) (ttl : Ttl) (c : Cache)
    → IsCounted c
    → IsCounted (set now key value ttl c)
unfolding set
set-IsCounted now key value ttl c h =
    store_item-IsCounted now key value ttl
      (if ltb 0 c.max_bytes
        then make_room (suc (length c.items)) (length key + length value)
            (size_of (lookup key c.items)) c
        else c)
      (roomy (ltb 0 c.max_bytes))
  where
    roomy :
        (b : Bool)
        → IsCounted (
            if b
            then make_room
                (suc (length c.items))
                (length key + length value)
                (size_of (lookup key c.items))
                c
            else c)
    roomy true =
        make_room-IsCounted (suc (length c.items)) (length key + length value)
          (size_of (lookup key c.items)) c h
    roomy false = h

total-same :
    (k : Key) (it new : Item) (m : List (Key × Item))
    → lookup k m ≡ some it
    → new.size_bytes ≡ it.size_bytes
    → total (insert k new m) ≡ total m
total-same k it new m e same = ground (arith, total-insert k new m)

-- If each key stands once in the map and the count of bytes is the sum of the sizes of the items,
-- both are so after a Get, of a key that is missing, expired or found.
pub get-IsCounted : (now : ℕ) (key : Key) (c : Cache) → IsCounted c → IsCounted (get now key c).0
unfolding get
get-IsCounted now key c h = elim (Option-cases (lookup key c.items)) [
  | inl e ↦ rw (e, get) (record { map = h.map; sized = h.sized })
  | inr (it, e) ↦
      rw (e, get)
        (elim (Bool-cases (expired now it)) [
          | inl old ↦
              let h' = evict_key-IsCounted key c h in
              rw old (record { map = h'.map; sized = h'.sized })
          | inr fresh ↦ rw fresh (record {
            map = insert-IsMap key _ c.items h.map;
            sized = omega (arith, h.sized, total-same key it _ c.items e refl);
          })
        ])
]
