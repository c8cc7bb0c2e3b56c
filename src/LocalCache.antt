-- ===== src/LocalCache.antt =====
-- The in-memory cache (projects/09-caching-system/cache/cache.go). Every operation holds the lock
-- from its beginning to its end, so each is one step; the clock is read once for each step, and the
-- reading is an argument. The listener and the log are left out.
pub mod Account
pub mod Lookup
pub mod Victim
pub mod Room
pub mod Aof
pub mod Tracking
mod Tests
use system_design.Common.{
  ℕ, zero, suc, ◌+◌, ◌-◌, Bool, true, false, not, ◌&&◌, ◌||◌, List, [], ◌∷◌, ◌++◌, Option, none,
  some, ltb, ◌==◌, if◌then◌else◌, length,
}
use system_design.Common.Assoc.{lookup, insert, remove, contains}
use system_design.Common.Bytes.{beq}

abbrev pub Key : Type 0
Key = List ℕ

pub data Policy : Type 0 where
  lru : Policy
  lfu : Policy

-- `expires_at` is `none` for the zero time. The key is the one under which the item stands.
pub record Item : Type 0 where
  pub value : Key
  pub size_bytes : ℕ
  pub expires_at : Option ℕ
  pub last_access : ℕ
  pub access_count : ℕ
  pub created_at : ℕ

-- `recent` is the LRU list, the front first; it is not used by the other policy. The LFU heap has
-- the items of the map, and its root is found by `least`. `default_ttl` is 0 for none.
pub record Cache : Type 0 where
  pub policy : Policy
  pub max_bytes : ℕ
  pub default_ttl : ℕ
  pub items : List (Key × Item)
  pub recent : List Key
  pub hits : ℕ
  pub misses : ℕ
  pub evictions : ℕ
  pub mem_bytes : ℕ

unfoldable pub new_cache : Policy → ℕ → ℕ → Cache
new_cache policy max_bytes default_ttl = record {
  policy = policy;
  max_bytes = max_bytes;
  default_ttl = default_ttl;
  items = [];
  recent = [];
  hits = 0;
  misses = 0;
  evictions = 0;
  mem_bytes = 0;
}

unfoldable pub expired : ℕ → Item → Bool
expired now it = elim it.expires_at [ none ↦ false | some t ↦ ltb t now ]

-- The ttl of a call: negative, 0 for the default of the cache, or a time.
pub data Ttl : Type 0 where
  forever : Ttl
  after : ℕ → Ttl

unfoldable pub resolve_expiry : ℕ → Ttl → ℕ → Option ℕ
resolve_expiry now forever default = none
resolve_expiry now (after ttl) default =
    let chosen = if ttl == 0 then default else ttl in
    if chosen == 0 then none else some (now + chosen)

unfoldable pub without_key : Key → List Key → List Key
without_key k [] = []
without_key k (j ∷ js) = let rest = without_key k js in if beq j k then rest else j ∷ rest

-- MoveToFront and PushFront under LRU; under LFU the heap has no order of its own.
unfoldable pub touch : Policy → Key → List Key → List Key
unfolding without_key
touch lru k ks = k ∷ without_key k ks
touch lfu k ks = ks

unfoldable pub evict_key : Key → Cache → Cache
unfolding without_key
evict_key key c = elim (lookup key c.items) [
  | none ↦ c
  | some it ↦ record c {
    items = remove key c.items;
    recent = without_key key c.recent;
    mem_bytes = c.mem_bytes - it.size_bytes;
    evictions = c.evictions + 1;
  }
]

-- lruList.Back()
unfoldable pub back : List Key → Option Key
back [] = none
back (k ∷ ks) = elim (back ks) [ none ↦ some k | some last ↦ some last ]

-- lfuHeap.Less
less : Item → Item → Bool
less a b =
    if a.access_count == b.access_count
    then ltb a.last_access b.last_access
    else ltb a.access_count b.access_count

-- The root of the heap: an item that no other is less than. Where several are, the heap may have
-- any of them at its root; here it is the first in the map.
unfoldable pub least : List (Key × Item) → Option (Key × Item)
unfolding less
least [] = none
least ((k, it) ∷ m) = elim (least m) [
  | none ↦ some (k, it)
  | some (j, other) ↦ if less other it then some (j, other) else some (k, it)
]

unfoldable pub victim : Cache → Option Key
unfolding back least
victim c = elim c.policy [
  | lru ↦ back c.recent
  | lfu ↦ elim (least c.items) [ none ↦ none | some (k, _) ↦ some k ]
]

unfoldable pub evict_one : Cache → Cache × Bool
unfolding victim evict_key
evict_one c =
    if length c.items == 0
    then (c, false)
    else elim (victim c) [ none ↦ (c, false) | some k ↦ (evict_key k c, true) ]

-- The loop of Set before it inserts: `size` minus `old` bytes are needed. On fuel: each turn takes
-- an item away.
unfoldable pub make_room : ℕ → ℕ → ℕ → Cache → Cache
unfolding evict_one
make_room zero size old c = c
make_room (suc fuel) size old c =
    let (c', evicted) = evict_one c in
    let more = make_room fuel size old c' in
    if ltb (c.max_bytes + old) (c.mem_bytes + size) then if evicted then more else c' else c

abbrev pub size_of : Option Item → ℕ
size_of none = 0
size_of (some it) = it.size_bytes

-- The item that Set leaves under the key.
abbrev pub stored : ℕ → Key → Key → Ttl → Cache → Option Item → Item
stored now key value ttl c none = record {
  value = value;
  size_bytes = length key + length value;
  expires_at = resolve_expiry now ttl c.default_ttl;
  last_access = now;
  access_count = 1;
  created_at = now;
}
stored now key value ttl c (some it) = record it {
  value = value;
  size_bytes = length key + length value;
  expires_at = resolve_expiry now ttl c.default_ttl;
  last_access = now;
  access_count = it.access_count + 1;
}

-- The part of Set behind the loop.
unfoldable pub store_item : ℕ → Key → Key → Ttl → Cache → Cache
unfolding touch
store_item now key value ttl c =
    let old = lookup key c.items in
    record c {
      items = insert key (stored now key value ttl c old) c.items;
      recent = touch c.policy key c.recent;
      mem_bytes = c.mem_bytes - size_of old + (length key + length value);
    }

unfoldable pub set : ℕ → Key → Key → Ttl → Cache → Cache
unfolding make_room store_item
set now key value ttl c =
    let roomy =
      make_room (suc (length c.items)) (length key + length value) (size_of (lookup key c.items))
        c in
    store_item now key value ttl (if ltb 0 c.max_bytes then roomy else c)

-- The value, or `none` on a miss.
unfoldable pub get : ℕ → Key → Cache → Cache × Option Key
unfolding expired evict_key touch
get now key c = elim (lookup key c.items) [
  | none ↦ (record c { misses = c.misses + 1 }, none)
  | some it ↦
      let gone = evict_key key c in
      if expired now it then (record gone { misses = gone.misses + 1 }, none) else (
        record c {
          items =
              insert key (record it { last_access = now; access_count = it.access_count + 1 })
                c.items;
          recent = touch c.policy key c.recent;
          hits = c.hits + 1;
        },
        some it.value,
      )
]

unfoldable pub delete : Key → Cache → Cache × Bool
unfolding evict_key
delete key c = elim (lookup key c.items) [ none ↦ (c, false) | some _ ↦ (evict_key key c, true) ]

unfoldable pub peek : ℕ → Key → Cache → Option Item
unfolding expired
peek now key c = elim (lookup key c.items) [
  | none ↦ none
  | some it ↦ if expired now it then none else some it
]

unfoldable pub flush : Cache → Cache × ℕ
flush c = (record c { items = []; recent = []; mem_bytes = 0 }, length c.items)

-- The keys of the items that have not expired.
unfoldable pub live_keys : ℕ → List (Key × Item) → List Key
unfolding expired
live_keys now [] = []
live_keys now ((k, it) ∷ m) =
    let rest = live_keys now m in if expired now it then rest else k ∷ rest

-- The loop of sweepExpired over a snapshot of the map.
unfoldable pub sweep : ℕ → List (Key × Item) → Cache → Cache
unfolding expired evict_key
sweep now [] c = c
sweep now ((k, it) ∷ m) c = sweep now m (if expired now it then evict_key k c else c)

unfoldable pub sweep_expired : ℕ → Cache → Cache
unfolding sweep
sweep_expired now c = sweep now c.items c

-- GetOrLoad for a caller that is alone: `load` is what the loader returns, `none` on an error. The
-- second look takes place in the singleflight slot. The flag says that the first look found it.
unfoldable pub get_or_load : ℕ → Key → Ttl → Option Key → Cache → Cache × Option (Key × Bool)
unfolding get set
get_or_load now key ttl load c =
    let (c₁, first) = get now key c in
    let (c₂, second) = get now key c₁ in
    elim first [
      | some v ↦ (c₁, some (v, true))
      | none ↦ elim second [
        | some v ↦ (c₂, some (v, false))
        | none ↦ elim load [ none ↦ (c₂, none) | some v ↦ (set now key v ttl c₂, some (v, false)) ]
      ]
    ]
