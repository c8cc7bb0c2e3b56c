-- ===== src/LocalCache/Tests.antt =====
-- A cache of 10 bytes with two items.
use Prim.Native.Nat.{ℕ}
use system_design.Common.{◌+◌, ◌≤◌, refl, [], ◌∷◌, none, arith}
use system_design.Common.Bytes.{Bytes, codes, beq}
use system_design.Common.Assoc.{lookup, contains}
use system_design.LocalCache.{Item, lru, Cache, forever, set, size_of, new_cache}
use system_design.LocalCache.Account.{IsCounted}
use system_design.LocalCache.Room.{set-bounded}
use system_design.LocalCache.Victim.{IsTracked}

abbrev item : Bytes → ℕ → Item
item value size = record {
  value = value;
  size_bytes = size;
  expires_at = none;
  last_access = 1;
  access_count = 1;
  created_at = 1;
}

-- The key "a" was used last but one.
abbrev pair : Cache
pair = record {
  policy = lru;
  max_bytes = 10;
  default_ttl = 0;
  items = (codes "a", item (codes "1234") 5) ∷ (codes "b", item (codes "12") 3) ∷ [];
  recent = codes "b" ∷ codes "a" ∷ [];
  hits = 0;
  misses = 0;
  evictions = 0;
  mem_bytes = 8;
}

pair-IsCounted : IsCounted pair
unfolding lookup beq
pair-IsCounted = record { map = (refl, (refl, tt)); sized = refl }

abbrev empty : Cache
empty = new_cache lru 10 0

empty-IsTracked : IsTracked empty
unfolding new_cache contains lookup
empty-IsTracked = λ k. refl

empty-IsCounted : IsCounted empty
unfolding new_cache
empty-IsCounted = record { map = tt; sized = refl }

set-bounded_example :
    (set 2 (codes "c") (codes "1234567") forever empty).mem_bytes
    ≤ empty.max_bytes + size_of (lookup (codes "c") empty.items)
unfolding new_cache
set-bounded_example =
    set-bounded 2 (codes "c") (codes "1234567") forever empty empty-IsCounted empty-IsTracked
      (omega arith) (omega arith)
