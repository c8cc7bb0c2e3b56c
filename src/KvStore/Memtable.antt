-- ===== src/KvStore/Memtable.antt =====
-- memtable.go. Each method runs under the memtable's lock, so it is one step on the state.
pub mod Size
use system_design.Common.{
  ℕ, zero, ◌+◌, ◌-◌, ◌≡◌, refl, Bool, true, false, Option, none, some, List, [], ◌∷◌, arith, ◌==◌,
  if◌then◌else◌, length,
}
use system_design.Common.Bytes.{Bytes, beq}
use system_design.Common.Assoc.{lookup, insert, keys, lookup-insert}
use system_design.Common.Sort.{sort_strings}

pub record Entry : Type 0 where
  pub val : Bytes
  pub tombstone : Bool

-- `size` is an int64 that only ever falls by what it rose by: see KvStore/Memtable/Size.
pub record Memtable : Type 0 where
  pub table : List (Bytes × Entry)
  pub size : ℕ

abbrev pub new_memtable : Memtable
new_memtable = record { table = []; size = 0 }

-- The bytes counted for a key that is there, and 0 for one that is not.
old_size : Bytes → Option Entry → ℕ
old_size key none = 0
old_size key (some old) = length key + length old.val

unfoldable pub mem_set : Bytes → Bytes → Memtable → Memtable
unfolding old_size
mem_set key val m = record {
  table = insert key (record { val = val; tombstone = false }) m.table;
  size = m.size - old_size key (lookup key m.table) + (length key + length val);
}

unfoldable pub mem_del : Bytes → Memtable → Memtable
unfolding old_size
mem_del key m = record {
  table = insert key (record { val = []; tombstone = true }) m.table;
  size = m.size - old_size key (lookup key m.table) + length key;
}

-- (value, found, tombstone), with `none` for not found; getEntry is the same lookup.
unfoldable pub mem_get : Bytes → Memtable → Option Entry
mem_get key m = lookup key m.table

unfoldable pub sorted_keys : Memtable → List Bytes
sorted_keys m = sort_strings (keys m.table)

unfoldable pub byte_size : Memtable → ℕ
byte_size m = m.size

unfoldable pub mem_len : Memtable → ℕ
mem_len m = length m.table

pub mem_get-mem_set :
    (m : Memtable) (key j val : Bytes)
    → mem_get j (mem_set key val m)
      ≡ (if beq key j then some (record { val = val; tombstone = false }) else mem_get j m)
unfolding mem_get mem_set
mem_get-mem_set m key j val = lookup-insert key j _ m.table

pub mem_get-mem_del :
    (m : Memtable) (key j : Bytes)
    → mem_get j (mem_del key m)
      ≡ (if beq key j then some (record { val = []; tombstone = true }) else mem_get j m)
unfolding mem_get mem_del
mem_get-mem_del m key j = lookup-insert key j _ m.table

pub mem_get-new : (key : Bytes) → mem_get key new_memtable ≡ none
unfolding mem_get lookup
mem_get-new key = refl
