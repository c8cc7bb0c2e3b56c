-- ===== src/KvStore/Memtable/Size.antt =====
-- The byte count of the memtable is exact: the int64 never goes below 0 on the way.
use system_design.Common.{ℕ, ◌+◌, ◌≤◌, ◌≡◌, true, false, List, [], ◌∷◌, arith, length}
use system_design.Common.Bytes.{Bytes, beq_iff}
use system_design.Common.Assoc.{lookup, insert}
use system_design.KvStore.Memtable.{Entry, Memtable, old_size, mem_set, mem_del}

-- The sum that `size` stands for.
abbrev pub total_size : List (Bytes × Entry) → ℕ
total_size [] = 0
total_size ((k, e) ∷ m) = length k + length e.val + total_size m

abbrev pub IsSized : Memtable → Type 0
IsSized m = m.size ≡ total_size m.table

total_size-insert :
    (k : Bytes) (e : Entry) (m : List (Bytes × Entry))
    → (old_size k (lookup k m) ≤ total_size m)
      × (total_size (insert k e m) + old_size k (lookup k m)
          ≡ total_size m + (length k + length e.val))
unfolding insert lookup old_size
total_size-insert k e [] = (omega arith, omega arith)
total_size-insert k e ((j, w) ∷ m) = ground (arith, beq_iff j k, total_size-insert k e m)

-- If the count of bytes is the sum of the lengths of all keys and values, it is so after a Set.
pub mem_set-IsSized : (key val : Bytes) (m : Memtable) → IsSized m → IsSized (mem_set key val m)
unfolding mem_set
mem_set-IsSized key val m h =
    omega (arith, total_size-insert key (record { val = val; tombstone = false }) m.table)

-- If the count of bytes is the sum of the lengths of all keys and values, it is so after a Delete,
-- whose tombstone has an empty value.
pub mem_del-IsSized : (key : Bytes) (m : Memtable) → IsSized m → IsSized (mem_del key m)
unfolding mem_del
mem_del-IsSized key m h =
    omega (arith, total_size-insert key (record { val = []; tombstone = true }) m.table)
