-- ===== src/MessageQueue/Partition.antt =====
-- The partition of a key (PartitionFor of projects/13-message-queue/queue/queue.go). The counter is
-- that of Redis INCR, which starts at 1; a number of partitions below 0 is 0 here.
use Prim.Native.Nat.{bit_xor}
use system_design.Common.{ℕ, ◌*◌, ◌%◌, ◌<◌, [], ◌∷◌, leb, if◌then◌else◌, arith}
use system_design.Common.Bytes.{Bytes}
use system_design.Common.Words.{u64}

-- FNV-1a
unfoldable pub fnv_from : ℕ → Bytes → ℕ
fnv_from h [] = h
fnv_from h (b ∷ bs) = fnv_from (u64 (bit_xor h b * 1099511628211)) bs

unfoldable pub partition_for : Bytes → ℕ → ℕ → ℕ
unfolding fnv_from
partition_for key partitions counter = if leb partitions 1 then 0 else elim key [
  | [] ↦ counter % partitions
  | b ∷ bs ↦ fnv_from 14695981039346656037 (b ∷ bs) % partitions
]

-- The partition of every key, and of every counter when there is no key, is one of the topic's.
pub partition_for-lt :
    (key : Bytes) (partitions counter : ℕ)
    → 0 < partitions
    → partition_for key partitions counter < partitions
unfolding partition_for
partition_for-lt [] n c h = ground arith
partition_for-lt (b ∷ bs) n c h = ground arith
