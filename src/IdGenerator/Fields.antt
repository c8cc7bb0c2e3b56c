-- ===== src/IdGenerator/Fields.antt =====
-- The fields of an id, as numbers.
use Prim.Native.Nat.{bit_or}
use system_design.Common.{ℕ, ◌+◌, ◌-◌, ◌*◌, ◌/◌, ◌^◌, ◌≤◌, ◌<◌, ◌≡◌, true, ltb, arith}
use system_design.Common.Bits.{bit_or_disjoint, bit_and_low}
use system_design.Common.Words.{u64}
use system_design.IdGenerator.{
  compose, decompose, shift_left, shift_right, epoch, max_worker_id, max_sequence,
}

pub compose_lem :
    (now worker_id sequence : ℕ)
    → epoch ≤ now
    → now < epoch + 2 ^ 41
    → worker_id ≤ max_worker_id
    → sequence ≤ max_sequence
    → compose now worker_id sequence ≡ (now - epoch) * 2 ^ 22 + worker_id * 2 ^ 12 + sequence
unfolding compose shift_left
compose_lem now w s lo hi hw hs =
    let ts : u64 (u64 (now + (2 ^ 64 - epoch)) * 2 ^ 22) ≡ (now - epoch) * 2 ^ 22 = omega arith in
    let worker : u64 (w * 2 ^ 12) ≡ w * 2 ^ 12 = omega arith in
    let upper : bit_or ((now - epoch) * 2 ^ 22) (w * 2 ^ 12)
        ≡ ((now - epoch) * 2 ^ 10 + w) * 2 ^ 12 =
      omega (arith, bit_or_disjoint 22 (now - epoch) (w * 2 ^ 12) (omega arith)) in
    rw (ts, worker, upper)
      (omega (arith, bit_or_disjoint 12 ((now - epoch) * 2 ^ 10 + w) s (omega arith)))

-- An id composed of a millisecond from 2020-01-01 to 2 ^ 41 - 1 milliseconds after it, of a worker
-- id of at most 1023 and of a sequence number of at most 4095 decomposes into these three.
pub decompose-compose :
    (now worker_id sequence : ℕ)
    → epoch ≤ now
    → now < epoch + 2 ^ 41
    → worker_id ≤ max_worker_id
    → sequence ≤ max_sequence
    → decompose (compose now worker_id sequence) ≡ (now, worker_id, sequence)
unfolding decompose shift_right
decompose-compose now w s lo hi hw hs =
    let id : ℕ = (now - epoch) * 2 ^ 22 + w * 2 ^ 12 + s in
    let positive : ltb id (2 ^ 63) ≡ true = ground arith in
    rw (compose_lem now w s lo hi hw hs)
      (rw (positive, bit_and_low 10 (id / 2 ^ 12), bit_and_low 12 id) (ground arith))
