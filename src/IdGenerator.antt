-- ===== src/IdGenerator.antt =====
-- The unique id generator (projects/04-unique-id-generator/generator/generator.go). The mutex is
-- held from the beginning to the end of a call, so each is one step. The clock is the list of the
-- readings that the calls of nowMs give, in their order; a call that is still waiting when they run
-- out is `none`. Signed 64-bit numbers are written as words, modulo 2 ^ 64.
pub mod Order
pub mod Fields
pub mod Progress
pub mod Fleet
pub mod Lease
mod Tests
use Prim.Native.Nat.{bit_or, bit_and}
use system_design.Common.{
  ℕ, zero, suc, ◌+◌, ◌-◌, ◌*◌, ◌/◌, ◌%◌, ◌^◌, Bool, true, false, List, [], ◌∷◌, Option, none, some,
  ltb, leb, ◌==◌, if◌then◌else◌,
}
use system_design.Common.Words.{u64}

-- 2020-01-01T00:00:00Z
abbrev pub epoch : ℕ
epoch = 1577836800000

abbrev pub worker_bits : ℕ
worker_bits = 10

abbrev pub sequence_bits : ℕ
sequence_bits = 12

abbrev pub max_worker_id : ℕ
max_worker_id = 2 ^ worker_bits - 1

abbrev pub max_sequence : ℕ
max_sequence = 2 ^ sequence_bits - 1

abbrev pub worker_shift : ℕ
worker_shift = sequence_bits

abbrev pub timestamp_shift : ℕ
timestamp_shift = worker_bits + sequence_bits

pub record Generator : Type 0 where
  pub worker_id : ℕ
  pub last_ms : ℕ
  pub sequence : ℕ

-- A worker id below 0 is a word from 2 ^ 63 on, and is refused by the same test.
unfoldable pub new_generator : ℕ → Option Generator
new_generator worker_id =
    if ltb max_worker_id worker_id
    then none
    else some (record { worker_id = worker_id; last_ms = 0; sequence = 0 })

-- `for now < last { now = nowMs() }`
unfoldable pub catch_up : ℕ → ℕ → List ℕ → Option (ℕ × List ℕ)
catch_up last now [] = if ltb now last then none else some (now, [])
catch_up last now (r ∷ rs) =
    let later = catch_up last r rs in if ltb now last then later else some (now, r ∷ rs)

-- `for now <= last { now = nowMs() }`
unfoldable pub wait_past : ℕ → ℕ → List ℕ → Option (ℕ × List ℕ)
wait_past last now [] = if leb now last then none else some (now, [])
wait_past last now (r ∷ rs) =
    let later = wait_past last r rs in if leb now last then later else some (now, r ∷ rs)

-- a << k and a >> k on int64
unfoldable pub shift_left : ℕ → ℕ → ℕ
shift_left a k = u64 (a * 2 ^ k)

unfoldable pub shift_right : ℕ → ℕ → ℕ
shift_right a k = if ltb a (2 ^ 63) then a / 2 ^ k else a / 2 ^ k + (2 ^ 64 - 2 ^ (64 - k))

-- The id of a millisecond, a worker and a sequence number.
unfoldable pub compose : ℕ → ℕ → ℕ → ℕ
unfolding shift_left
compose now worker_id sequence =
    let ts = u64 (now + (2 ^ 64 - epoch)) in
    bit_or (bit_or (shift_left ts timestamp_shift) (shift_left worker_id worker_shift)) sequence

-- What a call leaves: the id, the generator, the readings not yet taken, and the drift that
-- onIncident is told of.
pub record Issue : Type 0 where
  pub id : ℕ
  pub generator : Generator
  pub readings : List ℕ
  pub incident : Option ℕ

unfoldable pub drift : ℕ → ℕ → Option ℕ
drift last now = if ltb now last then some (last - now) else none

unfoldable pub issue : Generator → Option ℕ → ℕ → ℕ → List ℕ → Issue
issue g incident now sequence rs = record {
  id = compose now g.worker_id sequence;
  generator = record g { last_ms = now; sequence = sequence };
  readings = rs;
  incident = incident;
}

-- The part of next after the wait for a clock that went back.
unfoldable pub advance : Generator → Option ℕ → ℕ → List ℕ → Option Issue
unfolding issue
advance g incident now rs =
    let sequence = bit_and (g.sequence + 1) max_sequence in
    if now == g.last_ms
    then (if sequence == 0
        then (elim (wait_past g.last_ms now rs) [
          | none ↦ none
          | some (later, rest) ↦ some (issue g incident later sequence rest)
        ])
        else some (issue g incident now sequence rs))
    else some (issue g incident now 0 rs)

unfoldable pub next : Generator → List ℕ → Option Issue
unfolding drift advance catch_up
next g [] = none
next g (now ∷ rs) = elim (catch_up g.last_ms now rs) [
  | none ↦ none
  | some (caught, rest) ↦ advance g (drift g.last_ms now) caught rest
]

-- The ids of a batch, and the generator after it.
unfoldable pub batch : ℕ → Generator → List ℕ → Option (List ℕ × Generator)
unfolding next
batch zero g rs = some ([], g)
batch (suc n) g rs = elim (next g rs) [
  | none ↦ none
  | some i ↦ elim (batch n i.generator i.readings) [
    | none ↦ none
    | some (ids, last) ↦ some (i.id ∷ ids, last)
  ]
]

unfoldable pub decompose : ℕ → ℕ × ℕ × ℕ
unfolding shift_right
decompose id = (
  u64 (shift_right id timestamp_shift + epoch),
  bit_and (shift_right id worker_shift) max_worker_id,
  bit_and id max_sequence,
)
