-- ===== src/IdGenerator/Order.antt =====
-- The ids of a generator rise.
use Prim.Native.Nat.{bit_and}
use system_design.Common.{
  ℕ, zero, suc, ◌+◌, ◌-◌, ◌*◌, ◌%◌, ◌^◌, ◌≤◌, ◌<◌, ◌≡◌, subst, inl, inr, List, [], ◌∷◌, Option,
  some, ltb, leb, if◌then◌else◌, All, arith, Bool-cases, Option-cases,
}
use system_design.Common.Bits.{bit_and_low}
use native.Mathlib.Nat.{le_refl}
use system_design.IdGenerator.{
  Generator, Issue, catch_up, wait_past, advance, next, batch, issue, drift, compose, epoch,
  max_worker_id, max_sequence,
}
use system_design.IdGenerator.Fields.{compose_lem}

-- A millisecond that an id can carry.
abbrev pub InRange : ℕ → Type 0
InRange now = (epoch ≤ now) × (now < epoch + 2 ^ 41)

-- What a loop that waits comes back with, from the readings it was given.
record Waited (bound : ℕ) (out : ℕ × List ℕ) : Type 0 where
  pub reached : bound ≤ out.0
  pub reading : InRange out.0
  pub left : All InRange out.1

catch_up-Waited :
    (last now : ℕ) (rs : List ℕ) {out : ℕ × List ℕ}
    → InRange now
    → All InRange rs
    → catch_up last now rs ≡ some out
    → Waited last out
unfolding catch_up
catch_up-Waited last now [] h a e = ground arith
catch_up-Waited last now (r ∷ rs) h a e = elim (Bool-cases (ltb now last)) [
  | inl wait ↦ catch_up-Waited last r rs a.0 a.1 (rw wait at e)
  | inr done ↦ ground arith
]

wait_past-Waited :
    (last now : ℕ) (rs : List ℕ) {out : ℕ × List ℕ}
    → InRange now
    → All InRange rs
    → wait_past last now rs ≡ some out
    → Waited (last + 1) out
unfolding wait_past
wait_past-Waited last now [] h a e = ground arith
wait_past-Waited last now (r ∷ rs) h a e = elim (Bool-cases (leb now last)) [
  | inl wait ↦ wait_past-Waited last r rs a.0 a.1 (rw wait at e)
  | inr done ↦ ground arith
]

-- What a call has done: the id is that of the generator's new millisecond and sequence number,
-- and these are later than the old ones.
pub record Issued (g : Generator) (i : Issue) : Type 0 where
  pub composed : i.id ≡ compose i.generator.last_ms g.worker_id i.generator.sequence
  pub same_worker : i.generator.worker_id ≡ g.worker_id
  pub bounded : i.generator.sequence ≤ max_sequence
  pub reading : InRange i.generator.last_ms
  pub later : g.last_ms * 2 ^ 12 + g.sequence < i.generator.last_ms * 2 ^ 12 + i.generator.sequence
  pub left : All InRange i.readings

next_sequence : (s : ℕ) → bit_and (s + 1) max_sequence ≡ (s + 1) % 2 ^ 12
next_sequence s = bit_and_low 12 (s + 1)

advance-Issued :
    (g : Generator) (incident : Option ℕ) (now : ℕ) (rs : List ℕ) {i : Issue}
    → g.sequence ≤ max_sequence
    → g.last_ms ≤ now
    → InRange now
    → All InRange rs
    → advance g incident now rs ≡ some i
    → Issued g i
unfolding advance issue
advance-Issued g incident now rs {i} bound reached h a e =
    elim (Option-cases (wait_past g.last_ms now rs)) [
      | inl stuck ↦ ground (arith, next_sequence g.sequence)
      | inr (out, passed) ↦
          ground (arith, next_sequence g.sequence, wait_past-Waited g.last_ms now rs h a passed)
    ]

pub next-Issued :
    (g : Generator) (rs : List ℕ) {i : Issue}
    → g.sequence ≤ max_sequence
    → All InRange rs
    → next g rs ≡ some i
    → Issued g i
unfolding next
next-Issued g [] bound a e = absurd (cc e)
next-Issued g (now ∷ rs) bound a e = elim (Option-cases (catch_up g.last_ms now rs)) [
  | inl stuck ↦ absurd (cc (rw (stuck, next) at e))
  | inr ((caught, rest), c) ↦
      let w = catch_up-Waited g.last_ms now rs a.0 a.1 c in
      advance-Issued g (drift g.last_ms now) caught rest bound w.reached w.reading w.left
        (rw (c, next) at e)
]

-- The least id that a generator may still give: that after its last one, or any.
abbrev pub floor : Generator → ℕ
floor g =
    if ltb g.last_ms epoch
    then 0
    else (g.last_ms - epoch) * 2 ^ 22 + g.worker_id * 2 ^ 12 + g.sequence + 1

-- Each number of a list is at least `lo` and greater than the one before it.
abbrev pub Ascending : ℕ → List ℕ → Type 0
Ascending lo [] = Unit
Ascending lo (x ∷ xs) = (lo ≤ x) × Ascending (suc x) xs

Ascending-le : (a b : ℕ) (xs : List ℕ) → a ≤ b → Ascending b xs → Ascending a xs
Ascending-le a b [] h s = tt
Ascending-le a b (x ∷ xs) h s = (omega arith, s.1)

-- The id of a call lies from the old floor to just below the new one.
Issued-floor :
    (g : Generator) {i : Issue}
    → g.worker_id ≤ max_worker_id
    → g.sequence ≤ max_sequence
    → Issued g i
    → (floor g ≤ i.id) × (suc i.id ≡ floor i.generator)
Issued-floor g {i} hw hs h = ground (
  arith,
  compose_lem i.generator.last_ms g.worker_id i.generator.sequence h.reading.0 h.reading.1 hw
      h.bounded,
)

abbrev Batched : Generator → List ℕ × Generator → Type 0
Batched g (ids, last) =
    Ascending (floor g) ids × (floor g ≤ floor last) × All (λ id. id < floor last) ids

-- The ids of a batch, from a generator whose worker id is at most 1023 and whose sequence number
-- at most 4095, with every reading of the clock from 2020-01-01 to 2 ^ 41 - 1 milliseconds after
-- it, however it jumps: each is greater than the one before it, the first is at least the floor of
-- the generator before the batch, that floor is at most the one after it, and all are below the
-- one after it. So no id is given twice, by this batch or a later one.
pub batch-Ascending :
    (n : ℕ) (g : Generator) (rs : List ℕ) {out : List ℕ × Generator}
    → g.worker_id ≤ max_worker_id
    → g.sequence ≤ max_sequence
    → All InRange rs
    → batch n g rs ≡ some out
    → Ascending (floor g) out.0 × (floor g ≤ floor out.1) × All (λ id. id < floor out.1) out.0
unfolding batch
batch-Ascending zero g rs {out} hw hs a e =
    let same : ([], g) ≡ out = cc e in subst (Batched g) same (tt, le_refl _, tt)
batch-Ascending (suc n) g rs {out} hw hs a e = elim (Option-cases (next g rs)) [
  | inl stuck ↦ absurd (cc (rw (stuck, batch) at e))
  | inr (i, issued) ↦ elim (Option-cases (batch n i.generator i.readings)) [
    | inl stuck ↦ absurd (cc (rw (issued, stuck, batch) at e))
    | inr (more, rest) ↦
        let done = next-Issued g rs hs a issued in
        let (low, high) = Issued-floor g hw hs done in
        let (rise, grow, below) =
          batch-Ascending n i.generator i.readings (omega (arith, done.same_worker)) done.bounded
            done.left rest in
        let same : (i.id ∷ more.0, more.1) ≡ out = cc (rw (issued, rest, batch) at e) in
        subst (Batched g) same (
          (low, Ascending-le _ _ more.0 (omega (arith, high)) rise),
          omega arith,
          (omega arith, below),
        )
  ]
]
