-- ===== src/IdGenerator/Fleet.antt =====
-- Generators beside one another.
use system_design.Common.{ℕ, ◌+◌, ◌-◌, ◌*◌, ◌^◌, ◌≤◌, ◌≡◌, ◌≢◌, ◌∙◌, List, some, All, arith}
use system_design.IdGenerator.{Generator, Issue, next, max_worker_id, max_sequence, epoch}
use system_design.IdGenerator.Fields.{compose_lem}
use system_design.IdGenerator.Order.{InRange, Issued, next-Issued}

Issued-fields :
    (g : Generator) {i : Issue}
    → g.worker_id ≤ max_worker_id
    → Issued g i
    → (ts : ℕ) × (s : ℕ) × (s ≤ max_sequence) × (i.id ≡ ts * 2 ^ 22 + g.worker_id * 2 ^ 12 + s)
Issued-fields g {i} hw h = (
  i.generator.last_ms - epoch,
  i.generator.sequence,
  h.bounded,
  h.composed
      ∙ compose_lem i.generator.last_ms g.worker_id i.generator.sequence h.reading.0 h.reading.1 hw
          h.bounded,
)

-- Two generators with different worker ids, both at most 1023, and sequence numbers of at most
-- 4095 never give the same id, whatever readings of their clocks they see, all from 2020-01-01 to
-- 2 ^ 41 - 1 milliseconds after it.
pub next_distinct :
    (g h : Generator) (rs ts : List ℕ) {i j : Issue}
    → g.worker_id ≤ max_worker_id
    → h.worker_id ≤ max_worker_id
    → g.worker_id ≢ h.worker_id
    → g.sequence ≤ max_sequence
    → h.sequence ≤ max_sequence
    → All InRange rs
    → All InRange ts
    → next g rs ≡ some i
    → next h ts ≡ some j
    → i.id ≢ j.id
next_distinct g h rs ts gw hw ne gs hs ga ha gi hj same =
    let (t, s, s_bound, ge) = Issued-fields g gw (next-Issued g rs gs ga gi) in
    let (u, r, r_bound, he) = Issued-fields h hw (next-Issued h ts hs ha hj) in absurd (omega arith)
