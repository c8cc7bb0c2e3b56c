-- ===== src/IdGenerator/Tests.antt =====
-- Runs of the generator, and its theorems at one input each.
use system_design.Common.{
  ℕ, ◌+◌, ◌-◌, ◌*◌, ◌^◌, ◌≤◌, ◌<◌, ◌≡◌, ◌≢◌, refl, true, List, [], ◌∷◌, none, some, All, arith,
}
use system_design.IdGenerator.{
  Generator, Issue, new_generator, next, batch, compose, epoch, catch_up, wait_past, advance, issue,
  drift,
}
use system_design.IdGenerator.Order.{floor, Ascending, batch-Ascending}
use system_design.IdGenerator.Progress.{passes, next_returns}
use system_design.IdGenerator.Fleet.{next_distinct}

abbrev start : ℕ
start = epoch + 1000

abbrev fifth : Generator
fifth = record { worker_id = 5; last_ms = start; sequence = 4094 }

abbrev sixth : Generator
sixth = record { worker_id = 6; last_ms = start; sequence = 4094 }

-- A clock that goes back, and a millisecond that is used up.
abbrev readings : List ℕ
readings = (start - 3) ∷ (start - 1) ∷ start ∷ start ∷ start ∷ (start + 1) ∷ []

abbrev first : ℕ
first = 1000 * 2 ^ 22 + 5 * 2 ^ 12 + 4095

abbrev second : ℕ
second = 1001 * 2 ^ 22 + 5 * 2 ^ 12

new_generator_refuses : new_generator 1024 ≡ none
unfolding new_generator
new_generator_refuses = refl

batch_runs :
    batch 2 fifth readings
    ≡ some (first ∷ second ∷ [], record { worker_id = 5; last_ms = start + 1; sequence = 0 })
unfolding batch catch_up wait_past advance issue compose
batch_runs = refl

next_tells_drift :
    next fifth readings
    ≡ some (record {
      id = first;
      generator = record fifth { sequence = 4095 };
      readings = start ∷ start ∷ (start + 1) ∷ [];
      incident = some 3;
    })
unfolding next catch_up wait_past advance issue compose drift
next_tells_drift = refl

batch_waits : batch 2 fifth (start ∷ start ∷ start ∷ []) ≡ none
unfolding batch catch_up wait_past advance issue compose
batch_waits = refl

batch-Ascending_example :
    Ascending (floor fifth) (first ∷ second ∷ [])
    × (floor fifth ≤ second + 1)
    × All (λ id. id < second + 1) (first ∷ second ∷ [])
batch-Ascending_example =
    batch-Ascending 2 fifth readings (omega arith) (omega arith) (omega arith) batch_runs

passes_later : passes start readings ≡ true
unfolding passes
passes_later = refl

next_returns_example : (i : Issue) × (next fifth readings ≡ some i)
next_returns_example = next_returns fifth readings passes_later

abbrev mine : Issue
mine = record {
  id = compose start 5 4095;
  generator = record fifth { sequence = 4095 };
  readings = [];
  incident = none;
}

abbrev theirs : Issue
theirs = record {
  id = compose start 6 4095;
  generator = record sixth { sequence = 4095 };
  readings = [];
  incident = none;
}

next-mine : next fifth (start ∷ []) ≡ some mine
unfolding next catch_up wait_past advance issue drift
next-mine = refl

next-theirs : next sixth (start ∷ []) ≡ some theirs
unfolding next catch_up wait_past advance issue drift
next-theirs = refl

next_distinct_example : compose start 5 4095 ≢ compose start 6 4095
next_distinct_example =
    next_distinct fifth sixth (start ∷ []) (start ∷ []) {i = mine} {j = theirs} (omega arith)
      (omega arith) (omega arith) (omega arith) (omega arith) (omega arith) (omega arith) next-mine
      next-theirs
