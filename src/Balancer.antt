-- ===== src/Balancer.antt =====
-- The load balancer (projects/06-load-balancer/balancer/balancer.go). The smoothed latency is in
-- floating point and left out; the comparison of two scores, which reads it, is an argument, and so
-- is the validation of addresses. A pool is a value: its operations hold its lock.
pub mod Choice
pub mod Rotation
pub mod Urls
pub mod Proxy
pub mod Admin
mod Tests
use system_design.Common.{
  ℕ, zero, suc, ◌+◌, ◌-◌, ◌%◌, ◌^◌, Bool, true, false, List, [], ◌∷◌, ◌++◌, Option, none, some, ltb,
  ◌==◌, if◌then◌else◌, length, get_elem?,
}
use system_design.Common.Bytes.{Bytes, beq}
use system_design.Common.Words.{u64}
use system_design.Common.Assoc.{lookup, insert}

pub data Status : Type 0 where
  healthy : Status
  unhealthy : Status
  draining : Status

pub data Algorithm : Type 0 where
  round_robin : Algorithm
  least_connections : Algorithm
  weighted_round_robin : Algorithm
  random : Algorithm

pub record Backend : Type 0 where
  pub url : Bytes
  pub service : Bytes
  pub weight : ℕ
  pub active_conns : ℕ
  pub total_conns : ℕ
  pub status : Status

pub record Pool : Type 0 where
  pub backends : List Backend
  pub algorithm : Algorithm
  pub rr_counter : ℕ

abbrev pub new_pool : Algorithm → Pool
new_pool algo = record { backends = []; algorithm = algo; rr_counter = 0 }

unfoldable pub has_url : Bytes → List Backend → Bool
has_url url [] = false
has_url url (b ∷ bs) = if beq b.url url then true else has_url url bs

unfoldable pub add : Backend → Pool → Pool
unfolding has_url
add b p = if has_url b.url p.backends then p else record p { backends = p.backends ++ b ∷ [] }

unfoldable pub others : Bytes → List Backend → List Backend
others url [] = []
others url (b ∷ bs) = let rest = others url bs in if beq b.url url then rest else b ∷ rest

unfoldable pub remove_backend : Bytes → Pool → Pool
unfolding others
remove_backend url p = record p { backends = others url p.backends }

-- SetStatus through the pointer that the pool and the health checker share.
unfoldable pub set_status : Bytes → Status → List Backend → List Backend
set_status url s [] = []
set_status url s (b ∷ bs) =
    (if beq b.url url then record b { status = s } else b) ∷ set_status url s bs

abbrev pub is_healthy : Status → Bool
is_healthy healthy = true
is_healthy _ = false

unfoldable pub healthy_of : List Backend → List Backend
healthy_of [] = []
healthy_of (b ∷ bs) = let rest = healthy_of bs in if is_healthy b.status then b ∷ rest else rest

unfoldable pub pick_round_robin : Pool → Pool × Option Backend
unfolding healthy_of
pick_round_robin p =
    let live = healthy_of p.backends in
    let counter = u64 (p.rr_counter + 1) in
    if length live == 0
    then (p, none)
    else (record p { rr_counter = counter }, get_elem? live (counter % length live))

-- The loop over the other healthy backends.
unfoldable pub least_from : (Backend → Backend → Bool) → Backend → List Backend → Backend
least_from less_loaded best [] = best
least_from less_loaded best (b ∷ bs) =
    least_from less_loaded (if less_loaded b best then b else best) bs

unfoldable pub pick_least_connections : (Backend → Backend → Bool) → Pool → Option Backend
unfolding healthy_of least_from
pick_least_connections less_loaded p = elim (healthy_of p.backends) [
  | [] ↦ none
  | b ∷ bs ↦ some (least_from less_loaded b bs)
]

-- The weights are so small that their sum is an int.
unfoldable pub total_weight : List Backend → ℕ
total_weight [] = 0
total_weight (b ∷ bs) = b.weight + total_weight bs

-- int(counter) % total, with `none` for a number below 0: from 2 ^ 63 on the counter is negative as
-- an int, and % of Go takes the sign of its left side.
unfoldable pub position : ℕ → ℕ → Option ℕ
position counter total =
    if ltb counter (2 ^ 63)
    then some (counter % total)
    else if (2 ^ 64 - counter) % total == 0
    then some 0
    else none

abbrev pub below : Option ℕ → ℕ → Bool
below none n = true
below (some p) n = ltb p n

last_of : Backend → List Backend → Backend
last_of b [] = b
last_of b (c ∷ bs) = last_of c bs

-- The loop with the running sum; `default` is the last backend.
unfoldable pub weighted_from : Backend → Option ℕ → ℕ → List Backend → Backend
weighted_from default pos running [] = default
weighted_from default pos running (b ∷ bs) =
    if below pos (running + b.weight) then b else weighted_from default pos (running + b.weight) bs

unfoldable pub pick_weighted : Pool → Pool × Option Backend
unfolding healthy_of total_weight pick_round_robin position weighted_from last_of
pick_weighted p =
    let counter = u64 (p.rr_counter + 1) in
    elim (healthy_of p.backends) [
      | [] ↦ (p, none)
      | b ∷ bs ↦ if total_weight (b ∷ bs) == 0 then pick_round_robin p else (
        record p { rr_counter = counter },
        some (weighted_from (last_of b bs) (position counter (total_weight (b ∷ bs))) 0 (b ∷ bs)),
      )
    ]

unfoldable pub next : (Backend → Backend → Bool) → Pool → Pool × Option Backend
unfolding pick_round_robin pick_least_connections pick_weighted
next less_loaded p = elim p.algorithm [
  | least_connections ↦ (p, pick_least_connections less_loaded p)
  | weighted_round_robin ↦ pick_weighted p
  | round_robin ↦ pick_round_robin p
  | random ↦ pick_round_robin p
]

-- The pools by service.
abbrev pub Pools : Type 0
Pools = List (Bytes × Pool)

abbrev pub pool_or_new : Option Pool → Pool
pool_or_new none = new_pool round_robin
pool_or_new (some p) = p

unfoldable pub add_backend : (Bytes → Bool) → Bytes → Bytes → ℕ → Pools → Pools × Bool
unfolding add
add_backend valid service url weight pools =
    let b : Backend = record {
      url = url;
      service = service;
      weight = weight;
      active_conns = 0;
      total_conns = 0;
      status = healthy;
    } in
    if valid url
    then (insert service (add b (pool_or_new (lookup service pools))) pools, true)
    else (pools, false)

unfoldable pub next_for : (Backend → Backend → Bool) → Bytes → Pools → Pools × Option Backend
unfolding next
next_for less_loaded service pools = elim (lookup service pools) [
  | none ↦ (pools, none)
  | some p ↦
      let (p', chosen) = next less_loaded p in
      elim chosen [
        | none ↦ (insert service p' pools, none)
        | some b ↦ (insert service p' pools, some b)
      ]
]

unfoldable pub set_algorithm : Bytes → Algorithm → Pools → Pools × Bool
set_algorithm service algo pools = elim (lookup service pools) [
  | none ↦ (pools, false)
  | some p ↦ (insert service (record p { algorithm = algo }) pools, true)
]
