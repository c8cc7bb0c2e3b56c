-- ===== src/Balancer/Rotation.antt =====
-- How often a backend is chosen.
use system_design.Common.{
  ℕ, ◌+◌, ◌%◌, ◌^◌, ◌<◌, ◌≤◌, ◌≡◌, refl, ap, ◌∙◌, true, false, List, [], ◌∷◌, ◌++◌, ◌==◌, ltb, some,
  arith,
}
use system_design.Common.Words.{u64}
use system_design.Balancer.{
  Backend, Pool, healthy_of, total_weight, weighted_from, position, pick_weighted, last_of,
}

total_weight-append :
    (xs ys : List Backend) → total_weight (xs ++ ys) ≡ total_weight xs + total_weight ys
unfolding total_weight
total_weight-append [] ys = omega arith
total_weight-append (x ∷ xs) ys = omega (arith, total_weight-append xs ys)

weighted_from-here :
    (default : Backend) (pos running : ℕ) (b : Backend) (xs ys : List Backend)
    → running + total_weight xs ≤ pos
    → pos < running + total_weight xs + b.weight
    → weighted_from default (some pos) running (xs ++ b ∷ ys) ≡ b
unfolding weighted_from total_weight
weighted_from-here default pos running b [] ys lo hi =
    let hit : ltb pos (running + b.weight) ≡ true = ground arith in rw hit refl
weighted_from-here default pos running b (x ∷ xs) ys lo hi =
    let miss : ltb pos (running + x.weight) ≡ false = ground arith in
    rw miss (
      weighted_from-here default pos (running + x.weight) b xs ys (omega (arith, lo))
        (omega (arith, hi)))

weight-cons : (b : Backend) (bs : List Backend) → total_weight (b ∷ bs) ≡ b.weight + total_weight bs
unfolding total_weight
weight-cons b bs = refl

position-early :
    (counter total : ℕ)
    → counter + 1 < 2 ^ 63
    → position (u64 (counter + 1)) total ≡ some ((counter + 1) % total)
unfolding position
position-early counter total early =
    let same : u64 (counter + 1) ≡ counter + 1 = omega (arith, early) in
    let low : ltb (counter + 1) (2 ^ 63) ≡ true = ground arith in rw same (rw low refl)

picked :
    (p : Pool) (c : Backend) (cs : List Backend)
    → healthy_of p.backends ≡ c ∷ cs
    → p.rr_counter + 1 < 2 ^ 63
    → 0 < total_weight (c ∷ cs)
    → (pick_weighted p).1
      ≡ some (
          weighted_from
            (last_of c cs)
            (some ((p.rr_counter + 1) % total_weight (c ∷ cs)))
            0
            (c ∷ cs))
unfolding pick_weighted
picked p c cs live early heavy =
    let weighted : (total_weight (c ∷ cs) == 0) ≡ false = ground arith in
    rw (live, pick_weighted)
      (rw weighted (
        ap (λ pos. some (weighted_from (last_of c cs) pos 0 (c ∷ cs)))
          (position-early p.rr_counter (total_weight (c ∷ cs)) early)))

-- In the weighted rotation, while the counter is below 2 ^ 63 - 1, a healthy backend is chosen
-- when the next count, modulo the sum of all weights, is at least the sum of the weights before it
-- and below that plus its own: at as many counts in a round as its weight says.
pub pick_weighted-share :
    (p : Pool) (b : Backend) (xs ys : List Backend)
    → healthy_of p.backends ≡ xs ++ b ∷ ys
    → p.rr_counter + 1 < 2 ^ 63
    → total_weight xs ≤ (p.rr_counter + 1) % total_weight (xs ++ b ∷ ys)
    → (p.rr_counter + 1) % total_weight (xs ++ b ∷ ys) < total_weight xs + b.weight
    → (pick_weighted p).1 ≡ some b
pick_weighted-share p b [] ys live early lo hi =
    picked p b ys live early (omega (arith, hi, total_weight-append [] (b ∷ ys), weight-cons b ys))
    ∙ ap some
        (weighted_from-here (last_of b ys) _ 0 b [] ys (omega (arith, lo)) (omega (arith, hi)))
pick_weighted-share p b (x ∷ xs) ys live early lo hi =
    picked p x (xs ++ b ∷ ys) live early
      (omega (arith, hi, total_weight-append (x ∷ xs) (b ∷ ys), weight-cons b ys))
    ∙ ap some (
        weighted_from-here (last_of x (xs ++ b ∷ ys)) _ 0 b (x ∷ xs) ys (omega (arith, lo))
          (omega (arith, hi)))
