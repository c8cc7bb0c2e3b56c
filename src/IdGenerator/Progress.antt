-- ===== src/IdGenerator/Progress.antt =====
-- A call comes back when the clock moves on.
use Prim.Native.Nat.{bit_and}
use system_design.Common.{
  ℕ, ◌+◌, ◌≡◌, refl, inl, inr, Bool, true, false, ◌||◌, List, [], ◌∷◌, Option, some, ltb, leb, ◌==◌,
  arith, Bool-cases,
}
use system_design.IdGenerator.{
  Generator, Issue, catch_up, wait_past, advance, next, drift, max_sequence,
}

-- Some reading of the clock is later than `last`.
unfoldable pub passes : ℕ → List ℕ → Bool
passes last [] = false
passes last (r ∷ rs) = ltb last r || passes last rs

wait_past-some :
    (last now : ℕ) (rs : List ℕ)
    → passes last (now ∷ rs) ≡ true
    → (out : ℕ × List ℕ) × (wait_past last now rs ≡ some out)
unfolding wait_past passes
wait_past-some last now [] p = ((now, []), ground arith)
wait_past-some last now (r ∷ rs) p = elim (Bool-cases (leb now last)) [
  | inl wait ↦ rw wait (wait_past-some last r rs (ground arith))
  | inr done ↦ ((now, r ∷ rs), rw done refl)
]

catch_up-some :
    (last now : ℕ) (rs : List ℕ)
    → passes last (now ∷ rs) ≡ true
    → (later : ℕ) × (rest : List ℕ) × (catch_up last now rs ≡ some (later, rest))
      × (passes last (later ∷ rest) ≡ true)
unfolding catch_up passes
catch_up-some last now [] p = (now, [], ground arith, p)
catch_up-some last now (r ∷ rs) p = elim (Bool-cases (ltb now last)) [
  | inl wait ↦ rw wait (catch_up-some last r rs (ground arith))
  | inr done ↦ (now, r ∷ rs, rw done refl, p)
]

advance-some :
    (g : Generator) (incident : Option ℕ) (now : ℕ) (rs : List ℕ)
    → passes g.last_ms (now ∷ rs) ≡ true
    → (i : Issue) × (advance g incident now rs ≡ some i)
unfolding advance
advance-some g incident now rs p =
    let (out, passed) = wait_past-some g.last_ms now rs p in
    elim (Bool-cases (now == g.last_ms)) [
      | inr fresh ↦ rw fresh (_, refl)
      | inl same ↦ elim (Bool-cases (bit_and (g.sequence + 1) max_sequence == 0)) [
        | inr free ↦ rw (same, free) (_, refl)
        | inl used ↦ rw (same, used, passed) (_, refl)
      ]
    ]

-- A call for an id returns one when some reading of the clock, now or while it waits, is later
-- than the millisecond of the last id: neither the wait for a clock that went back nor the wait
-- for a free sequence number is for ever.
pub next_returns :
    (g : Generator) (rs : List ℕ) → passes g.last_ms rs ≡ true → (i : Issue) × (next g rs ≡ some i)
unfolding next passes
next_returns g [] p = absurd (cc p)
next_returns g (now ∷ rs) p =
    let (later, rest, caught, left) = catch_up-some g.last_ms now rs p in
    rw (caught, next) (advance-some g (drift g.last_ms now) later rest left)
