-- ===== src/Common/Taking.antt =====
-- Taking an element out of a list, and sums over a list.
use mathlib.Core.Option.{Option, none}
use system_design.Common.{
  ℕ, zero, suc, ◌+◌, ◌≡◌, List, [], ◌∷◌, ◌++◌, some, All, arith, Option-cases, inl, inr, subst,
}

-- What takes the element at a position out of a list.
unfoldable pub take_out {ℓ} : {A : Type ℓ} → ℕ → List A → Option (A × List A)
take_out i [] = none
take_out zero (x ∷ xs) = some (x, xs)
take_out (suc i) (x ∷ xs) = elim (take_out i xs) [ none ↦ none | some (y, ys) ↦ some (y, x ∷ ys) ]

module _ {A : Type 0} where
  unfoldable pub tally : (A → ℕ) → List A → ℕ
  tally f [] = 0
  tally f (x ∷ xs) = f x + tally f xs

  pub tally-append : (f : A → ℕ) (xs : List A) (y : A) → tally f (xs ++ y ∷ []) ≡ tally f xs + f y
  unfolding tally
  tally-append f [] y = omega arith
  tally-append f (x ∷ xs) y = omega (arith, tally-append f xs y)

  pub tally-take_out :
      (f : A → ℕ) (i : ℕ) (xs : List A) {x : A} {rest : List A}
      → take_out i xs ≡ some (x, rest)
      → tally f xs ≡ f x + tally f rest
  unfolding take_out tally
  tally-take_out f i [] e = absurd (cc e)
  tally-take_out f zero (y ∷ ys) {x} {rest} e = ground arith
  tally-take_out f (suc i) (y ∷ ys) {x} {rest} e = elim (Option-cases (take_out i ys)) [
    | inl out ↦ absurd (cc (rw (out, take_out) at e))
    | inr ((z, zs), found) ↦
        let e' : some (z, y ∷ zs) ≡ some (x, rest) = rw (found, take_out) at e in
        ground (arith, e', tally-take_out f i ys found)
  ]

  pub All-take_out {κ} :
      (P : A → Type κ) (i : ℕ) (xs : List A) {x : A} {rest : List A}
      → take_out i xs ≡ some (x, rest)
      → All P xs
      → P x × All P rest
  unfolding take_out
  All-take_out P i [] e h = absurd (cc e)
  All-take_out P zero (y ∷ ys) {x} {rest} e h =
      let same : (y, ys) ≡ (x, rest) = cc e in subst (λ (o : A × List A). P o.0 × All P o.1) same h
  All-take_out P (suc i) (y ∷ ys) {x} {rest} e h = elim (Option-cases (take_out i ys)) [
    | inl out ↦ absurd (cc (rw (out, take_out) at e))
    | inr ((z, zs), found) ↦
        let same : (z, y ∷ zs) ≡ (x, rest) = cc (rw (found, take_out) at e) in
        let (hz, hzs) = All-take_out P i ys found h.1 in
        subst (λ (o : A × List A). P o.0 × All P o.1) same (hz, (h.0, hzs))
  ]
