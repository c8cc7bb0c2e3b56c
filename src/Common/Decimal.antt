-- ===== src/Common/Decimal.antt =====
-- %d of a number that is not negative, and the number that a text begins with.
use system_design.Common.{
  ℕ, zero, suc, ◌+◌, ◌-◌, ◌*◌, ◌/◌, ◌%◌, ◌<◌, ◌≡◌, ◌&&◌, [], ◌∷◌, refl, ltb, leb, Bool-cases, inl,
  inr, if◌then◌else◌, All, arith, ◌∙◌,
}
use system_design.Common.Bytes.{Bytes}

-- On fuel: a number has no more digits than its value and one.
decimal_from : ℕ → ℕ → Bytes → Bytes
decimal_from zero n out = out
decimal_from (suc fuel) n out =
    let more = decimal_from fuel (n / 10) ((48 + n % 10) ∷ out) in
    if ltb n 10 then (48 + n) ∷ out else more

unfoldable pub decimal : ℕ → Bytes
unfolding decimal_from
decimal n = decimal_from (suc n) n []

-- The digits that a text begins with, behind those of `n`.
unfoldable pub scan_digits : ℕ → Bytes → ℕ
scan_digits n [] = n
scan_digits n (c ∷ cs) =
    let more = scan_digits (n * 10 + (c - 48)) cs in if leb 48 c && leb c 57 then more else n

scan_digits-decimal_from :
    (fuel n : ℕ) (out : Bytes)
    → n < fuel
    → scan_digits 0 (decimal_from fuel n out) ≡ scan_digits n out
unfolding decimal_from
scan_digits-decimal_from zero n out h = elim h [ ]
scan_digits-decimal_from (suc fuel) n out h = elim (Bool-cases (ltb n 10)) [
  | inl small ↦ rw small (unfold scan_digits in ground (arith, small))
  | inr big ↦
      let below : n / 10 < fuel = ground (arith, big) in
      rw big (
        scan_digits-decimal_from fuel (n / 10) ((48 + n % 10) ∷ out) below
        ∙ (unfold scan_digits in ground arith))
]

pub scan_digits-decimal : (n : ℕ) → scan_digits 0 (decimal n) ≡ n
unfolding decimal
scan_digits-decimal n =
    scan_digits-decimal_from (suc n) n [] (omega arith) ∙ (unfold scan_digits in refl)

abbrev pub IsDigit : ℕ → Type 0
IsDigit c = (47 < c) × (c < 58)

decimal_from-IsDigit :
    (fuel n : ℕ) (out : Bytes) → All IsDigit out → All IsDigit (decimal_from fuel n out)
unfolding decimal_from
decimal_from-IsDigit zero n out h = h
decimal_from-IsDigit (suc fuel) n out h = elim (Bool-cases (ltb n 10)) [
  | inl small ↦ rw small ((omega arith, ground (arith, small)), h)
  | inr big ↦
      rw big
        (decimal_from-IsDigit fuel (n / 10) ((48 + n % 10) ∷ out) ((omega arith, omega arith), h))
]

pub decimal-IsDigit : (n : ℕ) → All IsDigit (decimal n)
unfolding decimal
decimal-IsDigit n = decimal_from-IsDigit (suc n) n [] tt
