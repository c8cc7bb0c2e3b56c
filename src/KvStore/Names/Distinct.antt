-- ===== src/KvStore/Names/Distinct.antt =====
-- Tables with different sequence numbers have different names.
use system_design.Common.{
  ℕ, zero, suc, ◌+◌, ◌-◌, ◌*◌, ◌/◌, ◌%◌, ◌^◌, ◌<◌, ◌≡◌, ◌≢◌, refl, ap, sym, ◌∙◌, [], ◌∷◌, ◌++◌,
  arith, take, drop,
}
use native.Mathlib.Nat.{pow-suc}
use system_design.Common.Bytes.{Bytes}
use system_design.KvStore.Names.{padded, sst_path}

-- The number that a row of decimal digits stands for.
value : ℕ → Bytes → ℕ
value n [] = n
value n (c ∷ cs) = value (n * 10 + (c - 48)) cs

value-append : (n : ℕ) (cs ds : Bytes) → value n (cs ++ ds) ≡ value (value n cs) ds
unfolding value
value-append n [] ds = refl
value-append n (c ∷ cs) ds = value-append (n * 10 + (c - 48)) cs ds

value-padded : (width n : ℕ) → n < 10 ^ width → value 0 (padded width n) ≡ n
unfolding padded value
value-padded zero n h = omega arith
value-padded (suc width) n h =
    rw (value-append 0 (padded width (n / 10)) ((48 + n % 10) ∷ []))
      (rw (value-padded width (n / 10) (omega (arith, pow-suc 10 width))) (omega arith))

-- The digits stand behind "sst-".
path-digits : (s l : ℕ) → take 20 (drop 4 (sst_path s l)) ≡ padded 20 s
unfolding sst_path
path-digits s l = refl

-- Two tables whose sequence numbers are different 64-bit numbers have different paths.
pub sst_path_ne : (s t l k : ℕ) → s < 2 ^ 64 → t < 2 ^ 64 → s ≢ t → sst_path s l ≢ sst_path t k
sst_path_ne s t l k hs ht ne e = ne (
    omega (
      arith,
      value-padded 20 s (omega arith),
      value-padded 20 t (omega arith),
      ap (value 0) (sym (path-digits s l) ∙ ap (λ p. take 20 (drop 4 p)) e ∙ path-digits t k),
    ))
