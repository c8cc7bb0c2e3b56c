-- ===== src/Common/Bytes.antt =====
-- Go strings and byte slices: lists of bytes, compared byte by byte.
use Prim.Native.Nat.{ℕ}
use Prim.Native.Char.{code}
use Prim.Native.String.{String}
use mathlib.Core.Path.{◌≡◌, refl}
use mathlib.Core.Logic.{◌↔◌, ◌≢◌}
use mathlib.Core.Bool.{Bool, true, false, ◌&&◌}
use mathlib.Core.List.{List, [], ◌∷◌}
use native.Mathlib.Omega.{arith}
use system_design.Common.Tests.{ltb, ◌==◌, if◌then◌else◌}

abbrev pub Bytes : Type 0
Bytes = List ℕ

-- The bytes of an ASCII text.
abbrev pub codes : String → Bytes
codes String.[] = []
codes (String.◌∷◌ c s) = code c ∷ codes s

-- `a == b` on strings.
unfoldable pub beq : Bytes → Bytes → Bool
beq [] [] = true
beq (x ∷ xs) (y ∷ ys) = x == y && beq xs ys
beq _ _ = false

-- `a <= b` on strings: the lexicographic order of the bytes.
unfoldable pub ble : Bytes → Bytes → Bool
ble [] ys = true
ble (x ∷ xs) [] = false
ble (x ∷ xs) (y ∷ ys) = let rest = ble xs ys in if ltb x y then true else x == y && rest

pub beq_iff : (a b : Bytes) → (beq a b ≡ true) ↔ (a ≡ b)
unfolding beq
beq_iff [] [] = (λ h. refl, λ h. refl)
beq_iff [] (y ∷ ys) = (λ h. cc, λ h. cc)
beq_iff (x ∷ xs) [] = (λ h. cc, λ h. cc)
beq_iff (x ∷ xs) (y ∷ ys) = (λ h. ground (arith, beq_iff xs ys), λ h. ground (arith, beq_iff xs ys))

pub beq_refl : (a : Bytes) → beq a a ≡ true
beq_refl a = (beq_iff a a).1 refl

pub beq_of_ne : (a b : Bytes) → a ≢ b → beq a b ≡ false
beq_of_ne a b h = ground (arith, beq_iff a b)
