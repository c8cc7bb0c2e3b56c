-- ===== src/Common/Text.antt =====
-- The functions of Go's strings package that several parts use.
use system_design.Common.{
  ℕ, ◌-◌, ◌≡◌, refl, Bool, true, false, not, ◌&&◌, List, [], ◌∷◌, ◌++◌, leb, ◌==◌, if◌then◌else◌,
  length, take, drop, arith, ==_refl,
}
use system_design.Common.Bytes.{Bytes, beq}

-- strings.HasPrefix
unfoldable pub has_prefix : Bytes → Bytes → Bool
has_prefix [] bs = true
has_prefix (p ∷ ps) [] = false
has_prefix (p ∷ ps) (b ∷ bs) = p == b && has_prefix ps bs

-- strings.TrimPrefix
unfoldable pub trim_prefix : Bytes → Bytes → Bytes
unfolding has_prefix
trim_prefix p bs = if has_prefix p bs then drop (length p) bs else bs

unfoldable pub has_suffix : Bytes → Bytes → Bool
unfolding beq
has_suffix s bs = leb (length s) (length bs) && beq (drop (length bs - length s) bs) s

-- strings.TrimSuffix
unfoldable pub trim_suffix : Bytes → Bytes → Bytes
unfolding has_suffix
trim_suffix s bs = if has_suffix s bs then take (length bs - length s) bs else bs

-- strings.Split at one byte: the part up to the first separator and the parts behind it.
split_from : ℕ → Bytes → Bytes × List Bytes
split_from sep [] = ([], [])
split_from sep (b ∷ bs) =
    let (part, parts) = split_from sep bs in
    if b == sep then ([], part ∷ parts) else (b ∷ part, parts)

unfoldable pub split : ℕ → Bytes → List Bytes
unfolding split_from
split sep bs = let (part, parts) = split_from sep bs in part ∷ parts

-- Whether a byte does not occur.
unfoldable pub free_of : ℕ → Bytes → Bool
free_of c [] = true
free_of c (b ∷ bs) = not (b == c) && free_of c bs

pub split-free_of : (c : ℕ) (s : Bytes) → free_of c s ≡ true → split c s ≡ s ∷ []
unfolding split split_from free_of
split-free_of c [] h = refl
split-free_of c (b ∷ s) h = ground (arith, split-free_of c s)

pub split-append : (c : ℕ) (s t : Bytes) → free_of c s ≡ true → split c (s ++ c ∷ t) ≡ s ∷ split c t
unfolding split split_from free_of
split-append c [] t h = ground (arith, ==_refl c)
split-append c (b ∷ s) t h = ground (arith, split-append c s t)

-- strings.TrimRight of one byte
unfoldable pub trim_right : ℕ → Bytes → Bytes
trim_right c [] = []
trim_right c (b ∷ bs) =
    let rest = trim_right c bs in if b == c && length rest == 0 then [] else b ∷ rest

pub has_prefix-append : (p bs : Bytes) → has_prefix p (p ++ bs) ≡ true
unfolding has_prefix
has_prefix-append [] bs = refl
has_prefix-append (b ∷ p) bs = ground (arith, ==_refl b, has_prefix-append p bs)

-- A text with a prefix is the prefix and the rest.
pub has_prefix-split : (p bs : Bytes) → has_prefix p bs ≡ true → bs ≡ p ++ drop (length p) bs
unfolding has_prefix
has_prefix-split [] bs h = refl
has_prefix-split (c ∷ p) [] h = cc
has_prefix-split (c ∷ p) (b ∷ bs) h = ground (arith, has_prefix-split p bs)
