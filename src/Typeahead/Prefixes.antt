-- ===== src/Typeahead/Prefixes.antt =====
-- Which prefixes an item is indexed under.
use system_design.Common.{
  ℕ, zero, suc, ◌+◌, ◌≤◌, ◌≡◌, refl, true, ◌&&◌, ◌||◌, [], ◌∷◌, ltb, leb, ◌==◌, not, length, take,
  arith,
}
use system_design.Common.Bytes.{Bytes, beq}
use system_design.Common.Assoc.{contains}
use system_design.Common.Text.{has_prefix}
use system_design.Typeahead.{Unicode, normalize_prefix, prefixes_from, generate_prefixes}

beq-take :
    (i : ℕ) (s p : Bytes) → i ≤ length s → beq (take i s) p ≡ (length p == i && has_prefix p s)
unfolding has_prefix beq
beq-take zero s [] h = refl
beq-take zero s (c ∷ p) h = ground arith
beq-take (suc i) [] p h = absurd (omega arith)
beq-take (suc i) (d ∷ s) [] h = ground arith
beq-take (suc i) (d ∷ s) (c ∷ p) h = ground (arith, beq-take i s p (omega arith))

contains-prefixes_from :
    (i n : ℕ) (s p : Bytes)
    → i + n ≤ length s + 1
    → contains p (prefixes_from i n s)
      ≡ (leb i (length p) && ltb (length p) (i + n) && has_prefix p s)
unfolding prefixes_from contains
contains-prefixes_from i zero s p h = ground arith
contains-prefixes_from i (suc n) s p h =
    ground (arith, contains-prefixes_from (suc i) n s p (omega arith), beq-take i s p (omega arith))

has_prefix-length : (p s : Bytes) → has_prefix p s ≡ true → length p ≤ length s
unfolding has_prefix
has_prefix-length [] s h = omega arith
has_prefix-length (c ∷ p) [] h = cc
has_prefix-length (c ∷ p) (d ∷ s) h = ground (arith, has_prefix-length p s)

-- The prefixes that an item is indexed under are exactly the beginnings of its normalised text that
-- are not empty and, if a positive maximum is given, not longer than it.
pub contains-generate_prefixes :
    (u : Unicode) (text : Bytes) (max_len : ℕ) (p : Bytes)
    → contains p (generate_prefixes u text max_len) ≡ (
        not (length p == 0)
        && (max_len == 0 || leb (length p) max_len)
        && has_prefix p (normalize_prefix u text))
unfolding generate_prefixes
contains-generate_prefixes u text max_len p = ground (
  arith,
  contains-prefixes_from 1 (length (normalize_prefix u text)) (normalize_prefix u text) p
      (omega arith),
  contains-prefixes_from 1 max_len (normalize_prefix u text) p,
  has_prefix-length p (normalize_prefix u text),
)
