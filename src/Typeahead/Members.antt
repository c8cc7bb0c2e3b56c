-- ===== src/Typeahead/Members.antt =====
-- What a member of a sorted set says of an item, and which members are written.
use system_design.Common.{ℕ, ◌≡◌, refl, false, [], ◌∷◌, ◌++◌, some, ◌==◌, All, arith}
use system_design.Common.Bytes.{Bytes}
use system_design.Common.Decimal.{decimal, scan_digits-decimal, decimal-IsDigit, IsDigit}
use system_design.Typeahead.Store.{member_of, cut, parse_member}

cut-append :
    (sep : ℕ) (xs ys : Bytes)
    → All (λ c. (c == sep) ≡ false) xs
    → cut sep (xs ++ sep ∷ ys) ≡ some (xs, ys)
unfolding cut
cut-append sep [] ys h = ground arith
cut-append sep (x ∷ xs) ys h = ground (arith, cut-append sep xs ys h.1)

All-digits : (xs : Bytes) → All IsDigit xs → All (λ c. (c == 9) ≡ false) xs
All-digits [] h = tt
All-digits (x ∷ xs) h = (ground (arith, h.0), All-digits xs h.1)

-- An item whose text has no tab is read back from its member: its id, its text and its category.
pub parse_member-member_of :
    (id : ℕ) (text category : Bytes)
    → All (λ c. (c == 9) ≡ false) text
    → parse_member (member_of id text category) ≡ some (id, text, category)
unfolding parse_member member_of
parse_member-member_of id text category h =
    rw
      (
        cut-append 9 (decimal id) (text ++ 9 ∷ category)
            (All-digits (decimal id) (decimal-IsDigit id)),
        parse_member,
      )
      (rw (cut-append 9 text category h, parse_member) (rw (scan_digits-decimal id) refl))
