-- ===== src/Crawler/Text.antt =====
-- The functions of Go's strings package that the crawler uses, on ASCII.
use system_design.Common.{ℕ, ◌+◌, Bool, ◌&&◌, ◌||◌, [], ◌∷◌, leb, ◌==◌, if◌then◌else◌, length}
use system_design.Common.Bytes.{Bytes}
use system_design.Common.Text.{has_prefix}

-- strings.Contains
unfoldable pub has_infix : Bytes → Bytes → Bool
unfolding has_prefix
has_infix s [] = length s == 0
has_infix s (b ∷ bs) = has_prefix s (b ∷ bs) || has_infix s bs

is_space : ℕ → Bool
is_space c = c == 32 || leb 9 c && leb c 13

trim_left : Bytes → Bytes
unfolding is_space
trim_left [] = []
trim_left (b ∷ bs) = let rest = trim_left bs in if is_space b then rest else b ∷ bs

trim_end : Bytes → Bytes
unfolding is_space
trim_end [] = []
trim_end (b ∷ bs) =
    let rest = trim_end bs in if is_space b && length rest == 0 then [] else b ∷ rest

-- strings.TrimSpace
unfoldable pub trim_space : Bytes → Bytes
unfolding trim_left trim_end
trim_space bs = trim_end (trim_left bs)

-- strings.ToLower
unfoldable pub to_lower : Bytes → Bytes
to_lower [] = []
to_lower (b ∷ bs) = (if leb 65 b && leb b 90 then b + 32 else b) ∷ to_lower bs
