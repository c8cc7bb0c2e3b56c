-- ===== src/KvStore/Names.antt =====
-- File names of the tables: sstPath and the name part of parseSSTMeta in sstable.go. A path is the
-- base name; the data directory is the same for all.
pub mod Distinct
use system_design.Common.{
  ℕ, zero, suc, ◌+◌, ◌-◌, ◌*◌, ◌/◌, ◌%◌, ◌^◌, ◌<◌, ◌≡◌, refl, Bool, true, false, ◌&&◌, Option, none,
  some, List, [], ◌∷◌, ◌++◌, ltb, leb, ◌==◌, if◌then◌else◌, length, take, drop,
}
use system_design.Common.Text.{trim_prefix, trim_suffix, split}
use system_design.Common.Bytes.{Bytes, beq, codes}
use system_design.Common.Decimal.{decimal}

-- %0<width>d of a number below 10 ^ width.
pub padded : ℕ → ℕ → Bytes
padded zero n = []
padded (suc width) n = padded width (n / 10) ++ (48 + n % 10) ∷ []

unfoldable pub sst_path : ℕ → ℕ → Bytes
unfolding padded decimal
sst_path seq_num level =
    codes "sst-" ++ (padded 20 seq_num ++ (codes "-L" ++ (decimal level ++ codes ".sst")))

-- The digits that strconv.ParseUint(s, 10, 64) and strconv.Atoi take: none on an empty text or
-- another character.
digits_from : ℕ → Bytes → Option ℕ
digits_from n [] = some n
digits_from n (c ∷ cs) =
    let more = digits_from (n * 10 + (c - 48)) cs in if leb 48 c && leb c 57 then more else none

pub parse_digits : Bytes → Option ℕ
unfolding digits_from
parse_digits [] = none
parse_digits (c ∷ cs) = digits_from 0 (c ∷ cs)

-- strconv.ParseUint(s, 10, 64)
pub parse_uint : Bytes → Option ℕ
unfolding parse_digits
parse_uint s = elim (parse_digits s) [
  | none ↦ none
  | some n ↦ if ltb n (2 ^ 64) then some n else none
]

-- strconv.Atoi on a text without "-": a part of a name that was split at "-" has none.
pub atoi : Bytes → Option ℕ
unfolding parse_digits trim_prefix
atoi s = elim (parse_digits (trim_prefix (codes "+") s)) [
  | none ↦ none
  | some n ↦ if ltb n (2 ^ 63) then some n else none
]

-- parts[1] as the sequence number and parts[2] without its "L" as the level.
name_parts : List Bytes → Option (ℕ × ℕ)
name_parts (_ ∷ seq_part ∷ level_part ∷ _) = elim (parse_uint seq_part) [
  | none ↦ none
  | some seq_num ↦ elim (atoi (trim_prefix (codes "L") level_part)) [
    | none ↦ none
    | some level ↦ some (seq_num, level)
  ]
]
name_parts _ = none

unfoldable pub parse_name : Bytes → Option (ℕ × ℕ)
unfolding name_parts split trim_suffix trim_prefix parse_uint atoi
parse_name path = name_parts (split b'-' (trim_suffix (codes ".sst") path))

sst_path_example : sst_path 7 1 ≡ codes "sst-00000000000000000007-L1.sst"
unfolding sst_path
sst_path_example = refl

parse_name_example : parse_name (sst_path 1234567 10) ≡ some (1234567, 10)
unfolding sst_path parse_name
parse_name_example = refl

parse_name_bad : parse_name (codes "sst-12x-L1.sst") ≡ none
unfolding parse_name
parse_name_bad = refl
