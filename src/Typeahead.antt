-- ===== src/Typeahead.antt =====
-- The typeahead (projects/11-typeahead-autocomplete-system): the prefixes of autocomplete/autocomplete.go
-- and the store of store/store.go, which keeps the items in a table and an index of them, by prefix,
-- in Redis. A text is a list of code points; what unicode and PostgreSQL say of them is an argument,
-- as are the scores, which are in floating point. The Redis server is behind the interface
-- Typeahead/Redis.
pub mod Redis
pub mod Memory
pub mod Store
pub mod Members
pub mod Batches
pub mod Rebuilt
pub mod Stale
mod Tests
pub mod Prefixes
use system_design.Common.{
  ℕ, zero, suc, ◌+◌, ◌-◌, Bool, true, false, not, ◌&&◌, ◌||◌, List, [], ◌∷◌, ◌++◌, map, Option,
  none, some, ltb, leb, ◌==◌, if◌then◌else◌, length, take, drop,
}
use system_design.Common.Bytes.{Bytes, codes, beq}

abbrev pub max_prefix_len : ℕ
max_prefix_len = 20

abbrev pub top_k : ℕ
top_k = 20

abbrev pub default_suggest_limit : ℕ
default_suggest_limit = 10

abbrev pub batch_size : ℕ
batch_size = 500

-- strings.ToLower maps each code point; IsSpace and IsPrint are those of package unicode. The last
-- two are lower(text) and LIKE of PostgreSQL.
pub record Unicode : Type 0 where
  pub to_lower : ℕ → ℕ
  pub is_space : ℕ → Bool
  pub is_print : ℕ → Bool
  pub pg_lower : Bytes → Bytes
  pub like : Bytes → Bytes → Bool

-- strings.TrimSpace
unfoldable pub drop_spaces : (ℕ → Bool) → Bytes → Bytes
drop_spaces is_space [] = []
drop_spaces is_space (c ∷ cs) =
    let rest = drop_spaces is_space cs in if is_space c then rest else c ∷ cs

unfoldable pub drop_last_spaces : (ℕ → Bool) → Bytes → Bytes
drop_last_spaces is_space [] = []
drop_last_spaces is_space (c ∷ cs) =
    let rest = drop_last_spaces is_space cs in
    if is_space c && length rest == 0 then [] else c ∷ rest

unfoldable pub keep_printable : (ℕ → Bool) → Bytes → Bytes
keep_printable is_print [] = []
keep_printable is_print (c ∷ cs) =
    let rest = keep_printable is_print cs in if is_print c then c ∷ rest else rest

unfoldable pub normalize_prefix : Unicode → Bytes → Bytes
unfolding drop_spaces drop_last_spaces keep_printable
normalize_prefix u s =
    let trimmed = drop_last_spaces u.is_space (drop_spaces u.is_space (map u.to_lower s)) in
    take 64 (keep_printable u.is_print trimmed)

-- The loop of GeneratePrefixes, from a length on.
unfoldable pub prefixes_from : ℕ → ℕ → Bytes → List Bytes
prefixes_from i zero runes = []
prefixes_from i (suc n) runes = take i runes ∷ prefixes_from (suc i) n runes

-- `max_len` is 0 for every length that is not positive.
unfoldable pub generate_prefixes : Unicode → Bytes → ℕ → List Bytes
unfolding prefixes_from normalize_prefix
generate_prefixes u text max_len =
    let normalized = normalize_prefix u text in
    let n =
      if max_len == 0 || ltb (length normalized) max_len then length normalized else max_len in
    prefixes_from 1 n normalized

-- The key of the sorted set for a prefix.
unfoldable pub prefix_key : Bytes → Bytes → Bytes
prefix_key prefix locale = codes "ac:pfx:" ++ (locale ++ (codes ":" ++ prefix))
