-- ===== src/Typeahead/Tests.antt =====
-- Runs of the typeahead on ASCII texts over the server in memory, and its theorems at one input
-- each.
use system_design.Common.{
  ℕ, ◌+◌, ◌-◌, ◌<◌, ◌≡◌, ◌≢◌, refl, true, ◌&&◌, List, [], ◌∷◌, map, Option, none, some, ltb, leb,
  ◌==◌, if◌then◌else◌, length, take, All, arith,
}
use system_design.Common.Bytes.{Bytes, codes, beq}
use system_design.Common.Assoc.{contains, lookup}
use system_design.Common.Text.{has_prefix}
use system_design.Typeahead.{
  Unicode, normalize_prefix, generate_prefixes, prefix_key, max_prefix_len,
}
use system_design.Typeahead.Memory.{memory, memory-IsLawful}
use system_design.Typeahead.Store.{
  Item, Suggestion, Store, delete_item, bump, increment_popularity, suggest, rebuild_index,
  to_suggestion,
}
use system_design.Typeahead.Rebuilt.{Any, IsEntry, top-rebuild_index}
use system_design.Typeahead.Stale.{rows_for, found_for, suggest-suggest}

abbrev lower : ℕ → ℕ
lower c = if leb 65 c && leb c 90 then c + 32 else c

abbrev ascii : Unicode
ascii = record {
  to_lower = lower;
  is_space = λ c. c == 32;
  is_print = λ c. leb 32 c && ltb c 127;
  pg_lower = map lower;
  like = λ text pattern. has_prefix (take (length pattern - 1) pattern) text;
}

prefixes_run : generate_prefixes ascii (codes " Go! ") 2 ≡ codes "g" ∷ codes "go" ∷ []
unfolding generate_prefixes
prefixes_run = refl

-- A space behind a character that is not printable stays.
normalize_space : normalize_prefix ascii (1 ∷ codes " a") ≡ codes " a"
unfolding normalize_prefix
normalize_space = refl

abbrev item : ℕ → Bytes → ℕ → Item ℕ
item id text popularity = record {
  id = id;
  text = text;
  category = codes "c";
  popularity = popularity;
  locale = codes "en";
}

abbrev start : List (Item ℕ) → Store ascii memory
unfolding memory
start items = record {
  items = items;
  index = [];
  stats = record { total_items = 0; total_prefixes = 0 };
}

abbrev two : Store ascii memory
two = start (item 1 (codes "go") 5 ∷ item 2 (codes "gold") 7 ∷ [])

abbrev key : Bytes
key = prefix_key (codes "g") (codes "en")

abbrev rebuilt : Store ascii memory
rebuilt = (rebuild_index ascii memory true true two).1

rebuild_runs :
    (rebuild_index ascii memory true true two).0
    ≡ some (record { total_items = 2; total_prefixes = 4 })
unfolding rebuild_index memory beq generate_prefixes prefix_key
rebuild_runs = refl

abbrev ask : ℕ → Store ascii memory → Option (List (Suggestion ℕ)) × Store ascii memory
ask limit s = suggest ascii memory (λ a b. ltb b a) true true (codes "g") (codes "en") limit s

abbrev shown : Item ℕ → Suggestion ℕ
unfolding to_suggestion
shown i = to_suggestion i

suggest_runs :
    (ask 0 rebuilt).0 ≡ some (shown (item 2 (codes "gold") 7) ∷ shown (item 1 (codes "go") 5) ∷ [])
unfolding rebuild_index memory suggest beq generate_prefixes prefix_key
suggest_runs = refl

-- One suggestion is asked for, then ten.
suggest_stuck : (ask 10 (ask 1 two).1).0 ≡ some (shown (item 2 (codes "gold") 7) ∷ [])
unfolding memory suggest beq has_prefix prefix_key
suggest_stuck = refl

-- A deleted item is suggested until the next rebuild.
suggest_deleted :
    (ask 1 (delete_item ascii memory true 2 rebuilt).1).0
    ≡ some (shown (item 2 (codes "gold") 7) ∷ [])
unfolding rebuild_index memory suggest delete_item beq generate_prefixes prefix_key
suggest_deleted = refl

-- A click makes a second suggestion of the same item, without its category.
click_twice :
    (ask 10 (increment_popularity ascii memory ◌+◌ true true 1 1 rebuilt).1).0
    ≡ some (
        shown (item 2 (codes "gold") 7)
        ∷ shown (record (item 1 (codes "go") 6) { category = [] })
        ∷ shown (item 1 (codes "go") 5)
        ∷ [])
unfolding rebuild_index memory suggest increment_popularity beq generate_prefixes prefix_key
click_twice = refl

key_prefix : has_prefix (codes "ac:pfx:") key ≡ true
unfolding has_prefix prefix_key
key_prefix = refl

top-rebuild_index_example :
    All (λ e. Any (IsEntry ascii memory key e.0 e.1) two.items) (memory.top key 5 rebuilt.index)
top-rebuild_index_example = top-rebuild_index ascii memory memory-IsLawful key 5 two key_prefix

cold : (m : Bytes) → memory.zscore (prefix_key (codes "g") (codes "en")) m two.index ≡ none
unfolding memory lookup
cold m = refl

warm :
    0
    < length (
        found_for ascii memory memory-IsLawful
          (λ a b. ltb b a)
          (codes "g")
          (codes "en")
          10
          (ask 1 two).1)
unfolding memory suggest beq has_prefix prefix_key
warm = omega arith

suggest-suggest_example :
    (ask 1 two).0
    ≡ some (
        map to_suggestion
          (rows_for ascii memory memory-IsLawful (λ a b. ltb b a) (codes "g") (codes "en") 1 two))
suggest-suggest_example =
    (suggest-suggest ascii memory memory-IsLawful (λ a b. ltb b a) (codes "g") (codes "en") true 1
      10 two cold warm).0

bumped : (bump ◌+◌ 1 1 two.items).0 ≡ some (item 1 (codes "go") 6)
unfolding bump start
bumped = refl

has_category : (item 1 (codes "go") 6).category ≢ []
has_category e = cc e

indexed : contains (codes "g") (generate_prefixes ascii (codes "go") max_prefix_len) ≡ true
unfolding generate_prefixes contains beq
indexed = refl
