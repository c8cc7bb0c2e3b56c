-- ===== src/Crawler/Robots.antt =====
-- Robots rules (ParseRobotsTxt and IsAllowed of projects/12-web-crawler/crawler/crawler.go).
use system_design.Common.{
  ℕ, ◌+◌, ◌-◌, ◌*◌, Bool, true, false, ◌&&◌, ◌||◌, not, List, [], ◌∷◌, ◌++◌, ltb, leb, ◌==◌,
  if◌then◌else◌, length, drop,
}
use system_design.Common.Bytes.{Bytes, codes, beq}
use system_design.Common.Text.{has_prefix, split}
use system_design.Crawler.Text.{trim_space, to_lower}

-- The paths that are disallowed, and the delay in seconds, 0 for none.
pub record Rules : Type 0 where
  pub disallowed : List Bytes
  pub crawl_delay : ℕ

-- What a line is: an agent, a rule, or neither.
pub data Line : Type 0 where
  agent : Bytes → Line
  disallow : Bytes → Line
  delay : Bytes → Line
  other : Line

unfoldable pub value_of : Bytes → Bytes → Bytes
unfolding trim_space
value_of key line = trim_space (drop (length key) line)

unfoldable pub line_of : Bytes → Line
unfolding trim_space to_lower has_prefix value_of
line_of raw =
    let line = trim_space raw in
    let low = to_lower line in
    if has_prefix (codes "user-agent:") low
    then agent (value_of (codes "user-agent:") line)
    else if has_prefix (codes "disallow:") low
    then disallow (value_of (codes "disallow:") line)
    else if has_prefix (codes "crawl-delay:") low
    then delay (value_of (codes "crawl-delay:") line)
    else other

unfoldable pub is_for : Bytes → Bytes → Bool
unfolding to_lower beq
is_for ua val = beq val (codes "*") || beq (to_lower val) (to_lower ua)

-- The decimal digits that a text begins with.
unfoldable pub leading_number : ℕ → Bytes → ℕ
leading_number secs [] = secs
leading_number secs (c ∷ cs) =
    let more = leading_number (secs * 10 + (c - 48)) cs in
    if leb 48 c && leb c 57 then more else secs

unfoldable pub apply_line : Line → Rules → Rules
unfolding leading_number
apply_line (agent val) r = r
apply_line (disallow path) r =
    if length path == 0 then r else record r { disallowed = r.disallowed ++ path ∷ [] }
apply_line (delay val) r =
    let secs = leading_number 0 val in if ltb 0 secs then record r { crawl_delay = secs } else r
apply_line other r = r

-- The loop over the lines, with whether the last agent line was ours.
unfoldable pub rules_from : Bytes → Bool → List Line → Rules → Rules
unfolding is_for apply_line
rules_from ua active [] r = r
rules_from ua active (agent val ∷ ls) r = rules_from ua (is_for ua val) ls r
rules_from ua active (disallow path ∷ ls) r =
    rules_from ua active ls (if active then apply_line (disallow path) r else r)
rules_from ua active (delay val ∷ ls) r =
    rules_from ua active ls (if active then apply_line (delay val) r else r)
rules_from ua active (other ∷ ls) r = rules_from ua active ls r

unfoldable pub lines_of : List Bytes → List Line
unfolding line_of
lines_of [] = []
lines_of (raw ∷ raws) = line_of raw ∷ lines_of raws

unfoldable pub parse_robots_txt : Bytes → Bytes → Rules
unfolding rules_from lines_of split
parse_robots_txt body ua =
    rules_from ua false (lines_of (split 10 body)) (record { disallowed = []; crawl_delay = 0 })

unfoldable pub is_allowed : Bytes → List Bytes → Bool
unfolding has_prefix
is_allowed path [] = true
is_allowed path (p ∷ ps) =
    let rest = is_allowed path ps in
    if not (length p == 0) && has_prefix p path then false else rest
