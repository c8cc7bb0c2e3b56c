-- ===== src/Gateway/Quota.antt =====
-- The limiter of store/redis.go: a sorted set for each key, with the times of its requests in
-- nanoseconds. A score is the time as a float64, so that the conversion is an argument. An expired
-- set is as good as absent; the process and the server have the same clock.

pub mod Kept
pub mod Reference
use system_design.Common.{
  ℕ, zero, suc, ◌+◌, ◌-◌, Bool, true, false, not, List, [], ◌∷◌, ◌++◌, Option, none, some, ltb, leb,
  ◌==◌, if◌then◌else◌, length,
}
use system_design.Common.Bytes.{Bytes, codes}
use system_design.Common.Assoc.{lookup, insert}

abbrev pub minute : ℕ
minute = 60000000000

-- No set is one without members, and without a time to live.
pub record Zset : Type 0 where
  pub members : List ℕ
  pub expires_at : Option ℕ

abbrev pub Sets : Type 0
Sets = List (Bytes × Zset)

-- How a pipeline ends: all of it is done, or an error after this many of its commands.
pub data Exec : Type 0 where
  done : Exec
  cut : ℕ → Exec

abbrev pub rl_key : Bytes → Bytes
rl_key id = codes "rl:" ++ id

-- ZREMRANGEBYSCORE from 0 to this score, which are not negative.
unfoldable pub remove_until : (ℕ → ℕ) → ℕ → List ℕ → List ℕ
remove_until score top [] = []
remove_until score top (t ∷ ts) =
    let rest = remove_until score top ts in if leb (score t) top then rest else t ∷ rest

-- ZADD of a member whose score is its own.
unfoldable pub zadd : ℕ → List ℕ → List ℕ
zadd t [] = t ∷ []
zadd t (u ∷ us) = let rest = zadd t us in if u == t then u ∷ us else u ∷ rest

abbrev pub is_over : ℕ → Option ℕ → Bool
is_over now none = false
is_over now (some at) = leb at now

-- What the server has of a key now.
unfoldable pub live : ℕ → Option Zset → Zset
live now none = record { members = []; expires_at = none }
live now (some z) =
    if is_over now z.expires_at then record { members = []; expires_at = none } else z

-- The set after the first commands of the pipeline: remove, count, add, expire.
unfoldable pub after_commands : (ℕ → ℕ) → ℕ → ℕ → Zset → Zset
unfolding remove_until zadd
after_commands score now n z =
    let kept = if leb 1 n then remove_until score (score (now - minute)) z.members else z.members in
    record {
      members = if leb 3 n then zadd now kept else kept;
      expires_at =
          if leb 4 n
          then some (now + 120000000000)
          else if length kept == 0
          then none
          else z.expires_at;
    }

-- Allow at this time: the sets behind it and the answer, none for an error.
unfoldable pub allow : (ℕ → ℕ) → Exec → ℕ → Sets → Bytes → ℕ → Sets × Option Bool
unfolding after_commands live lookup insert
allow score done now sets id limit =
    let z = live now (lookup (rl_key id) sets) in
    (
      insert (rl_key id) (after_commands score now 4 z) sets,
      some (ltb (length (remove_until score (score (now - minute)) z.members)) limit),
    )
allow score (cut n) now sets id limit =
    let z = live now (lookup (rl_key id) sets) in
    (if n == 0 then sets else insert (rl_key id) (after_commands score now n z) sets, none)

-- ZCOUNT from this score on.
unfoldable pub count_from : (ℕ → ℕ) → ℕ → List ℕ → ℕ
count_from score bottom [] = 0
count_from score bottom (t ∷ ts) =
    let rest = count_from score bottom ts in if ltb (score t) bottom then rest else suc rest

unfoldable pub remaining : (ℕ → ℕ) → ℕ → Sets → Bytes → ℕ → ℕ
unfolding count_from live lookup
remaining score now sets id limit =
    limit - count_from score (score (now - minute)) (live now (lookup (rl_key id) sets)).members
