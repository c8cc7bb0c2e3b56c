-- ===== src/RateLimiter.antt =====
-- The rate limiter (projects/01-rate-limiter/internal): the sliding window of
-- algorithm/sliding_window.go and the cache of policies of policy/policy.go. The clock is an
-- argument; each operation under a lock is one step.
pub mod Window
pub mod Reference
pub mod Policies
mod Tests
use system_design.Common.{
  ℕ, ◌+◌, ◌-◌, Bool, true, false, List, [], ◌∷◌, ◌++◌, Option, none, some, ltb, if◌then◌else◌,
  length,
}
use system_design.Common.Bytes.{Bytes}
use system_design.Common.Assoc.{lookup, insert, remove}

pub record SlidingWindow : Type 0 where
  pub limit : ℕ
  pub window : ℕ
  pub requests : List ℕ

unfoldable pub new_sliding_window : ℕ → ℕ → SlidingWindow
new_sliding_window limit window = record { limit = limit; window = window; requests = [] }

-- Evicts the requests before the cutoff, from the front.
unfoldable pub evict : ℕ → List ℕ → List ℕ
evict cutoff [] = []
evict cutoff (r ∷ rs) = let rest = evict cutoff rs in if ltb r cutoff then rest else r ∷ rs

unfoldable pub allow : ℕ → SlidingWindow → Bool × SlidingWindow
unfolding evict
allow now sw =
    let kept = evict (now - sw.window) sw.requests in
    if ltb (length kept) sw.limit
    then (true, record sw { requests = kept ++ now ∷ [] })
    else (false, record sw { requests = kept })

unfoldable pub count : ℕ → SlidingWindow → ℕ × SlidingWindow
unfolding evict
count now sw =
    let kept = evict (now - sw.window) sw.requests in (length kept, record sw { requests = kept })

-- The cache of policies, whatever a policy is: each with the time it expires.
abbrev pub Entries : Type 0 → Type 0
Entries P = List (Bytes × (P × ℕ))

module _ {P : Type 0} where
  -- The first part of Get, under the read lock: a fresh entry.
  unfoldable pub cached : ℕ → Bytes → Entries P → Option P
  unfolding lookup
  cached now id c = elim (lookup id c) [
    | none ↦ none
    | some (p, expires_at) ↦ if ltb now expires_at then some p else none
  ]

  -- The last part of Get, under the lock, with the policy that the store gave.
  unfoldable pub keep : ℕ → ℕ → Bytes → P → Entries P → Entries P
  unfolding insert
  keep now ttl id p c = insert id (p, now + ttl) c

  -- Get when nothing runs between its parts; the store is an argument, `none` for its error.
  unfoldable pub get : ℕ → ℕ → (Bytes → Option P) → Bytes → Entries P → Option P × Entries P
  unfolding cached keep
  get now ttl store id c = elim (cached now id c) [
    | some p ↦ (some p, c)
    | none ↦ elim (store id) [ none ↦ (none, c) | some p ↦ (some p, keep now ttl id p c) ]
  ]

  unfoldable pub invalidate : Bytes → Entries P → Entries P
  unfolding remove
  invalidate id c = remove id c
