-- ===== src/RateLimiter/Window.antt =====
-- What the sliding window lets pass.
use system_design.Common.{
  ℕ, ◌+◌, ◌-◌, ◌≤◌, ◌≡◌, refl, ◌&&◌, List, [], ◌∷◌, ◌++◌, ltb, leb, if◌then◌else◌, length, arith,
  Bool-cases, inl, inr,
}
use system_design.RateLimiter.{SlidingWindow, new_sliding_window, evict, allow}

-- The times at which Allow says yes, of the calls at the given times.
unfoldable pub granted : List ℕ → SlidingWindow → List ℕ
unfolding allow
granted [] sw = []
granted (t ∷ ts) sw =
    let (ok, after) = allow t sw in let rest = granted ts after in if ok then t ∷ rest else rest

-- How many times lie between two bounds, both included.
unfoldable pub count_between : ℕ → ℕ → List ℕ → ℕ
count_between a b [] = 0
count_between a b (t ∷ ts) =
    let rest = count_between a b ts in if leb a t && leb t b then rest + 1 else rest

-- Times that do not go back, from `lo` on.
abbrev pub Ascends : ℕ → List ℕ → Type 0
Ascends lo [] = Unit
Ascends lo (t ∷ ts) = (lo ≤ t) × Ascends t ts

unfoldable pub count_from : ℕ → List ℕ → ℕ
count_from a [] = 0
count_from a (t ∷ ts) = let rest = count_from a ts in if leb a t then rest + 1 else rest

count_from-append :
    (a : ℕ) (ts : List ℕ) (t : ℕ) → count_from a (ts ++ t ∷ []) ≡ count_from a (t ∷ ts)
unfolding count_from
count_from-append a [] t = refl
count_from-append a (x ∷ ts) t = ground (arith, count_from-append a ts t)

-- An eviction does not change what is counted from the cutoff on.
pub count_from-evict :
    (a cutoff : ℕ) (ts : List ℕ) → cutoff ≤ a → count_from a (evict cutoff ts) ≡ count_from a ts
unfolding count_from evict
count_from-evict a cutoff [] h = refl
count_from-evict a cutoff (x ∷ ts) h = ground (arith, count_from-evict a cutoff ts)

count_from-le : (a : ℕ) (ts : List ℕ) → count_from a ts ≤ length ts
unfolding count_from
count_from-le a [] = omega arith
count_from-le a (t ∷ ts) = ground (arith, count_from-le a ts)

count_between-le : (a b : ℕ) (ts : List ℕ) → count_between a b ts ≤ count_from a ts
unfolding count_between count_from
count_between-le a b [] = omega arith
count_between-le a b (t ∷ ts) = ground (arith, count_between-le a b ts)

module _ (w k : ℕ) where
  -- The log of all that was granted agrees with what the limiter keeps, from the last cutoff on,
  -- and no interval of the window's length has more than the limit.
  pub record Agrees (sw : SlidingWindow) (last : ℕ) (log : List ℕ) : Type 0 where
    pub window : sw.window ≡ w
    pub limit : sw.limit ≡ k
    pub same : (a : ℕ) → last ≤ a + w → count_from a log ≡ count_from a sw.requests
    pub bounded : (a : ℕ) → count_between a (a + w) log ≤ k

  pub allow-Agrees :
      (t last : ℕ) (sw : SlidingWindow) (log : List ℕ)
      → last ≤ t
      → Agrees sw last log
      → Agrees (allow t sw).1 t (if (allow t sw).0 then t ∷ log else log)
  unfolding allow count_from count_between
  allow-Agrees t last sw log h v =
      let kept : List ℕ = evict (t - sw.window) sw.requests in
      elim (Bool-cases (ltb (length kept) sw.limit)) [
        | inl room ↦ rw room (record {
          window = v.window;
          limit = v.limit;
          same = λ a near. ground (
            arith,
            v.window,
            count_from-append a kept t,
            count_from-evict a (t - sw.window) sw.requests,
            v.same a,
          );
          bounded = λ a. ground (
            arith,
            v.window,
            v.limit,
            count_between-le a (a + w) log,
            v.same a,
            count_from-evict a (t - sw.window) sw.requests,
            count_from-le a kept,
            v.bounded a,
          );
        })
        | inr full ↦ rw full (record {
          window = v.window;
          limit = v.limit;
          same = λ a near.
              ground (arith, v.window, count_from-evict a (t - sw.window) sw.requests, v.same a);
          bounded = v.bounded;
        })
      ]

  -- What is granted later keeps every interval within the limit.
  granted-bounded :
      (ts : List ℕ) (last : ℕ) (sw : SlidingWindow) (log : List ℕ)
      → Ascends last ts
      → Agrees sw last log
      → (a : ℕ) → count_between a (a + w) log + count_between a (a + w) (granted ts sw) ≤ k
  unfolding granted count_between
  granted-bounded [] last sw log up v a = omega (arith, v.bounded a)
  granted-bounded (t ∷ ts) last sw log up v a = elim (Bool-cases (allow t sw).0) [
    | inl pass ↦ rw pass (
        ground (
          arith,
          granted-bounded ts t (allow t sw).1 (t ∷ log) up.1
              (rw pass at (allow-Agrees t last sw log up.0 v)) a,
        ))
    | inr deny ↦ rw deny (
        granted-bounded ts t (allow t sw).1 log up.1
          (rw deny at (allow-Agrees t last sw log up.0 v)) a)
  ]

-- Of any calls of Allow at times that do not go back, on a new limiter, no interval of the length
-- of the window, both ends included, has more that are let pass than the limit, wherever the
-- interval lies.
pub granted_within_limit :
    (limit window : ℕ) (ts : List ℕ)
    → Ascends 0 ts
    → (a : ℕ) → count_between a (a + window) (granted ts (new_sliding_window limit window)) ≤ limit
unfolding new_sliding_window count_from count_between
granted_within_limit limit window ts up a = omega (
  arith,
  granted-bounded window limit ts 0 (new_sliding_window limit window) [] up
      (record { window = refl; limit = refl; same = λ a near. refl; bounded = λ a. omega arith }) a,
)
