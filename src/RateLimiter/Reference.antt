-- ===== src/RateLimiter/Reference.antt =====
-- The sliding window against the whole log of what was let pass.
use system_design.Common.{
  ℕ, ◌-◌, ◌≤◌, ◌≡◌, refl, sym, ◌∙◌, ap, true, false, List, [], ◌∷◌, ◌++◌, ltb, if◌then◌else◌,
  length, All, All-append, arith, Bool-cases, inl, inr,
}
use native.Mathlib.Nat.{le_refl}
use system_design.RateLimiter.{SlidingWindow, new_sliding_window, evict, allow}
use system_design.RateLimiter.Window.{
  granted, count_between, count_from, Ascends, count_from-evict, Agrees, allow-Agrees,
}

-- Allow by the whole log of what was granted, the newest first: yes if fewer than the limit lie
-- within the window before now.
unfoldable pub reference : ℕ → ℕ → List ℕ → List ℕ → List ℕ
unfolding count_between
reference limit window [] log = []
reference limit window (t ∷ ts) log =
    let ok = ltb (count_between (t - window) t log) limit in
    let rest = reference limit window ts (if ok then t ∷ log else log) in
    if ok then t ∷ rest else rest

count_from-Ascends : (a lo : ℕ) (ts : List ℕ) → a ≤ lo → Ascends lo ts → count_from a ts ≡ length ts
unfolding count_from
count_from-Ascends a lo [] h up = refl
count_from-Ascends a lo (t ∷ ts) h up = ground (arith, count_from-Ascends a t ts)

-- What an eviction keeps of times that do not go back is all from the cutoff on.
evict_all :
    (c lo : ℕ) (ts : List ℕ) → Ascends lo ts → count_from c (evict c ts) ≡ length (evict c ts)
unfolding evict count_from
evict_all c lo [] up = refl
evict_all c lo (t ∷ ts) up = elim (Bool-cases (ltb t c)) [
  | inl early ↦ rw early (evict_all c t ts up.1)
  | inr late ↦ rw late (count_from-Ascends c t (t ∷ ts) (ground arith) (omega arith, up.1))
]

Ascends-le : (a b : ℕ) (ts : List ℕ) → a ≤ b → Ascends b ts → Ascends a ts
Ascends-le a b [] h up = tt
Ascends-le a b (t ∷ ts) h up = (omega arith, up.1)

evict-Ascends : (c lo : ℕ) (ts : List ℕ) → Ascends lo ts → Ascends lo (evict c ts)
unfolding evict
evict-Ascends c lo [] up = tt
evict-Ascends c lo (t ∷ ts) up = elim (Bool-cases (ltb t c)) [
  | inl early ↦ rw early (Ascends-le lo t (evict c ts) up.0 (evict-Ascends c t ts up.1))
  | inr late ↦ rw late up
]

evict-All : (c hi : ℕ) (ts : List ℕ) → All (λ r. r ≤ hi) ts → All (λ r. r ≤ hi) (evict c ts)
unfolding evict
evict-All c hi [] h = tt
evict-All c hi (t ∷ ts) h = elim (Bool-cases (ltb t c)) [
  | inl early ↦ rw early (evict-All c hi ts h.1)
  | inr late ↦ rw late h
]

append-Ascends :
    (lo t : ℕ) (ts : List ℕ)
    → lo ≤ t
    → All (λ r. r ≤ t) ts
    → Ascends lo ts
    → Ascends lo (ts ++ t ∷ [])
append-Ascends lo t [] h below up = (h, tt)
append-Ascends lo t (x ∷ ts) h below up = (up.0, append-Ascends x t ts below.0 below.1 up.1)

All-later : (a b : ℕ) (ts : List ℕ) → a ≤ b → All (λ r. r ≤ a) ts → All (λ r. r ≤ b) ts
All-later a b [] h below = tt
All-later a b (t ∷ ts) h below = (omega arith, All-later a b ts h below.1)

count_between-All :
    (a b : ℕ) (ts : List ℕ) → All (λ r. r ≤ b) ts → count_between a b ts ≡ count_from a ts
unfolding count_between count_from
count_between-All a b [] h = refl
count_between-All a b (t ∷ ts) h = ground (arith, count_between-All a b ts h.1, h.0)

module _ (w k : ℕ) where
  -- Nothing that is kept or logged is later than the last call, and what is kept is in order.
  record Ordered (sw : SlidingWindow) (last : ℕ) (log : List ℕ) : Type 0 where
    agrees : Agrees w k sw last log
    rising : Ascends 0 sw.requests
    kept : All (λ r. r ≤ last) sw.requests
    logged : All (λ r. r ≤ last) log

  -- The test of Allow is the test on the log.
  allow-test :
      (t last : ℕ) (sw : SlidingWindow) (log : List ℕ)
      → last ≤ t
      → Ordered sw last log
      → (allow t sw).0 ≡ ltb (count_between (t - w) t log) k
  unfolding allow
  allow-test t last sw log h v =
      let step : length (evict (t - sw.window) sw.requests) ≡ count_between (t - w) t log = ground (
        arith,
        v.agrees.window,
        evict_all (t - sw.window) 0 sw.requests v.rising,
        count_from-evict (t - sw.window) (t - sw.window) sw.requests,
        v.agrees.same (t - sw.window),
        count_between-All (t - w) t log (All-later last t log h v.logged),
      ) in
      ground (arith, step, v.agrees.limit)

  allow-Ordered :
      (t last : ℕ) (sw : SlidingWindow) (log : List ℕ)
      → last ≤ t
      → Ordered sw last log
      → Ordered (allow t sw).1 t (if (allow t sw).0 then t ∷ log else log)
  unfolding allow
  allow-Ordered t last sw log h v =
      let rest = evict (t - sw.window) sw.requests in
      let below : All (λ r. r ≤ t) rest =
        evict-All (t - sw.window) t sw.requests (All-later last t sw.requests h v.kept) in
      let rising : Ascends 0 rest = evict-Ascends (t - sw.window) 0 sw.requests v.rising in
      let agrees = allow-Agrees w k t last sw log h v.agrees in
      elim (Bool-cases (ltb (length rest) sw.limit)) [
        | inl room ↦ rw room (record {
          agrees = rw room at agrees;
          rising = append-Ascends 0 t rest (omega arith) below rising;
          kept = All-append (λ r. r ≤ t) rest (t ∷ []) below (le_refl t, tt);
          logged = (le_refl t, All-later last t log h v.logged);
        })
        | inr full ↦ rw full (record {
          agrees = rw full at agrees;
          rising = rising;
          kept = below;
          logged = All-later last t log h v.logged;
        })
      ]

  granted-from :
      (ts : List ℕ) (last : ℕ) (sw : SlidingWindow) (log : List ℕ)
      → Ascends last ts
      → Ordered sw last log
      → granted ts sw ≡ reference k w ts log
  unfolding granted reference
  granted-from [] last sw log up v = refl
  granted-from (t ∷ ts) last sw log up v =
      let step = allow-Ordered t last sw log up.0 v in
      let test = allow-test t last sw log up.0 v in
      elim (Bool-cases (allow t sw).0) [
        | inl pass ↦
            let pass' : ltb (count_between (t - w) t log) k ≡ true = sym test ∙ pass in
            rw (pass, pass')
              (ap (◌∷◌ t) (granted-from ts t (allow t sw).1 (t ∷ log) up.1 (rw pass at step)))
        | inr deny ↦
            let deny' : ltb (count_between (t - w) t log) k ≡ false = sym test ∙ deny in
            rw (deny, deny') (granted-from ts t (allow t sw).1 log up.1 (rw deny at step))
      ]

-- Of any calls of Allow at times that do not go back, on a new limiter, those are let pass that the
-- whole log lets pass: a call is let pass exactly when fewer than the limit of those let pass
-- before it lie in the window that ends with it. What is evicted is never missed.
pub granted-reference :
    (limit window : ℕ) (ts : List ℕ)
    → Ascends 0 ts
    → granted ts (new_sliding_window limit window) ≡ reference limit window ts []
unfolding new_sliding_window count_from count_between
granted-reference limit window ts up =
    granted-from window limit ts 0 (new_sliding_window limit window) [] up (record {
      agrees = record {
        window = refl;
        limit = refl;
        same = λ a near. refl;
        bounded = λ a. omega arith;
      };
      rising = tt;
      kept = tt;
      logged = tt;
    })
