-- ===== src/RateLimiter/Tests.antt =====
-- Runs of the limiter, and its theorems at one input each.
use system_design.Common.{ℕ, ◌≡◌, refl, List, [], ◌∷◌, arith}
use system_design.RateLimiter.{new_sliding_window, allow, count, evict}
use system_design.RateLimiter.Window.{granted}
use system_design.RateLimiter.Reference.{reference, granted-reference}

abbrev calls : List ℕ
calls = 100 ∷ 101 ∷ 102 ∷ 110 ∷ 111 ∷ 112 ∷ []

-- A request exactly one window old still counts.
granted_runs : granted calls (new_sliding_window 2 10) ≡ 100 ∷ 101 ∷ 111 ∷ 112 ∷ []
unfolding granted evict new_sliding_window
granted_runs = refl

count_runs : (count 112 (allow 111 (allow 101 (new_sliding_window 2 10)).1).1).0 ≡ 1
unfolding count allow new_sliding_window
count_runs = refl

granted-reference_example : granted calls (new_sliding_window 2 10) ≡ reference 2 10 calls []
granted-reference_example = granted-reference 2 10 calls (omega arith)
