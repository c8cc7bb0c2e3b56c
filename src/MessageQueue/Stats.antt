-- ===== src/MessageQueue/Stats.antt =====
-- The counts of GetStats.
use system_design.Common.{
  ℕ, ◌+◌, ◌-◌, ◌^◌, ◌≤◌, ◌<◌, ◌≡◌, Bool, true, ◌&&◌, [], ◌∷◌, leb, ltb, length, arith,
}
use system_design.Common.Assoc.{is_some}
use system_design.Common.Words.{u64}
use system_design.MessageQueue.{Message, Table, count_where, live, get_stats}

-- A row that waits to be polled, and one that is both acknowledged and dead.
unfoldable pub ready : ℕ → Message → Bool
ready now m = live m && leb m.visible_at now

unfoldable pub acked_and_dead : Message → Bool
acked_and_dead m = is_some m.acked_at && m.dead_lettered

count_where-le : (p : Message → Bool) (t : Table) → count_where p t ≤ length t
unfolding count_where
count_where-le p [] = omega arith
count_where-le p (m ∷ t) = ground (arith, count_where-le p t)

count_where-true : (t : Table) → count_where (λ m. true) t ≡ length t
unfolding count_where
count_where-true [] = omega arith
count_where-true (m ∷ t) = ground (arith, count_where-true t)

balance :
    (now : ℕ) (t : Table)
    → length t + count_where acked_and_dead t
      ≡ count_where (λ m. is_some m.acked_at) t
        + count_where (λ m. m.dead_lettered) t
        + count_where (λ m. live m && ltb now m.visible_at) t
        + count_where (ready now) t
unfolding count_where acked_and_dead ready live
balance now [] = omega arith
balance now (m ∷ t) = ground (arith, balance now t)

-- With fewer than 2 ^ 64 rows, the pending count of the statistics is the number of rows that wait
-- to be polled, less the number of those that are both acknowledged and dead, as an int64.
pub get_stats-pending :
    (now : ℕ) (t : Table)
    → length t < 2 ^ 64
    → (get_stats now t).pending
      ≡ u64 (count_where (ready now) t + 2 ^ 64 - count_where acked_and_dead t)
unfolding get_stats
get_stats-pending now t small = omega (
  arith,
  balance now t,
  count_where-true t,
  count_where-le (λ m. is_some m.acked_at) t,
  count_where-le (λ m. m.dead_lettered) t,
  count_where-le (λ m. live m && ltb now m.visible_at) t,
  count_where-le acked_and_dead t,
)
