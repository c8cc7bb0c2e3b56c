-- ===== src/Balancer/Tests.antt =====
-- A pool of three backends, one of which is not healthy.
use system_design.Common.{ℕ, Bool, [], ◌∷◌, ltb}
use system_design.Common.Bytes.{Bytes, codes}
use system_design.Balancer.{Status, healthy, unhealthy, weighted_round_robin, Backend, Pool, next}
use system_design.Balancer.Choice.{Chosen, next-Chosen}

abbrev backend : Bytes → ℕ → Status → Backend
backend url weight status = record {
  url = url;
  service = codes "web";
  weight = weight;
  active_conns = 0;
  total_conns = 0;
  status = status;
}

abbrev one : Backend
one = backend (codes "http://one") 2 healthy

abbrev two : Backend
two = backend (codes "http://two") 3 healthy

abbrev down : Backend
down = backend (codes "http://down") 9 unhealthy

abbrev pool : Pool
pool = record { backends = one ∷ down ∷ two ∷ []; algorithm = weighted_round_robin; rr_counter = 7 }

abbrev less_loaded : Backend → Backend → Bool
less_loaded a b = ltb a.active_conns b.active_conns

next-Chosen_example : Chosen pool.backends (next less_loaded pool).1
next-Chosen_example = next-Chosen less_loaded pool
