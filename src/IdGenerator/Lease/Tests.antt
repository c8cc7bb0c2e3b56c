-- ===== src/IdGenerator/Lease/Tests.antt =====
-- Runs of the lease, and its theorems at one input each.
use system_design.Common.{◌+◌, ◌≡◌, refl, true, false, [], ◌∷◌, some}
use system_design.IdGenerator.Lease.{Leases, acquire, ttl}
use system_design.IdGenerator.Lease.Terms.{Fleet, IsSound, gain}
use system_design.IdGenerator.Lease.Exclusive.{here, next, Reach-IsSound}

-- The first is held, the second is over, the third is free.
abbrev table : Leases
table =
    record { held = true; expires_at = 90000 }
    ∷ record { held = true; expires_at = 50000 }
    ∷ record { held = false; expires_at = 0 }
    ∷ []

acquire_runs : (acquire true true 60000 [] table).0 ≡ some 1
unfolding acquire
acquire_runs = refl

acquire_skips_locked : (acquire true true 60000 (1 ∷ []) table).0 ≡ some 2
unfolding acquire
acquire_skips_locked = refl

abbrev start : Fleet
start = record { leases = table; terms = []; now = 60000 }

-- Two processes acquire, and time passes.
abbrev first : Fleet
first = record {
  leases = (acquire true true 60000 [] table).1;
  terms = record { worker_id = 1; until = 60000 + ttl } ∷ [];
  now = 60000;
}

acquire_next : (acquire true true 60000 [] first.leases).0 ≡ some 2
unfolding acquire
acquire_next = refl

abbrev last : Fleet
last = record {
  leases = (acquire true true 60000 [] first.leases).1;
  terms =
      record { worker_id = 2; until = 60000 + ttl }
      ∷ record { worker_id = 1; until = 60000 + ttl }
      ∷ [];
  now = 60000;
}

Reach-IsSound_example : IsSound last
Reach-IsSound_example = Reach-IsSound table 60000 (
    next (next here (gain true true [] 1 start acquire_runs))
      (gain true true [] 2 first acquire_next))
