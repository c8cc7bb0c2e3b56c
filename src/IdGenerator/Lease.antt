-- ===== src/IdGenerator/Lease.antt =====
-- The lease of worker ids (projects/04-unique-id-generator/lease/lease.go). The row of a worker id
-- is the one at its position: the migration puts one there for each. Times are milliseconds, and
-- NOW() of a statement is an argument. The region and the holder's text, which no statement
-- compares but with the empty one, are left out: a row is held or not.
pub mod Rows
pub mod Terms
pub mod Exclusive
mod Tests
use system_design.Common.{
  ℕ, zero, suc, ◌+◌, ◌-◌, ◌≤◌, ◌<◌, ◌≡◌, Bool, true, false, ◌&&◌, ◌||◌, not, List, [], ◌∷◌, Option,
  none, some, ltb, leb, ◌==◌, if◌then◌else◌,
}
use system_design.Common.Bytes.{Bytes}

abbrev pub ttl : ℕ
ttl = 30000

pub record Lease : Type 0 where
  pub held : Bool
  pub expires_at : ℕ

abbrev pub Leases : Type 0
Leases = List Lease

unfoldable pub is_available : ℕ → Lease → Bool
is_available now l = ltb l.expires_at now || not l.held

-- The cleanup at the beginning of Acquire.
unfoldable pub clear_stale : ℕ → Leases → Leases
clear_stale now [] = []
clear_stale now (l ∷ t) =
    (if ltb l.expires_at now && l.held then record { held = false; expires_at = now - 1000 } else l)
    ∷ clear_stale now t

unfoldable pub is_locked : ℕ → List ℕ → Bool
is_locked w [] = false
is_locked w (v ∷ vs) = v == w || is_locked w vs

-- The first available row that no other transaction has locked, from a worker id on.
unfoldable pub pick_from : ℕ → ℕ → List ℕ → Leases → Option ℕ
unfolding is_available is_locked
pick_from w now locked [] = none
pick_from w now locked (l ∷ t) =
    let rest = pick_from (suc w) now locked t in
    if is_available now l && not (is_locked w locked) then some w else rest

-- UPDATE ... WHERE worker_id = w
unfoldable pub adjust : ℕ → (Lease → Lease) → Leases → Leases
adjust w f [] = []
adjust zero f (l ∷ t) = f l ∷ t
adjust (suc w) f (l ∷ t) = l ∷ adjust w f t

-- The worker id, none for an error, and the table. The cleanup, the selection and the transaction
-- may fail; the first failure is only logged.
unfoldable pub acquire : Bool → Bool → ℕ → List ℕ → Leases → Option ℕ × Leases
unfolding clear_stale pick_from adjust
acquire cleanup_ok tx_ok now locked t =
    let cleared = if cleanup_ok then clear_stale now t else t in
    elim (pick_from 0 now locked cleared) [
      | none ↦ (none, cleared)
      | some w ↦
          if tx_ok
          then (some w, adjust w (λ l. record { held = true; expires_at = now + ttl }) cleared)
          else (none, cleared)
    ]

unfoldable pub row : ℕ → Leases → Option Lease
row w [] = none
row zero (l ∷ t) = some l
row (suc w) (l ∷ t) = row w t

-- Whether a row was extended, which renew reports, and the table.
unfoldable pub renew : ℕ → ℕ → Leases → Bool × Leases
unfolding adjust row
renew now w t = (
  elim (row w t) [ none ↦ false | some l ↦ leb now l.expires_at ],
  adjust w (λ l. if leb now l.expires_at then record l { expires_at = now + ttl } else l) t,
)

unfoldable pub release : ℕ → ℕ → Leases → Leases
unfolding adjust
release now w t = adjust w (λ l. record { held = false; expires_at = now - 1000 }) t
