-- ===== src/IdGenerator/Lease/Rows.antt =====
-- Rows under the statements.
use system_design.Common.{
  ℕ, zero, suc, ◌+◌, ◌≤◌, ◌≡◌, ◌≢◌, refl, sym, subst, ap, true, false, not, ◌&&◌, List, [], ◌∷◌,
  some, ltb, arith, Bool-cases, inl, inr,
}
use system_design.IdGenerator.Lease.{
  Lease, Leases, row, adjust, clear_stale, pick_from, is_available, is_locked,
}

pub row-adjust :
    (w : ℕ) (f : Lease → Lease) (t : Leases) {l : Lease}
    → row w t ≡ some l
    → row w (adjust w f t) ≡ some (f l)
unfolding row adjust
row-adjust w f [] e = absurd (cc e)
row-adjust zero f (x ∷ t) {l} e = let same : x ≡ l = cc e in ap (λ y. some (f y)) same
row-adjust (suc w) f (x ∷ t) e = row-adjust w f t e

pub row-adjust_ne :
    (w v : ℕ) (f : Lease → Lease) (t : Leases) → v ≢ w → row v (adjust w f t) ≡ row v t
unfolding row adjust
row-adjust_ne w v f [] ne = refl
row-adjust_ne zero zero f (x ∷ t) ne = absurd (ne refl)
row-adjust_ne zero (suc v) f (x ∷ t) ne = refl
row-adjust_ne (suc w) zero f (x ∷ t) ne = refl
row-adjust_ne (suc w) (suc v) f (x ∷ t) ne = row-adjust_ne w v f t (λ e. ne (ap suc e))

-- A row that is not over is not cleared.
pub row-clear_stale :
    (now w : ℕ) (t : Leases) {l : Lease}
    → row w t ≡ some l
    → now ≤ l.expires_at
    → row w (clear_stale now t) ≡ some l
unfolding row clear_stale
row-clear_stale now w [] e h = absurd (cc e)
row-clear_stale now zero (x ∷ t) {l} e h =
    let same : x ≡ l = cc e in
    let fresh : (ltb x.expires_at now && x.held) ≡ false =
      subst (λ y. (ltb y.expires_at now && y.held) ≡ false) (sym same) (ground arith) in
    rw fresh e
row-clear_stale now (suc w) (x ∷ t) e h = row-clear_stale now w t e h

-- The row that is picked is available and not locked, and no earlier one is both.
pub pick_from-row :
    (b now : ℕ) (locked : List ℕ) (t : Leases) {w : ℕ}
    → pick_from b now locked t ≡ some w
    → (i : ℕ) × (w ≡ b + i) × (l : Lease) × (row i t ≡ some l) × (is_available now l ≡ true)
unfolding pick_from row
pick_from-row b now locked [] e = absurd (cc e)
pick_from-row b now locked (x ∷ t) {w} e =
    elim (Bool-cases (is_available now x && not (is_locked b locked))) [
      | inl fit ↦
          let first : some b ≡ some w = rw (fit, pick_from) at e in
          (0, ground (arith, first), x, refl, ground arith)
      | inr unfit ↦
          let (i, place, l, there, ok) =
            pick_from-row (suc b) now locked t (rw (unfit, pick_from) at e) in
          (suc i, omega arith, l, there, ok)
    ]
