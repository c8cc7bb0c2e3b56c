-- ===== src/IdGenerator/Lease/Terms.antt =====
-- The terms that processes have on worker ids, and the steps of a fleet of processes.
use system_design.Common.{
  All-map, ℕ, zero, suc, ◌+◌, ◌≤◌, ◌≡◌, ◌≢◌, refl, sym, subst, ◌∙◌, ap, Bool, true, false, List, [],
  ◌∷◌, none, some, if◌then◌else◌, All, arith, Bool-cases, Option-cases, inl, inr,
}
use system_design.Common.Taking.{take_out, All-take_out}
use system_design.IdGenerator.Lease.{
  Lease, Leases, row, adjust, clear_stale, pick_from, is_available, acquire, renew, release, ttl,
}
use system_design.IdGenerator.Lease.Rows.{row-adjust_ne, row-clear_stale}

-- What a process knows of its lease: the worker id, and the end of the term.
pub record Term : Type 0 where
  pub worker_id : ℕ
  pub until : ℕ

-- The row of a term that is not over is held for as long as the term at least.
abbrev pub IsBacked : ℕ → Leases → Term → Type 0
IsBacked now t k =
    now ≤ k.until
    → (l : Lease) × (row k.worker_id t ≡ some l) × (l.held ≡ true) × (k.until ≤ l.expires_at)

-- No two terms that are not over have the same worker id.
abbrev pub AreApart : ℕ → Term → Term → Type 0
AreApart now a b = now ≤ a.until → now ≤ b.until → a.worker_id ≢ b.worker_id

abbrev pub IsExclusive : ℕ → List Term → Type 0
IsExclusive now [] = Unit
IsExclusive now (k ∷ ks) = All (AreApart now k) ks × IsExclusive now ks

pub All-both :
    (P Q R : Term → Type 0) (ks : List Term)
    → ((k : Term) → P k → Q k → R k)
    → All P ks
    → All Q ks
    → All R ks
All-both P Q R [] f h g = tt
All-both P Q R (k ∷ ks) f h g = (f k h.0 g.0, All-both P Q R ks f h.1 g.1)

-- The table, what the processes know, and the time.
pub record Fleet : Type 0 where
  pub leases : Leases
  pub terms : List Term
  pub now : ℕ

pub record IsSound (s : Fleet) : Type 0 where
  pub backed : All (IsBacked s.now s.leases) s.terms
  pub apart : IsExclusive s.now s.terms

-- The steps. A process renews or gives back its worker id only while its term is not over, and the
-- order of the terms does not matter.
pub data Step : Fleet → Fleet → Type 0 where
  wait : (later : ℕ) (s : Fleet) → s.now ≤ later → Step s (record s { now = later })
  fail :
      (cleanup_ok tx_ok : Bool) (locked : List ℕ) (s : Fleet)
      → (acquire cleanup_ok tx_ok s.now locked s.leases).0 ≡ none
      → Step s (record s { leases = (acquire cleanup_ok tx_ok s.now locked s.leases).1 })
  gain :
      (cleanup_ok tx_ok : Bool) (locked : List ℕ) (w : ℕ) (s : Fleet)
      → (acquire cleanup_ok tx_ok s.now locked s.leases).0 ≡ some w
      → Step s (record s {
        leases = (acquire cleanup_ok tx_ok s.now locked s.leases).1;
        terms = record { worker_id = w; until = s.now + ttl } ∷ s.terms;
      })
  extend :
      (i : ℕ) (k : Term) (rest : List Term) (s : Fleet)
      → take_out i s.terms ≡ some (k, rest)
      → s.now ≤ k.until
      → Step s (record s {
        leases = (renew s.now k.worker_id s.leases).1;
        terms = record k { until = s.now + ttl } ∷ rest;
      })
  leave :
      (i : ℕ) (k : Term) (rest : List Term) (s : Fleet)
      → take_out i s.terms ≡ some (k, rest)
      → s.now ≤ k.until
      → Step s (record s { leases = release s.now k.worker_id s.leases; terms = rest })

-- A process renews and gives back only its own worker id.
AreApart-sym : (now : ℕ) (a b : Term) → AreApart now a b → AreApart now b a
AreApart-sym now a b h hb ha e = h ha hb (sym e)

pub IsExclusive-take_out :
    (now i : ℕ) (ks : List Term) {k : Term} {rest : List Term}
    → take_out i ks ≡ some (k, rest)
    → IsExclusive now ks
    → All (AreApart now k) rest × IsExclusive now rest
unfolding take_out
IsExclusive-take_out now i [] e h = absurd (cc e)
IsExclusive-take_out now zero (x ∷ xs) {k} {rest} e h =
    let same : (x, xs) ≡ (k, rest) = cc e in
    subst (λ (o : Term × List Term). All (AreApart now o.0) o.1 × IsExclusive now o.1) same h
IsExclusive-take_out now (suc i) (x ∷ xs) {k} {rest} e h = elim (Option-cases (take_out i xs)) [
  | inl out ↦ absurd (cc (rw (out, take_out) at e))
  | inr ((z, zs), found) ↦
      let same : (z, x ∷ zs) ≡ (k, rest) = cc (rw (found, take_out) at e) in
      let (apart, tail) = IsExclusive-take_out now i xs found h.1 in
      let (first, others) = All-take_out (AreApart now x) i xs found h.0 in
      subst (λ (o : Term × List Term). All (AreApart now o.0) o.1 × IsExclusive now o.1) same
        ((AreApart-sym now x z first, apart), (others, tail))
]

-- What does not touch the row of a term leaves it backed.
pub adjust-IsBacked :
    (now w : ℕ) (f : Lease → Lease) (t : Leases) (k : Term)
    → (now ≤ k.until → k.worker_id ≢ w)
    → IsBacked now t k
    → IsBacked now (adjust w f t) k
adjust-IsBacked now w f t k ne h live =
    let (l, there, held, long) = h live in
    (l, row-adjust_ne w k.worker_id f t (ne live) ∙ there, held, long)

clear_stale-IsBacked :
    (now : ℕ) (t : Leases) (k : Term) → IsBacked now t k → IsBacked now (clear_stale now t) k
clear_stale-IsBacked now t k h live =
    let (l, there, held, long) = h live in
    (l, row-clear_stale now k.worker_id t there (omega (arith, long, live)), held, long)

-- An available row is that of no term that is not over.
pub available-apart :
    (now : ℕ) (t : Leases) (w : ℕ) (l : Lease) (k : Term)
    → row w t ≡ some l
    → is_available now l ≡ true
    → IsBacked now t k
    → now ≤ k.until
    → k.worker_id ≢ w
unfolding is_available
available-apart now t w l k there free h live same =
    let (m, mine, held, long) = h live in
    let it : some m ≡ some l = sym mine ∙ ap (λ v. row v t) same ∙ there in
    absurd (ground (arith, it, held, long, live, free))

unfoldable pub cleared : Bool → ℕ → Leases → Leases
cleared ok now t = if ok then clear_stale now t else t

pub cleared-IsBacked :
    (ok : Bool) (now : ℕ) (t : Leases) (ks : List Term)
    → All (IsBacked now t) ks
    → All (IsBacked now (cleared ok now t)) ks
unfolding cleared
cleared-IsBacked true now t ks h = All-map (IsBacked now t) _ ks (clear_stale-IsBacked now t) h
cleared-IsBacked false now t ks h = h

-- What an Acquire that fails, and one that succeeds, has done to the table.
pub acquire-none :
    (cleanup_ok tx_ok : Bool) (now : ℕ) (locked : List ℕ) (t : Leases)
    → (acquire cleanup_ok tx_ok now locked t).0 ≡ none
    → (acquire cleanup_ok tx_ok now locked t).1 ≡ cleared cleanup_ok now t
unfolding acquire cleared
acquire-none c x now locked t e =
    elim (Option-cases (pick_from 0 now locked (if c then clear_stale now t else t))) [
      | inl full ↦ rw (full, acquire) refl
      | inr (w, picked) ↦ elim (Bool-cases x) [
        | inl fine ↦ absurd (cc (rw (picked, acquire, fine) at e))
        | inr failed ↦ rw (picked, acquire, failed) refl
      ]
    ]

pub acquire-some :
    (cleanup_ok tx_ok : Bool) (now : ℕ) (locked : List ℕ) (t : Leases) {w : ℕ}
    → (acquire cleanup_ok tx_ok now locked t).0 ≡ some w
    → (pick_from 0 now locked (cleared cleanup_ok now t) ≡ some w)
      × ((acquire cleanup_ok tx_ok now locked t).1
          ≡ adjust w
              (λ l. record { held = true; expires_at = now + ttl })
              (cleared cleanup_ok now t))
unfolding acquire cleared
acquire-some c x now locked t {w} e =
    elim (Option-cases (pick_from 0 now locked (if c then clear_stale now t else t))) [
      | inl full ↦ absurd (cc (rw (full, acquire) at e))
      | inr (v, picked) ↦ elim (Bool-cases x) [
        | inr failed ↦ absurd (cc (rw (picked, acquire, failed) at e))
        | inl fine ↦
            let same : v ≡ w = cc (rw (picked, acquire, fine) at e) in
            (
              picked ∙ ap some same,
              rw (picked, acquire, fine)
                  (ap
                    (λ u.
                      adjust u (λ l. record { held = true; expires_at = now + ttl })
                        (cleared c now t))
                    same),
            )
      ]
    ]
