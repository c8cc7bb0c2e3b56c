-- ===== src/IdGenerator/Lease/Exclusive.antt =====
-- That no two processes hold one worker id at a time.
use system_design.Common.{
  All-map, ℕ, ◌+◌, ◌≤◌, ◌≡◌, refl, sym, subst, ◌∙◌, ap, Bool, true, List, [], ◌∷◌, some,
  if◌then◌else◌, leb, All, arith, le→leb,
}
use system_design.Common.Taking.{take_out, All-take_out}
use system_design.IdGenerator.Lease.{
  Lease, Leases, row, adjust, pick_from, acquire, renew, release, ttl,
}
use system_design.IdGenerator.Lease.Rows.{row-adjust, pick_from-row}
use system_design.IdGenerator.Lease.Terms.{
  Term, IsBacked, AreApart, IsExclusive, Fleet, IsSound, Step, wait, fail, gain, extend, leave,
  All-both, IsExclusive-take_out, adjust-IsBacked, available-apart, cleared, cleared-IsBacked,
  acquire-none, acquire-some,
}

wait-AreApart : (now later : ℕ) (a b : Term) → now ≤ later → AreApart now a b → AreApart later a b
wait-AreApart now later a b le h ha hb = h (omega arith) (omega arith)

wait-IsExclusive :
    (now later : ℕ) (ks : List Term) → now ≤ later → IsExclusive now ks → IsExclusive later ks
wait-IsExclusive now later [] le h = tt
wait-IsExclusive now later (k ∷ ks) le h = (
  All-map (AreApart now k) (AreApart later k) ks (λ b. wait-AreApart now later k b le) h.0,
  wait-IsExclusive now later ks le h.1,
)

gain-IsSound :
    (c : Bool) (locked : List ℕ) (w : ℕ) (s : Fleet)
    → pick_from 0 s.now locked (cleared c s.now s.leases) ≡ some w
    → IsSound s
    → IsSound (record s {
      leases =
          adjust w
            (λ l. record { held = true; expires_at = s.now + ttl })
            (cleared c s.now s.leases);
      terms = record { worker_id = w; until = s.now + ttl } ∷ s.terms;
    })
gain-IsSound c locked w s picked h =
    let t : Leases = cleared c s.now s.leases in
    let kept : All (IsBacked s.now t) s.terms =
      cleared-IsBacked c s.now s.leases s.terms h.backed in
    let (i, place, l, there, free) = pick_from-row 0 s.now locked t picked in
    let there' : row w t ≡ some l = ap (λ v. row v t) (omega (arith, place)) ∙ there in
    record {
      backed = (
        λ live. (
          _,
          row-adjust w (λ l. record { held = true; expires_at = s.now + ttl }) t there',
          refl,
          omega arith,
        ),
        All-map (IsBacked s.now t) _ s.terms
            (λ k b. adjust-IsBacked s.now w _ t k (available-apart s.now t w l k there' free b) b)
            kept,
      );
      apart = (
        All-map (IsBacked s.now t) _ s.terms
            (λ k b live others same. available-apart s.now t w l k there' free b others (sym same))
            kept,
        h.apart,
      );
    }

extend-IsSound :
    (i : ℕ) (k : Term) (rest : List Term) (s : Fleet)
    → take_out i s.terms ≡ some (k, rest)
    → s.now ≤ k.until
    → IsSound s
    → IsSound (record s {
      leases = (renew s.now k.worker_id s.leases).1;
      terms = record k { until = s.now + ttl } ∷ rest;
    })
unfolding renew
extend-IsSound i k rest s found live h =
    let (mine, others) = All-take_out (IsBacked s.now s.leases) i s.terms found h.backed in
    let (apart, tail) = IsExclusive-take_out s.now i s.terms found h.apart in
    let (l, there, held, long) = mine live in
    let grow : Lease → Lease =
      λ (l : Lease). if leb s.now l.expires_at then record l { expires_at = s.now + ttl } else l in
    record {
      backed = (
        λ due. (
          grow l,
          row-adjust k.worker_id grow s.leases there,
          ground (arith, held),
          ground (arith, long, live),
        ),
        All-both (IsBacked s.now s.leases) (AreApart s.now k) _ rest
            (λ b back apart_b.
              adjust-IsBacked s.now k.worker_id grow s.leases b
                (λ alive same. apart_b live alive (sym same)) back)
            others apart,
      );
      apart = (
        All-map (AreApart s.now k) _ rest (λ b apart_b due alive. apart_b live alive) apart,
        tail,
      );
    }

leave-IsSound :
    (i : ℕ) (k : Term) (rest : List Term) (s : Fleet)
    → take_out i s.terms ≡ some (k, rest)
    → s.now ≤ k.until
    → IsSound s
    → IsSound (record s { leases = release s.now k.worker_id s.leases; terms = rest })
unfolding release
leave-IsSound i k rest s found live h =
    let (mine, others) = All-take_out (IsBacked s.now s.leases) i s.terms found h.backed in
    let (apart, tail) = IsExclusive-take_out s.now i s.terms found h.apart in
    record {
      backed =
          All-both (IsBacked s.now s.leases) (AreApart s.now k) _ rest
            (λ b back apart_b.
              adjust-IsBacked s.now k.worker_id _ s.leases b
                (λ alive same. apart_b live alive (sym same)) back)
            others apart;
      apart = tail;
    }

Step-IsSound : {s u : Fleet} → Step s u → IsSound s → IsSound u
Step-IsSound (wait later s le) h = record {
  backed = All-map (IsBacked s.now s.leases) _ s.terms (λ k b live. b (omega arith)) h.backed;
  apart = wait-IsExclusive s.now later s.terms le h.apart;
}
Step-IsSound (fail c x locked s e) h = record {
  backed =
      subst (λ t. All (IsBacked s.now t) s.terms) (sym (acquire-none c x s.now locked s.leases e))
        (cleared-IsBacked c s.now s.leases s.terms h.backed);
  apart = h.apart;
}
Step-IsSound (gain c x locked w s e) h =
    let (picked, after) = acquire-some c x s.now locked s.leases e in
    subst
      (λ t.
        IsSound (record s {
          leases = t;
          terms = record { worker_id = w; until = s.now + ttl } ∷ s.terms;
        }))
      (sym after) (gain-IsSound c locked w s picked h)
Step-IsSound (extend i k rest s found live) h = extend-IsSound i k rest s found live h
Step-IsSound (leave i k rest s found live) h = leave-IsSound i k rest s found live h

pub data Reach (s : Fleet) : Fleet → Type 0 where
  here : Reach s s
  next : {t u : Fleet} → Reach s t → Step t u → Reach s u

-- From a table where no process knows of a lease, after any acquisitions, renewals and releases by
-- any processes, with any failures, as long as a process renews and releases only before the end of
-- its term: no two terms that are not over have the same worker id, and the row of each such term
-- is held and does not expire before it.
pub Reach-IsSound :
    (t : Leases) (start : ℕ) {u : Fleet}
    → Reach (record { leases = t; terms = []; now = start }) u
    → IsSound u
Reach-IsSound t start here = record { backed = tt; apart = tt }
Reach-IsSound t start (next r st) = Step-IsSound st (Reach-IsSound t start r)

-- Nothing in a renewal tells who renews: when a process has acquired a worker id, any process that
-- still believes it has that id, such as one whose own lease of it ran out before, has its renewal
-- reported as done until the term of the new holder is over.
pub acquire-renew :
    (cleanup_ok tx_ok : Bool) (now later : ℕ) (locked : List ℕ) (t : Leases) (w : ℕ)
    → (acquire cleanup_ok tx_ok now locked t).0 ≡ some w
    → later ≤ now + ttl
    → (renew later w (acquire cleanup_ok tx_ok now locked t).1).0 ≡ true
unfolding renew
acquire-renew c x now later locked t w e le =
    let (picked, after) = acquire-some c x now locked t e in
    let (i, place, l, there, free) = pick_from-row 0 now locked (cleared c now t) picked in
    let there' : row w (cleared c now t) ≡ some l =
      ap (λ v. row v (cleared c now t)) (omega (arith, place)) ∙ there in
    let found : row w (acquire c x now locked t).1
        ≡ some (record { held = true; expires_at = now + ttl }) =
      ap (row w) after
      ∙ row-adjust w (λ l. record { held = true; expires_at = now + ttl }) (cleared c now t)
          there' in
    rw (found, renew) (le→leb later (now + ttl) le)
