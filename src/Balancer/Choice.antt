-- ===== src/Balancer/Choice.antt =====
-- The backend that a pool gives.
use native.Mathlib.Nat.{mod-lt}
use system_design.Common.{
  ℕ, zero, suc, ◌+◌, ◌%◌, ◌<◌, ◌≡◌, ◌⊎◌, inl, inr, refl, sym, subst, Bool, true, false, List, [],
  ◌∷◌, ◌==◌, Option, none, some, if◌then◌else◌, arith, length, get_elem?, Bool-cases,
}
use system_design.Common.Words.{u64}
use system_design.Balancer.{
  Algorithm, round_robin, least_connections, weighted_round_robin, random, Backend, Pool,
  is_healthy, healthy_of, pick_round_robin, least_from, pick_least_connections, weighted_from,
  position, total_weight, pick_weighted, next, below, last_of,
}

abbrev pub Among : Backend → List Backend → Type 0
Among b [] = ⊥
Among b (x ∷ xs) = (x ≡ b) ⊎ Among b xs

-- Registered, and healthy.
pub record IsChoice (bs : List Backend) (b : Backend) : Type 0 where
  pub among : Among b bs
  pub live : is_healthy b.status ≡ true

Among-healthy_of : (b : Backend) (bs : List Backend) → Among b (healthy_of bs) → IsChoice bs b
unfolding healthy_of
Among-healthy_of b [] h = absurd h
Among-healthy_of b (x ∷ bs) h = elim (Bool-cases (is_healthy x.status)) [
  | inr off ↦
      let c = Among-healthy_of b bs (later off h) in record { among = inr c.among; live = c.live }
  | inl on ↦ elim (first on h) [
    | inl e ↦ record {
      among = inl e;
      live = subst (λ (y : Backend). is_healthy y.status ≡ true) e on;
    }
    | inr there ↦
        let c = Among-healthy_of b bs there in record { among = inr c.among; live = c.live }
  ]
]
  where
    later : is_healthy x.status ≡ false → Among b (healthy_of (x ∷ bs)) → Among b (healthy_of bs)
    later off h = subst (λ t. Among b (if t then x ∷ healthy_of bs else healthy_of bs)) off h

    first :
        is_healthy x.status ≡ true
        → Among b (healthy_of (x ∷ bs))
        → (x ≡ b) ⊎ Among b (healthy_of bs)
    first on h = subst (λ t. Among b (if t then x ∷ healthy_of bs else healthy_of bs)) on h

Among-get_elem? :
    (bs : List Backend) (i : ℕ)
    → i < length bs
    → (b : Backend) × (get_elem? bs i ≡ some b) × Among b bs
Among-get_elem? [] i h = absurd (omega arith)
Among-get_elem? (x ∷ bs) zero h = (x, refl, inl refl)
Among-get_elem? (x ∷ bs) (suc i) h =
    let (b, e, a) = Among-get_elem? bs i (omega arith) in (b, e, inr a)

Among-least_from :
    (f : Backend → Backend → Bool) (best : Backend) (bs : List Backend)
    → (best ≡ least_from f best bs) ⊎ Among (least_from f best bs) bs
unfolding least_from
Among-least_from f best [] = inl refl
Among-least_from f best (b ∷ bs) = elim (Bool-cases (f b best)) [
  | inl e ↦
      let step : least_from f best (b ∷ bs) ≡ least_from f b bs = rw e refl in
      subst (λ x. (best ≡ x) ⊎ Among x (b ∷ bs)) (sym step)
        (elim (Among-least_from f b bs) [ inl q ↦ inr (inl q) | inr a ↦ inr (inr a) ])
  | inr e ↦
      let step : least_from f best (b ∷ bs) ≡ least_from f best bs = rw e refl in
      subst (λ x. (best ≡ x) ⊎ Among x (b ∷ bs)) (sym step)
        (elim (Among-least_from f best bs) [ inl q ↦ inl q | inr a ↦ inr (inr a) ])
]

Among-last_of : (b : Backend) (bs : List Backend) → (b ≡ last_of b bs) ⊎ Among (last_of b bs) bs
unfolding last_of
Among-last_of b [] = inl refl
Among-last_of b (c ∷ bs) = inr (elim (Among-last_of c bs) [ inl q ↦ inl q | inr a ↦ inr a ])

Among-weighted_from :
    (default : Backend) (pos : Option ℕ) (running : ℕ) (bs : List Backend)
    → (default ≡ weighted_from default pos running bs)
      ⊎ Among (weighted_from default pos running bs) bs
unfolding weighted_from
Among-weighted_from default pos running [] = inl refl
Among-weighted_from default pos running (b ∷ bs) =
    elim (Bool-cases (below pos (running + b.weight))) [
      | inl e ↦
          let step : weighted_from default pos running (b ∷ bs) ≡ b = rw e refl in
          subst (λ x. (default ≡ x) ⊎ Among x (b ∷ bs)) (sym step) (inr (inl refl))
      | inr e ↦
          let step : weighted_from default pos running (b ∷ bs)
              ≡ weighted_from default pos (running + b.weight) bs =
            rw e refl in
          subst (λ x. (default ≡ x) ⊎ Among x (b ∷ bs)) (sym step)
            (elim (Among-weighted_from default pos (running + b.weight) bs) [
              | inl q ↦ inl q
              | inr a ↦ inr (inr a)
            ])
    ]

-- A choice from these backends, or none of them is healthy.
abbrev pub Chosen : List Backend → Option Backend → Type 0
Chosen bs none = healthy_of bs ≡ []
Chosen bs (some b) = IsChoice bs b

List-cases : (bs : List Backend) → (bs ≡ []) ⊎ ((b : Backend) × (cs : List Backend) × (bs ≡ b ∷ cs))
List-cases [] = inl refl
List-cases (b ∷ cs) = inr (b, cs, refl)

length-none : (bs : List Backend) → (length bs == 0) ≡ true → bs ≡ []
length-none [] e = refl
length-none (b ∷ bs) e = absurd (ground arith)

module _ (p : Pool) where
  pick_round_robin-Chosen : Chosen p.backends (pick_round_robin p).1
  unfolding pick_round_robin
  pick_round_robin-Chosen = elim (Bool-cases (length (healthy_of p.backends) == 0)) [
    | inl empty ↦ rw empty (length-none (healthy_of p.backends) empty)
    | inr some_live ↦
        let (b, e, a) =
          Among-get_elem? (healthy_of p.backends)
            (u64 (p.rr_counter + 1) % length (healthy_of p.backends))
            (mod-lt (u64 (p.rr_counter + 1)) (ground arith)) in
        rw some_live (rw e (Among-healthy_of b p.backends a))
  ]

  pick_least_connections-Chosen :
      (f : Backend → Backend → Bool) → Chosen p.backends (pick_least_connections f p)
  unfolding pick_least_connections
  pick_least_connections-Chosen f = elim (List-cases (healthy_of p.backends)) [
    | inl empty ↦ rw (empty, pick_least_connections) empty
    | inr (b, cs, q) ↦
        rw (q, pick_least_connections)
          (Among-healthy_of (least_from f b cs) p.backends
            (subst (Among (least_from f b cs)) (sym q) (Among-least_from f b cs)))
  ]

  pick_weighted-Chosen : Chosen p.backends (pick_weighted p).1
  unfolding pick_weighted
  pick_weighted-Chosen = elim (List-cases (healthy_of p.backends)) [
    | inl empty ↦ rw (empty, pick_weighted) empty
    | inr (b, cs, q) ↦ elim (Bool-cases (total_weight (b ∷ cs) == 0)) [
      | inl weightless ↦ rw (q, pick_weighted) (rw weightless pick_round_robin-Chosen)
      | inr weighted ↦
          let pos = position (u64 (p.rr_counter + 1)) (total_weight (b ∷ cs)) in
          let x = weighted_from (last_of b cs) pos 0 (b ∷ cs) in
          let a : Among x (b ∷ cs) = elim (Among-weighted_from (last_of b cs) pos 0 (b ∷ cs)) [
            | inl e ↦ subst (λ y. Among y (b ∷ cs)) e (Among-last_of b cs)
            | inr a ↦ a
          ] in
          rw (q, pick_weighted)
            (rw weighted (Among-healthy_of x p.backends (subst (Among x) (sym q) a)))
    ]
  ]

-- Next, by any of the algorithms and with any comparison of scores, gives a backend that is
-- registered in the pool and healthy, or it gives none and no backend of the pool is healthy.
pub next-Chosen :
    (less_loaded : Backend → Backend → Bool) (p : Pool) → Chosen p.backends (next less_loaded p).1
unfolding next
next-Chosen f p = by_algorithm p.algorithm refl
  where
    by_algorithm : (a : Algorithm) → p.algorithm ≡ a → Chosen p.backends (next f p).1
    by_algorithm round_robin e = rw (e, next) (pick_round_robin-Chosen p)
    by_algorithm random e = rw (e, next) (pick_round_robin-Chosen p)
    by_algorithm least_connections e = rw (e, next) (pick_least_connections-Chosen p f)
    by_algorithm weighted_round_robin e = rw (e, next) (pick_weighted-Chosen p)
