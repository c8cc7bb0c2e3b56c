-- ===== src/Balancer/Proxy/Connections.antt =====
-- The open connections that the proxy counts for each backend.
use system_design.Common.{
  ℕ, zero, suc, ◌≡◌, refl, sym, ◌∙◌, ap, ap₂, Bool, true, false, List, [], ◌∷◌, map, Option, none,
  some, ltb, if◌then◌else◌, length, ◌==◌, arith, Bool-cases, Option-cases, inl, inr,
}
use system_design.Common.Bytes.{Bytes, beq, beq_iff}
use system_design.Common.Assoc.{lookup, insert, lookup-insert, lookup-insert_self}
use system_design.Balancer.{
  Algorithm, round_robin, least_connections, weighted_round_robin, random, Backend, Pool, Pools,
  healthy_of, next, next_for, pick_round_robin, pick_weighted, total_weight,
}
use system_design.Balancer.Proxy.{
  Proxied, Answer, Headers, Upstream, count_conn, release_conn, on_pool, attempt, proxy_from, proxy,
  attempts, sanitize_headers, upstream_path,
}

abbrev conns : List Backend → List ℕ
conns bs = map (λ b. b.active_conns) bs

abbrev conns_in : Option Pool → List ℕ
conns_in none = []
conns_in (some p) = conns p.backends

-- The counters of a service's backends, in their order.
unfoldable pub open_conns : Bytes → Pools → List ℕ
unfolding lookup
open_conns service pools = conns_in (lookup service pools)

conns-release_conn :
    (url : Bytes) (bs : List Backend) → conns (release_conn url (count_conn url bs)) ≡ conns bs
unfolding count_conn release_conn
conns-release_conn url [] = refl
conns-release_conn url (b ∷ bs) = elim (Bool-cases (beq b.url url)) [
  | inl this ↦ rw (this, this) (ap₂ ◌∷◌ (omega arith) (conns-release_conn url bs))
  | inr other_one ↦ rw (other_one, other_one) (ap (◌∷◌ b.active_conns) (conns-release_conn url bs))
]

pick_round_robin-backends : (p : Pool) → (pick_round_robin p).0.backends ≡ p.backends
unfolding pick_round_robin
pick_round_robin-backends p = elim (Bool-cases (length (healthy_of p.backends) == 0)) [
  | inl e ↦ rw e refl
  | inr e ↦ rw e refl
]

pick_weighted-backends : (p : Pool) → (pick_weighted p).0.backends ≡ p.backends
unfolding pick_weighted
pick_weighted-backends p = go (healthy_of p.backends) refl
  where
    go :
        (live : List Backend)
        → healthy_of p.backends ≡ live
        → (pick_weighted p).0.backends ≡ p.backends
    go [] e = rw (e, pick_weighted) refl
    go (b ∷ bs) e = elim (Bool-cases (total_weight (b ∷ bs) == 0)) [
      | inl weightless ↦ rw (e, pick_weighted, weightless) (pick_round_robin-backends p)
      | inr weighed ↦ rw (e, pick_weighted, weighed) refl
    ]

next-backends : (f : Backend → Backend → Bool) (p : Pool) → (next f p).0.backends ≡ p.backends
unfolding next
next-backends f p = go p.algorithm refl
  where
    go : (a : Algorithm) → p.algorithm ≡ a → (next f p).0.backends ≡ p.backends
    go round_robin e = rw (e, next) (pick_round_robin-backends p)
    go least_connections e = rw (e, next) refl
    go weighted_round_robin e = rw (e, next) (pick_weighted-backends p)
    go random e = rw (e, next) (pick_round_robin-backends p)

conns_in-if :
    (c : Bool) (p : Pool) (o : Option Pool)
    → conns_in (if c then some p else o) ≡ (if c then conns p.backends else conns_in o)
conns_in-if true p o = refl
conns_in-if false p o = refl

-- A pool that takes the place of another with the same counters.
module _ (service : Bytes) (pools : Pools) {p : Pool} (known : lookup service pools ≡ some p) where
  kept-if :
      (t : Bytes) (q : Pool)
      → conns q.backends ≡ conns p.backends
      → (if beq service t then conns q.backends else open_conns t pools) ≡ open_conns t pools
  unfolding open_conns
  kept-if t q same = elim (Bool-cases (beq service t)) [
    | inr other_one ↦ rw other_one refl
    | inl this ↦ rw this (
        same
        ∙ sym (ap conns_in known)
        ∙ ap (λ k. conns_in (lookup k pools)) ((beq_iff service t).0 this))
  ]

  open_conns-insert :
      (t : Bytes) (q : Pool)
      → conns q.backends ≡ conns p.backends
      → open_conns t (insert service q pools) ≡ open_conns t pools
  unfolding open_conns
  open_conns-insert t q same =
      ap conns_in (lookup-insert service t q pools)
      ∙ conns_in-if (beq service t) q (lookup t pools)
      ∙ kept-if t q same

  open_conns-insert_twice :
      (t : Bytes) (q r : Pool)
      → conns r.backends ≡ conns p.backends
      → open_conns t (insert service r (insert service q pools)) ≡ open_conns t pools
  unfolding open_conns
  open_conns-insert_twice t q r same =
      ap conns_in (lookup-insert service t r (insert service q pools))
      ∙ conns_in-if (beq service t) r (lookup t (insert service q pools))
      ∙ elim (Bool-cases (beq service t)) [
        | inl this ↦ rw this (rw this at (kept-if t r same))
        | inr other_one ↦
            rw other_one (ap conns_in (lookup-insert service t q pools ∙ rw other_one refl))
      ]

on_pool-unknown :
    (g : List Backend → List Backend) (service : Bytes) (pools : Pools)
    → lookup service pools ≡ none
    → on_pool g service pools ≡ pools
unfolding on_pool
on_pool-unknown g service pools unknown = rw (unknown, on_pool) refl

on_pool-known :
    (g : List Backend → List Backend) (service : Bytes) {p : Pool} (pools : Pools)
    → lookup service pools ≡ some p
    → on_pool g service pools ≡ insert service (record p { backends = g p.backends }) pools
unfolding on_pool
on_pool-known g service pools known = rw (known, on_pool) refl

open_conns-release_conn :
    (t url service : Bytes) (pools : Pools)
    → open_conns t (on_pool (release_conn url) service (on_pool (count_conn url) service pools))
      ≡ open_conns t pools
open_conns-release_conn t url service pools = elim (Option-cases (lookup service pools)) [
  | inl unknown ↦
      ap (λ m. open_conns t (on_pool (release_conn url) service m))
        (on_pool-unknown (count_conn url) service pools unknown)
      ∙ ap (open_conns t) (on_pool-unknown (release_conn url) service pools unknown)
  | inr (p, known) ↦
      let counted : Pool = record p { backends = count_conn url p.backends } in
      ap (λ m. open_conns t (on_pool (release_conn url) service m))
        (on_pool-known (count_conn url) service pools known)
      ∙ ap (open_conns t) (
          on_pool-known (release_conn url) service (insert service counted pools)
            (lookup-insert_self service counted pools))
      ∙ open_conns-insert_twice service pools known t counted
          (record p { backends = release_conn url (count_conn url p.backends) })
          (conns-release_conn url p.backends)
]

open_conns-next_for :
    (f : Backend → Backend → Bool) (t service : Bytes) (pools : Pools)
    → open_conns t (next_for f service pools).0 ≡ open_conns t pools
unfolding next_for
open_conns-next_for f t service pools = elim (Option-cases (lookup service pools)) [
  | inl unknown ↦ rw (unknown, next_for) refl
  | inr (p, known) ↦ elim (Option-cases (next f p).1) [
    | inl down ↦
        rw (known, down, next_for)
          (open_conns-insert service pools known t (next f p).0 (ap conns (next-backends f p)))
    | inr (b, up) ↦
        rw (known, up, next_for)
          (open_conns-insert service pools known t (next f p).0 (ap conns (next-backends f p)))
  ]
]

module _ (less_loaded : Backend → Backend → Bool) (ask : ℕ → Backend → Answer)
    (no_backend exhausted service t : Bytes) where
  proxy_from-open_conns :
      (i n : ℕ) (s : Proxied)
      → open_conns t (proxy_from less_loaded ask no_backend exhausted i n service s).pools
        ≡ open_conns t s.pools
  unfolding proxy_from attempt
  proxy_from-open_conns i zero s = refl
  proxy_from-open_conns i (suc n) s = elim (Option-cases (next_for less_loaded service s.pools).1) [
    | inl none_left ↦ rw (none_left, proxy_from) (open_conns-next_for less_loaded t service s.pools)
    | inr (b, chosen) ↦
        let after : Proxied = attempt ask i service b (next_for less_loaded service s.pools).0 s in
        let kept : open_conns t after.pools ≡ open_conns t s.pools =
          open_conns-release_conn t b.url service (next_for less_loaded service s.pools).0
          ∙ open_conns-next_for less_loaded t service s.pools in
        elim (Bool-cases (ltb (ask i b).code 500)) [
          | inl good ↦ rw (chosen, good, proxy_from) kept
          | inr bad ↦ rw (chosen, bad, proxy_from) (proxy_from-open_conns (suc i) n after ∙ kept)
        ]
  ]

-- When a request has been answered, with retries or without, and the copying of no answer broke off,
-- every backend of every service has as many open connections as before it.
pub proxy-open_conns :
    (less_loaded : Backend → Backend → Bool) (upstream : Upstream)
    (no_backend exhausted service path : Bytes) (headers : Headers) (pools : Pools) (t : Bytes)
    → open_conns t
        (proxy less_loaded upstream no_backend exhausted service path headers pools).pools
      ≡ open_conns t pools
unfolding proxy
proxy-open_conns less_loaded upstream no_backend exhausted service path headers pools t =
    proxy_from-open_conns less_loaded
      (λ i b. upstream i b (upstream_path service path) (sanitize_headers headers)) no_backend
      exhausted service t 0 attempts
      (record { pools = pools; seen = record { status = none; body = [] }; asked = [] })
