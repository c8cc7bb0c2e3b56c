-- ===== src/Balancer/Proxy/Attempts.antt =====
-- What the client of the proxy sees, and what a backend does.
use system_design.Common.{
  ℕ, zero, suc, ◌+◌, ◌≤◌, ◌≡◌, refl, Bool, List, [], ◌∷◌, none, some, ltb, if◌then◌else◌, length,
  length-append, arith, Bool-cases, Option-cases, inl, inr,
}
use system_design.Common.Bytes.{Bytes, codes}
use system_design.Common.Assoc.{lookup, lookup-remove, contains}
use system_design.Balancer.{Backend, Pools, next_for}
use system_design.Balancer.Proxy.{
  Proxied, Seen, Answer, Headers, Upstream, upstream_path, write_header, write_response, attempt,
  proxy_from, proxy, attempts, sanitize_headers,
}

abbrev sensitive : List Bytes
sensitive =
    codes "X-Forwarded-For"
    ∷ codes "X-Forwarded-Host"
    ∷ codes "X-Forwarded-Proto"
    ∷ codes "X-Real-Ip"
    ∷ codes "Authorization"
    ∷ codes "Cookie"
    ∷ []

-- Of the headers of a request, the six that could be forged or are secret are not handed on, and
-- each other one is as the client sent it.
pub lookup-sanitize_headers :
    (k : Bytes) (h : Headers)
    → lookup k (sanitize_headers h) ≡ (if contains k sensitive then none else lookup k h)
unfolding sanitize_headers contains
lookup-sanitize_headers k h = simp lookup-remove (ground arith)

write_response-status :
    (code c : ℕ) (body : Bytes) (w : Seen)
    → w.status ≡ some c
    → (write_response code body w).status ≡ some c
unfolding write_response write_header
write_response-status code c body w h = rw h refl

module _ (less_loaded : Backend → Backend → Bool) (upstream : Upstream)
    (no_backend exhausted service path : Bytes) (headers : Headers) where
  abbrev ask : ℕ → Backend → Answer
  ask i b = upstream i b (upstream_path service path) (sanitize_headers headers)

  abbrev run : ℕ → ℕ → Proxied → Proxied
  run i n s = proxy_from less_loaded ask no_backend exhausted i n service s

  -- A status that is written stays.
  proxy_from-status :
      (i n : ℕ) (s : Proxied) {c : ℕ} → s.seen.status ≡ some c → (run i n s).seen.status ≡ some c
  unfolding proxy_from attempt
  proxy_from-status i zero s {c} h = write_response-status 502 c exhausted s.seen h
  proxy_from-status i (suc n) s {c} h =
      elim (Option-cases (next_for less_loaded service s.pools).1) [
        | inl none_left ↦
            rw (none_left, proxy_from) (write_response-status 503 c no_backend s.seen h)
        | inr (b, chosen) ↦
            let after : Proxied =
              attempt ask i service b (next_for less_loaded service s.pools).0 s in
            let kept : after.seen.status ≡ some c =
              write_response-status (ask i b).code c (ask i b).body s.seen h in
            elim (Bool-cases (ltb (ask i b).code 500)) [
              | inl good ↦ rw (chosen, good, proxy_from) kept
              | inr bad ↦ rw (chosen, bad, proxy_from) (proxy_from-status (suc i) n after kept)
            ]
      ]

  proxy_from-asked : (i n : ℕ) (s : Proxied) → length (run i n s).asked ≤ length s.asked + n
  unfolding proxy_from attempt
  proxy_from-asked i zero s = omega arith
  proxy_from-asked i (suc n) s = elim (Option-cases (next_for less_loaded service s.pools).1) [
    | inl none_left ↦ rw (none_left, proxy_from) (omega arith)
    | inr (b, chosen) ↦
        let after : Proxied = attempt ask i service b (next_for less_loaded service s.pools).0 s in
        let one : length after.asked ≡ length s.asked + 1 = length-append {0} s.asked (b ∷ []) in
        elim (Bool-cases (ltb (ask i b).code 500)) [
          | inl good ↦ rw (chosen, good, proxy_from) (omega (arith, one))
          | inr bad ↦
              rw (chosen, bad, proxy_from) (omega (arith, one, proxy_from-asked (suc i) n after))
        ]
  ]

  -- A request is sent to three backends at most, whatever they answer.
  pub proxy-asked :
      (pools : Pools)
      → length (proxy less_loaded upstream no_backend exhausted service path headers pools).asked
        ≤ 3
  unfolding proxy
  proxy-asked pools =
      proxy_from-asked 0 attempts
        (record { pools = pools; seen = record { status = none; body = [] }; asked = [] })

  -- Where the answers of the backends declare no length, are copied whole and have no informational
  -- answer (1xx) before them: the client sees the status of the first backend that is asked,
  -- whatever the attempts after it answer, so that a retry that succeeds does not turn a failure
  -- into a success.
  pub proxy-status :
      (pools : Pools) {b : Backend}
      → (next_for less_loaded service pools).1 ≡ some b
      → (proxy less_loaded upstream no_backend exhausted service path headers pools).seen.status
        ≡ some (upstream 0 b (upstream_path service path) (sanitize_headers headers)).code
  unfolding proxy proxy_from attempt write_response write_header
  proxy-status pools {b} chosen =
      let after : Proxied =
        attempt ask 0 service b (next_for less_loaded service pools).0
          (record { pools = pools; seen = record { status = none; body = [] }; asked = [] }) in
      elim (Bool-cases (ltb (ask 0 b).code 500)) [
        | inl good ↦ rw (chosen, good, proxy_from) refl
        | inr bad ↦ rw (chosen, bad, proxy_from) (proxy_from-status 1 2 after refl)
      ]
