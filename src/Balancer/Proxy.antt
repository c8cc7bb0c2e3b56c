-- ===== src/Balancer/Proxy.antt =====
-- The proxy of api/handler.go: its three attempts and what the client gets to see of them. What a
-- backend answers to an attempt is an argument. net/http keeps the first status that is written and
-- appends each body, as long as the answers declare no length. Not modelled: that the copying of an
-- answer breaks off, upon which the reverse proxy panics, and informational answers (1xx), which use
-- up the one WriteHeader of responseRecorder.
pub mod Attempts
pub mod Connections
mod Tests
use system_design.Common.{
  ℕ, zero, suc, ◌+◌, ◌-◌, Bool, true, false, List, [], ◌∷◌, ◌++◌, Option, none, some, ltb, leb,
  ◌==◌, if◌then◌else◌, length, drop,
}
use system_design.Common.Bytes.{Bytes, codes, beq}
use system_design.Common.Words.{u64}
use system_design.Common.Assoc.{lookup, insert, remove}
use system_design.Balancer.{Backend, Pool, Pools, next_for}

abbrev pub attempts : ℕ
attempts = 3

-- What has been written to the client.
pub record Seen : Type 0 where
  pub status : Option ℕ
  pub body : Bytes

unfoldable pub write_header : ℕ → Seen → Seen
write_header code w = record w { status = elim w.status [ none ↦ some code | some c ↦ some c ] }

unfoldable pub write_response : ℕ → Bytes → Seen → Seen
unfolding write_header
write_response code body w = record (write_header code w) { body = w.body ++ body }

pub record Answer : Type 0 where
  pub code : ℕ
  pub body : Bytes

abbrev pub Headers : Type 0
Headers = List (Bytes × Bytes)

-- What a backend answers to a path and headers in the attempt of this number.
abbrev pub Upstream : Type 0
Upstream = ℕ → Backend → Bytes → Headers → Answer

-- sanitizeHeaders on the headers by their canonical names.
unfoldable pub sanitize_headers : Headers → Headers
unfolding remove
sanitize_headers h = remove (codes "Cookie") (
    remove (codes "Authorization") (
      remove (codes "X-Real-Ip") (
        remove (codes "X-Forwarded-Proto")
          (remove (codes "X-Forwarded-Host") (remove (codes "X-Forwarded-For") h)))))

-- The path behind /proxy/{service}.
unfoldable pub upstream_path : Bytes → Bytes → Bytes
upstream_path service path =
    let rest = drop (length (codes "/proxy/") + length service) path in
    if length rest == 0 then codes "/" else rest

-- The counters of the backend before and after the attempt.
unfoldable pub count_conn : Bytes → List Backend → List Backend
unfolding beq
count_conn url [] = []
count_conn url (b ∷ bs) =
    (if beq b.url url
      then record b { active_conns = b.active_conns + 1; total_conns = u64 (b.total_conns + 1) }
      else b)
    ∷ count_conn url bs

unfoldable pub release_conn : Bytes → List Backend → List Backend
unfolding beq
release_conn url [] = []
release_conn url (b ∷ bs) =
    (if beq b.url url then record b { active_conns = b.active_conns - 1 } else b)
    ∷ release_conn url bs

unfoldable pub on_pool : (List Backend → List Backend) → Bytes → Pools → Pools
unfolding lookup insert
on_pool f service pools = elim (lookup service pools) [
  | none ↦ pools
  | some p ↦ insert service (record p { backends = f p.backends }) pools
]

-- The state of the proxy, what the client has seen, and the backends that were asked.
pub record Proxied : Type 0 where
  pub pools : Pools
  pub seen : Seen
  pub asked : List Backend

-- What an attempt does with the backend that Next gave; every backend has an address that parses.
unfoldable pub attempt : (ℕ → Backend → Answer) → ℕ → Bytes → Backend → Pools → Proxied → Proxied
unfolding on_pool count_conn release_conn write_response
attempt ask i service b pools s =
    let counted = on_pool (count_conn b.url) service pools in
    let answer = ask i b in
    record {
      pools = on_pool (release_conn b.url) service counted;
      seen = write_response answer.code answer.body s.seen;
      asked = s.asked ++ b ∷ [];
    }

-- The loop, with the number of the attempt and of those that are left; `failure` are the bodies of
-- the two errors.
unfoldable pub proxy_from :
    (Backend → Backend → Bool)
    → (ℕ → Backend → Answer)
    → Bytes
    → Bytes
    → ℕ
    → ℕ
    → Bytes
    → Proxied
    → Proxied
unfolding attempt next_for
proxy_from less_loaded ask no_backend exhausted i zero service s = record s {
  seen = write_response 502 exhausted s.seen;
}
proxy_from less_loaded ask no_backend exhausted i (suc n) service s =
    let (pools, chosen) = next_for less_loaded service s.pools in
    elim chosen [
      | none ↦ record s { pools = pools; seen = write_response 503 no_backend s.seen }
      | some b ↦
          let done = attempt ask i service b pools s in
          let again = proxy_from less_loaded ask no_backend exhausted (suc i) n service done in
          if ltb (ask i b).code 500 then done else again
    ]

unfoldable pub proxy :
    (Backend → Backend → Bool)
    → Upstream
    → Bytes
    → Bytes
    → Bytes
    → Bytes
    → Headers
    → Pools
    → Proxied
unfolding proxy_from sanitize_headers upstream_path
proxy less_loaded upstream no_backend exhausted service path headers pools =
    let ask : ℕ → Backend → Answer =
      λ i b. upstream i b (upstream_path service path) (sanitize_headers headers) in
    proxy_from less_loaded ask no_backend exhausted 0 attempts service
      (record { pools = pools; seen = record { status = none; body = [] }; asked = [] })
