-- ===== src/Balancer/Proxy/Tests.antt =====
-- Two backends, the first of which fails, and the addresses that may be dialed.
use system_design.Common.{
  ℕ, zero, suc, ◌≡◌, refl, Bool, true, false, List, [], ◌∷◌, Option, none, some, ltb, length,
}
use system_design.Common.Bytes.{Bytes, codes, beq}
use system_design.Common.Assoc.{lookup, contains}
use system_design.Balancer.{healthy, round_robin, Backend, Pools, next_for}
use system_design.Balancer.Urls.{
  Ip, v4, v6, ipv4, ipv6, is_denied, dial_proxy, dial_health, dial_proxy-is_denied,
}
use system_design.Balancer.Proxy.{Answer, Headers, proxy, sanitize_headers}
use system_design.Balancer.Proxy.Attempts.{proxy-status, lookup-sanitize_headers}
use system_design.Balancer.Proxy.Connections.{open_conns, proxy-open_conns}
use system_design.Balancer.Admin.{Request, add_request, remove_request, reload_backends}
use system_design.Balancer.Admin.Registered.{registered}
use system_design.Balancer.Admin.Mirrored.{serve, reload_backends-serve}

abbrev backend : Bytes → Backend
backend url = record {
  url = url;
  service = codes "web";
  weight = 1;
  active_conns = 0;
  total_conns = 0;
  status = healthy;
}

abbrev one : Backend
one = backend (codes "http://one")

abbrev two : Backend
two = backend (codes "http://two")

abbrev pools : Pools
pools =
    (codes "web", record { backends = two ∷ one ∷ []; algorithm = round_robin; rr_counter = 0 })
    ∷ []

abbrev less_loaded : Backend → Backend → Bool
less_loaded a b = ltb a.active_conns b.active_conns

-- The first backend fails, the second does not.
abbrev upstream : ℕ → Backend → Bytes → Headers → Answer
upstream zero b path headers = record { code = 500; body = codes "broken" }
upstream (suc i) b path headers = record { code = 200; body = codes "fine" }

proxy-status_example :
    (proxy less_loaded upstream
      (codes "none")
      (codes "tired")
      (codes "web")
      (codes "/proxy/web/x")
      []
      pools).seen.status
    ≡ some 500
unfolding lookup beq
proxy-status_example =
    proxy-status less_loaded upstream (codes "none") (codes "tired") (codes "web")
      (codes "/proxy/web/x") [] pools {b = one} (unfold next_for in refl)

proxy-open_conns_example :
    open_conns
      (codes "web")
      (proxy less_loaded upstream
        (codes "none")
        (codes "tired")
        (codes "web")
        (codes "/proxy/web/x")
        []
        pools).pools
    ≡ 0 ∷ 0 ∷ []
unfolding open_conns lookup beq
proxy-open_conns_example =
    proxy-open_conns less_loaded upstream (codes "none") (codes "tired") (codes "web")
      (codes "/proxy/web/x") [] pools (codes "web")

-- The bodies of both attempts reach the client, behind each other.
both_bodies :
    (proxy less_loaded upstream
      (codes "none")
      (codes "tired")
      (codes "web")
      (codes "/proxy/web/x")
      []
      pools).seen.body
    ≡ codes "brokenfine"
unfolding proxy
both_bodies = refl

-- The unspecified address of IPv6 is not on the deny-list, unlike that of IPv4.
unspecified : (is_denied (v4 (ipv4 0 0 0 0)) ≡ true) × (is_denied (v6 (ipv6 0 0)) ≡ false)
unfolding is_denied
unspecified = (refl, refl)

abbrev public_name : Bytes → Option (List Ip)
public_name host = some (v4 (ipv4 10 0 0 1) ∷ v4 (ipv4 8 8 8 8) ∷ [])

abbrev before : Bytes → Option (List Ip)
before host = some (v4 (ipv4 8 8 8 8) ∷ [])

abbrev afterwards : Bytes → Option (List Ip)
afterwards host = some (v4 (ipv4 127 0 0 1) ∷ [])

dial_proxy-is_denied_example : is_denied (v4 (ipv4 8 8 8 8)) ≡ false
dial_proxy-is_denied_example =
    dial_proxy-is_denied public_name (codes "example.org") {ip = v4 (ipv4 8 8 8 8)}
      (unfold dial_proxy in refl)

-- The health checker connects to what the name resolves to the second time.
rebound : dial_health before afterwards (codes "example.org") ≡ some (v4 (ipv4 127 0 0 1))
unfolding dial_health
rebound = refl

lookup-sanitize_headers_example :
    lookup
      (codes "Cookie")
      (sanitize_headers ((codes "Accept", codes "*") ∷ (codes "Cookie", codes "secret") ∷ []))
    ≡ none
unfolding contains beq
lookup-sanitize_headers_example =
    lookup-sanitize_headers (codes "Cookie")
      ((codes "Accept", codes "*") ∷ (codes "Cookie", codes "secret") ∷ [])

abbrev requests : List (Bytes × Request)
requests =
    (codes "Bearer key", add_request (codes "web") (some (codes "http://one", 0)))
    ∷ (codes "Bearer guess", add_request (codes "web") (some (codes "http://evil", 1)))
    ∷ (codes "Bearer key", add_request (codes "web") (some (codes "http://two", 2)))
    ∷ (codes "Bearer key", remove_request (codes "web") (some (codes "http://one")))
    ∷ []

reload_backends-serve_example :
    registered (codes "web") (codes "http://two") (
      reload_backends
        (λ u. true)
        (serve (λ u. true) (codes "key") requests (record { pools = []; rows = [] })).rows
        [])
    ≡ registered
        (codes "web")
        (codes "http://two")
        (serve (λ u. true) (codes "key") requests (record { pools = []; rows = [] })).pools
reload_backends-serve_example =
    reload_backends-serve (λ u. true) (codes "key") requests (codes "web") (codes "http://two")

-- Of the four requests, the first and the third are done, then the first is undone.
served :
    (serve (λ u. true) (codes "key") requests (record { pools = []; rows = [] })).rows
    ≡ (record { service = codes "web"; url = codes "http://two"; weight = 2 }) ∷ []
unfolding serve
served = refl

-- A registered address that is added again keeps its weight in the pool, not in its row.
added_twice :
    (serve
      (λ u. true)
      []
      (([], add_request (codes "web") (some (codes "http://one", 1)))
        ∷ ([], add_request (codes "web") (some (codes "http://one", 5)))
        ∷ [])
      (record { pools = []; rows = [] }))
    ≡ record {
      pools =
          (codes "web", record { backends = one ∷ []; algorithm = round_robin; rr_counter = 0 })
          ∷ [];
      rows = (record { service = codes "web"; url = codes "http://one"; weight = 5 }) ∷ [];
    }
unfolding serve
added_twice = refl

-- The prefix is cut off the path, and the token of the client off the headers.
handed_on :
    (proxy less_loaded
      (λ i b path headers. record { code = length headers; body = path })
      (codes "none")
      (codes "tired")
      (codes "web")
      (codes "/proxy/web/x")
      ((codes "Authorization", codes "key") ∷ (codes "Accept", codes "*") ∷ [])
      pools).seen
    ≡ record { status = some 1; body = codes "/x" }
unfolding proxy
handed_on = refl
