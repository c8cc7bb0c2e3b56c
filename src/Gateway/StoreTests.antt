-- ===== src/Gateway/StoreTests.antt =====
-- The limiter on one key, the headers of a request with a key, and a key that is created and revoked.
use system_design.Common.{
  ℕ, ◌≡◌, refl, Bool, true, false, List, [], ◌∷◌, ◌++◌, Option, none, some, arith,
}
use system_design.Common.Bytes.{Bytes, codes, beq}
use system_design.Common.Assoc.{lookup-remove, remove, lookup}
use system_design.Common.Text.{free_of, has_prefix, trim_prefix, trim_right}
use system_design.Gateway.{
  ApiKey, Route, Request, EvalResult, passed, Verdict, State, evaluate, match_route,
  extract_bearer_token, has_scope, build_upstream_url,
}
use system_design.Gateway.Quota.{done, allow}
use system_design.Gateway.Quota.Reference.{recent, serve, allow-serve}
use system_design.Gateway.Proxy.{Headers, forwarded, proxy, direct}
use system_design.Gateway.Proxy.Consumer.{consumer, Consumed, proxy-Consumed}
use system_design.Gateway.Keys.{
  KeyRow, KeyBody, create_request, revoke_request, create_key, authenticate, join, scan_key,
}
use system_design.Gateway.Keys.Scopes.{authenticate-create_key}
use system_design.Gateway.Keys.Revoked.{
  KeyRequests, registered, serve_keys, revoke_request-evaluate,
}

abbrev exact : ℕ → ℕ
exact t = t

-- One request every half minute, with a quota of one.
abbrev half_minutes : List (Bytes × ℕ)
half_minutes =
    (codes "k1", 100000000000) ∷ (codes "k1", 130000000000) ∷ (codes "k1", 160000000000) ∷ []

allow-serve_example :
    (allow exact done 190000000000 (serve exact (λ i. 1) half_minutes []) (codes "k1") 1).1
    ≡ some false
unfolding recent beq
allow-serve_example =
    allow-serve exact (λ a b h. h) (λ i. 1) half_minutes 190000000000 (codes "k1")
      (omega arith, (omega arith, (omega arith, omega arith)))

abbrev the_key : ApiKey
the_key = record {
  id = codes "k1";
  owner = codes "me";
  hashed_key = codes "secret";
  scopes = codes "read" ∷ codes "write" ∷ [];
  quota_per_min = 5;
  active = true;
}

-- A digest for the tests.
abbrev hash : Bytes → Bytes
hash raw = codes "digest of " ++ raw

abbrev row : KeyRow
row = record {
  id = codes "k1";
  owner = codes "me";
  hashed_key = codes "digest of secret";
  scopes = codes "read,write";
  quota_per_min = 5;
  active = true;
}

authenticate-create_key_example :
    authenticate hash (row ∷ []) (codes "secret")
    ≡ some (record the_key { hashed_key = codes "digest of secret" })
unfolding create_key free_of
authenticate-create_key_example =
    authenticate-create_key hash the_key [] (row ∷ []) ((refl, refl), ((refl, refl), tt)) refl

-- A scope with a comma comes back as two.
comma :
    scan_key (record row { scopes = join (codes "a,*" ∷ []) })
    ≡ record the_key { hashed_key = codes "digest of secret"; scopes = codes "a" ∷ codes "*" ∷ [] }
unfolding scan_key join
comma = refl

abbrev other_body : KeyBody
other_body = record {
  owner = codes "you";
  scopes = codes "read" ∷ [];
  quota_per_min = 0;
  raw_key = codes "mine";
}

abbrev later : KeyRequests
later =
    (true, codes "k1", create_request (some other_body))
    ∷ (true, codes "k2", create_request (some other_body))
    ∷ (false, [], revoke_request (codes "k2"))
    ∷ []

abbrev route : Route
route = record {
  id = codes "1";
  path_prefix = codes "/";
  upstream = codes "http://svc";
  strip_prefix = false;
  auth_required = true;
  required_scope = codes "read";
  max_body_bytes = 0;
  timeout_secs = 0;
  active = true;
}

abbrev request : Request
request = record {
  path = codes "/x";
  raw_query = [];
  content_length = none;
  authorization = codes "Bearer mine";
  x_api_key = [];
}

abbrev new_key : ApiKey
new_key = record {
  id = codes "k2";
  owner = codes "you";
  hashed_key = codes "digest of mine";
  scopes = codes "read" ∷ [];
  quota_per_min = 0;
  active = true;
}

abbrev result : EvalResult
result = record {
  route = route;
  key = some new_key;
  upstream_url = codes "http://svc/x";
  decision = record {
    request_id = codes "r1";
    route_id = codes "1";
    key_id = codes "k2";
    outcome = Verdict.allowed;
    status_code = 0;
  };
}

abbrev free_limiter : ℕ → Bytes → ℕ → ℕ × Option Bool
free_limiter s id limit = (s, some true)

abbrev start : State ℕ
start = record { limiter = 0; log = [] }

there : registered (codes "k1") (row ∷ []) ≡ true
unfolding registered beq
there = refl

-- The other key is let through.
let_through :
    (evaluate
      (authenticate hash
        (serve_keys hash ((true, [], revoke_request (codes "k1")) ∷ later) (row ∷ [])))
      free_limiter
      100
      (route ∷ [])
      (codes "r1")
      request
      start).1
    ≡ passed result
unfolding evaluate match_route extract_bearer_token has_scope build_upstream_url authenticate
    serve_keys trim_right has_prefix trim_prefix
let_through = refl

-- It has an id that is not the revoked one.
revoke_request-evaluate_example : beq (codes "k2") (codes "k1") ≡ false
revoke_request-evaluate_example =
    revoke_request-evaluate hash free_limiter (codes "k1") (row ∷ []) [] later 100 (route ∷ [])
      (codes "r1") request start result {key = new_key} there let_through refl

-- The reverse proxy takes off one more header here.
abbrev take_te_off : Headers → Headers → Headers
take_te_off before after = remove (codes "Te") after

leaves :
    (before after : Headers)
    → lookup (codes "Connection") after ≡ none
    → lookup consumer (take_te_off before after) ≡ lookup consumer after
unfolding beq
leaves before after e = lookup-remove (codes "Te") consumer after

abbrev authenticated : Bytes → Option ApiKey
authenticated =
    authenticate hash (serve_keys hash ((true, [], revoke_request (codes "k1")) ∷ later) (row ∷ []))

abbrev forged : Headers
forged = (consumer, codes "admin") ∷ (codes "Te", codes "trailers") ∷ []

abbrev sent : Headers
sent = (consumer, codes "k2") ∷ (codes "X-Request-Id", codes "r1") ∷ []

handed_on :
    (proxy authenticated free_limiter
      (λ url. true)
      take_te_off
      100
      (route ∷ [])
      (codes "r1")
      request
      forged
      start).1
    ≡ forwarded (codes "http://svc/x") sent
unfolding proxy evaluate match_route extract_bearer_token has_scope build_upstream_url authenticate
    serve_keys trim_right has_prefix trim_prefix direct
handed_on = refl

proxy-Consumed_example :
    (found : Route) × (match_route request.path (route ∷ []) ≡ some found)
    × Consumed authenticated free_limiter
        (λ url. true)
        take_te_off
        found
        request
        forged
        0
        (lookup consumer sent)
proxy-Consumed_example =
    proxy-Consumed authenticated free_limiter (λ url. true) take_te_off 100 (route ∷ [])
      (codes "r1") request forged start (codes "http://svc/x") sent leaves handed_on
