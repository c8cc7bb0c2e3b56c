-- ===== src/Gateway/Tests.antt =====
-- The gateway with two routes, one key and a limiter that counts down.
use Prim.Native.Nat.{ℕ}
use system_design.Common.{
  ◌-◌, ◌≡◌, ◌⊎◌, refl, Bool, true, false, List, [], ◌∷◌, Option, none, some, ltb, if◌then◌else◌,
}
use system_design.Common.Bytes.{Bytes, codes, beq}
use system_design.Common.Text.{has_prefix, trim_right, trim_prefix}
use system_design.Gateway.{
  ApiKey, Route, Request, State, EvalResult, Verdict, match_route, reload, evaluate,
  build_upstream_url, extract_bearer_token, has_scope,
}
use system_design.Gateway.Matching.{IsMatch, NoneFits, match_route-IsMatch}
use system_design.Gateway.Evaluation.{IsPassed, evaluate-IsPassed}

abbrev route_of : Bytes → Bytes → Bool → Route
route_of id prefix on = record {
  id = id;
  path_prefix = prefix;
  upstream = codes "http://svc/";
  strip_prefix = true;
  auth_required = true;
  required_scope = codes "read";
  max_body_bytes = 0;
  timeout_secs = 0;
  active = on;
}

abbrev routes : List Route
routes =
    route_of (codes "1") (codes "/api") true
    ∷ route_of (codes "2") (codes "/api/users") true
    ∷ route_of (codes "3") (codes "/api/users/x") false
    ∷ []

abbrev request : Request
request = record {
  path = codes "/api/users/7";
  raw_query = codes "q=1";
  content_length = none;
  authorization = codes "Bearer secret";
  x_api_key = [];
}

abbrev the_key : ApiKey
the_key = record {
  id = codes "k1";
  owner = codes "me";
  hashed_key = [];
  scopes = codes "*" ∷ [];
  quota_per_min = 5;
  active = true;
}

abbrev authenticate : Bytes → Option ApiKey
authenticate token = if beq token (codes "secret") then some the_key else none

abbrev allow : ℕ → Bytes → ℕ → ℕ × Option Bool
allow left id limit = (left - 1, some (ltb 0 left))

abbrev start : State ℕ
start = record { limiter = 1; log = [] }

match_route-IsMatch_example :
    ((r : Route) × (match_route (codes "/api/users/7") (reload routes) ≡ some r)
      × IsMatch (codes "/api/users/7") (reload routes) r)
    ⊎ ((match_route (codes "/api/users/7") (reload routes) ≡ none)
        × NoneFits (codes "/api/users/7") (reload routes))
match_route-IsMatch_example = match_route-IsMatch (codes "/api/users/7") (reload routes)

abbrev answer : EvalResult
answer = record {
  route = route_of (codes "2") (codes "/api/users") true;
  key = some the_key;
  upstream_url = codes "http://svc/7?q=1";
  decision = record {
    request_id = codes "r1";
    route_id = codes "2";
    key_id = codes "k1";
    outcome = Verdict.allowed;
    status_code = 0;
  };
}

evaluate-IsPassed_example : IsPassed authenticate allow 100 (reload routes) request 1 answer
unfolding evaluate match_route has_prefix extract_bearer_token trim_prefix has_scope
    build_upstream_url trim_right beq reload
evaluate-IsPassed_example =
    evaluate-IsPassed authenticate allow 100 (reload routes) (codes "r1") request start answer refl
