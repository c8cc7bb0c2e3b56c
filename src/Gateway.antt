-- ===== src/Gateway.antt =====
-- The API gateway (projects/07-api-gateway/gateway/gateway.go). The key store and the rate limiter
-- are arguments; a decision is the record that Evaluate hands to the log, without its latency.
pub mod Matching
pub mod Evaluation
pub mod Upstream
pub mod Quota
pub mod Proxy
pub mod Keys
mod Tests
mod StoreTests
use system_design.Common.{
  ℕ, ◌*◌, Bool, true, false, not, ◌&&◌, ◌||◌, List, [], ◌∷◌, ◌++◌, Option, none, some, ltb, ◌==◌,
  if◌then◌else◌, length, drop,
}
use system_design.Common.Bytes.{Bytes, codes, beq}
use system_design.Common.Text.{has_prefix, trim_prefix, trim_right}

pub record ApiKey : Type 0 where
  pub id : Bytes
  pub owner : Bytes
  pub hashed_key : Bytes
  pub scopes : List Bytes
  pub quota_per_min : ℕ
  pub active : Bool

pub record Route : Type 0 where
  pub id : Bytes
  pub path_prefix : Bytes
  pub upstream : Bytes
  pub strip_prefix : Bool
  pub auth_required : Bool
  pub required_scope : Bytes
  pub max_body_bytes : ℕ
  pub timeout_secs : ℕ
  pub active : Bool

pub data Verdict : Type 0 where
  allowed : Verdict
  blocked_scope : Verdict
  blocked_rate : Verdict

pub record Decision : Type 0 where
  pub request_id : Bytes
  pub route_id : Bytes
  pub key_id : Bytes
  pub outcome : Verdict
  pub status_code : ℕ

-- What Evaluate reads of the request. `content_length` is `none` where http.Request has -1, for a
-- body whose length is not known. A missing header is empty.
pub record Request : Type 0 where
  pub path : Bytes
  pub raw_query : Bytes
  pub content_length : Option ℕ
  pub authorization : Bytes
  pub x_api_key : Bytes

pub data Refusal : Type 0 where
  not_found : Refusal
  payload_too_large : Refusal
  unauthorized : Refusal
  forbidden : Refusal
  rate_limited : Refusal

pub record EvalResult : Type 0 where
  pub route : Route
  pub key : Option ApiKey
  pub upstream_url : Bytes
  pub decision : Decision

pub data Answer : Type 0 where
  passed : EvalResult → Answer
  refused : Refusal → Answer

-- Router.Reload
unfoldable pub reload : List Route → List Route
reload [] = []
reload (r ∷ rs) = let rest = reload rs in if r.active then r ∷ rest else rest

better : Option Route → Route → Option Route
better none r = some r
better (some best) r =
    if ltb (length best.path_prefix) (length r.path_prefix) then some r else some best

-- The loop of Router.Match with the best route so far.
unfoldable pub match_from : Bytes → Option Route → List Route → Option Route
unfolding better
match_from path best [] = best
match_from path best (r ∷ rs) =
    match_from path (if has_prefix r.path_prefix path then better best r else best) rs

unfoldable pub match_route : Bytes → List Route → Option Route
unfolding match_from
match_route path routes = match_from path none routes

unfoldable pub extract_bearer_token : Request → Bytes
extract_bearer_token r =
    if has_prefix (codes "Bearer ") r.authorization
    then trim_prefix (codes "Bearer ") r.authorization
    else r.x_api_key

unfoldable pub has_scope : List Bytes → Bytes → Bool
has_scope [] required = false
has_scope (s ∷ ss) required = beq s required || beq s (codes "*") || has_scope ss required

or_slash : Bytes → Bytes
or_slash [] = codes "/"
or_slash (b ∷ bs) = b ∷ bs

abbrev pub query_part : Bytes → Bytes
query_part [] = []
query_part (b ∷ bs) = codes "?" ++ b ∷ bs

unfoldable pub build_upstream_url : Route → Request → Bytes
unfolding or_slash
build_upstream_url route r =
    let path =
      if route.strip_prefix then or_slash (trim_prefix route.path_prefix r.path) else r.path in
    trim_right b'/' route.upstream ++ (path ++ query_part r.raw_query)

-- r.ContentLength > maxBody
abbrev pub exceeds : Option ℕ → ℕ → Bool
exceeds none limit = false
exceeds (some n) limit = ltb limit n

abbrev pub body_limit : ℕ → Route → ℕ
body_limit default route = if route.max_body_bytes == 0 then default else route.max_body_bytes

abbrev decide : Bytes → Route → Option ApiKey → Verdict → ℕ → Decision
decide request_id route key verdict code = record {
  request_id = request_id;
  route_id = route.id;
  key_id = elim key [ none ↦ [] | some k ↦ k.id ];
  outcome = verdict;
  status_code = code;
}

-- The defaults of New: 4 MiB and 30 seconds where the configuration has 0.
pub record Config : Type 0 where
  pub default_max_body_bytes : ℕ
  pub default_timeout_secs : ℕ

unfoldable pub with_defaults : Config → Config
with_defaults cfg = record {
  default_max_body_bytes =
      if cfg.default_max_body_bytes == 0 then 4 * 1024 * 1024 else cfg.default_max_body_bytes;
  default_timeout_secs = if cfg.default_timeout_secs == 0 then 30 else cfg.default_timeout_secs;
}

-- ReloadRoutes: the table of the router, and whether the query of the store went well.
unfoldable pub reload_routes : Option (List Route) → List Route → List Route × Bool
unfolding reload
reload_routes none routes = (routes, false)
reload_routes (some stored) routes = (reload stored, true)

-- What Evaluate changes: the rate limiter, and the decisions handed to the log.
pub record State (S : Type 0) : Type 0 where
  pub limiter : S
  pub log : List Decision

-- `authenticate` is `none` on an error; `allow` answers with the limiter's new state and `none` on
-- an error.
module _ {S : Type 0} (authenticate : Bytes → Option ApiKey)
    (allow : S → Bytes → ℕ → S × Option Bool) where
  pass : Bytes → Route → Option ApiKey → Request → State S → State S × Answer
  pass request_id route key r st =
      let d = decide request_id route key allowed 0 in
      (
        record st { log = st.log ++ d ∷ [] },
        passed (record {
          route = route;
          key = key;
          upstream_url = build_upstream_url route r;
          decision = d;
        }),
      )

  -- The quota of the key; an error of the limiter lets the request through.
  check_rate : Bytes → Route → ApiKey → Request → State S → State S × Answer
  unfolding pass
  check_rate request_id route key r st =
      let (limiter', ok) = allow st.limiter key.id key.quota_per_min in
      let asked = record st { limiter = limiter' } in
      if ltb 0 key.quota_per_min
      then elim ok [
        | none ↦ pass request_id route (some key) r asked
        | some b ↦ if b then pass request_id route (some key) r asked else (
          record asked {
            log = asked.log ++ decide request_id route (some key) blocked_rate 429 ∷ [];
          },
          refused rate_limited,
        )
      ]
      else pass request_id route (some key) r st

  check_scope : Bytes → Route → ApiKey → Request → State S → State S × Answer
  unfolding check_rate
  check_scope request_id route key r st =
      if not (beq route.required_scope []) && not (has_scope key.scopes route.required_scope)
      then (
        record st { log = st.log ++ decide request_id route (some key) blocked_scope 403 ∷ [] },
        refused forbidden,
      )
      else check_rate request_id route key r st

  check_key : Bytes → Route → Request → State S → State S × Answer
  unfolding check_scope
  check_key request_id route r st =
      let raw_key = extract_bearer_token r in
      if beq raw_key [] then (st, refused unauthorized) else elim (authenticate raw_key) [
        | none ↦ (st, refused unauthorized)
        | some key ↦
            if not key.active
            then (st, refused unauthorized)
            else check_scope request_id route key r st
      ]

  unfoldable pub evaluate : ℕ → List Route → Bytes → Request → State S → State S × Answer
  unfolding check_key pass
  evaluate default routes request_id r st = elim (match_route r.path routes) [
    | none ↦ (st, refused not_found)
    | some route ↦
        if exceeds r.content_length (body_limit default route)
        then (st, refused payload_too_large)
        else if route.auth_required
        then check_key request_id route r st
        else pass request_id route none r st
  ]
