-- ===== src/Gateway/Proxy.antt =====
-- The data plane of api/handler.go: proxy hands what Evaluate let through to the upstream, or answers
-- with the code of the refusal. Whether an address parses is an argument, and so is what
-- httputil.ReverseProxy makes of the headers behind the Director, which may look at those before it:
-- it takes off hop-by-hop headers and adds X-Forwarded-For. Headers are by their canonical names. Not
-- modelled: the answer of the upstream, the metrics.
pub mod Consumer
use system_design.Common.{ℕ, ◌≡◌, Bool, ◌||◌, List, Option, none, some, if◌then◌else◌, arith}
use system_design.Common.Bytes.{Bytes, codes, beq}
use system_design.Common.Assoc.{insert, remove}
use system_design.Gateway.{
  ApiKey, Route, Request, Refusal, not_found, payload_too_large, unauthorized, forbidden,
  rate_limited, passed, refused, State, evaluate,
}

abbrev pub Headers : Type 0
Headers = List (Bytes × Bytes)

-- mapError
unfoldable pub map_error : Refusal → ℕ
map_error not_found = 404
map_error unauthorized = 401
map_error forbidden = 403
map_error rate_limited = 429
map_error payload_too_large = 413

-- The Director.
unfoldable pub direct : Bytes → Option ApiKey → Headers → Headers
unfolding insert remove
direct request_id key h =
    let named =
      insert (codes "X-Request-Id") request_id
        (remove (codes "Upgrade") (remove (codes "Connection") h)) in
    elim key [ none ↦ named | some k ↦ insert (codes "X-Consumer-Id") k.id named ]

pub data Reply : Type 0 where
  answered : ℕ → Reply
  forwarded : Bytes → Headers → Reply

module _ {S : Type 0} (authenticate : Bytes → Option ApiKey)
    (allow : S → Bytes → ℕ → S × Option Bool) (parses : Bytes → Bool)
    (finish : Headers → Headers → Headers) where
  unfoldable pub proxy : ℕ → List Route → Bytes → Request → Headers → State S → State S × Reply
  unfolding evaluate map_error direct
  proxy default routes request_id r h st =
      let (st', answer) = evaluate authenticate allow default routes request_id r st in
      elim answer [
        | refused why ↦ (st', answered (map_error why))
        | passed res ↦
            if parses res.upstream_url
            then (st', forwarded res.upstream_url (finish h (direct request_id res.key h)))
            else (st', answered 502)
      ]
