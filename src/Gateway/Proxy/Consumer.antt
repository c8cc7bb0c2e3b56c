-- ===== src/Gateway/Proxy/Consumer.antt =====
-- Whom an upstream is told that a request comes from.
use system_design.Common.{
  ℕ, ◌≡◌, ◌⊎◌, inl, inr, refl, sym, ◌∙◌, ap, subst, Bool, false, List, Option, none, some,
  Bool-cases,
}
use system_design.Common.Bytes.{Bytes, codes, beq}
use system_design.Common.Assoc.{lookup, lookup-insert, lookup-remove}
use system_design.Gateway.{
  ApiKey, Route, Request, EvalResult, Answer, passed, refused, State, evaluate, match_route,
}
use system_design.Gateway.Evaluation.{IsAdmitted, Keyed, evaluate-IsPassed}
use system_design.Gateway.Proxy.{Headers, forwarded, direct, proxy}

abbrev pub consumer : Bytes
consumer = codes "X-Consumer-Id"

-- The Director leaves no Connection header, which could name others that are to be taken off.
lookup-direct-connection :
    (request_id : Bytes) (key : Option ApiKey) (h : Headers)
    → lookup (codes "Connection") (direct request_id key h) ≡ none
unfolding direct beq
lookup-direct-connection request_id none h = simp (lookup-insert, lookup-remove) refl
lookup-direct-connection request_id (some k) h = simp (lookup-insert, lookup-remove) refl

abbrev named : Option ApiKey → Option Bytes → Option Bytes
named none sent = sent
named (some k) sent = some k.id

lookup-direct-consumer :
    (request_id : Bytes) (key : Option ApiKey) (h : Headers)
    → lookup consumer (direct request_id key h) ≡ named key (lookup consumer h)
unfolding direct beq
lookup-direct-consumer request_id none h = simp (lookup-insert, lookup-remove) refl
lookup-direct-consumer request_id (some k) h = simp lookup-insert refl

module _ {S : Type 0} (authenticate : Bytes → Option ApiKey)
    (allow : S → Bytes → ℕ → S × Option Bool) (parses : Bytes → Bool)
    (finish : Headers → Headers → Headers) where
  -- The X-Consumer-Id of a request that is handed on: the id of the key that may use the route, or,
  -- where the route asks for no key, what the client sent.
  abbrev pub Consumed : Route → Request → Headers → S → Option Bytes → Type 0
  Consumed route r h s value =
      ((route.auth_required ≡ false) × (value ≡ lookup consumer h))
      ⊎ ((key : ApiKey) × IsAdmitted authenticate allow route r s key × (value ≡ some key.id))

  consumed :
      (route : Route) (r : Request) (h : Headers) (s : S) (key : Option ApiKey)
      → Keyed authenticate allow route r s key
      → Consumed route r h s (named key (lookup consumer h))
  consumed route r h s none free = inl (free, refl)
  consumed route r h s (some key) admitted = inr (key, admitted, refl)

  forwarded-passed :
      (default : ℕ) (routes : List Route) (request_id : Bytes) (r : Request) (h : Headers)
      (st : State S) (url : Bytes) (sent : Headers)
      → (proxy authenticate allow parses finish default routes request_id r h st).1
        ≡ forwarded url sent
      → (res : EvalResult) × ((evaluate authenticate allow default routes request_id r st).1
          ≡ passed res)
        × (finish h (direct request_id res.key h) ≡ sent)
  unfolding proxy
  forwarded-passed default routes request_id r h st url sent out =
      go (evaluate authenticate allow default routes request_id r st).1 refl
    where
      go :
          (a : Answer)
          → (evaluate authenticate allow default routes request_id r st).1 ≡ a
          → (res : EvalResult) × ((evaluate authenticate allow default routes request_id r st).1
              ≡ passed res)
            × (finish h (direct request_id res.key h) ≡ sent)
      go (refused why) e = absurd (cc (rw (e, proxy) at out))
      go (passed res) e = elim (Bool-cases (parses res.upstream_url)) [
        | inl good ↦ (res, e, cc (rw (e, good, proxy) at out))
        | inr bad ↦ absurd (cc (rw (e, bad, proxy) at out))
      ]

  -- A request that proxy hands to an upstream matched a route, and the X-Consumer-Id that the
  -- upstream gets is, where the route asks for a key, the id of a key that is known by the token,
  -- active, has the scope and is not refused by the limiter, whatever the client sent; where the
  -- route asks for none, it is what the client sent. The reverse proxy leaves the header alone
  -- where there is no Connection header.
  pub proxy-Consumed :
      (default : ℕ) (routes : List Route) (request_id : Bytes) (r : Request) (h : Headers)
      (st : State S) (url : Bytes) (sent : Headers)
      → ((before after : Headers)
          → lookup (codes "Connection") after ≡ none
          → lookup consumer (finish before after) ≡ lookup consumer after)
      → (proxy authenticate allow parses finish default routes request_id r h st).1
        ≡ forwarded url sent
      → (route : Route) × (match_route r.path routes ≡ some route)
        × Consumed route r h st.limiter (lookup consumer sent)
  proxy-Consumed default routes request_id r h st url sent leaves out =
      let (res, through, made) = forwarded-passed default routes request_id r h st url sent out in
      let proof = evaluate-IsPassed authenticate allow default routes request_id r st res through in
      (
        res.route,
        proof.matched,
        subst (Consumed res.route r h st.limiter)
            (sym (
              ap (lookup consumer) (sym made)
              ∙ leaves h (direct request_id res.key h)
                  (lookup-direct-connection request_id res.key h)
              ∙ lookup-direct-consumer request_id res.key h))
            (consumed res.route r h st.limiter res.key proof.keyed),
      )
