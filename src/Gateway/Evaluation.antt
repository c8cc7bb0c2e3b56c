-- ===== src/Gateway/Evaluation.antt =====
-- What a request that is let through has passed, and what each outcome leaves behind.
use system_design.Common.{
  ℕ, ◌≡◌, ◌≢◌, refl, ◌⊎◌, ◌||◌, inl, inr, Bool, true, false, not, ◌&&◌, List, [], ◌∷◌, ◌++◌, Option,
  none, some, ltb, subst, arith, Bool-cases, Option-cases,
}
use system_design.Common.Bytes.{Bytes, beq}
use system_design.Gateway.{
  ApiKey, Route, allowed, blocked_scope, blocked_rate, Decision, Request, forbidden, rate_limited,
  EvalResult, Answer, passed, refused, State, match_route, exceeds, body_limit,
  extract_bearer_token, has_scope, build_upstream_url, decide, evaluate, check_key, check_scope,
  check_rate,
}

module _ {S : Type 0} (authenticate : Bytes → Option ApiKey)
    (allow : S → Bytes → ℕ → S × Option Bool) where
  -- The key has no quota, or the limiter does not refuse it.
  abbrev pub WithinQuota : S → ApiKey → Type 0
  WithinQuota s key =
      (ltb 0 key.quota_per_min ≡ false) ⊎ ((allow s key.id key.quota_per_min).1 ≢ some false)

  -- A key that may use the route: known and active, with the scope, and the limiter did not say no.
  pub record IsAdmitted (route : Route) (r : Request) (s : S) (key : ApiKey) : Type 0 where
    pub known : authenticate (extract_bearer_token r) ≡ some key
    pub presented : beq (extract_bearer_token r) [] ≡ false
    pub active : key.active ≡ true
    pub scoped : (beq route.required_scope [] || has_scope key.scopes route.required_scope) ≡ true
    pub within_quota : WithinQuota s key

  abbrev result_of : Bytes → Route → Option ApiKey → Request → EvalResult
  result_of request_id route key r = record {
    route = route;
    key = key;
    upstream_url = build_upstream_url route r;
    decision = decide request_id route key allowed 0;
  }

  check_rate-passed :
      (request_id : Bytes) (route : Route) (key : ApiKey) (r : Request) (st : State S)
      (res : EvalResult)
      → (check_rate authenticate allow request_id route key r st).1 ≡ passed res
      → (result_of request_id route (some key) r ≡ res) × WithinQuota st.limiter key
  unfolding check_rate
  check_rate-passed request_id route key r st res e = elim (Bool-cases (ltb 0 key.quota_per_min)) [
    | inr unlimited ↦ (ground arith, inl unlimited)
    | inl limited ↦ elim (Option-cases (allow st.limiter key.id key.quota_per_min).1) [
      | inl failed ↦ (ground arith, inr (λ q. cc))
      | inr (b, answered) ↦ elim (Bool-cases b) [
        | inl ok ↦ (ground arith, inr (λ q. ground arith))
        | inr over ↦ absurd (ground arith)
      ]
    ]
  ]

  check_scope-passed :
      (request_id : Bytes) (route : Route) (key : ApiKey) (r : Request) (st : State S)
      (res : EvalResult)
      → (check_scope authenticate allow request_id route key r st).1 ≡ passed res
      → (result_of request_id route (some key) r ≡ res)
        × WithinQuota st.limiter key
        × ((beq route.required_scope [] || has_scope key.scopes route.required_scope) ≡ true)
  unfolding check_scope
  check_scope-passed request_id route key r st res e =
      let scoped : (beq route.required_scope [] || has_scope key.scopes route.required_scope)
          ≡ true =
        ground arith in
      let (same, quota) = check_rate-passed request_id route key r st res (ground arith) in
      (same, quota, scoped)

  -- The route asks for no key, or the key may use it.
  abbrev pub Keyed : Route → Request → S → Option ApiKey → Type 0
  Keyed route r s none = route.auth_required ≡ false
  Keyed route r s (some key) = IsAdmitted route r s key

  -- What stands behind an answer that lets a request through.
  pub record IsPassed (default : ℕ) (routes : List Route) (r : Request) (s : S) (res : EvalResult)
      : Type 0 where
    pub matched : match_route r.path routes ≡ some res.route
    pub small_enough : exceeds r.content_length (body_limit default res.route) ≡ false
    pub keyed : Keyed res.route r s res.key
    pub target : res.upstream_url ≡ build_upstream_url res.route r

  check_key-passed :
      (request_id : Bytes) (route : Route) (r : Request) (st : State S) (res : EvalResult)
      → (check_key authenticate allow request_id route r st).1 ≡ passed res
      → (key : ApiKey) × (result_of request_id route (some key) r ≡ res)
        × IsAdmitted route r st.limiter key
  unfolding check_key
  check_key-passed request_id route r st res e =
      elim (Option-cases (authenticate (extract_bearer_token r))) [
        | inl unknown ↦ absurd (ground arith)
        | inr (key, known) ↦
            let presented : beq (extract_bearer_token r) [] ≡ false = ground arith in
            let active : key.active ≡ true = ground arith in
            let (same, quota, scoped) =
              check_scope-passed request_id route key r st res (ground arith) in
            (
              key,
              same,
              record {
                known = known;
                presented = presented;
                active = active;
                scoped = scoped;
                within_quota = quota;
              },
            )
      ]

  -- Evaluate lets a request through only if a route matches its path, its declared length is within
  -- the limit, and either the route asks for no key, or the token names a key that is active, has
  -- the scope and is not refused by the limiter; it is sent to the address built from that route.
  pub evaluate-IsPassed :
      (default : ℕ) (routes : List Route) (request_id : Bytes) (r : Request) (st : State S)
      (res : EvalResult)
      → (evaluate authenticate allow default routes request_id r st).1 ≡ passed res
      → IsPassed default routes r st.limiter res
  unfolding evaluate
  evaluate-IsPassed default routes request_id r st res e =
      elim (Option-cases (match_route r.path routes)) [
        | inl missing ↦ absurd (ground arith)
        | inr (route, matched) ↦
            let small : exceeds r.content_length (body_limit default route) ≡ false =
              ground arith in
            elim (Bool-cases route.auth_required) [
              | inr free ↦
                  subst (IsPassed default routes r st.limiter) (ground arith)
                    (unkeyed route matched small free)
              | inl closed ↦
                  let (key, same, admitted) =
                    check_key-passed request_id route r st res (ground arith) in
                  subst (IsPassed default routes r st.limiter) same (record {
                    matched = matched;
                    small_enough = small;
                    keyed = admitted;
                    target = refl;
                  })
            ]
      ]
    where
      unkeyed :
          (route : Route)
          → match_route r.path routes ≡ some route
          → exceeds r.content_length (body_limit default route) ≡ false
          → route.auth_required ≡ false
          → IsPassed default routes r st.limiter (result_of request_id route none r)
      unkeyed route matched small free = record {
        matched = matched;
        small_enough = small;
        keyed = free;
        target = refl;
      }

  -- The log after an answer: the decision of a request that passed, one decision for a request
  -- without the scope or over its quota, and nothing for the others.
  abbrev pub LogsAs : List Decision → State S → Answer → Type 0
  LogsAs log st' (passed res) = st'.log ≡ log ++ res.decision ∷ []
  LogsAs log st' (refused forbidden) =
      (d : Decision) × (st'.log ≡ log ++ d ∷ []) × (d.outcome ≡ blocked_scope)
  LogsAs log st' (refused rate_limited) =
      (d : Decision) × (st'.log ≡ log ++ d ∷ []) × (d.outcome ≡ blocked_rate)
  LogsAs log st' (refused _) = st'.log ≡ log

  check_rate-LogsAs :
      (request_id : Bytes) (route : Route) (key : ApiKey) (r : Request) (st : State S)
      → let (st', answer) = check_rate authenticate allow request_id route key r st in
        LogsAs st.log st' answer
  unfolding check_rate
  check_rate-LogsAs request_id route key r st = elim (Bool-cases (ltb 0 key.quota_per_min)) [
    | inr unlimited ↦ rw unlimited refl
    | inl limited ↦ rw limited (elim (Option-cases (allow st.limiter key.id key.quota_per_min).1) [
      | inl failed ↦ rw failed refl
      | inr (b, answered) ↦ rw answered (elim (Bool-cases b) [
        | inl ok ↦ rw ok refl
        | inr over ↦ rw over (decide request_id route (some key) blocked_rate 429, refl, refl)
      ])
    ])
  ]

  check_key-LogsAs :
      (request_id : Bytes) (route : Route) (r : Request) (st : State S)
      → let (st', answer) = check_key authenticate allow request_id route r st in
        LogsAs st.log st' answer
  unfolding check_key check_scope
  check_key-LogsAs request_id route r st = elim (Bool-cases (beq (extract_bearer_token r) [])) [
    | inl absent ↦ rw absent refl
    | inr present ↦ rw present (elim (Option-cases (authenticate (extract_bearer_token r))) [
      | inl unknown ↦ rw unknown refl
      | inr (key, known) ↦ rw known (elim (Bool-cases (not key.active)) [
        | inl off ↦ rw off refl
        | inr on ↦
            rw on
              (elim (Bool-cases (
                not (beq route.required_scope [])
                && not (has_scope key.scopes route.required_scope))) [
                  | inl lacking ↦
                      rw lacking (decide request_id route (some key) blocked_scope 403, refl, refl)
                  | inr scoped ↦ rw scoped (check_rate-LogsAs request_id route key r st)
                ])
      ])
    ])
  ]

  -- Evaluate logs one decision for a request that it lets through, that lacks the scope or that is
  -- over its quota, with that outcome, and none for a request that no route fits, that is too large
  -- or that has no valid key.
  pub evaluate-LogsAs :
      (default : ℕ) (routes : List Route) (request_id : Bytes) (r : Request) (st : State S)
      → let (st', answer) = evaluate authenticate allow default routes request_id r st in
        LogsAs st.log st' answer
  unfolding evaluate
  evaluate-LogsAs default routes request_id r st = elim (Option-cases (match_route r.path routes)) [
    | inl missing ↦ rw (missing, evaluate) refl
    | inr (route, matched) ↦
        rw (matched, evaluate)
          (elim (Bool-cases (exceeds r.content_length (body_limit default route))) [
            | inl large ↦ rw large refl
            | inr small ↦ rw small (elim (Bool-cases route.auth_required) [
              | inr free ↦ rw free refl
              | inl closed ↦ rw closed (check_key-LogsAs request_id route r st)
            ])
          ])
  ]
