-- ===== src/Gateway/Keys/Revoked.antt =====
-- That a key stays revoked.
use system_design.Common.{
  ℕ, ◌≡◌, refl, ◌∙◌, ap, subst, Bool, true, false, List, [], ◌∷◌, ◌++◌, Option, none, some, ◌||◌,
  length, ◌==◌, if◌then◌else◌, arith, Bool-cases, Option-cases, inl, inr,
}
use system_design.Common.Bytes.{Bytes, beq, beq_iff}
use system_design.Gateway.{
  ApiKey, Route, Request, EvalResult, passed, State, evaluate, extract_bearer_token,
}
use system_design.Gateway.Evaluation.{IsAdmitted, Keyed, evaluate-IsPassed}
use system_design.Gateway.Keys.{
  KeyRow, KeyRequest, create_request, get_request, revoke_request, KeyBody, taken, create_key,
  scan_key, by_digest, authenticate, revoke_key, create_handler, revoke_handler, handle_key, join,
}

-- There is a row with this id, and no row with it is active.
unfoldable pub registered : Bytes → List KeyRow → Bool
registered id [] = false
registered id (q ∷ qs) = beq q.id id || registered id qs

unfoldable some_active : Bytes → List KeyRow → Bool
some_active id [] = false
some_active id (q ∷ qs) = (if beq q.id id then q.active else false) || some_active id qs

registered-append :
    (id : Bytes) (rows : List KeyRow) (row : KeyRow)
    → registered id (rows ++ row ∷ []) ≡ (beq row.id id || registered id rows)
unfolding registered
registered-append id [] row = ground arith
registered-append id (q ∷ qs) row = ground (arith, registered-append id qs row)

some_active-append :
    (id : Bytes) (rows : List KeyRow) (row : KeyRow)
    → beq row.id id ≡ false
    → some_active id (rows ++ row ∷ []) ≡ some_active id rows
unfolding some_active
some_active-append id [] row new = ground arith
some_active-append id (q ∷ qs) row new = ground (arith, some_active-append id qs row new)

registered-revoke_key :
    (id other : Bytes) (rows : List KeyRow)
    → registered id (revoke_key other rows) ≡ registered id rows
unfolding registered revoke_key
registered-revoke_key id other [] = refl
registered-revoke_key id other (q ∷ qs) = ground (arith, registered-revoke_key id other qs)

some_active-revoke_key :
    (id other : Bytes) (rows : List KeyRow)
    → some_active id rows ≡ false
    → some_active id (revoke_key other rows) ≡ false
unfolding some_active revoke_key
some_active-revoke_key id other [] off = refl
some_active-revoke_key id other (q ∷ qs) off = ground (arith, some_active-revoke_key id other qs)

some_active-revoke_key_self :
    (id : Bytes) (rows : List KeyRow) → some_active id (revoke_key id rows) ≡ false
unfolding some_active revoke_key
some_active-revoke_key_self id [] = refl
some_active-revoke_key_self id (q ∷ qs) = ground (arith, some_active-revoke_key_self id qs)

-- An id that has a row is taken.
taken-registered :
    (id hashed : Bytes) (rows : List KeyRow)
    → registered id rows ≡ true
    → taken id hashed rows ≡ true
unfolding registered taken
taken-registered id hashed [] h = h
taken-registered id hashed (q ∷ qs) h = ground (arith, taken-registered id hashed qs)

record IsRevoked (id : Bytes) (rows : List KeyRow) : Type 0 where
  there : registered id rows ≡ true
  off : some_active id rows ≡ false

module _ (hash : Bytes → Bytes) (id : Bytes) where
  create_key-IsRevoked :
      (k : ApiKey) (rows : List KeyRow) {after : List KeyRow}
      → IsRevoked id rows
      → create_key hash k rows ≡ some after
      → IsRevoked id after
  unfolding create_key
  create_key-IsRevoked k rows {after} h made =
      elim (Bool-cases (taken k.id (hash k.hashed_key) rows)) [
        | inl old ↦ absurd (cc (rw (old, create_key) at made))
        | inr new ↦
            let row : KeyRow = record {
              id = k.id;
              owner = k.owner;
              hashed_key = hash k.hashed_key;
              scopes = join k.scopes;
              quota_per_min = k.quota_per_min;
              active = k.active;
            } in
            let same : some (rows ++ row ∷ []) ≡ some after = rw (new, create_key) at made in
            let another : beq k.id id ≡ false = elim (Bool-cases (beq k.id id)) [
              | inr different ↦ different
              | inl equal ↦ absurd (
                  cc (
                    new,
                    taken-registered k.id (hash k.hashed_key) rows
                        (ap (λ i. registered i rows) ((beq_iff k.id id).0 equal) ∙ h.there),
                  ))
            ] in
            subst (IsRevoked id) {x = rows ++ row ∷ []} {y = after} (cc same) (record {
              there = registered-append id rows row ∙ ground (arith, h.there);
              off = some_active-append id rows row another ∙ h.off;
            })
      ]

  abbrev key_of : Bytes → KeyBody → ApiKey
  key_of fresh body = record {
    id = fresh;
    owner = body.owner;
    hashed_key = body.raw_key;
    scopes = body.scopes;
    quota_per_min = body.quota_per_min;
    active = true;
  }

  handle_key-IsRevoked :
      (up : Bool) (fresh : Bytes) (req : KeyRequest) (rows : List KeyRow)
      → IsRevoked id rows
      → IsRevoked id (handle_key hash up fresh req rows).1
  unfolding handle_key create_handler revoke_handler
  handle_key-IsRevoked up fresh (create_request none) rows h = h
  handle_key-IsRevoked up fresh (create_request (some body)) rows h =
      elim (Bool-cases (length body.owner == 0 || length body.raw_key == 0)) [
        | inl bad ↦ rw (bad, create_handler) h
        | inr good ↦ elim (Bool-cases up) [
          | inr down ↦ rw (good, down, create_handler) h
          | inl running ↦ elim (Option-cases (create_key hash (key_of fresh body) rows)) [
            | inl clash ↦ rw (good, running, clash, create_handler) h
            | inr (after, made) ↦
                rw (good, running, made, create_handler)
                  (create_key-IsRevoked (key_of fresh body) rows h made)
          ]
        ]
      ]
  handle_key-IsRevoked up fresh (get_request key_id) rows h = h
  handle_key-IsRevoked false fresh (revoke_request key_id) rows h = h
  handle_key-IsRevoked true fresh (revoke_request key_id) rows h = record {
    there = registered-revoke_key id key_id rows ∙ h.there;
    off = some_active-revoke_key id key_id rows h.off;
  }

-- Requests in their order, each with whether the database answers and the id that would be given.
abbrev pub KeyRequests : Type 0
KeyRequests = List (Bool × Bytes × KeyRequest)

unfoldable pub serve_keys : (Bytes → Bytes) → KeyRequests → List KeyRow → List KeyRow
unfolding handle_key
serve_keys hash [] rows = rows
serve_keys hash ((up, fresh, req) ∷ reqs) rows =
    serve_keys hash reqs (handle_key hash up fresh req rows).1

serve_keys-IsRevoked :
    (hash : Bytes → Bytes) (id : Bytes) (reqs : KeyRequests) (rows : List KeyRow)
    → IsRevoked id rows
    → IsRevoked id (serve_keys hash reqs rows)
unfolding serve_keys
serve_keys-IsRevoked hash id [] rows h = h
serve_keys-IsRevoked hash id ((up, fresh, req) ∷ reqs) rows h =
    serve_keys-IsRevoked hash id reqs (handle_key hash up fresh req rows).1
      (handle_key-IsRevoked hash id up fresh req rows h)

by_digest-another :
    (id d : Bytes) (rows : List KeyRow) (key : ApiKey)
    → some_active id rows ≡ false
    → by_digest d rows ≡ some key
    → key.active ≡ true
    → beq key.id id ≡ false
unfolding by_digest some_active scan_key
by_digest-another id d [] key off found on = absurd (cc found)
by_digest-another id d (q ∷ qs) key off found on = elim (Bool-cases (beq q.hashed_key d)) [
  | inr skipped ↦
      by_digest-another id d qs key (ground (arith, off)) (rw (skipped, by_digest) at found) on
  | inl this ↦
      let same : some (scan_key q) ≡ some key = rw (this, by_digest) at found in
      let id_of : q.id ≡ key.id = ap (λ k. k.id) (some_injective same) in
      let active_of : q.active ≡ key.active = ap (λ k. k.active) (some_injective same) in
      subst (λ i. beq i id ≡ false) id_of (ground (arith, off, active_of, on))
]
  where
    some_injective : some (scan_key q) ≡ some key → scan_key q ≡ key
    some_injective e = cc e

-- Once a request to revoke a key that is there has been answered, no request with that key is let
-- through on a route that asks for a key, whatever requests to the control plane follow and
-- whatever the limiter says.
pub revoke_request-evaluate :
    {S : Type 0} (hash : Bytes → Bytes) (allow : S → Bytes → ℕ → S × Option Bool) (id : Bytes)
    (rows : List KeyRow) (fresh : Bytes) (reqs : KeyRequests) (default : ℕ) (routes : List Route)
    (request_id : Bytes) (r : Request) (st : State S) (res : EvalResult) {key : ApiKey}
    → registered id rows ≡ true
    → (evaluate
        (authenticate hash (serve_keys hash ((true, fresh, revoke_request id) ∷ reqs) rows))
        allow
        default
        routes
        request_id
        r
        st).1
      ≡ passed res
    → res.key ≡ some key
    → beq key.id id ≡ false
unfolding serve_keys handle_key revoke_handler authenticate
revoke_request-evaluate hash allow id rows fresh reqs default routes request_id r st res {key} there
      through known =
    let now = serve_keys hash reqs (revoke_key id rows) in
    let proof =
      evaluate-IsPassed (authenticate hash now) allow default routes request_id r st res through in
    let admitted : IsAdmitted (authenticate hash now) allow res.route r st.limiter key =
      subst (Keyed (authenticate hash now) allow res.route r st.limiter) known proof.keyed in
    let off : IsRevoked id now = serve_keys-IsRevoked hash id reqs (revoke_key id rows) (record {
      there = registered-revoke_key id id rows ∙ there;
      off = some_active-revoke_key_self id rows;
    }) in
    by_digest-another id (hash (extract_bearer_token r)) now key off.off admitted.known
      admitted.active
