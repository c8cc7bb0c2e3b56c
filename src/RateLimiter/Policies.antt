-- ===== src/RateLimiter/Policies.antt =====
-- What the cache of policies returns.
use system_design.Common.{
  ℕ, ◌+◌, ◌<◌, ◌≡◌, ◌∙◌, ap, refl, true, Option, none, some, ltb, if◌then◌else◌, inl, inr,
  Option-cases, arith,
}
use system_design.Common.Bytes.{Bytes, beq_refl}
use system_design.Common.Assoc.{lookup, insert, remove, lookup-insert, lookup-remove}
use system_design.RateLimiter.{Entries, cached, keep, get, invalidate}

module _ {P : Type 0} (id : Bytes) (c : Entries P) where
  cached-keep :
      (now ttl later : ℕ) (p : P)
      → cached later id (keep now ttl id p c) ≡ (if ltb later (now + ttl) then some p else none)
  unfolding cached keep
  cached-keep now ttl later p =
      let hit : lookup id (insert id (p, now + ttl) c) ≡ some (p, now + ttl) =
        lookup-insert id id (p, now + ttl) c
        ∙ ap (λ b. if b then some (p, now + ttl) else lookup id c) (beq_refl id) in
      rw (hit, cached) refl

  cached-invalidate : (now : ℕ) → cached now id (invalidate id c) ≡ none
  unfolding cached invalidate
  cached-invalidate now =
      let gone : lookup id (remove id c) ≡ none =
        lookup-remove id id c ∙ ap (λ b. if b then none else lookup id c) (beq_refl id) in
      rw (gone, cached) refl

-- A Get that read the policy from the store before it was changed, and stores it in the cache
-- after the Invalidate of that change, leaves the old policy there: until the time to live is
-- over, every Get returns it, whatever the store has.
pub get-keep_stale :
    {P : Type 0} (now ttl later : ℕ) (id : Bytes) (old : P) (store : Bytes → Option P)
    (c : Entries P)
    → later < now + ttl
    → (get later ttl store id (keep now ttl id old (invalidate id c))).0 ≡ some old
unfolding get
get-keep_stale now ttl later id old store c fresh =
    let soon : ltb later (now + ttl) ≡ true = ground arith in
    let hit : cached later id (keep now ttl id old (invalidate id c)) ≡ some old =
      cached-keep id (invalidate id c) now ttl later old
      ∙ ap (λ b. if b then some old else none) soon in
    rw (hit, get) refl

-- After an Invalidate with nothing in between, Get returns what the store has.
pub get-invalidate :
    {P : Type 0} (now ttl : ℕ) (id : Bytes) (store : Bytes → Option P) (c : Entries P)
    → (get now ttl store id (invalidate id c)).0 ≡ store id
unfolding get
get-invalidate now ttl id store c = elim (Option-cases (store id)) [
  | inl unknown ↦ rw (cached-invalidate id c now, unknown, get) refl
  | inr (p, known) ↦ rw (cached-invalidate id c now, known, get) refl
]
