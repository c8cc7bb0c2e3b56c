-- ===== src/LocalCache/Lookup.antt =====
-- What a Get finds after a Set.
use system_design.Common.{
  ℕ, zero, suc, ◌+◌, ◌≤◌, ◌≡◌, refl, sym, subst, ◌∙◌, ap, false, Option, none, some, ltb, arith,
  length, Bool-cases, Option-cases, inl, inr,
}
use system_design.Common.Bytes.{beq_refl}
use system_design.Common.Assoc.{lookup, lookup-insert}
use system_design.LocalCache.{
  Key, Item, Cache, Ttl, evict_key, evict_one, victim, make_room, store_item, stored, set, get,
  expired, size_of, resolve_expiry,
}

-- A time of expiry that has not passed.
abbrev pub Within : ℕ → Option ℕ → Type 0
Within now none = Unit {0}
Within now (some t) = now ≤ t

evict_key-default_ttl : (k : Key) (c : Cache) → (evict_key k c).default_ttl ≡ c.default_ttl
unfolding evict_key
evict_key-default_ttl k c = ground arith

evict_one-default_ttl : (c : Cache) → (evict_one c).0.default_ttl ≡ c.default_ttl
unfolding evict_one
evict_one-default_ttl c = elim (Option-cases (victim c)) [
  | inl e ↦ ground arith
  | inr (k, e) ↦ ground (arith, evict_key-default_ttl k c)
]

make_room-default_ttl :
    (fuel size old : ℕ) (c : Cache) → (make_room fuel size old c).default_ttl ≡ c.default_ttl
unfolding make_room
make_room-default_ttl zero size old c = refl
make_room-default_ttl (suc fuel) size old c =
    ground (arith, evict_one-default_ttl c, make_room-default_ttl fuel size old (evict_one c).0)

get-found :
    (now : ℕ) (key : Key) (c : Cache) (it : Item)
    → lookup key c.items ≡ some it
    → expired now it ≡ false
    → (get now key c).1 ≡ some it.value
unfolding get
get-found now key c it e fresh = rw (e, get) (rw (fresh, get) refl)

expired-Within :
    (now : ℕ) (it : Item) (exp : Option ℕ)
    → it.expires_at ≡ exp
    → Within now exp
    → expired now it ≡ false
unfolding expired
expired-Within now it none e h = rw (e, expired) refl
expired-Within now it (some t) e h = rw (e, expired) (ground arith)

module _ (now : ℕ) (key value : Key) (ttl : Ttl) (c : Cache) where
  value-stored : (old : Option Item) → (stored now key value ttl c old).value ≡ value
  value-stored none = refl
  value-stored (some it) = refl

  expires_at-stored :
      (old : Option Item)
      → (stored now key value ttl c old).expires_at ≡ resolve_expiry now ttl c.default_ttl
  expires_at-stored none = refl
  expires_at-stored (some it) = refl

  get-store_item :
      (later : ℕ)
      → Within later (resolve_expiry now ttl c.default_ttl)
      → (get later key (store_item now key value ttl c)).1 ≡ some value
  get-store_item later within =
      let old = lookup key c.items in
      get-found later key (store_item now key value ttl c) (stored now key value ttl c old)
        (unfold store_item in
          rw (lookup-insert key key (stored now key value ttl c old) c.items)
            (rw (beq_refl key) refl))
        (expired-Within later _ (resolve_expiry now ttl c.default_ttl) (expires_at-stored old)
          within)
      ∙ ap some (value-stored old)

-- A Get of a key that was just set, at a time at which the entry has not expired, finds the value,
-- whatever the Set evicted and whichever the policy is.
pub get-set :
    (later now : ℕ) (key value : Key) (ttl : Ttl) (c : Cache)
    → Within later (resolve_expiry now ttl c.default_ttl)
    → (get later key (set now key value ttl c)).1 ≡ some value
unfolding set
get-set later now key value ttl c within = elim (Bool-cases (ltb 0 c.max_bytes)) [
  | inl limited ↦ rw limited (
      get-store_item now key value ttl _ later (
        subst (λ d. Within later (resolve_expiry now ttl d))
          (sym (
            make_room-default_ttl (suc (length c.items)) (length key + length value)
              (size_of (lookup key c.items)) c))
          within))
  | inr unlimited ↦ rw unlimited (get-store_item now key value ttl c later within)
]
