-- ===== src/Gateway/Quota/Kept.antt =====
-- What one request does with the set of its key.
use system_design.Common.{
  ℕ, suc, ◌+◌, ◌-◌, ◌≤◌, ◌<◌, ◌≡◌, refl, sym, ◌∙◌, ap, subst, true, List, [], ◌∷◌, ◌++◌, Option,
  none, some, leb, if◌then◌else◌, length, arith, All, All-append, All-map, Bool-cases, inl, inr,
  le→leb,
}
use system_design.Gateway.Quota.{minute, Zset, remove_until, zadd, is_over, live}

-- How many of these have a score above the cutoff.
unfoldable pub count_above : (ℕ → ℕ) → ℕ → List ℕ → ℕ
count_above score c [] = 0
count_above score c (t ∷ ts) =
    let rest = count_above score c ts in if leb (score t) c then rest else suc rest

module _ (score : ℕ → ℕ) where
  length-remove_until :
      (c : ℕ) (ts : List ℕ) → length (remove_until score c ts) ≡ count_above score c ts
  unfolding remove_until count_above
  length-remove_until c [] = refl
  length-remove_until c (t ∷ ts) = ground (arith, length-remove_until c ts)

  -- What a lower cutoff removes does not count above a higher one.
  count_above-remove_until :
      (c d : ℕ) (ts : List ℕ)
      → c ≤ d
      → count_above score d (remove_until score c ts) ≡ count_above score d ts
  unfolding remove_until count_above
  count_above-remove_until c d [] h = refl
  count_above-remove_until c d (t ∷ ts) h = ground (arith, count_above-remove_until c d ts)

  count_above-append :
      (c : ℕ) (ts us : List ℕ)
      → count_above score c (ts ++ us) ≡ count_above score c ts + count_above score c us
  unfolding count_above
  count_above-append c [] us = omega arith
  count_above-append c (t ∷ ts) us = ground (arith, count_above-append c ts us)

  count_above-none : (c : ℕ) (ts : List ℕ) → All (λ t. score t ≤ c) ts → count_above score c ts ≡ 0
  unfolding count_above
  count_above-none c [] h = refl
  count_above-none c (t ∷ ts) h = rw (le→leb (score t) c h.0) (count_above-none c ts h.1)

  All-remove_until {κ} :
      (P : ℕ → Type κ) (c : ℕ) (ts : List ℕ) → All P ts → All P (remove_until score c ts)
  unfolding remove_until
  All-remove_until P c [] h = tt
  All-remove_until P c (t ∷ ts) h = elim (Bool-cases (leb (score t) c)) [
    | inl old ↦ rw old (All-remove_until P c ts h.1)
    | inr young ↦ rw young (h.0, All-remove_until P c ts h.1)
  ]

-- A time above all members comes behind them.
zadd-new : (t : ℕ) (ts : List ℕ) → All (λ u. u < t) ts → zadd t ts ≡ ts ++ t ∷ []
unfolding zadd
zadd-new t [] h = refl
zadd-new t (u ∷ us) h = let lt : u < t = h.0 in ground (arith, zadd-new t us h.1)

abbrev pub Aged : Option ℕ → ℕ → Type 0
Aged none t = Unit
Aged (some at) t = t + 120000000000 ≤ at

abbrev pub members_of : Option Zset → List ℕ
members_of none = []
members_of (some z) = z.members

-- The requests of one key after which nothing else came: `hist` counts those above a cutoff.
pub record IsKept (score : ℕ → ℕ) (last : ℕ) (hist : ℕ → ℕ) (o : Option Zset) : Type 0 where
  pub counted :
      (n : ℕ)
      → last ≤ n
      → count_above score (score (n - minute)) (members_of o) ≡ hist (score (n - minute))
  pub aged : (z : Zset) → o ≡ some z → All (Aged z.expires_at) z.members
  pub past : All (λ t. t ≤ last) (members_of o)

pub IsKept-ext :
    (score : ℕ → ℕ) {last : ℕ} {hist : ℕ → ℕ} {o : Option Zset} (t : ℕ) (more : ℕ → ℕ)
    → last ≤ t
    → ((c : ℕ) → hist c ≡ more c)
    → IsKept score last hist o
    → IsKept score t more o
IsKept-ext score {last} {hist} {o} t more h same kept = record {
  counted = λ n k. kept.counted n (omega arith) ∙ same (score (n - minute));
  aged = kept.aged;
  past = All-map (λ u. u ≤ last) (λ u. u ≤ t) (members_of o) (λ u k. omega arith) kept.past;
}

module _ (score : ℕ → ℕ) where
  unfoldable pub kept_now : ℕ → Option Zset → List ℕ
  kept_now t o = remove_until score (score (t - minute)) (live t o).members

  unfoldable pub hit : ℕ → Option Zset → Zset
  unfolding kept_now
  hit t o = record { members = zadd t (kept_now t o); expires_at = some (t + 120000000000) }

module _ (score : ℕ → ℕ) (mono : (a b : ℕ) → a ≤ b → score a ≤ score b) where
  Aged-over :
      (t n : ℕ) (e : Option ℕ) (ts : List ℕ)
      → t ≤ n
      → is_over t e ≡ true
      → All (Aged e) ts
      → All (λ u. score u ≤ score (n - minute)) ts
  Aged-over t n none ts h over aged = cc
  Aged-over t n (some at) ts h over aged =
      All-map (Aged (some at)) (λ u. score u ≤ score (n - minute)) ts
        (λ u a. mono u (n - minute) (ground arith)) aged

  live-counted :
      (t n : ℕ) (o : Option Zset)
      → t ≤ n
      → ((z : Zset) → o ≡ some z → All (Aged z.expires_at) z.members)
      → count_above score (score (n - minute)) (live t o).members
        ≡ count_above score (score (n - minute)) (members_of o)
  unfolding live count_above
  live-counted t n none h aged = refl
  live-counted t n (some z) h aged = elim (Bool-cases (is_over t z.expires_at)) [
    | inr fresh ↦ rw (fresh, live) refl
    | inl over ↦
        rw (over, live)
          (sym (
            count_above-none score (score (n - minute)) z.members
              (Aged-over t n z.expires_at z.members h over (aged z refl))))
  ]

  live-All {κ} :
      (P : ℕ → Type κ) (t : ℕ) (o : Option Zset) → All P (members_of o) → All P (live t o).members
  unfolding live
  live-All P t none h = tt
  live-All P t (some z) h = elim (Bool-cases (is_over t z.expires_at)) [
    | inr fresh ↦ rw (fresh, live) h
    | inl over ↦ rw (over, live) tt
  ]

  abbrev pub counts_with : ℕ → (ℕ → ℕ) → ℕ → ℕ
  counts_with t hist c = hist c + count_above score c (t ∷ [])

  module _ {last : ℕ} {hist : ℕ → ℕ} {o : Option Zset} (kept : IsKept score last hist o) (t : ℕ)
      (later : last < t) where
    pub length-kept_now : length (kept_now score t o) ≡ hist (score (t - minute))
    unfolding kept_now
    length-kept_now =
        length-remove_until score (score (t - minute)) (live t o).members
        ∙ live-counted t t o (omega arith) kept.aged
        ∙ kept.counted t (omega arith)

    members-hit : (hit score t o).members ≡ kept_now score t o ++ t ∷ []
    unfolding hit kept_now
    members-hit = zadd-new t (kept_now score t o) (
        All-map (λ u. u ≤ last) (λ u. u < t) (kept_now score t o) (λ u h. omega arith)
          (All-remove_until score (λ u. u ≤ last) (score (t - minute)) (live t o).members
            (live-All (λ u. u ≤ last) t o kept.past)))

    past-hit : All (λ u. u ≤ t) (hit score t o).members
    unfolding kept_now
    past-hit = subst (All (λ u. u ≤ t)) (sym members-hit) (
        All-append (λ u. u ≤ t) (kept_now score t o) (t ∷ [])
          (All-map (λ u. u ≤ last) (λ u. u ≤ t) (kept_now score t o) (λ u h. omega arith)
            (All-remove_until score (λ u. u ≤ last) (score (t - minute)) (live t o).members
              (live-All (λ u. u ≤ last) t o kept.past)))
          (omega arith, tt))

    pub hit-IsKept : IsKept score t (counts_with t hist) (some (hit score t o))
    unfolding hit kept_now
    hit-IsKept = record {
      counted = λ n h.
          ap (count_above score (score (n - minute))) members-hit
          ∙ count_above-append score (score (n - minute)) (kept_now score t o) (t ∷ [])
          ∙ ap (λ k. k + count_above score (score (n - minute)) (t ∷ []))
              (count_above-remove_until score (score (t - minute)) (score (n - minute))
                  (live t o).members (mono (t - minute) (n - minute) (omega arith))
                ∙ live-counted t n o h kept.aged
                ∙ kept.counted n (omega arith));
      aged = λ z e.
          subst (λ y. All (Aged y.expires_at) y.members) {x = hit score t o} {y = z} (cc e)
            (All-map (λ u. u ≤ t) (Aged (some (t + 120000000000))) (hit score t o).members
              (λ u h. omega arith) past-hit);
      past = past-hit;
    }
