-- ===== src/HashRing/Search.antt =====
-- The binary search of a lookup finds the first point at or after the hash of the key.
use system_design.Common.{
  ℕ, zero, suc, ◌+◌, ◌/◌, ◌<◌, ◌≤◌, ◌≡◌, refl, Bool, true, false, List, [], ◌∷◌, Option, none, some,
  leb, ltb, ◌==◌, ltb→lt, le→leb, if◌then◌else◌, arith, length, get_elem?, Bool-cases, inl, inr,
  All,
}
use system_design.Common.Bytes.{Bytes}
use system_design.HashRing.{VNode, Ring, search_from, search, reaches, owner, lookup_node}

-- What sort.Search promises for a test that stays true.
pub record IsFirst (f : ℕ → Bool) (n r : ℕ) : Type 0 where
  pub bound : r ≤ n
  pub before : (k : ℕ) → k < r → f k ≡ false
  pub here : r < n → f r ≡ true

module _ (f : ℕ → Bool) (mono : (k l : ℕ) → k ≤ l → f k ≡ true → f l ≡ true) (n : ℕ) where
  missed : (k l : ℕ) → k ≤ l → f l ≡ false → f k ≡ false
  missed k l h miss = elim (Bool-cases (f k)) [
    | inl hit ↦ let later = mono k l h hit in absurd cc
    | inr miss' ↦ miss'
  ]

  search_from-IsFirst :
      (fuel i j : ℕ)
      → j ≤ n
      → i ≤ j
      → j ≤ i + fuel
      → ((k : ℕ) → k < i → f k ≡ false)
      → (j < n → f j ≡ true)
      → IsFirst f n (search_from f fuel i j)
  unfolding search_from
  search_from-IsFirst zero i j jn ij fu before after = record {
    bound = omega arith;
    before = before;
    here = λ h. ground (arith, after);
  }
  search_from-IsFirst (suc fuel) i j jn ij fu before after = elim (Bool-cases (ltb i j)) [
    | inr done ↦
        rw done (record { bound = omega arith; before = before; here = λ h. ground (arith, after) })
    | inl more ↦
        let lt = ltb→lt i j more in
        elim (Bool-cases (f ((i + j) / 2))) [
          | inl hit ↦ rw more (
              rw hit (
                search_from-IsFirst fuel i ((i + j) / 2) (omega arith) (omega arith) (omega arith)
                  before (λ h. hit)))
          | inr miss ↦ rw more (
              rw miss (
                search_from-IsFirst fuel ((i + j) / 2 + 1) j jn (omega arith) (omega arith)
                  (λ k h. missed k ((i + j) / 2) (omega arith) miss) after))
        ]
  ]

  pub search-IsFirst : IsFirst f n (search n f)
  unfolding search
  search-IsFirst =
      search_from-IsFirst n 0 n (omega arith) (omega arith) (omega arith)
        (λ k h. absurd (omega arith)) (λ h. absurd (omega arith))

-- By position.
abbrev pub IsSorted : List VNode → Type 0
IsSorted [] = Unit
IsSorted (v ∷ vs) = All (λ w. v.position ≤ w.position) vs × IsSorted vs

reaches-All :
    (vs : List VNode) (p h l : ℕ) → All (λ w. p ≤ w.position) vs → h ≤ p → reaches vs h l ≡ true
unfolding reaches
reaches-All [] p h l all le = refl
reaches-All (v ∷ vs) p h zero all le = le→leb h v.position (omega (arith, all.0))
reaches-All (v ∷ vs) p h (suc l) all le = reaches-All vs p h l all.1 le

reaches_mono :
    (vs : List VNode) (h k l : ℕ)
    → IsSorted vs
    → k ≤ l
    → reaches vs h k ≡ true
    → reaches vs h l ≡ true
unfolding reaches
reaches_mono [] h k l sorted le hit = refl
reaches_mono (v ∷ vs) h zero zero sorted le hit = hit
reaches_mono (v ∷ vs) h zero (suc l) sorted le hit =
    reaches-All vs v.position h l sorted.0 (ground arith)
reaches_mono (v ∷ vs) h (suc k) zero sorted le hit = absurd (omega arith)
reaches_mono (v ∷ vs) h (suc k) (suc l) sorted le hit =
    reaches_mono vs h k l sorted.1 (omega arith) hit

-- The first point at or after `h`.
abbrev pub first_at : ℕ → List VNode → Option VNode
first_at h [] = none
first_at h (v ∷ vs) = if leb h v.position then some v else first_at h vs

first_at-IsFirst :
    (h : ℕ) (vs : List VNode) (r : ℕ)
    → IsFirst (reaches vs h) (length vs) r
    → first_at h vs ≡ get_elem? vs r
unfolding reaches
first_at-IsFirst h [] r first = refl
first_at-IsFirst h (v ∷ vs) zero first = rw (first.here (omega arith)) refl
first_at-IsFirst h (v ∷ vs) (suc r) first = rw (first.before 0 (omega arith)) (
    first_at-IsFirst h vs r (record {
      bound = omega (arith, first.bound);
      before = λ k lt. first.before (suc k) (omega arith);
      here = λ lt. first.here (omega arith);
    }))

-- The place where a lookup of a hash begins.
pub start-IsFirst :
    (h : ℕ) (vs : List VNode)
    → IsSorted vs
    → IsFirst (reaches vs h) (length vs) (search (length vs) (reaches vs h))
start-IsFirst h vs sorted =
    search-IsFirst (reaches vs h) (λ k l. reaches_mono vs h k l sorted) (length vs)

-- The owner of a hash, going round the ring clockwise: the first point at or after it, or else the
-- first of all.
abbrev pub clockwise : ℕ → List VNode → Bytes
clockwise h vs = owner (elim (first_at h vs) [ none ↦ get_elem? vs 0 | some v ↦ some v ])

get_elem?-past {ℓ} : {A : Type ℓ} (xs : List A) (i : ℕ) → length xs ≤ i → get_elem? xs i ≡ none
get_elem?-past [] i h = refl
get_elem?-past (x ∷ xs) zero h = absurd (omega arith)
get_elem?-past (x ∷ xs) (suc i) h = get_elem?-past xs i (omega arith)

get_elem?-within {ℓ} :
    {A : Type ℓ} (xs : List A) (i : ℕ) → i < length xs → (x : A) × (get_elem? xs i ≡ some x)
get_elem?-within [] i h = absurd (omega arith)
get_elem?-within (x ∷ xs) zero h = (x, refl)
get_elem?-within (x ∷ xs) (suc i) h = get_elem?-within xs i (omega arith)

clockwise-place :
    (h : ℕ) (vs : List VNode) (r : ℕ)
    → IsFirst (reaches vs h) (length vs) r
    → owner (get_elem? vs (if r == length vs then 0 else r)) ≡ clockwise h vs
clockwise-place h vs r first = elim (Bool-cases (r == length vs)) [
  | inl past ↦
      let none_at = get_elem?-past vs r (ground arith) in
      rw past (rw (first_at-IsFirst h vs r first) (rw none_at refl))
  | inr within ↦
      let lt : r < length vs = ground (arith, first.bound) in
      let (v, at) = get_elem?-within vs r lt in
      rw within (rw (first_at-IsFirst h vs r first) (rw at refl))
]

-- A lookup on a ring whose points are sorted, which is a binary search, gives the owner of the
-- key's hash that one finds by going through the points one by one: the first at or after the hash,
-- or else the first of all.
pub lookup_node-clockwise :
    (key_hash : Bytes → ℕ) (key : Bytes) (r : Ring)
    → IsSorted r.vnodes
    → lookup_node key_hash key r ≡ clockwise (key_hash key) r.vnodes
unfolding lookup_node
lookup_node-clockwise key_hash key r sorted =
    clockwise-place (key_hash key) r.vnodes _ (start-IsFirst (key_hash key) r.vnodes sorted)
