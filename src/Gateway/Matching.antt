-- ===== src/Gateway/Matching.antt =====
-- The route that a path gets.
use system_design.Common.{
  ℕ, ◌≤◌, ◌≡◌, refl, true, false, List, [], ◌∷◌, none, some, ◌⊎◌, subst, ltb, if◌then◌else◌, arith,
  length, All, Bool-cases, inl, inr,
}
use system_design.Common.Bytes.{Bytes}
use system_design.Common.Text.{has_prefix}
use system_design.Gateway.{Route, reload, match_from, match_route}

-- No route of the list with a prefix of the path has a longer one than `n`.
abbrev pub IsLongest : Bytes → ℕ → List Route → Type 0
IsLongest path n = All (λ r. has_prefix r.path_prefix path ≡ true → length r.path_prefix ≤ n)

abbrev pub Listed : Route → List Route → Type 0
Listed r [] = ⊥
Listed r (x ∷ xs) = (x ≡ r) ⊎ Listed r xs

-- What the loop gives when it has found `best` already.
record Found (path : Bytes) (best : Route) (rs : List Route) (r : Route) : Type 0 where
  fits : has_prefix r.path_prefix path ≡ true
  longer : length best.path_prefix ≤ length r.path_prefix
  longest : IsLongest path (length r.path_prefix) rs
  listed : (best ≡ r) ⊎ Listed r rs

Found-skip :
    (path : Bytes) (best x : Route) (rs : List Route) (r : Route)
    → (has_prefix x.path_prefix path ≡ true → length x.path_prefix ≤ length best.path_prefix)
    → Found path best rs r
    → Found path best (x ∷ rs) r
Found-skip path best x rs r shorter f = record {
  fits = f.fits;
  longer = f.longer;
  longest = (λ h. let le = shorter h in omega (arith, f.longer), f.longest);
  listed = elim f.listed [ inl e ↦ inl e | inr e ↦ inr (inr e) ];
}

match_from-Found :
    (path : Bytes) (best : Route) (rs : List Route)
    → has_prefix best.path_prefix path ≡ true
    → (r : Route) × (match_from path (some best) rs ≡ some r) × Found path best rs r
unfolding match_from
match_from-Found path best [] fits =
    (best, refl, record { fits = fits; longer = omega arith; longest = tt; listed = inl refl })
match_from-Found path best (x ∷ rs) fits = elim (Bool-cases (has_prefix x.path_prefix path)) [
  | inr miss ↦
      let (r, e, f) = match_from-Found path best rs fits in
      (r, rw miss e, Found-skip path best x rs r (λ h. absurd cc) f)
  | inl hit ↦ elim (Bool-cases (ltb (length best.path_prefix) (length x.path_prefix))) [
    | inr shorter ↦
        let (r, e, f) = match_from-Found path best rs fits in
        (r, rw hit (rw shorter e), Found-skip path best x rs r (λ h. ground arith) f)
    | inl longer ↦
        let (r, e, f) = match_from-Found path x rs hit in
        let le : length best.path_prefix ≤ length x.path_prefix = ground arith in
        (
          r,
          rw hit (rw longer e),
          record {
            fits = f.fits;
            longer = omega (arith, le, f.longer);
            longest = (λ h. f.longer, f.longest);
            listed = elim f.listed [ inl e ↦ inr (inl e) | inr e ↦ inr (inr e) ];
          },
        )
  ]
]

-- The route is in the table, the path begins with its prefix, and no route of the table that fits
-- the path has a longer prefix.
pub record IsMatch (path : Bytes) (routes : List Route) (r : Route) : Type 0 where
  pub listed : Listed r routes
  pub fits : has_prefix r.path_prefix path ≡ true
  pub longest : IsLongest path (length r.path_prefix) routes

abbrev pub NoneFits : Bytes → List Route → Type 0
NoneFits path = All (λ r. has_prefix r.path_prefix path ≡ false)

-- Router.Match: it finds a route of the table that fits the path and has the longest prefix of all
-- that do, or it finds nothing and no route of the table fits the path.
pub match_route-IsMatch :
    (path : Bytes) (routes : List Route)
    → ((r : Route) × (match_route path routes ≡ some r) × IsMatch path routes r)
      ⊎ ((match_route path routes ≡ none) × NoneFits path routes)
unfolding match_route
match_route-IsMatch path [] = inr (refl, tt)
match_route-IsMatch path (x ∷ rs) = elim (Bool-cases (has_prefix x.path_prefix path)) [
  | inl hit ↦
      let (r, e, f) = match_from-Found path x rs hit in
      inl (
        r,
        rw hit e,
        record { listed = f.listed; fits = f.fits; longest = (λ h. f.longer, f.longest) },
      )
  | inr miss ↦ elim (match_route-IsMatch path rs) [
    | inl (r, e, m) ↦ inl (
      r,
      rw miss e,
      record { listed = inr m.listed; fits = m.fits; longest = (λ h. absurd cc, m.longest) },
    )
    | inr (e, others) ↦ inr (rw miss e, (miss, others))
  ]
]

Listed-reload :
    (r : Route) (routes : List Route)
    → Listed r (reload routes)
    → (r.active ≡ true) × Listed r routes
unfolding reload
Listed-reload r [] h = absurd h
Listed-reload r (x ∷ routes) h = elim (Bool-cases x.active) [
  | inr off ↦ let (on, there) = Listed-reload r routes (later off h) in (on, inr there)
  | inl on ↦ elim (first on h) [
    | inl e ↦ (subst (λ (y : Route). y.active ≡ true) e on, inl e)
    | inr there ↦ let (on', there') = Listed-reload r routes there in (on', inr there')
  ]
]
  where
    later : x.active ≡ false → Listed r (reload (x ∷ routes)) → Listed r (reload routes)
    later off h = subst (λ b. Listed r (if b then x ∷ reload routes else reload routes)) off h

    first : x.active ≡ true → Listed r (reload (x ∷ routes)) → (x ≡ r) ⊎ Listed r (reload routes)
    first on h = subst (λ b. Listed r (if b then x ∷ reload routes else reload routes)) on h

-- After a Reload, a path only ever gets a route that is active and one of those loaded.
pub match_route-reload :
    (path : Bytes) (routes : List Route) (r : Route)
    → match_route path (reload routes) ≡ some r
    → (r.active ≡ true) × Listed r routes
match_route-reload path routes r e = elim (match_route-IsMatch path (reload routes)) [
  | inl (q, found, m) ↦
      let same : q ≡ r = cc in
      Listed-reload r routes (subst (λ x. Listed x (reload routes)) same m.listed)
  | inr (missing, others) ↦ absurd cc
]
