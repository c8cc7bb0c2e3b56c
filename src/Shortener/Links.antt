-- ===== src/Shortener/Links.antt =====
-- What the loop of CreateLink does to the table of links.
use system_design.Common.{
  ℕ, zero, suc, ◌≡◌, refl, [], ◌∷◌, ◌++◌, Option, none, some, Bool-cases, Option-cases, inl, inr,
  arith,
}
use system_design.Common.Bytes.{Bytes}
use system_design.Shortener.{
  Link, Links, Shortener, Turn, find_link, insert_link, allocate, after_insert, is_collision, Url,
  Answers, create_link, check_create, max_code_retries,
}

abbrev pub with_link : Shortener → Link → Shortener
with_link s l = record s { links = s.links ++ l ∷ [] }

pub find_link-append :
    (code : Bytes) (t u : Links) {l : Link}
    → find_link code t ≡ some l
    → find_link code (t ++ u) ≡ some l
unfolding find_link
find_link-append code [] u e = absurd (cc e)
find_link-append code (k ∷ t) u {l} e = ground (arith, find_link-append code t u {l = l})

module _ (owner url : Bytes) (expires_at : Option ℕ) (s : Shortener) (P : Shortener → Type 0)
    (same : P s)
    (more : (l : Link)
      → l.owner_id ≡ owner
      → find_link l.code s.links ≡ none
      → P (with_link s l)) where
  -- The loop leaves the state as it is or adds one row, with a code that was free.
  pub allocate-state : (n : ℕ) (turns : ℕ → Turn) → P (allocate n turns owner url expires_at s).1
  unfolding allocate insert_link after_insert is_collision
  allocate-state zero turns = same
  allocate-state (suc n) turns = elim (Option-cases (turns n).code) [
    | inl e ↦ rw (e, allocate) same
    | inr (code, e) ↦ elim (Bool-cases (turns n).insert_ok) [
      | inr down ↦ rw (e, down, allocate) same
      | inl up ↦ elim (Option-cases (find_link code s.links)) [
        | inr (l, taken) ↦ rw (e, up, taken, allocate) (allocate-state n turns)
        | inl free ↦ rw (e, up, free, allocate) (more _ refl free)
      ]
    ]
  ]

  pub create_link-state :
      (parse : Bytes → Option Url) (a : Answers) (turns : ℕ → Turn) (now : ℕ)
      → P (create_link parse a turns now owner url expires_at s).1
  unfolding create_link
  create_link-state parse a turns now =
      elim (Option-cases (check_create a now (parse url) owner s)) [
        | inr (x, e) ↦ rw (e, create_link) same
        | inl e ↦ rw (e, create_link) (allocate-state max_code_retries turns)
      ]
