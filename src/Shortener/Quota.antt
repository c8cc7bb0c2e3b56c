-- ===== src/Shortener/Quota.antt =====
-- The quota of an owner under CreateLink.
use system_design.Common.{
  ℕ, suc, ◌≤◌, ◌<◌, ◌≡◌, [], ◌∷◌, ◌++◌, Option, none, some, Bool-cases, Option-cases, inl, inr,
  arith, ◌==◌, leb, length,
}
use system_design.Common.Bytes.{Bytes}
use system_design.Common.Assoc.{lookup}
use system_design.Shortener.{
  Link, Links, Shortener, Turn, Url, Answers, active_link_count, create_link, check_create,
  get_owner, is_valid_url, max_code_retries,
}
use system_design.Shortener.Links.{allocate-state}

active_link_count-append :
    (owner : Bytes) (now : ℕ) (t : Links) (l : Link)
    → active_link_count owner now (t ++ l ∷ []) ≤ suc (active_link_count owner now t)
unfolding active_link_count
active_link_count-append owner now [] l = ground arith
active_link_count-append owner now (k ∷ t) l =
    ground (arith, active_link_count-append owner now t l)

check_create-below :
    (a : Answers) (now : ℕ) (parsed : Option Url) (owner : Bytes) (s : Shortener) {quota : ℕ}
    → lookup owner s.owners ≡ some quota
    → check_create a now parsed owner s ≡ none
    → active_link_count owner now s.links < quota
unfolding check_create get_owner
check_create-below a now parsed owner s {quota} known e = elim (Bool-cases (length owner == 0)) [
  | inl empty ↦ absurd (cc (rw (empty, check_create) at e))
  | inr named ↦ elim (Bool-cases (is_valid_url parsed)) [
    | inr bad ↦ absurd (cc (rw (named, bad, check_create) at e))
    | inl good ↦ elim (Bool-cases a.owner_ok) [
      | inr down ↦ absurd (cc (rw (named, good, down, check_create, get_owner) at e))
      | inl up ↦ elim (Bool-cases a.count_ok) [
        | inr down ↦ absurd (cc (rw (named, good, up, known, down, check_create, get_owner) at e))
        | inl counted ↦ elim (Bool-cases (leb quota (active_link_count owner now s.links))) [
          | inl full ↦
              absurd (cc (rw (named, good, up, known, counted, full, check_create, get_owner) at e))
          | inr below ↦ ground (arith, below)
        ]
      ]
    ]
  ]
]

-- CreateLink keeps an owner within the quota, whatever its statements and the generator answer: if
-- the owner's active links are at most the quota before it, they are after it.
pub create_link-quota :
    (parse : Bytes → Option Url) (a : Answers) (turns : ℕ → Turn) (now : ℕ) (owner url : Bytes)
    (expires_at : Option ℕ) (s : Shortener) {quota : ℕ}
    → lookup owner s.owners ≡ some quota
    → active_link_count owner now s.links ≤ quota
    → active_link_count owner now (create_link parse a turns now owner url expires_at s).1.links
      ≤ quota
unfolding create_link
create_link-quota parse a turns now owner url expires_at s {quota} known le =
    elim (Option-cases (check_create a now (parse url) owner s)) [
      | inr (x, e) ↦ rw (e, create_link) le
      | inl e ↦
          let below : active_link_count owner now s.links < quota =
            check_create-below a now (parse url) owner s known e in
          rw (e, create_link)
            (allocate-state owner url expires_at s
              (λ u. active_link_count owner now u.links ≤ quota) le
              (λ l mine free. ground (arith, below, active_link_count-append owner now s.links l))
              max_code_retries turns)
    ]
