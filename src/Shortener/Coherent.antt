-- ===== src/Shortener/Coherent.antt =====
-- That the cache holds what the links say.
use system_design.Common.{
  ℕ, ◌+◌, ◌≡◌, refl, sym, ◌∙◌, subst, Bool, true, false, ◌||◌, [], ◌∷◌, ◌++◌, Option, none, some,
  Bool-cases, Option-cases, inl, inr, arith, if◌then◌else◌,
}
use system_design.Common.Bytes.{Bytes, beq, beq_iff, beq_refl}
use system_design.Common.Assoc.{lookup, lookup-insert}
use system_design.Shortener.{
  Link, Links, Shortener, Turn, Url, Answers, Cached, find_link, active, create_link, redirect,
  redirect_from, get_url, set_entry, set_url, set_missing, record_click, is_valid_code,
  negative_cache_value, active_cache_ttl, missing_cache_ttl, hit, missing, unknown,
}
use system_design.Shortener.Links.{create_link-state, find_link-append}

-- A value that the cache may hold for a code: the mark of a code that is missing, or the address of
-- its link.
abbrev pub own : Links → Bytes → Bytes → Bool
own t code value =
    beq value negative_cache_value
    || elim (find_link code t) [ none ↦ false | some l ↦ beq l.long_url value ]

abbrev pub IsCoherent : Shortener → Type 0
IsCoherent s =
    (code value : Bytes) (until : ℕ)
    → lookup code s.cache ≡ some (value, until)
    → own s.links code value ≡ true

own-append :
    (t u : Links) (code value : Bytes) → own t code value ≡ true → own (t ++ u) code value ≡ true
own-append t u code value h = elim (Option-cases (find_link code t)) [
  | inr (l, e) ↦ rw (find_link-append code t u e) (rw e at h)
  | inl e ↦ ground (arith, rw e at h)
]

set_entry-IsCoherent :
    (now : ℕ) (code value : Bytes) (ttl : ℕ) (s : Shortener)
    → own s.links code value ≡ true
    → IsCoherent s
    → IsCoherent (set_entry now code value ttl s)
unfolding set_entry
set_entry-IsCoherent now code value ttl s mine h j v until e =
    let e' : (if beq code j then some (value, now + ttl) else lookup j s.cache) ≡ some (v, until) =
      sym (lookup-insert code j (value, now + ttl) s.cache) ∙ e in
    elim (Bool-cases (beq code j)) [
      | inr other_key ↦ h j v until (rw other_key at e')
      | inl same ↦
          let e2 : some (value, now + ttl) ≡ some (v, until) = rw same at e' in
          let same_value : value ≡ v = cc e2 in
          let same_key : code ≡ j = (beq_iff code j).0 same in
          subst (λ w. own s.links j w ≡ true) same_value
            (subst (λ w. own s.links w value ≡ true) same_key mine)
    ]

redirect_from-IsCoherent :
    (click_ok : Bool) (now : ℕ) (code : Bytes) (o : Option Link) (s : Shortener)
    → find_link code s.links ≡ o
    → IsCoherent s
    → IsCoherent (redirect_from click_ok now code o s).1
unfolding redirect_from set_missing set_url record_click
redirect_from-IsCoherent c now code none s e h =
    set_entry-IsCoherent now code negative_cache_value missing_cache_ttl s
      (ground (arith, beq_refl negative_cache_value)) h
redirect_from-IsCoherent c now code (some l) s e h = elim (Option-cases (active now l)) [
  | inr (x, gone) ↦ rw (gone, redirect_from) h
  | inl alive ↦
      rw (alive, redirect_from)
        (set_entry-IsCoherent now code l.long_url active_cache_ttl s
          (rw e (ground (arith, beq_refl l.long_url))) h)
]

pub redirect-IsCoherent :
    (read_ok click_ok : Bool) (now : ℕ) (code : Bytes) (s : Shortener)
    → IsCoherent s
    → IsCoherent (redirect read_ok click_ok now code s).1
unfolding redirect record_click
redirect-IsCoherent r c now code s h = elim (Bool-cases (is_valid_code code)) [
  | inr bad ↦ rw (bad, redirect) h
  | inl valid ↦ go valid (get_url now code s) refl
]
  where
    go :
        is_valid_code code ≡ true
        → (g : Cached) → get_url now code s ≡ g
        → IsCoherent (redirect r c now code s).1
    go valid missing e = rw (valid, e, redirect) h
    go valid (hit url) e = rw (valid, e, redirect) h
    go valid unknown e = elim (Bool-cases r) [
      | inr down ↦ rw (valid, e, down, redirect) h
      | inl up ↦
          rw (valid, e, up, redirect)
            (redirect_from-IsCoherent c now code (find_link code s.links) s refl h)
    ]

pub create_link-IsCoherent :
    (parse : Bytes → Option Url) (a : Answers) (turns : ℕ → Turn) (now : ℕ) (owner url : Bytes)
    (expires_at : Option ℕ) (s : Shortener)
    → IsCoherent s
    → IsCoherent (create_link parse a turns now owner url expires_at s).1
create_link-IsCoherent parse a turns now owner url expires_at s h =
    create_link-state owner url expires_at s IsCoherent h
      (λ l mine free code value until e.
        own-append s.links (l ∷ []) code value (h code value until e))
      parse a turns now
