-- ===== src/Shortener/Served.antt =====
-- Where a redirect goes.
use system_design.Common.{
  ℕ, ◌+◌, ◌≤◌, ◌≡◌, refl, sym, ◌∙◌, ap, subst, Bool, ltb, true, false, [], ◌∷◌, Option, none, some,
  Bool-cases, Option-cases, inl, inr, arith,
}
use system_design.Common.Bytes.{Bytes, beq, beq_iff, beq_refl}
use system_design.Common.Assoc.{lookup, lookup-insert}
use system_design.Shortener.{
  Link, Links, Shortener, Turn, Url, Answers, Cached, found, find_link, active, create_link,
  redirect, redirect_from, get_url, set_entry, set_url, set_missing, record_click, is_valid_code,
  negative_cache_value, active_cache_ttl, hit, missing, unknown,
}
use system_design.Shortener.Links.{create_link-state, find_link-append}
use system_design.Shortener.Coherent.{IsCoherent, own, redirect-IsCoherent, create_link-IsCoherent}

get_url-hit :
    (now : ℕ) (code : Bytes) (s : Shortener) {url : Bytes}
    → get_url now code s ≡ hit url
    → ((until : ℕ) × (lookup code s.cache ≡ some (url, until)))
      × (beq url negative_cache_value ≡ false)
unfolding get_url
get_url-hit now code s {url} e = elim (Option-cases (lookup code s.cache)) [
  | inl none_there ↦ absurd (cc (rw (none_there, get_url) at e))
  | inr ((value, until), there) ↦ elim (Bool-cases (ltb until now)) [
    | inl over ↦ absurd (cc (rw (there, over, get_url) at e))
    | inr fresh ↦ elim (Bool-cases (beq value negative_cache_value)) [
      | inl mark ↦ absurd (cc (rw (there, fresh, mark, get_url) at e))
      | inr real ↦
          let given : hit value ≡ hit url = rw (there, fresh, real, get_url) at e in
          let same : value ≡ url = cc given in
          (
            (until, there ∙ ap (λ v. some (v, until)) same),
            ap (λ v. beq v negative_cache_value) (sym same) ∙ real,
          )
    ]
  ]
]

own-link :
    (t : Links) (code value : Bytes)
    → own t code value ≡ true
    → beq value negative_cache_value ≡ false
    → (l : Link) × (find_link code t ≡ some l) × (l.long_url ≡ value)
own-link t code value h real = elim (Option-cases (find_link code t)) [
  | inl e ↦ absurd (cc (rw (e, real) at h))
  | inr (l, e) ↦ (l, e, (beq_iff l.long_url value).0 (rw (e, real) at h))
]

redirect_from-found :
    (click_ok : Bool) (now : ℕ) (code : Bytes) (o : Option Link) (s : Shortener) {url : Bytes}
    → (redirect_from click_ok now code o s).0 ≡ found url
    → (l : Link) × (o ≡ some l) × (l.long_url ≡ url)
unfolding redirect_from
redirect_from-found c now code none s e = absurd (cc e)
redirect_from-found c now code (some l) s {url} e = elim (Option-cases (active now l)) [
  | inr (x, gone) ↦ absurd (cc (rw (gone, redirect_from) at e))
  | inl alive ↦
      let given : found l.long_url ≡ found url = rw (alive, redirect_from) at e in
      (l, refl, cc given)
]

-- A redirect goes to the address of the link.
redirect-found :
    (read_ok click_ok : Bool) (now : ℕ) (code : Bytes) (s : Shortener) {url : Bytes}
    → IsCoherent s
    → (redirect read_ok click_ok now code s).0 ≡ found url
    → (l : Link) × (find_link code s.links ≡ some l) × (l.long_url ≡ url)
unfolding redirect
redirect-found r c now code s {url} h answer = elim (Bool-cases (is_valid_code code)) [
  | inr bad ↦ absurd (cc (rw (bad, redirect) at answer))
  | inl valid ↦ go valid (get_url now code s) refl
]
  where
    go :
        is_valid_code code ≡ true
        → (g : Cached) → get_url now code s ≡ g
        → (l : Link) × (find_link code s.links ≡ some l) × (l.long_url ≡ url)
    go valid missing e = absurd (cc (rw (valid, e, redirect) at answer))
    go valid (hit u) e =
        let given : found u ≡ found url = rw (valid, e, redirect) at answer in
        let (place, real) = get_url-hit now code s e in
        let (l, there, same) = own-link s.links code u (h code u place.0 place.1) real in
        let same_url : u ≡ url = cc given in (l, there, same ∙ same_url)
    go valid unknown e = elim (Bool-cases r) [
      | inr down ↦ absurd (cc (rw (valid, e, down, redirect) at answer))
      | inl up ↦
          redirect_from-found c now code (find_link code s.links) s
            (rw (valid, e, up, redirect) at answer)
    ]

redirect-links :
    (read_ok click_ok : Bool) (now : ℕ) (code : Bytes) (s : Shortener)
    → (redirect read_ok click_ok now code s).1.links ≡ s.links
unfolding redirect redirect_from record_click set_url set_missing set_entry
redirect-links r c now code s = ground arith

-- Any number of calls, one after the other, with any answers.
pub data Reach (s : Shortener) : Shortener → Type 0 where
  here : Reach s s
  redirected :
      {u : Shortener} (read_ok click_ok : Bool) (now : ℕ) (code : Bytes)
      → Reach s u
      → Reach s (redirect read_ok click_ok now code u).1
  made :
      {u : Shortener} (parse : Bytes → Option Url) (a : Answers) (turns : ℕ → Turn) (now : ℕ)
      (owner url : Bytes) (expires_at : Option ℕ)
      → Reach s u
      → Reach s (create_link parse a turns now owner url expires_at u).1

Reach-IsCoherent : {s u : Shortener} → Reach s u → IsCoherent s → IsCoherent u
Reach-IsCoherent here h = h
Reach-IsCoherent (redirected {u} r c now code before) h =
    redirect-IsCoherent r c now code u (Reach-IsCoherent before h)
Reach-IsCoherent (made {u} parse a turns now owner url expires_at before) h =
    create_link-IsCoherent parse a turns now owner url expires_at u (Reach-IsCoherent before h)

Reach-find_link :
    {s u : Shortener} (code : Bytes) {l : Link}
    → Reach s u
    → find_link code s.links ≡ some l
    → find_link code u.links ≡ some l
Reach-find_link code here e = e
Reach-find_link code (redirected {u} r c now j before) e =
    ap (find_link code) (redirect-links r c now j u) ∙ Reach-find_link code before e
Reach-find_link code {l} (made {u} parse a turns now owner url expires_at before) e =
    let kept : find_link code u.links ≡ some l = Reach-find_link code before e in
    create_link-state owner url expires_at u (λ v. find_link code v.links ≡ some l) kept
      (λ k mine free. find_link-append code u.links (k ∷ []) kept) parse a turns now

-- Once a code has a link, in a state whose cache is coherent (as the empty one is), and after any
-- redirects and creations, by any owners and with any failures: a redirect of the code that answers
-- with an address answers with the address of that link.
pub Reach-redirect :
    {s u : Shortener} (code : Bytes) (read_ok click_ok : Bool) (now : ℕ) {l : Link} {url : Bytes}
    → IsCoherent s
    → find_link code s.links ≡ some l
    → Reach s u
    → (redirect read_ok click_ok now code u).0 ≡ found url
    → url ≡ l.long_url
Reach-redirect {s} {u} code r c now {l} {url} h there reach e =
    let (k, found_k, same) = redirect-found r c now code u (Reach-IsCoherent reach h) e in
    let one : some k ≡ some l = sym found_k ∙ Reach-find_link code reach there in
    let equal : k ≡ l = cc one in sym same ∙ ap (λ j. j.long_url) equal

fresh-hit :
    (now until : ℕ) (code url : Bytes) (s : Shortener)
    → lookup code s.cache ≡ some (url, until)
    → now ≤ until
    → beq url negative_cache_value ≡ false
    → get_url now code s ≡ hit url
unfolding get_url
fresh-hit now until code url s there le real =
    let due : ltb until now ≡ false = ground (arith, le) in rw (there, due, real, get_url) refl

cached_now :
    (now later : ℕ) (code url : Bytes) (click_ok : Bool) (s : Shortener)
    → later ≤ now + active_cache_ttl
    → beq url negative_cache_value ≡ false
    → get_url later code (record_click click_ok code (set_url now code url s)) ≡ hit url
unfolding set_url set_entry record_click
cached_now now later code url c s le real =
    fresh-hit later (now + active_cache_ttl) code url (record_click c code (set_url now code url s))
      (lookup-insert code code (url, now + active_cache_ttl) s.cache ∙ rw (beq_refl code) refl) le
      real

-- A link that the database gave and that was active is served for ten minutes more, even if it
-- expires or is disabled in between: nothing on the way from the cache asks for the expiry.
pub redirect-redirect :
    (click_ok read_ok again_ok : Bool) (now later : ℕ) (code : Bytes) (s : Shortener) {l : Link}
    → is_valid_code code ≡ true
    → get_url now code s ≡ unknown
    → find_link code s.links ≡ some l
    → active now l ≡ none
    → beq l.long_url negative_cache_value ≡ false
    → later ≤ now + active_cache_ttl
    → (redirect read_ok again_ok later code (redirect true click_ok now code s).1).0
      ≡ found l.long_url
unfolding redirect redirect_from
redirect-redirect c r again now later code s {l} valid cold there alive real le =
    let after : (redirect true c now code s).1
        ≡ record_click c code (set_url now code l.long_url s) =
      rw (valid, cold, there, alive, redirect, redirect_from) refl in
    subst (λ u. (redirect r again later code u).0 ≡ found l.long_url) (sym after)
      (rw (valid, cached_now now later code l.long_url c s le real, redirect) refl)
