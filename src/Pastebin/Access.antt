-- ===== src/Pastebin/Access.antt =====
-- Who gets the content of a paste.
use system_design.Common.{
  ℕ, ◌≤◌, ◌<◌, ◌≡◌, refl, sym, subst, ◌∙◌, ap, true, false, Option, none, some, ltb, ◌==◌, length,
  arith, Bool-cases, Option-cases, inl, inr, [],
}
use system_design.Common.Bytes.{Bytes, beq_refl}
use system_design.Common.Assoc.{lookup, insert, lookup-insert_self}
use system_design.Pastebin.{
  Paste, Service, Health, Reply, found, CreateRequest, new_paste, create, get_cached, find_paste,
  expired, allowed, deliver, read_paste, get, start_delete, max_size_bytes,
}

-- The content of a paste was delivered by right.
pub record IsDelivered (h : Health) (now : ℕ) (id requester : Bytes) (s : Service) (p : Paste)
    (content : Bytes) : Type 0 where
  pub known : find_paste h now id s ≡ some p
  pub fresh : expired now p ≡ false
  pub permitted : allowed p requester ≡ true
  pub answered : h.blobs_up ≡ true
  pub stored : lookup p.object_key s.blobs ≡ some content

own : (p : Paste) → allowed p p.owner_id ≡ true
unfolding allowed
own p = ground (arith, beq_refl p.owner_id)

deliver-found :
    (h : Health) (now : ℕ) (p : Paste) (content : Bytes) (s : Service)
    → (deliver h now p content s).0 ≡ found p content
unfolding deliver
deliver-found h now p content s = ground arith

paste_of : Paste → Reply → Paste
paste_of default (found p c) = p
paste_of default _ = default

content_of : Reply → Bytes
content_of (found p c) = c
content_of _ = []

deliver-IsDelivered :
    (h : Health) (now : ℕ) (id requester : Bytes) (s : Service) (q : Paste) (c : Bytes) {p : Paste}
    {content : Bytes}
    → IsDelivered h now id requester s q c
    → found q c ≡ found p content
    → IsDelivered h now id requester s p content
unfolding paste_of content_of
deliver-IsDelivered h now id requester s q c d same =
    subst (λ r. IsDelivered h now id requester s (paste_of q r) (content_of r)) same d

read_paste-found :
    (h : Health) (now : ℕ) (id requester : Bytes) (s : Service) (o : Option Paste) {p : Paste}
    {content : Bytes}
    → find_paste h now id s ≡ o
    → (read_paste h now requester o s).0 ≡ found p content
    → IsDelivered h now id requester s p content
unfolding read_paste
read_paste-found h now id requester s none {p} {content} known e = absurd (cc e)
read_paste-found h now id requester s (some q) {p} {content} known e =
    elim (Bool-cases (expired now q)) [
      | inl over ↦ absurd (cc (rw (over, read_paste) at e))
      | inr fresh ↦ elim (Bool-cases (allowed q requester)) [
        | inr denied ↦ absurd (cc (rw (fresh, denied, read_paste) at e))
        | inl permitted ↦ elim (Bool-cases h.blobs_up) [
          | inr down ↦ absurd (cc (rw (fresh, permitted, down, read_paste) at e))
          | inl up ↦ elim (Option-cases (lookup q.object_key s.blobs)) [
            | inl missing ↦ absurd (cc (rw (fresh, permitted, up, missing, read_paste) at e))
            | inr (c, stored) ↦
                let given : (deliver h now q c s).0 ≡ found p content =
                  rw (fresh, permitted, up, stored, read_paste) at e in
                let same : found q c ≡ found p content = sym (deliver-found h now q c s) ∙ given in
                deliver-IsDelivered h now id requester s q c
                  (record {
                    known = known;
                    fresh = fresh;
                    permitted = permitted;
                    answered = up;
                    stored = stored;
                  })
                  same
          ]
        ]
      ]
    ]

-- When Get returns content, its metadata is what the cache or else the repository has for the id,
-- it is not over, the requester is its owner if it is private, and the content is what the object
-- store has under its key.
pub get-IsDelivered :
    (h : Health) (now : ℕ) (id requester : Bytes) (s : Service) {p : Paste} {content : Bytes}
    → (get h now id requester s).0 ≡ found p content
    → IsDelivered h now id requester s p content
unfolding get
get-IsDelivered h now id requester s e =
    read_paste-found h now id requester s (find_paste h now id s) refl e

get-deliver :
    (h : Health) (now : ℕ) (id requester : Bytes) (s : Service) {p : Paste} {content : Bytes}
    → IsDelivered h now id requester s p content
    → get h now id requester s ≡ deliver h now p content s
unfolding get
get-deliver h now id requester s d =
    ap (λ o. read_paste h now requester o s) d.known
    ∙ rw (d.fresh, d.permitted, d.answered, d.stored, read_paste) refl

deliver-burn :
    (h : Health) (now : ℕ) (p : Paste) (content : Bytes) (s : Service)
    → p.burn_after_read ≡ true
    → deliver h now p content s ≡ (found p content, start_delete p s)
unfolding deliver
deliver-burn h now p content s burn = ground arith

find_paste-start_delete :
    (h : Health) (now : ℕ) (id : Bytes) (p : Paste) (s : Service)
    → find_paste h now id (start_delete p s) ≡ find_paste h now id s
unfolding find_paste get_cached start_delete
find_paste-start_delete h now id p s = refl

start_delete-blobs :
    (p : Paste) (s : Service)
    → lookup p.object_key (start_delete p s).blobs ≡ lookup p.object_key s.blobs
unfolding start_delete
start_delete-blobs p s = refl

-- A paste that is to be burnt after reading is read again: Get leaves its deletion to a goroutine,
-- and until that runs a second Get of the same requester returns the content once more.
pub get-get_burn :
    (h : Health) (now : ℕ) (id requester : Bytes) (s : Service) {p : Paste} {content : Bytes}
    → (get h now id requester s).0 ≡ found p content
    → p.burn_after_read ≡ true
    → (get h now id requester (get h now id requester s).1).0 ≡ found p content
unfolding get
get-get_burn h now id requester s {p} {content} e burn =
    let d = get-IsDelivered h now id requester s e in
    let once : get h now id requester s ≡ (found p content, start_delete p s) =
      get-deliver h now id requester s d ∙ deliver-burn h now p content s burn in
    let again : IsDelivered h now id requester (start_delete p s) p content = record {
      known = find_paste-start_delete h now id p s ∙ d.known;
      fresh = d.fresh;
      permitted = d.permitted;
      answered = d.answered;
      stored = start_delete-blobs p s ∙ d.stored;
    } in
    ap (λ r. (get h now id requester r.1).0) once
    ∙ ap (λ r. r.0) (get-deliver h now id requester (start_delete p s) again)
    ∙ deliver-found h now p content (start_delete p s)

-- The stores with a paste and its content.
stored : ℕ → Bytes → CreateRequest → Service → Service
stored now id req s = record s {
  blobs = insert (new_paste now id req).object_key req.content s.blobs;
  repo = insert id (new_paste now id req) s.repo;
}

created_state :
    (h : Health) (now : ℕ) (id : Bytes) (req : CreateRequest) (s : Service)
    → h.repo_up ≡ true
    → h.blobs_up ≡ true
    → lookup id s.repo ≡ none
    → 0 < length req.content
    → length req.content ≤ max_size_bytes
    → (create h now id req s).1 ≡ stored now id req s
unfolding create stored
created_state h now id req s repo blobs new some_content small =
    let full : (length req.content == 0) ≡ false = ground arith in
    let fits : ltb 10485760 (length req.content) ≡ false = ground arith in
    rw (full, fits, repo, blobs, new, create) refl

pub uncached_none :
    (h : Health) (now : ℕ) (id : Bytes) (s : Service)
    → lookup id s.cache ≡ none
    → get_cached h now id s ≡ none
unfolding get_cached
uncached_none h now id s e = elim (Bool-cases h.cache_up) [
  | inl up ↦ rw (up, e, get_cached) refl
  | inr down ↦ rw (down, get_cached) refl
]

find-uncached :
    (h : Health) (now : ℕ) (id : Bytes) (s : Service) {p : Paste}
    → get_cached h now id s ≡ none
    → h.repo_up ≡ true
    → lookup id s.repo ≡ some p
    → find_paste h now id s ≡ some p
unfolding find_paste
find-uncached h now id s out up there = rw (out, up, find_paste) there

own_new :
    (now : ℕ) (id : Bytes) (req : CreateRequest)
    → allowed (new_paste now id req) req.owner_id ≡ true
unfolding new_paste
own_new now id req = own (new_paste now id req)

stored-IsDelivered :
    (h : Health) (now later : ℕ) (id : Bytes) (req : CreateRequest) (s : Service)
    → h.repo_up ≡ true
    → h.blobs_up ≡ true
    → lookup id s.cache ≡ none
    → expired later (new_paste now id req) ≡ false
    → IsDelivered h later id req.owner_id (stored now id req s) (new_paste now id req) req.content
unfolding stored
stored-IsDelivered h now later id req s repo blobs uncached fresh = record {
  known =
      find-uncached h later id (stored now id req s)
        (uncached_none h later id (stored now id req s) uncached) repo
        (lookup-insert_self id (new_paste now id req) s.repo);
  fresh = fresh;
  permitted = own_new now id req;
  answered = blobs;
  stored = lookup-insert_self (new_paste now id req).object_key req.content s.blobs;
}

-- What was created is read back: after a Create that the stores carry out, under an id that neither
-- the repository nor the cache knows, with content of 1 to 10 MB, the owner gets the content from a
-- Get under that id, at any later time up to the end of the time to live, if there is one, while the
-- repository and the object store answer.
pub get-create :
    (h : Health) (now later : ℕ) (id : Bytes) (req : CreateRequest) (s : Service)
    → h.repo_up ≡ true
    → h.blobs_up ≡ true
    → lookup id s.repo ≡ none
    → lookup id s.cache ≡ none
    → 0 < length req.content
    → length req.content ≤ max_size_bytes
    → expired later (new_paste now id req) ≡ false
    → (get h later id req.owner_id (create h now id req s).1).0
      ≡ found (new_paste now id req) req.content
get-create h now later id req s repo blobs new uncached some_content small fresh =
    ap (λ r. r.0)
      (get-deliver h later id req.owner_id (create h now id req s).1 (
        subst (λ u. IsDelivered h later id req.owner_id u (new_paste now id req) req.content)
          (sym (created_state h now id req s repo blobs new some_content small))
          (stored-IsDelivered h now later id req s repo blobs uncached fresh)))
    ∙ deliver-found h later (new_paste now id req) req.content (create h now id req s).1
