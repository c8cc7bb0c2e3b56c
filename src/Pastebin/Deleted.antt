-- ===== src/Pastebin/Deleted.antt =====
-- That a deleted paste is gone.
use system_design.Common.{
  ℕ, ◌≡◌, refl, sym, ◌∙◌, ap, true, not, ◌&&◌, none, some, ◌==◌, length, if◌then◌else◌, List,
  Bool-cases, inl, inr,
}
use system_design.Common.Bytes.{Bytes, beq, beq_refl}
use system_design.Common.Assoc.{lookup, remove, lookup-remove}
use system_design.Pastebin.Access.{uncached_none}
use system_design.Pastebin.{
  Paste, Service, Health, deleted, failed, not_found, unavailable, get_cached, find_paste,
  read_paste, get, hard_delete, delete, delete_found,
}

-- All three stores answer.
pub record IsUp (h : Health) : Type 0 where
  pub repo : h.repo_up ≡ true
  pub blobs : h.blobs_up ≡ true
  pub cache : h.cache_up ≡ true

lookup-remove_self {ℓ} :
    {A : Type ℓ} (k : Bytes) (m : List (Bytes × A)) → lookup k (remove k m) ≡ none
lookup-remove_self k m = lookup-remove k k m ∙ ap (λ b. if b then none else lookup k m) (beq_refl k)

hard_delete-cache :
    (h : Health) (p : Paste) (s : Service)
    → h.cache_up ≡ true
    → lookup p.id (hard_delete h p s).1.cache ≡ none
unfolding hard_delete
hard_delete-cache h p s up =
    ap (λ b. lookup p.id (if b then remove p.id s.cache else s.cache)) up
    ∙ lookup-remove_self p.id s.cache

hard_delete-repo :
    (h : Health) (p : Paste) (s : Service)
    → h.repo_up ≡ true
    → lookup p.id (hard_delete h p s).1.repo ≡ none
unfolding hard_delete
hard_delete-repo h p s up =
    ap (λ b. lookup p.id (if b then remove p.id s.repo else s.repo)) up
    ∙ lookup-remove_self p.id s.repo

find-nowhere :
    (h : Health) (now : ℕ) (id : Bytes) (s : Service)
    → h.repo_up ≡ true
    → get_cached h now id s ≡ none
    → lookup id s.repo ≡ none
    → find_paste h now id s ≡ none
unfolding find_paste
find-nowhere h now id s up uncached gone = rw (uncached, up, find_paste) gone

get-nowhere :
    (h : Health) (now : ℕ) (id reader : Bytes) (s : Service)
    → h.repo_up ≡ true
    → find_paste h now id s ≡ none
    → (get h now id reader s).0 ≡ failed not_found
unfolding get read_paste
get-nowhere h now id reader s up none_found =
    ap (λ o. (read_paste h now reader o s).0) none_found
    ∙ ap (λ b. failed (if b then not_found else unavailable)) up

delete_found-some :
    (h : Health) (requester : Bytes) (p : Paste) (s : Service)
    → (delete_found h requester (some p) s).0 ≡ deleted
    → (delete_found h requester (some p) s).1 ≡ (hard_delete h p s).1
unfolding delete_found
delete_found-some h requester p s e =
    elim (Bool-cases (not (length p.owner_id == 0) && not (beq p.owner_id requester))) [
      | inl denied ↦ absurd (cc (rw (denied, delete_found) at e))
      | inr fine ↦ rw fine refl
    ]

delete-state :
    (h : Health) (id requester : Bytes) (s : Service) {p : Paste}
    → h.repo_up ≡ true
    → lookup id s.repo ≡ some p
    → (delete h id requester s).0 ≡ deleted
    → (delete h id requester s).1 ≡ (hard_delete h p s).1
unfolding delete
delete-state h id requester s {p} up there e =
    let there' : (if h.repo_up then lookup id s.repo else none) ≡ some p =
      ap (λ b. if b then lookup id s.repo else none) up ∙ there in
    let as_found = ap (λ o. delete_found h requester o s) there' in
    ap (λ r. r.1) as_found ∙ delete_found-some h requester p s (sym (ap (λ r. r.0) as_found) ∙ e)

-- When a Delete reports that the paste is deleted, while all three stores answer and the repository
-- has the paste under its own id, no later Get under that id finds it, whoever asks.
pub get-delete :
    (h : Health) (now : ℕ) (id requester reader : Bytes) (s : Service) {p : Paste}
    → IsUp h
    → lookup id s.repo ≡ some p
    → p.id ≡ id
    → (delete h id requester s).0 ≡ deleted
    → (get h now id reader (delete h id requester s).1).0 ≡ failed not_found
get-delete h now id requester reader s {p} up there same e =
    let after : Service = (hard_delete h p s).1 in
    let uncached : lookup id after.cache ≡ none =
      ap (λ k. lookup k after.cache) (sym same) ∙ hard_delete-cache h p s up.cache in
    let gone : lookup id after.repo ≡ none =
      ap (λ k. lookup k after.repo) (sym same) ∙ hard_delete-repo h p s up.repo in
    ap (λ u. (get h now id reader u).0) (delete-state h id requester s up.repo there e)
    ∙ get-nowhere h now id reader after up.repo
        (find-nowhere h now id after up.repo (uncached_none h now id after uncached) gone)
