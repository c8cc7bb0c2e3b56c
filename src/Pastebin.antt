-- ===== src/Pastebin.antt =====
-- The paste service (projects/03-pastebin/paste/paste.go) over its three stores: the repository, the
-- objects and the cache. Each may fail during a call. A deletion that Get starts in a goroutine of
-- its own waits in a list until it runs.
pub mod Access
pub mod Deleted
mod Tests
use system_design.Common.{
  ℕ, ◌+◌, ◌-◌, ◌*◌, Bool, true, false, ◌&&◌, ◌||◌, not, List, [], ◌∷◌, ◌++◌, Option, none, some,
  ltb, ◌==◌, if◌then◌else◌, length,
}
use system_design.Common.Bytes.{Bytes, codes, beq}
use system_design.Common.Assoc.{lookup, insert, remove, is_some}

abbrev pub max_size_bytes : ℕ
max_size_bytes = 10 * 1024 * 1024

-- Seconds.
abbrev pub cache_ttl : ℕ
cache_ttl = 300

pub data Visibility : Type 0 where
  public unlisted private : Visibility

unfoldable pub is_private : Visibility → Bool
is_private private = true
is_private _ = false

pub record Paste : Type 0 where
  pub id : Bytes
  pub owner_id : Bytes
  pub title : Bytes
  pub language : Bytes
  pub visibility : Visibility
  pub size_bytes : ℕ
  pub object_key : Bytes
  pub expires_at : Option ℕ
  pub created_at : ℕ
  pub burn_after_read : Bool

unfoldable pub expired : ℕ → Paste → Bool
expired now p = elim p.expires_at [ none ↦ false | some t ↦ ltb t now ]

pub data Error : Type 0 where
  not_found has_expired forbidden too_large invalid_input unavailable : Error

pub data Reply : Type 0 where
  created : Paste → Reply
  found : Paste → Bytes → Reply
  deleted : Reply
  failed : Error → Reply

unfoldable pub object_key : Bytes → Bytes
object_key id = codes "pastes/" ++ id

-- `visibility` is `none` for the empty one.
pub record CreateRequest : Type 0 where
  pub owner_id : Bytes
  pub title : Bytes
  pub language : Bytes
  pub visibility : Option Visibility
  pub content : Bytes
  pub ttl : Option ℕ
  pub burn_after_read : Bool

-- An entry of the cache stands until a time.
pub record Service : Type 0 where
  pub repo : List (Bytes × Paste)
  pub blobs : List (Bytes × Bytes)
  pub cache : List (Bytes × (Paste × ℕ))
  pub pending : List Paste

pub record Health : Type 0 where
  pub repo_up : Bool
  pub blobs_up : Bool
  pub cache_up : Bool

unfoldable pub new_paste : ℕ → Bytes → CreateRequest → Paste
unfolding object_key
new_paste now id req = record {
  id = id;
  owner_id = req.owner_id;
  title = req.title;
  language = req.language;
  visibility = elim req.visibility [ none ↦ public | some v ↦ v ];
  size_bytes = length req.content;
  object_key = object_key id;
  expires_at = elim req.ttl [ none ↦ none | some t ↦ some (now + t) ];
  created_at = now;
  burn_after_read = req.burn_after_read;
}

-- The new id is an argument. If the repository fails, so that the blob is deleted again, its
-- deletion works if the writing did.
unfoldable pub create : Health → ℕ → Bytes → CreateRequest → Service → Reply × Service
unfolding new_paste insert remove lookup
create h now id req s =
    let p = new_paste now id req in
    if length req.content == 0
    then (failed invalid_input, s)
    else if ltb max_size_bytes (length req.content)
    then (failed too_large, s)
    else if not h.blobs_up
    then (failed unavailable, s)
    else if not h.repo_up || is_some (lookup id s.repo)
    then (failed unavailable, record s { blobs = remove p.object_key s.blobs })
    else (
      created p,
      record s { blobs = insert p.object_key req.content s.blobs; repo = insert p.id p s.repo },
    )

-- The metadata that the cache gives.
unfoldable pub get_cached : Health → ℕ → Bytes → Service → Option Paste
unfolding lookup
get_cached h now id s =
    if h.cache_up
    then (elim (lookup id s.cache) [
      | none ↦ none
      | some (p, until) ↦ if ltb now until then some p else none
    ])
    else none

-- The metadata, from the cache or the repository.
unfoldable pub find_paste : Health → ℕ → Bytes → Service → Option Paste
unfolding get_cached lookup
find_paste h now id s = elim (get_cached h now id s) [
  | some p ↦ some p
  | none ↦ if h.repo_up then lookup id s.repo else none
]

-- How long the metadata may be cached: five minutes, or less up to the expiry.
unfoldable pub cache_for : ℕ → Paste → ℕ
cache_for now p = elim p.expires_at [
  | none ↦ cache_ttl
  | some t ↦ if ltb (t - now) cache_ttl then t - now else cache_ttl
]

unfoldable pub set_paste : Health → ℕ → Paste → Service → Service
unfolding cache_for insert
set_paste h now p s =
    if h.cache_up then record s { cache = insert p.id (p, now + cache_for now p) s.cache } else s

unfoldable pub start_delete : Paste → Service → Service
start_delete p s = record s { pending = s.pending ++ p ∷ [] }

unfoldable pub allowed : Paste → Bytes → Bool
unfolding is_private beq
allowed p requester = if is_private p.visibility then beq p.owner_id requester else true

-- What Get does with the metadata and the content.
unfoldable pub deliver : Health → ℕ → Paste → Bytes → Service → Reply × Service
unfolding start_delete set_paste is_private
deliver h now p content s =
    if p.burn_after_read
    then (found p content, start_delete p s)
    else if is_private p.visibility
    then (found p content, s)
    else (found p content, set_paste h now p s)

unfoldable pub read_paste : Health → ℕ → Bytes → Option Paste → Service → Reply × Service
unfolding expired allowed deliver start_delete lookup
read_paste h now requester none s = (failed (if h.repo_up then not_found else unavailable), s)
read_paste h now requester (some p) s =
    if expired now p
    then (failed has_expired, start_delete p s)
    else if not (allowed p requester)
    then (failed forbidden, s)
    else if not h.blobs_up
    then (failed unavailable, s)
    else (elim (lookup p.object_key s.blobs) [
      | none ↦ (failed not_found, s)
      | some content ↦ deliver h now p content s
    ])

unfoldable pub get : Health → ℕ → Bytes → Bytes → Service → Reply × Service
unfolding read_paste find_paste
get h now id requester s = read_paste h now requester (find_paste h now id s) s

-- The errors of the cache and of the objects are ignored.
unfoldable pub hard_delete : Health → Paste → Service → Bool × Service
unfolding remove lookup
hard_delete h p s = (
  h.repo_up && is_some (lookup p.id s.repo),
  record s {
    cache = if h.cache_up then remove p.id s.cache else s.cache;
    blobs = if h.blobs_up then remove p.object_key s.blobs else s.blobs;
    repo = if h.repo_up then remove p.id s.repo else s.repo;
  },
)

-- What Delete does with the metadata that the repository gives.
unfoldable pub delete_found : Health → Bytes → Option Paste → Service → Reply × Service
unfolding hard_delete beq
delete_found h requester none s = (failed (if h.repo_up then not_found else unavailable), s)
delete_found h requester (some p) s =
    if not (length p.owner_id == 0) && not (beq p.owner_id requester)
    then (failed forbidden, s)
    else (if (hard_delete h p s).0 then deleted else failed not_found, (hard_delete h p s).1)

unfoldable pub delete : Health → Bytes → Bytes → Service → Reply × Service
unfolding delete_found lookup
delete h id requester s = delete_found h requester (if h.repo_up then lookup id s.repo else none) s

-- A goroutine that Get has started runs.
unfoldable pub run_pending : Health → Service → Service
unfolding hard_delete
run_pending h s = elim s.pending [
  | [] ↦ s
  | p ∷ ps ↦ (hard_delete h p (record s { pending = ps })).1
]

-- The pastes of the repository that are over, at most as many as the limit.
unfoldable pub list_expired : ℕ → ℕ → List (Bytes × Paste) → List Paste
unfolding expired
list_expired now limit [] = []
list_expired now limit ((k, p) ∷ m) =
    let take = p ∷ list_expired now (limit - 1) m in
    let skip = list_expired now limit m in
    if limit == 0 then [] else if expired now p then take else skip

unfoldable pub delete_all : Health → List Paste → ℕ → Service → ℕ × Service
unfolding hard_delete
delete_all h [] removed s = (removed, s)
delete_all h (p ∷ ps) removed s =
    let (ok, after) = hard_delete h p s in
    delete_all h ps (if ok then removed + 1 else removed) after

-- The repository answers during the whole sweep, or it fails at once.
unfoldable pub sweep_expired : Health → ℕ → ℕ → Service → ℕ × Service
unfolding list_expired delete_all
sweep_expired h now limit s =
    if h.repo_up then delete_all h (list_expired now limit s.repo) 0 s else (0, s)
