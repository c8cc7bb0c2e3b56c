-- ===== src/Shortener.antt =====
-- The URL shortener (projects/02-url-shortener/internal): the service of api/service.go, the redirect
-- of api/handler.go, the links of link/, the statements of store/postgres.go that they run and the
-- cache of store/mem_cache.go. Whether a statement is answered, the codes that the generator gives
-- and the reading of the clock are arguments; url.ParseRequestURI is one, too. Times are seconds.
pub mod Links
pub mod Coherent
pub mod Served
pub mod Quota
pub mod Handler
mod Tests
use system_design.Common.{
  ℕ, zero, suc, ◌+◌, ◌*◌, Bool, true, false, ◌&&◌, ◌||◌, not, List, [], ◌∷◌, ◌++◌, Option, none,
  some, ltb, leb, ◌==◌, if◌then◌else◌, length,
}
use system_design.Common.Bytes.{Bytes, codes, beq}
use system_design.Common.Assoc.{lookup, insert, is_some}

abbrev pub max_code_retries : ℕ
max_code_retries = 8

abbrev pub active_cache_ttl : ℕ
active_cache_ttl = 10 * 60

abbrev pub missing_cache_ttl : ℕ
missing_cache_ttl = 30

abbrev pub negative_cache_value : Bytes
negative_cache_value = codes "__missing__"

abbrev pub alphabet : Bytes
alphabet = codes "0123456789ABCDEFGHIJKLMNOPQRSTUVWXYZabcdefghijklmnopqrstuvwxyz"

pub record Link : Type 0 where
  pub code : Bytes
  pub long_url : Bytes
  pub owner_id : Bytes
  pub expires_at : Option ℕ
  pub created_at : ℕ
  pub disabled_at : Option ℕ

abbrev pub Links : Type 0
Links = List Link

pub data Error : Type 0 where
  invalid_url owner_required quota_exceeded collision not_found has_expired disabled : Error
  other : Error

-- What url.ParseRequestURI gives.
pub record Url : Type 0 where
  pub scheme : Bytes
  pub host : Bytes

-- The entries of the cache, each with the time it expires, and the clicks by their code.
pub record Shortener : Type 0 where
  pub owners : List (Bytes × ℕ)
  pub links : Links
  pub cache : List (Bytes × (Bytes × ℕ))
  pub clicks : List Bytes

unfoldable pub stands_in : ℕ → Bytes → Bool
stands_in c [] = false
stands_in c (b ∷ bs) = c == b || stands_in c bs

unfoldable pub are_allowed : Bytes → Bool
unfolding stands_in
are_allowed [] = true
are_allowed (c ∷ cs) = stands_in c alphabet && are_allowed cs

unfoldable pub is_valid_code : Bytes → Bool
unfolding are_allowed
is_valid_code code = not (length code == 0) && are_allowed code

unfoldable pub is_valid_url : Option Url → Bool
unfolding beq
is_valid_url none = false
is_valid_url (some u) =
    (beq u.scheme (codes "http") || beq u.scheme (codes "https")) && not (length u.host == 0)

-- `none` for an active link.
unfoldable pub active : ℕ → Link → Option Error
active now l =
    if is_some l.disabled_at
    then some disabled
    else elim l.expires_at [ none ↦ none | some t ↦ if ltb now t then none else some has_expired ]

-- SELECT ... WHERE code = $1
unfoldable pub find_link : Bytes → Links → Option Link
unfolding beq
find_link code [] = none
find_link code (l ∷ t) = let rest = find_link code t in if beq l.code code then some l else rest

unfoldable pub counts : Bytes → ℕ → Link → Bool
unfolding beq
counts owner now l =
    beq l.owner_id owner
    && not (is_some l.disabled_at)
    && elim l.expires_at [ none ↦ true | some t ↦ ltb now t ]

unfoldable pub active_link_count : Bytes → ℕ → Links → ℕ
unfolding counts
active_link_count owner now [] = 0
active_link_count owner now (l ∷ t) =
    let rest = active_link_count owner now t in if counts owner now l then suc rest else rest

-- What one turn of the loop in CreateLink meets: the code, `none` for an error of the generator,
-- whether the insertion is answered, the time of the row, and whether the reading back is answered.
pub record Turn : Type 0 where
  pub code : Option Bytes
  pub insert_ok : Bool
  pub created_at : ℕ
  pub read_ok : Bool

-- The statement that inserts, which the primary key refuses for a code that is taken, and the
-- reading back.
unfoldable pub insert_link : Turn → Link → Shortener → Option Error × Shortener
unfolding find_link
insert_link turn l s =
    if not turn.insert_ok
    then (some other, s)
    else if is_some (find_link l.code s.links)
    then (some collision, s)
    else (none, record s { links = s.links ++ l ∷ [] })

pub data Created : Type 0 where
  created : Link → Created
  refused : Error → Created

unfoldable pub read_back : Turn → Bytes → Shortener → Created
unfolding find_link
read_back turn code s =
    if turn.read_ok
    then elim (find_link code s.links) [ none ↦ refused not_found | some l ↦ created l ]
    else refused other

unfoldable pub is_collision : Error → Bool
is_collision collision = true
is_collision _ = false

-- What a turn does when the insertion has answered; for a collision, the turns that are left.
unfoldable pub after_insert :
    Turn → Bytes → Created × Shortener → Shortener → Option Error × Shortener → Created × Shortener
unfolding read_back is_collision
after_insert turn code again s (none, s1) = (read_back turn code s1, s1)
after_insert turn code again s (some e, _) = if is_collision e then again else (refused e, s)

-- The loop over the codes, with what each turn meets, by the number of turns that are left after it.
unfoldable pub allocate :
    ℕ → (ℕ → Turn) → Bytes → Bytes → Option ℕ → Shortener → Created × Shortener
unfolding insert_link after_insert
allocate zero turns owner url expires_at s = (refused collision, s)
allocate (suc n) turns owner url expires_at s =
    let again = allocate n turns owner url expires_at s in
    elim ((turns n).code) [
      | none ↦ (refused other, s)
      | some code ↦
          let l : Link = record {
            code = code;
            long_url = url;
            owner_id = owner;
            expires_at = expires_at;
            created_at = (turns n).created_at;
            disabled_at = none;
          } in
          after_insert (turns n) code again s (insert_link (turns n) l s)
    ]

-- Whether the selections of the owner and of the count are answered.
pub record Answers : Type 0 where
  pub owner_ok : Bool
  pub count_ok : Bool

-- The quota of the owner, and `none` when the statement fails or finds no row.
unfoldable pub get_owner : Answers → Bytes → Shortener → Option ℕ
unfolding lookup
get_owner a owner s = if a.owner_ok then lookup owner s.owners else none

-- The checks before the loop.
unfoldable pub check_create : Answers → ℕ → Option Url → Bytes → Shortener → Option Error
unfolding is_valid_url get_owner active_link_count
check_create a now parsed owner s =
    if length owner == 0
    then some owner_required
    else if not (is_valid_url parsed)
    then some invalid_url
    else elim (get_owner a owner s) [
      | none ↦ some other
      | some quota ↦
          if not a.count_ok
          then some other
          else if leb quota (active_link_count owner now s.links)
          then some quota_exceeded
          else none
    ]

unfoldable pub create_link :
    (Bytes → Option Url)
    → Answers
    → (ℕ → Turn)
    → ℕ
    → Bytes
    → Bytes
    → Option ℕ
    → Shortener
    → Created × Shortener
unfolding check_create allocate
create_link parse a turns now owner url expires_at s =
    elim (check_create a now (parse url) owner s) [
      | some e ↦ (refused e, s)
      | none ↦ allocate max_code_retries turns owner url expires_at s
    ]

pub data Cached : Type 0 where
  unknown missing : Cached
  hit : Bytes → Cached

unfoldable pub get_url : ℕ → Bytes → Shortener → Cached
unfolding lookup beq
get_url now code s = elim (lookup code s.cache) [
  | none ↦ unknown
  | some (value, until) ↦
      if ltb until now
      then unknown
      else if beq value negative_cache_value
      then missing
      else hit value
]

unfoldable pub set_entry : ℕ → Bytes → Bytes → ℕ → Shortener → Shortener
unfolding insert
set_entry now code value ttl s = record s { cache = insert code (value, now + ttl) s.cache }

unfoldable pub set_url : ℕ → Bytes → Bytes → Shortener → Shortener
unfolding set_entry
set_url now code url s = set_entry now code url active_cache_ttl s

unfoldable pub set_missing : ℕ → Bytes → Shortener → Shortener
unfolding set_entry
set_missing now code s = set_entry now code negative_cache_value missing_cache_ttl s

-- The goroutine that writes the click, if its statement is answered.
unfoldable pub record_click : Bool → Bytes → Shortener → Shortener
record_click ok code s = record s { clicks = if ok then code ∷ s.clicks else s.clicks }

pub data Response : Type 0 where
  found : Bytes → Response
  status_not_found status_gone status_error : Response

-- The part of Redirect behind the cache, with the link that the database gives.
unfoldable pub redirect_from : Bool → ℕ → Bytes → Option Link → Shortener → Response × Shortener
unfolding active set_url set_missing record_click
redirect_from click_ok now code none s = (status_not_found, set_missing now code s)
redirect_from click_ok now code (some l) s = elim (active now l) [
  | some _ ↦ (status_gone, s)
  | none ↦ (found l.long_url, record_click click_ok code (set_url now code l.long_url s))
]

unfoldable pub redirect : Bool → Bool → ℕ → Bytes → Shortener → Response × Shortener
unfolding is_valid_code get_url record_click redirect_from find_link
redirect read_ok click_ok now code s =
    let slow =
      if read_ok
      then redirect_from click_ok now code (find_link code s.links) s
      else (status_error, s) in
    if is_valid_code code
    then (elim (get_url now code s) [
      | missing ↦ (status_not_found, s)
      | hit url ↦ (found url, record_click click_ok code s)
      | unknown ↦ slow
    ])
    else (status_not_found, s)
