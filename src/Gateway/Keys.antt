-- ===== src/Gateway/Keys.antt =====
-- The keys: the statements of store/pg.go on the table api_keys, and the requests of api/handler.go
-- that use them. The digest of a key is an argument. The rows are in the order of their creation,
-- without the times; the ids and the digests are unique.
use system_design.Common.{
  ℕ, Bool, true, false, ◌||◌, List, [], ◌∷◌, ◌++◌, map, Option, none, some, ◌==◌, if◌then◌else◌,
  length,
}
use system_design.Common.Bytes.{Bytes, codes, beq}
use system_design.Common.Text.{split}
use system_design.Gateway.{ApiKey}
pub mod Scopes
pub mod Revoked

pub record KeyRow : Type 0 where
  pub id : Bytes
  pub owner : Bytes
  pub hashed_key : Bytes
  pub scopes : Bytes
  pub quota_per_min : ℕ
  pub active : Bool

-- strings.Join with a comma
unfoldable pub join : List Bytes → Bytes
join [] = []
join (s ∷ ss) = elim ss [ [] ↦ s | t ∷ ts ↦ s ++ b',' ∷ join ss ]

-- Whether the statement would break one of the two constraints.
unfoldable pub taken : Bytes → Bytes → List KeyRow → Bool
unfolding beq
taken id hashed [] = false
taken id hashed (q ∷ qs) = beq q.id id || beq q.hashed_key hashed || taken id hashed qs

-- CreateKey: the rows behind it, none for an error.
unfoldable pub create_key : (Bytes → Bytes) → ApiKey → List KeyRow → Option (List KeyRow)
unfolding join taken
create_key hash k rows =
    let row : KeyRow = record {
      id = k.id;
      owner = k.owner;
      hashed_key = hash k.hashed_key;
      scopes = join k.scopes;
      quota_per_min = k.quota_per_min;
      active = k.active;
    } in
    if taken k.id (hash k.hashed_key) rows then none else some (rows ++ row ∷ [])

unfoldable pub scan_key : KeyRow → ApiKey
unfolding split
scan_key row = record {
  id = row.id;
  owner = row.owner;
  hashed_key = row.hashed_key;
  scopes = if length row.scopes == 0 then [] else split b',' row.scopes;
  quota_per_min = row.quota_per_min;
  active = row.active;
}

unfoldable pub get_key_by_id : Bytes → List KeyRow → Option ApiKey
unfolding scan_key
get_key_by_id id [] = none
get_key_by_id id (q ∷ qs) = if beq q.id id then some (scan_key q) else get_key_by_id id qs

unfoldable pub by_digest : Bytes → List KeyRow → Option ApiKey
unfolding scan_key
by_digest hashed [] = none
by_digest hashed (q ∷ qs) =
    if beq q.hashed_key hashed then some (scan_key q) else by_digest hashed qs

unfoldable pub authenticate : (Bytes → Bytes) → List KeyRow → Bytes → Option ApiKey
unfolding by_digest
authenticate hash rows raw = by_digest (hash raw) rows

unfoldable pub revoke_key : Bytes → List KeyRow → List KeyRow
unfolding beq
revoke_key id [] = []
revoke_key id (q ∷ qs) = (if beq q.id id then record q { active = false } else q) ∷ revoke_key id qs

pub record KeyBody : Type 0 where
  pub owner : Bytes
  pub scopes : List Bytes
  pub quota_per_min : ℕ
  pub raw_key : Bytes

-- A body that is not read is `none`.
pub data KeyRequest : Type 0 where
  create_request : Option KeyBody → KeyRequest
  get_request : Bytes → KeyRequest
  revoke_request : Bytes → KeyRequest

-- createKey, with the id that idGen gives; `up` is whether the database answers.
unfoldable pub create_handler :
    (Bytes → Bytes) → Bool → Bytes → Option KeyBody → List KeyRow → ℕ × List KeyRow
unfolding create_key
create_handler hash up id none rows = (400, rows)
create_handler hash up id (some body) rows =
    let key : ApiKey = record {
      id = id;
      owner = body.owner;
      hashed_key = body.raw_key;
      scopes = body.scopes;
      quota_per_min = body.quota_per_min;
      active = true;
    } in
    if length body.owner == 0 || length body.raw_key == 0
    then (400, rows)
    else if up
    then elim (create_key hash key rows) [ none ↦ (500, rows) | some rows' ↦ (201, rows') ]
    else (500, rows)

unfoldable pub get_handler : Bool → Bytes → List KeyRow → ℕ
unfolding get_key_by_id
get_handler up id rows =
    if up then elim (get_key_by_id id rows) [ none ↦ 404 | some k ↦ 200 ] else 500

unfoldable pub revoke_handler : Bool → Bytes → List KeyRow → ℕ × List KeyRow
unfolding revoke_key
revoke_handler up id rows = if up then (200, revoke_key id rows) else (500, rows)

unfoldable pub handle_key :
    (Bytes → Bytes) → Bool → Bytes → KeyRequest → List KeyRow → ℕ × List KeyRow
unfolding create_handler get_handler revoke_handler
handle_key hash up id (create_request body) rows = create_handler hash up id body rows
handle_key hash up id (get_request key_id) rows = (get_handler up key_id rows, rows)
handle_key hash up id (revoke_request key_id) rows = revoke_handler up key_id rows
