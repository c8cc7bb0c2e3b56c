-- ===== src/Balancer/Admin.antt =====
-- The control plane of api/handler.go, with the token that it asks for, on the pools and on the rows
-- that store/store.go keeps of the backends. Whether a statement is answered is an argument; an error
-- of the store is only logged.
pub mod Registered
pub mod Mirrored
use system_design.Common.{
  ℕ, Bool, true, false, not, ◌&&◌, List, [], ◌∷◌, ◌++◌, Option, none, some, ◌==◌, if◌then◌else◌,
  length,
}
use system_design.Common.Bytes.{Bytes, codes, beq}
use system_design.Common.Assoc.{lookup, insert}
use system_design.Balancer.{
  Algorithm, Pool, Pools, Status, healthy, add_backend, remove_backend, set_algorithm,
}

-- Without the id, the status and the times; the rows are in the order of their ids.
pub record Row : Type 0 where
  pub service : Bytes
  pub url : Bytes
  pub weight : ℕ

abbrev pub Rows : Type 0
Rows = List Row

-- INSERT ... ON CONFLICT (service, url) DO UPDATE
unfoldable pub upsert_backend : Row → Rows → Rows
unfolding beq
upsert_backend r [] = r ∷ []
upsert_backend r (q ∷ qs) =
    let rest = upsert_backend r qs in
    if beq q.service r.service && beq q.url r.url then r ∷ qs else q ∷ rest

unfoldable pub delete_row : Bytes → Bytes → Rows → Rows
unfolding beq
delete_row service url [] = []
delete_row service url (q ∷ qs) =
    let rest = delete_row service url qs in
    if beq q.service service && beq q.url url then rest else q ∷ rest

pub record Plane : Type 0 where
  pub pools : Pools
  pub rows : Rows

-- A body that is not read is `none`; a weight that is not positive is 0; a name of no algorithm is
-- round robin, as which it works.
pub data Request : Type 0 where
  add_request : Bytes → Option (Bytes × ℕ) → Request
  remove_request : Bytes → Option Bytes → Request
  algorithm_request : Bytes → Option Algorithm → Request
  read_request : Request

unfoldable pub handle_add : (Bytes → Bool) → Bool → Bytes → Option (Bytes × ℕ) → Plane → ℕ × Plane
unfolding add_backend upsert_backend
handle_add valid stored service none s = (400, s)
handle_add valid stored service (some (url, weight)) s =
    let w = if weight == 0 then 1 else weight in
    let (pools, ok) = add_backend valid service url w s.pools in
    let row : Row = record { service = service; url = url; weight = w } in
    if length url == 0 then (400, s) else if not ok then (400, s) else (
      201,
      record { pools = pools; rows = if stored then upsert_backend row s.rows else s.rows },
    )

unfoldable pub handle_remove : Bool → Bytes → Option Bytes → Plane → ℕ × Plane
unfolding lookup insert remove_backend delete_row
handle_remove stored service none s = (400, s)
handle_remove stored service (some url) s = elim (lookup service s.pools) [
  | none ↦ (404, s)
  | some p ↦ (
    204,
    record {
      pools = insert service (remove_backend url p) s.pools;
      rows = if stored then delete_row service url s.rows else s.rows;
    },
  )
]

unfoldable pub handle_algorithm : Bytes → Option Algorithm → Plane → ℕ × Plane
unfolding set_algorithm
handle_algorithm service none s = (400, s)
handle_algorithm service (some algo) s =
    let (pools, ok) = set_algorithm service algo s.pools in
    if ok then (200, record s { pools = pools }) else (404, s)

unfoldable pub handle : (Bytes → Bool) → Bool → Request → Plane → ℕ × Plane
unfolding handle_add handle_remove handle_algorithm
handle valid stored (add_request service body) s = handle_add valid stored service body s
handle valid stored (remove_request service url) s = handle_remove stored service url s
handle valid stored (algorithm_request service algo) s = handle_algorithm service algo s
handle valid stored read_request s = (200, s)

-- requireToken, with the Authorization header, empty if it is not there.
unfoldable pub admin : Bytes → Bytes → (Bytes → Bool) → Bool → Request → Plane → ℕ × Plane
unfolding handle beq
admin token got valid stored req s =
    if length token == 0
    then handle valid stored req s
    else if beq got (codes "Bearer " ++ token)
    then handle valid stored req s
    else (401, s)

-- reloadBackends: the rows are added again, those that are not valid any more are left out. The
-- query puts the rows of a service next to each other, which is left out, since each pool has the
-- rows of its service in the same order.
unfoldable pub reload_backends : (Bytes → Bool) → Rows → Pools → Pools
unfolding add_backend
reload_backends valid [] pools = pools
reload_backends valid (r ∷ rs) pools =
    reload_backends valid rs (add_backend valid r.service r.url r.weight pools).0
