-- ===== src/HashRing.antt =====
-- The consistent hash ring (projects/05-consistent-hashing/ring/ring.go). The two uses of sha256
-- are arguments: `hash_position` of a node id and an index, `key_hash` of a key. The operations
-- hold the ring's lock, so each is one step. The statistics in floating point are left out.
pub mod Search
pub mod Order
pub mod Movement
pub mod Walk
pub mod Replicas
mod Tests
use system_design.Common.{
  ℕ, zero, suc, ◌+◌, ◌*◌, ◌/◌, ◌%◌, Bool, true, false, List, [], ◌∷◌, ◌++◌, Option, none, some, ltb,
  leb, ◌==◌, if◌then◌else◌, length, get_elem?,
}
use system_design.Common.Bytes.{Bytes, beq}
use system_design.Common.Words.{u64}
use system_design.Common.Assoc.{lookup, insert, remove, contains}

pub record VNode : Type 0 where
  pub position : ℕ
  pub node_id : Bytes

-- A weight below 0 is treated as 0 is.
pub record Node : Type 0 where
  pub id : Bytes
  pub weight : ℕ
  pub address : Bytes

pub record Ring : Type 0 where
  pub vnodes : List VNode
  pub nodes : List (Bytes × Node)
  pub version : ℕ
  pub replicas : ℕ

unfoldable pub new_ring : ℕ → Ring
new_ring replicas = record {
  vnodes = [];
  nodes = [];
  version = 0;
  replicas = if replicas == 0 then 150 else replicas;
}

-- sort.Slice by Position. Where it is free to choose the order of equal positions, the one that
-- came first stays first here.
unfoldable pub insert_vnode : VNode → List VNode → List VNode
insert_vnode v [] = v ∷ []
insert_vnode v (w ∷ ws) =
    let rest = insert_vnode v ws in if leb v.position w.position then v ∷ w ∷ ws else w ∷ rest

unfoldable pub sort_vnodes : List VNode → List VNode
unfolding insert_vnode
sort_vnodes [] = []
sort_vnodes (v ∷ vs) = insert_vnode v (sort_vnodes vs)

-- The points of a node from index `i` on.
unfoldable pub placed : (Bytes → ℕ → ℕ) → Bytes → ℕ → ℕ → List VNode
placed hash_position id i zero = []
placed hash_position id i (suc count) =
    record { position = hash_position id i; node_id = id } ∷ placed hash_position id (i + 1) count

abbrev pub effective_weight : ℕ → ℕ
effective_weight w = if w == 0 then 1 else w

unfoldable pub add_node : (Bytes → ℕ → ℕ) → Node → Ring → Ring
unfolding sort_vnodes placed
add_node hash_position n r =
    let weight = effective_weight n.weight in
    record r {
      vnodes = sort_vnodes (r.vnodes ++ placed hash_position n.id 0 (weight * r.replicas));
      nodes = insert n.id (record n { weight = weight }) r.nodes;
      version = u64 (r.version + 1);
    }

unfoldable pub without : Bytes → List VNode → List VNode
without id [] = []
without id (v ∷ vs) = let rest = without id vs in if beq v.node_id id then rest else v ∷ rest

-- The new ring, and whether the node was there.
unfoldable pub remove_node : Bytes → Ring → Ring × Bool
unfolding without
remove_node id r = elim (lookup id r.nodes) [
  | none ↦ (r, false)
  | some _ ↦ (
    record r {
      vnodes = without id r.vnodes;
      nodes = remove id r.nodes;
      version = u64 (r.version + 1);
    },
    true,
  )
]

-- The loop of sort.Search, on fuel.
unfoldable pub search_from : (ℕ → Bool) → ℕ → ℕ → ℕ → ℕ
search_from f zero i j = i
search_from f (suc fuel) i j =
    let h = (i + j) / 2 in
    let (i', j') = if f h then (i, h) else (h + 1, j) in
    let found = search_from f fuel i' j' in if ltb i j then found else i

-- The interval loses one element at least in each turn.
unfoldable pub search : ℕ → (ℕ → Bool) → ℕ
unfolding search_from
search n f = search_from f n 0 n

-- r.vnodes[i].Position >= h; an index out of range is not asked for.
unfoldable pub reaches : List VNode → ℕ → ℕ → Bool
reaches vs h i = elim (get_elem? vs i) [ none ↦ true | some v ↦ leb h v.position ]

abbrev pub owner : Option VNode → Bytes
owner none = []
owner (some v) = v.node_id

-- Lookup and lookupLocked.
unfoldable pub lookup_node : (Bytes → ℕ) → Bytes → Ring → Bytes
unfolding search reaches
lookup_node key_hash key r =
    let found = search (length r.vnodes) (reaches r.vnodes (key_hash key)) in
    let idx = if found == length r.vnodes then 0 else found in owner (get_elem? r.vnodes idx)

-- The loop of LookupN with `left` turns to go; `seen` has the same ids as `result`.
unfoldable pub walk : List VNode → ℕ → ℕ → ℕ → ℕ → List Bytes → List Bytes
walk vs start n i zero result = result
walk vs start n i (suc left) result =
    let nid = owner (get_elem? vs ((start + i) % length vs)) in
    let result' = if contains nid result then result else result ++ nid ∷ [] in
    let more = walk vs start n (i + 1) left result' in if length result' == n then result' else more

unfoldable pub lookup_n : (Bytes → ℕ) → Bytes → ℕ → Ring → List Bytes
unfolding search reaches walk
lookup_n key_hash key n r =
    let start = search (length r.vnodes) (reaches r.vnodes (key_hash key)) in
    if length r.vnodes == 0
    then []
    else if n == 0
    then []
    else walk r.vnodes start n 0 (length r.vnodes) []
