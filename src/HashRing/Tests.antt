-- ===== src/HashRing/Tests.antt =====
-- A ring of two nodes with two points each, under simple functions in place of the hash.
use Prim.Native.Nat.{ℕ}
use system_design.Common.{◌+◌, ◌*◌, ◌%◌, ◌≡◌, refl, [], ◌∷◌, length}
use system_design.Common.Bytes.{Bytes, codes}
use system_design.HashRing.{VNode, Node, Ring, add_node, remove_node, lookup_node}
use system_design.HashRing.Search.{clockwise, lookup_node-clockwise}
use system_design.HashRing.Order.{IsRing, add_node-IsRing}
use system_design.HashRing.Movement.{lookup-remove_node}

abbrev points : Bytes → ℕ → ℕ
points id i = (length id * 10 + i * 23) % 97

abbrev key_point : Bytes → ℕ
key_point key = length key * 12

abbrev node_a : Node
node_a = record { id = codes "a"; weight = 1; address = codes "host:1" }

abbrev node_bb : Node
node_bb = record { id = codes "bb"; weight = 0; address = codes "host:2" }

abbrev empty_ring : Ring
empty_ring = record { vnodes = []; nodes = []; version = 0; replicas = 2 }

empty-IsRing : IsRing empty_ring
empty-IsRing = record { sorted = tt; known = tt }

abbrev pair : Ring
pair = add_node points node_bb (add_node points node_a empty_ring)

pair-IsRing : IsRing pair
pair-IsRing =
    add_node-IsRing points node_bb (add_node points node_a empty_ring)
      (add_node-IsRing points node_a empty_ring empty-IsRing)

abbrev vnode : ℕ → Bytes → VNode
vnode p id = record { position = p; node_id = id }

pair_points :
    pair.vnodes
    ≡ vnode 10 (codes "a")
      ∷ vnode 20 (codes "bb")
      ∷ vnode 33 (codes "a")
      ∷ vnode 43 (codes "bb")
      ∷ []
unfolding add_node
pair_points = refl

lookup_node-clockwise_example :
    lookup_node key_point (codes "key") pair ≡ clockwise (key_point (codes "key")) pair.vnodes
lookup_node-clockwise_example =
    lookup_node-clockwise key_point (codes "key") pair pair-IsRing.sorted

lookup-remove_node_example :
    lookup_node key_point (codes "k") (remove_node (codes "a") pair).0
    ≡ lookup_node key_point (codes "k") pair
unfolding lookup_node add_node
lookup-remove_node_example =
    lookup-remove_node key_point (codes "k") pair pair-IsRing (codes "a") (λ e. cc)

abbrev node_c : Node
node_c = record { id = codes "ccc"; weight = 2; address = [] }
