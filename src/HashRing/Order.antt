-- ===== src/HashRing/Order.antt =====
-- The points stay sorted, and each belongs to a node of the ring.
use system_design.Common.{
  ℕ, zero, suc, ◌+◌, ◌*◌, ◌≤◌, ◌≡◌, true, List, [], ◌∷◌, ◌++◌, leb, arith, Bool-cases, Option-cases,
  inl, inr, All, All-append,
}
use system_design.Common.Bytes.{Bytes, beq, beq_iff, beq_refl}
use system_design.Common.Assoc.{lookup, insert, remove, is_some, lookup-insert, lookup-remove}
use system_design.HashRing.{
  VNode, Node, Ring, insert_vnode, sort_vnodes, placed, add_node, without, remove_node,
  effective_weight,
}
use system_design.HashRing.Search.{IsSorted}

All-imp {ℓ κ μ} :
    {A : Type ℓ} (P : A → Type κ) (Q : A → Type μ) (xs : List A)
    → ((x : A) → P x → Q x)
    → All P xs
    → All Q xs
All-imp P Q [] f h = tt
All-imp P Q (x ∷ xs) f h = (f x h.0, All-imp P Q xs f h.1)

module _ {κ} (P : VNode → Type κ) where
  All-insert_vnode : (v : VNode) (vs : List VNode) → P v → All P vs → All P (insert_vnode v vs)
  unfolding insert_vnode
  All-insert_vnode v [] p h = (p, tt)
  All-insert_vnode v (w ∷ ws) p h = elim (Bool-cases (leb v.position w.position)) [
    | inl e ↦ rw e (p, h)
    | inr e ↦ rw e (h.0, All-insert_vnode v ws p h.1)
  ]

  pub All-sort_vnodes : (vs : List VNode) → All P vs → All P (sort_vnodes vs)
  unfolding sort_vnodes
  All-sort_vnodes [] h = tt
  All-sort_vnodes (v ∷ vs) h = All-insert_vnode v (sort_vnodes vs) h.0 (All-sort_vnodes vs h.1)

  pub All-without : (id : Bytes) (vs : List VNode) → All P vs → All P (without id vs)
  unfolding without
  All-without id [] h = tt
  All-without id (v ∷ vs) h = elim (Bool-cases (beq v.node_id id)) [
    | inl e ↦ rw e (All-without id vs h.1)
    | inr e ↦ rw e (h.0, All-without id vs h.1)
  ]

-- Points at or after another one.
abbrev pub IsAfter : ℕ → List VNode → Type 0
IsAfter p vs = All (λ (w : VNode). p ≤ w.position) vs

pub IsAfter-trans : (p q : ℕ) (vs : List VNode) → p ≤ q → IsAfter q vs → IsAfter p vs
IsAfter-trans p q vs le h =
    All-imp (λ (w : VNode). q ≤ w.position) (λ (w : VNode). p ≤ w.position) vs (λ w g. omega arith)
      h

insert_vnode-IsSorted : (v : VNode) (vs : List VNode) → IsSorted vs → IsSorted (insert_vnode v vs)
unfolding insert_vnode
insert_vnode-IsSorted v [] h = (tt, tt)
insert_vnode-IsSorted v (w ∷ ws) h = elim (Bool-cases (leb v.position w.position)) [
  | inl e ↦
      let le : v.position ≤ w.position = ground arith in
      rw e ((le, IsAfter-trans v.position w.position ws le h.0), h)
  | inr e ↦
      let le : w.position ≤ v.position = ground arith in
      rw e (
        All-insert_vnode (λ x. w.position ≤ x.position) v ws le h.0,
        insert_vnode-IsSorted v ws h.1,
      )
]

pub sort_vnodes-IsSorted : (vs : List VNode) → IsSorted (sort_vnodes vs)
unfolding sort_vnodes
sort_vnodes-IsSorted [] = tt
sort_vnodes-IsSorted (v ∷ vs) = insert_vnode-IsSorted v (sort_vnodes vs) (sort_vnodes-IsSorted vs)

without-IsSorted : (id : Bytes) (vs : List VNode) → IsSorted vs → IsSorted (without id vs)
unfolding without
without-IsSorted id [] h = tt
without-IsSorted id (v ∷ vs) h = elim (Bool-cases (beq v.node_id id)) [
  | inl e ↦ rw e (without-IsSorted id vs h.1)
  | inr e ↦ rw e (All-without (λ w. v.position ≤ w.position) id vs h.0, without-IsSorted id vs h.1)
]

-- The node of a point is one of the ring's.
abbrev pub IsKnown : List (Bytes × Node) → VNode → Type 0
IsKnown nodes v = is_some (lookup v.node_id nodes) ≡ true

pub record IsRing (r : Ring) : Type 0 where
  pub sorted : IsSorted r.vnodes
  pub known : All (IsKnown r.nodes) r.vnodes

IsKnown-insert :
    (id : Bytes) (n : Node) (nodes : List (Bytes × Node)) (v : VNode)
    → IsKnown nodes v
    → IsKnown (insert id n nodes) v
IsKnown-insert id n nodes v h = ground (arith, lookup-insert id v.node_id n nodes)

placed-IsKnown :
    (hash_position : Bytes → ℕ → ℕ) (id : Bytes) (i count : ℕ) (n : Node)
    (nodes : List (Bytes × Node))
    → All (IsKnown (insert id n nodes)) (placed hash_position id i count)
unfolding placed
placed-IsKnown hash_position id i zero n nodes = tt
placed-IsKnown hash_position id i (suc count) n nodes = (
  ground (arith, lookup-insert id id n nodes, beq_refl id),
  placed-IsKnown hash_position id (i + 1) count n nodes,
)

-- AddNode on a ring whose points are sorted and belong to its nodes, of a node that is there already
-- or not, gives such a ring.
pub add_node-IsRing :
    (hash_position : Bytes → ℕ → ℕ) (n : Node) (r : Ring)
    → IsRing r
    → IsRing (add_node hash_position n r)
unfolding add_node
add_node-IsRing hash_position n r h = record {
  sorted =
      sort_vnodes-IsSorted
        (r.vnodes ++ placed hash_position n.id 0 (effective_weight n.weight * r.replicas));
  known = All-sort_vnodes _ _ (
      All-append _ r.vnodes _ (All-imp _ _ r.vnodes (IsKnown-insert n.id _ r.nodes) h.known)
        (placed-IsKnown hash_position n.id 0 _ _ r.nodes));
}

without-IsKnown :
    (id : Bytes) (nodes : List (Bytes × Node)) (vs : List VNode)
    → All (IsKnown nodes) vs
    → All (IsKnown (remove id nodes)) (without id vs)
unfolding without
without-IsKnown id nodes [] h = tt
without-IsKnown id nodes (v ∷ vs) h = elim (Bool-cases (beq v.node_id id)) [
  | inl e ↦ rw e (without-IsKnown id nodes vs h.1)
  | inr e ↦ rw e (
    ground
        (arith, lookup-remove id v.node_id nodes, beq_iff v.node_id id, beq_iff id v.node_id, h.0),
    without-IsKnown id nodes vs h.1,
  )
]

-- RemoveNode on a ring whose points are sorted and belong to its nodes, of a node that is there or
-- not, gives such a ring.
pub remove_node-IsRing : (id : Bytes) (r : Ring) → IsRing r → IsRing (remove_node id r).0
unfolding remove_node
remove_node-IsRing id r h = elim (Option-cases (lookup id r.nodes)) [
  | inl e ↦ rw (e, remove_node) h
  | inr (n, e) ↦
      rw (e, remove_node)
        (record {
          sorted = without-IsSorted id r.vnodes h.sorted;
          known = without-IsKnown id r.nodes r.vnodes h.known;
        })
]
