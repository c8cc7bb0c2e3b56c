-- ===== src/HashRing/Movement.antt =====
-- Which keys move when a node joins or leaves.
use mathlib.Core.List.{append-nil}
use system_design.Common.{
  ℕ, zero, suc, ◌+◌, ◌*◌, ◌≤◌, ◌≡◌, ◌≢◌, ◌⊎◌, refl, subst, ◌∙◌, ap, sym, false, List, [], ◌∷◌, ◌++◌,
  none, some, leb, le→leb, if◌then◌else◌, arith, Bool-cases, Option-cases, inl, inr, All, get_elem?,
}
use system_design.Common.Bytes.{Bytes, beq, beq_iff, beq_refl, beq_of_ne}
use system_design.Common.Assoc.{lookup}
use system_design.HashRing.{
  VNode, Node, Ring, insert_vnode, sort_vnodes, placed, add_node, without, remove_node,
  effective_weight, owner, lookup_node,
}
use system_design.HashRing.Search.{IsSorted, first_at, clockwise, lookup_node-clockwise}
use system_design.HashRing.Order.{
  IsAfter, IsAfter-trans, IsKnown, IsRing, add_node-IsRing, remove_node-IsRing, All-without,
  sort_vnodes-IsSorted,
}

same : (w v : VNode) → some w ≡ some v → w ≡ v
same w v e = cc

first_at-without-none :
    (h : ℕ) (id : Bytes) (vs : List VNode)
    → first_at h vs ≡ none
    → first_at h (without id vs) ≡ none
unfolding without
first_at-without-none h id [] e = e
first_at-without-none h id (v ∷ vs) e = ground (arith, first_at-without-none h id vs)

first_at-without-some :
    (h : ℕ) (id : Bytes) (vs : List VNode) (v : VNode)
    → first_at h vs ≡ some v
    → beq v.node_id id ≡ false
    → first_at h (without id vs) ≡ some v
unfolding without
first_at-without-some h id [] v e other = cc
first_at-without-some h id (w ∷ vs) v e other = ground (arith, first_at-without-some h id vs v)

owned-without :
    (h : ℕ) (id : Bytes) (vs : List VNode)
    → beq (clockwise h vs) id ≡ false
    → clockwise h (without id vs) ≡ clockwise h vs
unfolding without
owned-without h id vs other = elim (Option-cases (first_at h vs)) [
  | inr (v, e) ↦ ground (arith, first_at-without-some h id vs v)
  | inl e ↦ first_of vs e (ground arith)
]
  where
    first_of :
        (vs : List VNode)
        → first_at h vs ≡ none
        → beq (owner (get_elem? vs 0)) id ≡ false
        → clockwise h (without id vs) ≡ clockwise h vs
    first_of [] e other = refl
    first_of (v ∷ vs) e other = ground (arith, first_at-without-none h id (v ∷ vs) e)

-- The owner has what all points have.
clockwise-All {κ} :
    (P : Bytes → Type κ) (h : ℕ) (vs : List VNode)
    → P []
    → All (λ v. P v.node_id) vs
    → P (clockwise h vs)
clockwise-All P h vs empty all = elim (Option-cases (first_at h vs)) [
  | inl e ↦ rw e (head vs all)
  | inr (v, e) ↦ rw e (found vs v all e)
]
  where
    head : (vs : List VNode) → All (λ v. P v.node_id) vs → P (owner (get_elem? vs 0))
    head [] all = empty
    head (v ∷ vs) all = all.0

    found :
        (vs : List VNode) (v : VNode)
        → All (λ w. P w.node_id) vs
        → first_at h vs ≡ some v
        → P v.node_id
    found [] v all e = cc
    found (w ∷ vs) v all e = elim (Bool-cases (leb h w.position)) [
      | inl b ↦ subst (λ (x : VNode). P x.node_id) (same w v (ground arith)) all.0
      | inr b ↦ found vs v all.1 (ground arith)
    ]

without-gone : (id : Bytes) (vs : List VNode) → All (λ v. v.node_id ≢ id) (without id vs)
unfolding without
without-gone id [] = tt
without-gone id (v ∷ vs) = elim (Bool-cases (beq v.node_id id)) [
  | inl e ↦ rw e (without-gone id vs)
  | inr e ↦ rw e ((λ q. ground (arith, beq_iff v.node_id id)), without-gone id vs)
]

insert_vnode-first :
    (v : VNode) (vs : List VNode) → IsAfter v.position vs → insert_vnode v vs ≡ v ∷ vs
unfolding insert_vnode
insert_vnode-first v [] after = refl
insert_vnode-first v (w ∷ ws) after = rw (le→leb v.position w.position after.0) refl

-- The insertion of a point, seen without the points of a node.
without-insert_vnode :
    (id : Bytes) (v : VNode) (vs : List VNode)
    → IsSorted vs
    → without id (insert_vnode v vs)
      ≡ (if beq v.node_id id then without id vs else insert_vnode v (without id vs))
unfolding without insert_vnode
without-insert_vnode id v [] sorted = refl
without-insert_vnode id v (w ∷ ws) sorted = elim (Bool-cases (leb v.position w.position)) [
  | inl e ↦
      let after =
        All-without (λ x. v.position ≤ x.position) id ws
          (IsAfter-trans v.position w.position ws (ground arith) sorted.0) in
      ground (arith, insert_vnode-first v (without id ws) after)
  | inr e ↦ ground (arith, without-insert_vnode id v ws sorted.1)
]

without-sort_vnodes :
    (id : Bytes) (vs : List VNode) → without id (sort_vnodes vs) ≡ sort_vnodes (without id vs)
unfolding without sort_vnodes
without-sort_vnodes id [] = refl
without-sort_vnodes id (v ∷ vs) = ground (
  arith,
  without-insert_vnode id v (sort_vnodes vs) (sort_vnodes-IsSorted vs),
  without-sort_vnodes id vs,
)

sort_vnodes-sorted : (vs : List VNode) → IsSorted vs → sort_vnodes vs ≡ vs
unfolding sort_vnodes
sort_vnodes-sorted [] sorted = refl
sort_vnodes-sorted (v ∷ vs) sorted =
    rw (sort_vnodes-sorted vs sorted.1) (insert_vnode-first v vs sorted.0)

without-append :
    (id : Bytes) (xs ys : List VNode) → without id (xs ++ ys) ≡ without id xs ++ without id ys
unfolding without
without-append id [] ys = refl
without-append id (x ∷ xs) ys = ground (arith, without-append id xs ys)

without-placed :
    (hash_position : Bytes → ℕ → ℕ) (id : Bytes) (i count : ℕ)
    → without id (placed hash_position id i count) ≡ []
unfolding without placed
without-placed hash_position id i zero = refl
without-placed hash_position id i (suc count) =
    ground (arith, beq_refl id, without-placed hash_position id (i + 1) count)

without-unknown :
    (id : Bytes) (nodes : List (Bytes × Node)) (vs : List VNode)
    → lookup id nodes ≡ none
    → All (IsKnown nodes) vs
    → without id vs ≡ vs
unfolding without
without-unknown id nodes [] new known = refl
without-unknown id nodes (v ∷ vs) new known =
    ground (arith, beq_iff v.node_id id, known.0, without-unknown id nodes vs new known.1)

vnodes-remove_node :
    (id : Bytes) (r : Ring) → IsRing r → (remove_node id r).0.vnodes ≡ without id r.vnodes
unfolding remove_node
vnodes-remove_node id r ring = elim (Option-cases (lookup id r.nodes)) [
  | inl e ↦ rw (e, remove_node) (sym (without-unknown id r.nodes r.vnodes e ring.known))
  | inr (n, e) ↦ rw (e, remove_node) refl
]

vnodes-add_node :
    (hash_position : Bytes → ℕ → ℕ) (n : Node) (r : Ring)
    → IsRing r
    → lookup n.id r.nodes ≡ none
    → without n.id (add_node hash_position n r).vnodes ≡ r.vnodes
unfolding add_node
vnodes-add_node hash_position n r ring new =
    rw
      (without-sort_vnodes n.id
        (r.vnodes ++ placed hash_position n.id 0 (effective_weight n.weight * r.replicas)))
      (rw
        (without-append n.id r.vnodes
          (placed hash_position n.id 0 (effective_weight n.weight * r.replicas)))
        (rw (without-placed hash_position n.id 0 (effective_weight n.weight * r.replicas)) (
          rw (without-unknown n.id r.nodes r.vnodes new ring.known)
            (rw (append-nil r.vnodes) (sort_vnodes-sorted r.vnodes ring.sorted)))))

-- A node joins a ring whose points are sorted and belong to its nodes, and was not one of them; it
-- leaves again: the points are those from before.
pub vnodes-remove_node-add_node :
    (hash_position : Bytes → ℕ → ℕ) (n : Node) (r : Ring)
    → IsRing r
    → lookup n.id r.nodes ≡ none
    → (remove_node n.id (add_node hash_position n r)).0.vnodes ≡ r.vnodes
vnodes-remove_node-add_node hash_position n r ring new =
    vnodes-remove_node n.id _ (add_node-IsRing hash_position n r ring)
    ∙ vnodes-add_node hash_position n r ring new

module _ (key_hash : Bytes → ℕ) (key : Bytes) (r : Ring) (ring : IsRing r) where
  lookup_node-at :
      (q : Ring) → IsRing q → lookup_node key_hash key q ≡ clockwise (key_hash key) q.vnodes
  lookup_node-at q h = lookup_node-clockwise key_hash key q h.sorted

  -- When a node leaves a ring whose points are sorted and belong to its nodes, a key that it did
  -- not own stays where it was.
  pub lookup-remove_node :
      (id : Bytes)
      → lookup_node key_hash key r ≢ id
      → lookup_node key_hash key (remove_node id r).0 ≡ lookup_node key_hash key r
  lookup-remove_node id other =
      lookup_node-at (remove_node id r).0 (remove_node-IsRing id r ring)
      ∙ ap (clockwise (key_hash key)) (vnodes-remove_node id r ring)
      ∙ owned-without (key_hash key) id r.vnodes
          (beq_of_ne _ id (λ e. other (lookup_node-at r ring ∙ e)))
      ∙ sym (lookup_node-at r ring)

  -- After a node whose id is not empty has left a ring whose points are sorted and belong to its
  -- nodes, no key is found on it.
  pub lookup-remove_node_gone :
      (id : Bytes) → id ≢ [] → lookup_node key_hash key (remove_node id r).0 ≢ id
  lookup-remove_node_gone id named e =
      clockwise-All (λ x. x ≢ id) (key_hash key) (without id r.vnodes) (λ q. named (sym q))
        (without-gone id r.vnodes)
        (ap (clockwise (key_hash key)) (sym (vnodes-remove_node id r ring))
          ∙ sym (lookup_node-at (remove_node id r).0 (remove_node-IsRing id r ring))
          ∙ e)

  -- When a node joins a ring whose points are sorted and belong to its nodes, and was not one of
  -- them, a key stays where it was or moves to that node.
  pub lookup-add_node :
      (hash_position : Bytes → ℕ → ℕ) (n : Node)
      → lookup n.id r.nodes ≡ none
      → (lookup_node key_hash key (add_node hash_position n r) ≡ lookup_node key_hash key r)
        ⊎ (lookup_node key_hash key (add_node hash_position n r) ≡ n.id)
  lookup-add_node hash_position n new =
      let joined = add_node hash_position n r in
      let here = lookup_node-at joined (add_node-IsRing hash_position n r ring) in
      elim (Bool-cases (beq (clockwise (key_hash key) joined.vnodes) n.id)) [
        | inl e ↦ inr (here ∙ (beq_iff _ n.id).0 e)
        | inr e ↦ inl (
            here
            ∙ sym (owned-without (key_hash key) n.id joined.vnodes e)
            ∙ ap (clockwise (key_hash key)) (vnodes-add_node hash_position n r ring new)
            ∙ sym (lookup_node-at r ring))
      ]
