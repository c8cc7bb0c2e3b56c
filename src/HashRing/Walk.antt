-- ===== src/HashRing/Walk.antt =====
-- The loop of LookupN.
use system_design.Common.{
  ℕ, zero, suc, ◌+◌, ◌%◌, ◌<◌, ◌≤◌, ◌≡◌, refl, subst, true, false, List, [], ◌∷◌, ◌++◌, some, ◌==◌,
  if◌then◌else◌, arith, length, length-append, get_elem?, Bool-cases, inl, inr,
}
use system_design.Common.Bytes.{Bytes, beq_iff, beq_refl}
use system_design.Common.Assoc.{contains, contains-append}
use system_design.HashRing.{VNode, owner, walk}

-- No id twice.
abbrev pub IsDistinct : List Bytes → Type 0
IsDistinct [] = Unit
IsDistinct (x ∷ xs) = (contains x xs ≡ false) × IsDistinct xs

IsDistinct-append :
    (xs : List Bytes) (y : Bytes)
    → IsDistinct xs
    → contains y xs ≡ false
    → IsDistinct (xs ++ y ∷ [])
unfolding contains
IsDistinct-append [] y h new = (refl, tt)
IsDistinct-append (x ∷ xs) y h new = (
  ground (arith, contains-append x xs y, h.0, beq_iff x y, beq_iff y x),
  IsDistinct-append xs y h.1 (ground arith),
)

module _ (vs : List VNode) (start n : ℕ) where
  abbrev next : ℕ → List Bytes → List Bytes
  next i result =
      let nid = owner (get_elem? vs ((start + i) % length vs)) in
      if contains nid result then result else result ++ nid ∷ []

  next-IsDistinct : (i : ℕ) (result : List Bytes) → IsDistinct result → IsDistinct (next i result)
  next-IsDistinct i result h =
      elim (Bool-cases (contains (owner (get_elem? vs ((start + i) % length vs))) result)) [
        | inl e ↦ rw e h
        | inr e ↦ rw e (IsDistinct-append result _ h e)
      ]

  contains-next :
      (x : Bytes) (i : ℕ) (result : List Bytes)
      → contains x result ≡ true
      → contains x (next i result) ≡ true
  contains-next x i result h =
      ground (arith, contains-append x result (owner (get_elem? vs ((start + i) % length vs))))

  next-contains :
      (i : ℕ) (result : List Bytes)
      → contains (owner (get_elem? vs ((start + i) % length vs))) (next i result) ≡ true
  next-contains i result =
      let x = owner (get_elem? vs ((start + i) % length vs)) in
      ground (arith, contains-append x result x, beq_refl x)

  pub walk-IsDistinct :
      (left i : ℕ) (result : List Bytes)
      → IsDistinct result
      → IsDistinct (walk vs start n i left result)
  unfolding walk
  walk-IsDistinct zero i result h = h
  walk-IsDistinct (suc left) i result h =
      let h' = next-IsDistinct i result h in
      elim (Bool-cases (length (next i result) == n)) [
        | inl e ↦ rw e h'
        | inr e ↦ rw e (walk-IsDistinct left (i + 1) (next i result) h')
      ]

  length-next : (i : ℕ) (result : List Bytes) → length (next i result) ≤ length result + 1
  length-next i result =
      ground (arith, length-append {0} result (owner (get_elem? vs ((start + i) % length vs)) ∷ []))

  pub length-walk :
      (left i : ℕ) (result : List Bytes)
      → length result < n
      → length (walk vs start n i left result) ≤ n
  unfolding walk
  length-walk zero i result h = omega arith
  length-walk (suc left) i result h = elim (Bool-cases (length (next i result) == n)) [
    | inl e ↦ rw e (ground arith)
    | inr e ↦ rw e (length-walk left (i + 1) (next i result) (ground (arith, length-next i result)))
  ]

  -- Once there, an id stays.
  pub contains-walk :
      (x : Bytes) (left i : ℕ) (result : List Bytes)
      → contains x result ≡ true
      → contains x (walk vs start n i left result) ≡ true
  unfolding walk
  contains-walk x zero i result h = h
  contains-walk x (suc left) i result h =
      let h' = contains-next x i result h in
      elim (Bool-cases (length (next i result) == n)) [
        | inl e ↦ rw e h'
        | inr e ↦ rw e (contains-walk x left (i + 1) (next i result) h')
      ]

  -- A walk that ends with fewer ids than asked for has met the owner of each point on its way.
  pub walk_complete :
      (left i k : ℕ) (result : List Bytes)
      → i ≤ k
      → k < i + left
      → length (walk vs start n i left result) < n
      → contains (owner (get_elem? vs ((start + k) % length vs))) (walk vs start n i left result)
        ≡ true
  unfolding walk
  walk_complete zero i k result ik kl few = absurd (omega arith)
  walk_complete (suc left) i k result ik kl few = elim (Bool-cases (length (next i result) == n)) [
    | inl e ↦ let full : length (next i result) ≡ n = ground arith in absurd (ended e full few)
    | inr e ↦ rw e (elim (Bool-cases (i == k)) [
      | inl here ↦
          subst
            (λ j.
              contains (owner (get_elem? vs ((start + j) % length vs)))
                (walk vs start n (i + 1) left (next i result))
              ≡ true)
            (ground arith) (contains-walk _ left (i + 1) (next i result) (next-contains i result))
      | inr past ↦
          walk_complete left (i + 1) k (next i result) (ground arith) (ground arith) (going e few)
    ])
  ]
    where
      ended :
          (length (next i result) == n) ≡ true
          → length (next i result) ≡ n
          → length (walk vs start n i (suc left) result) < n
          → ⊥
      ended e full few = ground arith

      going :
          (length (next i result) == n) ≡ false
          → length (walk vs start n i (suc left) result) < n
          → length (walk vs start n (i + 1) left (next i result)) < n
      going e few = ground arith

  walk-first :
      (x : Bytes) (left i : ℕ) (result : List Bytes)
      → get_elem? result 0 ≡ some x
      → get_elem? (walk vs start n i left result) 0 ≡ some x
  unfolding walk
  walk-first x zero i result h = h
  walk-first x (suc left) i result h =
      let h' = next-first x i result h in
      elim (Bool-cases (length (next i result) == n)) [
        | inl e ↦ rw e h'
        | inr e ↦ rw e (walk-first x left (i + 1) (next i result) h')
      ]
    where
      next-first :
          (x : Bytes) (i : ℕ) (result : List Bytes)
          → get_elem? result 0 ≡ some x
          → get_elem? (next i result) 0 ≡ some x
      next-first x i [] h = cc
      next-first x i (y ∷ ys) h = ground arith

  pub walk-begins :
      (left : ℕ)
      → 0 < left
      → get_elem? (walk vs start n 0 left []) 0
        ≡ some (owner (get_elem? vs ((start + 0) % length vs)))
  unfolding walk contains
  walk-begins zero some_left = absurd (omega arith)
  walk-begins (suc left) some_left =
      let x = owner (get_elem? vs ((start + 0) % length vs)) in
      elim (Bool-cases (1 == n)) [
        | inl e ↦ rw e refl
        | inr e ↦ rw e (walk-first x left 1 (x ∷ []) refl)
      ]
