-- ===== src/HashRing/Replicas.antt =====
-- What LookupN returns.
use native.Mathlib.Nat.{mod-eq_of_lt, add-mod_right, mod_self}
use system_design.Common.{
  ℕ, ◌+◌, ◌-◌, ◌%◌, ◌<◌, ◌≤◌, ◌≡◌, refl, subst, ◌∙◌, ap, true, false, [], some, leb, ◌==◌,
  if◌then◌else◌, arith, length, get_elem?, Bool-cases, inl, inr,
}
use system_design.Common.Bytes.{Bytes}
use system_design.Common.Assoc.{contains}
use system_design.HashRing.{Ring, search, reaches, owner, lookup_node, walk, lookup_n}
use system_design.HashRing.Search.{IsSorted, start-IsFirst}
use system_design.HashRing.Walk.{
  IsDistinct, walk-IsDistinct, length-walk, walk_complete, walk-begins,
}

-- The index that a walk from `start` meets after some turns is any one of the ring.
round : (start j len : ℕ) → start ≤ len → j < len → (k : ℕ) × (k < len) × ((start + k) % len ≡ j)
round start j len sl jl = elim (Bool-cases (leb start j)) [
  | inl ahead ↦ (j - start, omega (arith, jl), ap (λ x. x % len) (ground arith) ∙ mod-eq_of_lt jl)
  | inr behind ↦ (
    j + len - start,
    ground arith,
    ap (λ x. x % len) (ground arith) ∙ add-mod_right j len ∙ mod-eq_of_lt jl,
  )
]

wrapped : (start len : ℕ) → start ≤ len → (start + 0) % len ≡ (if start == len then 0 else start)
wrapped start len le = elim (Bool-cases (start == len)) [
  | inl e ↦
      rw e (let at : start ≡ len = ground arith in ap (λ x. x % len) (omega arith) ∙ mod_self len)
  | inr e ↦
      let lt : start < len = ground arith in
      rw e (ap (λ x. x % len) (omega arith) ∙ mod-eq_of_lt lt)
]

module _ (key_hash : Bytes → ℕ) (key : Bytes) (n : ℕ) (r : Ring) where
  -- LookupN names no node twice and at most as many as asked for.
  pub lookup_n-IsDistinct :
      IsDistinct (lookup_n key_hash key n r) × (length (lookup_n key_hash key n r) ≤ n)
  unfolding lookup_n
  lookup_n-IsDistinct = elim (Bool-cases (length r.vnodes == 0)) [
    | inl none_there ↦ rw none_there (tt, omega arith)
    | inr some_there ↦ rw some_there (elim (Bool-cases (n == 0)) [
      | inl nothing ↦ rw nothing (tt, omega arith)
      | inr asked ↦ rw asked (
        walk-IsDistinct r.vnodes _ n (length r.vnodes) 0 [] tt,
        length-walk r.vnodes _ n (length r.vnodes) 0 [] (ground arith),
      )
    ])
  ]

  abbrev begin : ℕ
  begin = search (length r.vnodes) (reaches r.vnodes (key_hash key))

  lookup_n-walk :
      0 < length r.vnodes
      → 0 < n
      → lookup_n key_hash key n r ≡ walk r.vnodes begin n 0 (length r.vnodes) []
  unfolding lookup_n
  lookup_n-walk some_there asked =
      let there : (length r.vnodes == 0) ≡ false = ground arith in
      let wanted : (n == 0) ≡ false = ground arith in rw there (rw wanted refl)

  -- On a ring whose points are sorted, LookupN that returns fewer nodes than asked for has named
  -- the owner of every point.
  pub lookup_n_complete :
      (j : ℕ)
      → IsSorted r.vnodes
      → j < length r.vnodes
      → length (lookup_n key_hash key n r) < n
      → contains (owner (get_elem? r.vnodes j)) (lookup_n key_hash key n r) ≡ true
  lookup_n_complete j sorted jl few =
      let walked = lookup_n-walk (omega arith) (omega arith) in
      let start_le = (start-IsFirst (key_hash key) r.vnodes sorted).bound in
      let (k, kl, at) = round begin j (length r.vnodes) start_le jl in
      rw walked (
        subst
          (λ i.
            contains (owner (get_elem? r.vnodes i)) (walk r.vnodes begin n 0 (length r.vnodes) [])
            ≡ true)
          at
          (walk_complete r.vnodes begin n (length r.vnodes) 0 k [] (omega arith) (omega arith)
            (omega (arith, few, ap length walked))))

  -- On a ring with points, all sorted, the first node of LookupN is the node of Lookup.
  pub lookup_n-first :
      IsSorted r.vnodes
      → 0 < length r.vnodes
      → 0 < n
      → get_elem? (lookup_n key_hash key n r) 0 ≡ some (lookup_node key_hash key r)
  lookup_n-first sorted some_there asked =
      let start_le = (start-IsFirst (key_hash key) r.vnodes sorted).bound in
      ap (λ ids. get_elem? ids 0) (lookup_n-walk some_there asked)
      ∙ walk-begins r.vnodes begin n (length r.vnodes) some_there
      ∙ ap (λ i. some (owner (get_elem? r.vnodes i))) (wrapped begin (length r.vnodes) start_le)
      ∙ unfold lookup_node in refl
