-- ===== src/Typeahead/Memory.antt =====
-- A server that keeps the sorted sets in memory, with natural numbers as scores.
use system_design.Common.{
  ℕ, zero, suc, ◌+◌, ◌<◌, ◌≡◌, sym, refl, ◌∙◌, ap, ap₂, subst, Bool, true, false, ◌&&◌, List, [],
  ◌∷◌, Option, none, some, Option-cases, ltb, if◌then◌else◌, length, take, All, Bool-cases, inl,
  inr, arith,
}
use system_design.Common.Bytes.{Bytes, beq, beq_iff}
use system_design.Common.Assoc.{
  lookup, insert, remove, keys, contains, is_some, contains-keys, lookup-insert, lookup-remove,
}
use system_design.Common.Text.{has_prefix}
use system_design.Typeahead.Redis.{Redis, IsLawful}

abbrev Set : Type 0
Set = List (Bytes × ℕ)

abbrev Sets : Type 0
Sets = List (Bytes × Set)

abbrev entries : Option Set → Set
entries none = []
entries (some z) = z

members : Bytes → Sets → Set
members k t = entries (lookup k t)

-- The first entry of each member.
distinct : List Bytes → Set → Set
unfolding contains
distinct seen [] = []
distinct seen ((m, s) ∷ z) =
    let fresh = (m, s) ∷ distinct (m ∷ seen) z in
    let old = distinct seen z in if contains m seen then old else fresh

place : Bytes × ℕ → Set → Set
place e [] = e ∷ []
place e (f ∷ z) = let rest = place e z in if ltb e.1 f.1 then f ∷ rest else e ∷ f ∷ z

ranked : Set → Set
unfolding place
ranked [] = []
ranked (e ∷ z) = place e (ranked z)

best : ℕ → Set → Set
unfolding ranked distinct
best n z = take n (ranked (distinct [] z))

matching : Bytes → List Bytes → List Bytes
unfolding has_prefix
matching p [] = []
matching p (k ∷ ks) = let rest = matching p ks in if has_prefix p k then k ∷ rest else rest

unfoldable pub memory : Redis ℕ
unfolding members best matching insert remove lookup
memory = record {
  State = Sets;
  zadd = λ k s m t. insert k (insert m s (members k t)) t;
  keep_top = λ k n t. insert k (best n (members k t)) t;
  del = λ k t. remove k t;
  keys = λ p t. matching p (keys t);
  top = λ k n t. best n (members k t);
  zscore = λ k m t. lookup m (members k t);
}

-- Every entry is the one that is found.
abbrev Found : Set → Bytes × ℕ → Type 0
Found z e = lookup e.0 z ≡ some e.1

All-place {κ} :
    (P : Bytes × ℕ → Type κ) (e : Bytes × ℕ) (z : Set) → P e → All P z → All P (place e z)
unfolding place
All-place P e [] p h = (p, tt)
All-place P e (f ∷ z) p h = elim (Bool-cases (ltb e.1 f.1)) [
  | inl less ↦ rw (less, place) (h.0, All-place P e z p h.1)
  | inr more ↦ rw (more, place) (p, h)
]

All-ranked {κ} : (P : Bytes × ℕ → Type κ) (z : Set) → All P z → All P (ranked z)
unfolding ranked
All-ranked P [] h = tt
All-ranked P (e ∷ z) h = All-place P e (ranked z) h.0 (All-ranked P z h.1)

All-take {ℓ κ} : {A : Type ℓ} (P : A → Type κ) (n : ℕ) (xs : List A) → All P xs → All P (take n xs)
All-take P zero xs h = tt
All-take P (suc n) [] h = tt
All-take P (suc n) (x ∷ xs) h = (h.0, All-take P n xs h.1)

length-place : (e : Bytes × ℕ) (z : Set) → length (place e z) ≡ length z + 1
unfolding place
length-place e [] = omega arith
length-place e (f ∷ z) = ground (arith, length-place e z)

All-lookup {κ} :
    (P : Bytes × ℕ → Type κ) (m : Bytes) (z : Set) {s : ℕ}
    → All P z
    → lookup m z ≡ some s
    → P (m, s)
unfolding lookup
All-lookup P m [] h e = absurd (cc e)
All-lookup P m ((n, r) ∷ z) {s} h e = elim (Bool-cases (beq n m)) [
  | inr other_key ↦ All-lookup P m z h.1 (rw other_key at e)
  | inl same ↦
      let value : some r ≡ some s = rw same at e in
      subst (λ p. P p) (ap₂ (λ (a : Bytes) (b : ℕ). (a, b)) ((beq_iff n m).0 same) (cc value)) h.0
]

-- What `distinct` keeps, behind entries of the members seen, is found.
All-distinct :
    (z whole : Set) (seen : List Bytes)
    → ((m : Bytes) → contains m seen ≡ false → lookup m whole ≡ lookup m z)
    → All (Found whole) (distinct seen z)
unfolding distinct lookup contains
All-distinct [] whole seen h = tt
All-distinct ((m, s) ∷ z) whole seen h = elim (Bool-cases (contains m seen)) [
  | inl old ↦
      rw (old, distinct) (All-distinct z whole seen (λ n fresh. ground (arith, h n, beq_iff m n)))
  | inr new ↦
      rw (new, distinct)
        (
          ground (arith, h m, beq_iff m m),
          All-distinct z whole (m ∷ seen) (λ n fresh. ground (arith, h n)),
        )
]

best-Found : (n : ℕ) (z : Set) → All (Found z) (best n z)
unfolding best contains
best-Found n z =
    All-take (Found z) n (ranked (distinct [] z))
      (All-ranked (Found z) (distinct [] z) (All-distinct z z [] (λ m fresh. refl)))

length-ranked : (z : Set) → length (ranked z) ≡ length z
unfolding ranked
length-ranked [] = refl
length-ranked (e ∷ z) = omega (arith, length-place e (ranked z), length-ranked z)

best-some :
    (m : Bytes) (n : ℕ) (z : Set) {s : ℕ} → lookup m z ≡ some s → 0 < n → 0 < length (best n z)
unfolding lookup best distinct contains
best-some m n [] e h = absurd (cc e)
best-some m zero ((k, r) ∷ z) e h = absurd (omega arith)
best-some m (suc n) ((k, r) ∷ z) e h =
    go (ranked ((k, r) ∷ distinct (k ∷ []) z)) (length-ranked ((k, r) ∷ distinct (k ∷ []) z))
  where
    go : (y : Set) → length y ≡ length ((k, r) ∷ distinct (k ∷ []) z) → 0 < length (take (suc n) y)
    go [] l = absurd (omega (arith, l))
    go (x ∷ y) l = omega arith

entries-if :
    (b : Bool) (o p : Option Set)
    → entries (if b then o else p) ≡ (if b then entries o else entries p)
entries-if true o p = refl
entries-if false o p = refl

members-insert :
    (j k : Bytes) (z : Set) (t : Sets)
    → members k (insert j z t) ≡ (if beq j k then z else members k t)
unfolding members
members-insert j k z t =
    ap entries (lookup-insert j k z t) ∙ entries-if (beq j k) (some z) (lookup k t)

members-remove :
    (j k : Bytes) (t : Sets) → members k (remove j t) ≡ (if beq j k then [] else members k t)
unfolding members
members-remove j k t = ap entries (lookup-remove j k t) ∙ entries-if (beq j k) none (lookup k t)

contains-matching :
    (p k : Bytes) (ks : List Bytes)
    → contains k ks ≡ true
    → has_prefix p k ≡ true
    → contains k (matching p ks) ≡ true
unfolding matching contains
contains-matching p k [] e h = absurd (cc e)
contains-matching p k (j ∷ ks) e h = ground (arith, contains-matching p k ks, beq_iff j k)

lookup-members :
    (k m : Bytes) (t : Sets) {s : ℕ} → lookup m (members k t) ≡ some s → contains k (keys t) ≡ true
unfolding members lookup
lookup-members k m t e = elim (Option-cases (lookup k t)) [
  | inl none_there ↦ absurd (cc (rw none_there at e))
  | inr (z, there) ↦ contains-keys k t ∙ ap is_some there
]

lookup-zadd :
    (k m j n : Bytes) (s : ℕ) (t : Sets)
    → lookup m (members k (insert j (insert n s (members j t)) t))
      ≡ (if beq j k && beq n m then some s else lookup m (members k t))
lookup-zadd k m j n s t = elim (Bool-cases (beq j k)) [
  | inl same ↦
      ap (lookup m) (members-insert j k (insert n s (members j t)) t)
      ∙ rw same (
          lookup-insert n m s (members j t)
          ∙ ap (λ i. if beq n m then some s else lookup m (members i t)) ((beq_iff j k).0 same))
  | inr other_key ↦
      ap (lookup m) (members-insert j k (insert n s (members j t)) t) ∙ rw other_key refl
]

lookup-keep_top :
    (k m j : Bytes) (n : ℕ) (t : Sets) (s : ℕ)
    → lookup m (members k (insert j (best n (members j t)) t)) ≡ some s
    → lookup m (members k t) ≡ some s
lookup-keep_top k m j n t s e = elim (Bool-cases (beq j k)) [
  | inl same ↦
      ap (λ i. lookup m (members i t)) (sym ((beq_iff j k).0 same))
      ∙ All-lookup (Found (members j t)) m (best n (members j t)) (best-Found n (members j t)) (
          sym (
            ap (lookup m) (members-insert j k (best n (members j t)) t)
            ∙ ap (λ b. lookup m (if b then best n (members j t) else members k t)) same)
          ∙ e)
  | inr other_key ↦
      sym (
        ap (lookup m) (members-insert j k (best n (members j t)) t)
        ∙ ap (λ b. lookup m (if b then best n (members j t) else members k t)) other_key)
      ∙ e
]

lookup-del :
    (k m j : Bytes) (t : Sets)
    → lookup m (members k (remove j t)) ≡ (if beq j k then none else lookup m (members k t))
unfolding lookup
lookup-del k m j t = ap (lookup m) (members-remove j k t) ∙ ground arith

pub memory-IsLawful : IsLawful memory
unfolding memory
memory-IsLawful = record {
  zscore-zadd = lookup-zadd;
  zscore-keep_top = lookup-keep_top;
  zscore-del = lookup-del;
  contains-keys = λ p k m t s e h. contains-matching p k (keys t) (lookup-members k m t e) h;
  top-zscore = λ k n t. best-Found n (members k t);
  top-some = λ k m n t s e h. best-some m n (members k t) e h;
}
