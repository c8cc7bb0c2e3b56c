-- ===== src/MessageQueue/Rows.antt =====
-- Rows by their id under the statements.
use system_design.Common.{
  ℕ, zero, suc, ◌≤◌, ◌≡◌, refl, sym, ◌∙◌, ap, Bool, true, false, ◌||◌, [], ◌∷◌, ◌++◌, Option, none,
  some, if◌then◌else◌, length, take, arith, Bool-cases, inl, inr,
}
use system_design.Common.Bytes.{Bytes, beq, beq_iff}
use system_design.Common.Assoc.{contains}
use system_design.MessageQueue.{Message, Table, ids, select, update_where, place, in_order}

-- The row with an id.
unfoldable pub find : Bytes → Table → Option Message
find k [] = none
find k (m ∷ t) = let rest = find k t in if beq m.id k then some m else rest

-- The primary key: no id stands twice.
abbrev pub IsKeyed : Table → Type 0
IsKeyed [] = Unit
IsKeyed (m ∷ t) = (contains m.id (ids t) ≡ false) × IsKeyed t

pub find-id : (k : Bytes) (t : Table) {m : Message} → find k t ≡ some m → m.id ≡ k
unfolding find
find-id k [] e = absurd (cc e)
find-id k (n ∷ t) {m} e = ground (arith, beq_iff n.id k, find-id k t {m = m})

pub contains-find :
    (k : Bytes) (t : Table) {m : Message} → find k t ≡ some m → contains k (ids t) ≡ true
unfolding find contains
contains-find k [] e = absurd (cc e)
contains-find k (n ∷ t) {m} e = ground (arith, contains-find k t {m = m})

find_here : (k : Bytes) (m : Message) (t : Table) → beq m.id k ≡ true → find k (m ∷ t) ≡ some m
unfolding find
find_here k m t e = rw e refl

find_there : (k : Bytes) (m : Message) (t : Table) → beq m.id k ≡ false → find k (m ∷ t) ≡ find k t
unfolding find
find_there k m t e = rw e refl

pub find-append :
    (k : Bytes) (t u : Table) {m : Message} → find k t ≡ some m → find k (t ++ u) ≡ some m
unfolding find
find-append k [] u e = absurd (cc e)
find-append k (n ∷ t) u {m} e = ground (arith, find-append k t u {m = m})

module _ (p : Message → Bool) (f : Message → Message)
    (keeps : (m : Message) → (f m).id ≡ m.id) where
  abbrev updated : Message → Message
  updated m = if p m then f m else m

  updated-id : (m : Message) → (updated m).id ≡ m.id
  updated-id m = elim (Bool-cases (p m)) [ inl e ↦ rw e (keeps m) | inr e ↦ rw e refl ]

  pub find-update_where :
      (k : Bytes) (t : Table) {m : Message}
      → find k t ≡ some m
      → find k (update_where p f t) ≡ some (if p m then f m else m)
  unfolding update_where find
  find-update_where k [] e = absurd (cc e)
  find-update_where k (n ∷ t) {m} e =
      let test : beq (updated n).id k ≡ beq n.id k = ap (λ j. beq j k) (updated-id n) in
      elim (Bool-cases (beq n.id k)) [
        | inl here ↦
            let same : n ≡ m = cc (find_here k n t here, e) in
            find_here k (updated n) (update_where p f t) (test ∙ here)
            ∙ ap (λ x. some (updated x)) same
        | inr there ↦
            find_there k (updated n) (update_where p f t) (test ∙ there)
            ∙ find-update_where k t (sym (find_there k n t there) ∙ e)
      ]

  pub ids-update_where : (t : Table) → ids (update_where p f t) ≡ ids t
  unfolding update_where
  ids-update_where [] = refl
  ids-update_where (n ∷ t) = ground (arith, keeps n, ids-update_where t)

  pub length-update_where : (t : Table) → length (update_where p f t) ≡ length t
  unfolding update_where
  length-update_where [] = refl
  length-update_where (n ∷ t) = ap suc (length-update_where t)

  pub update_where-IsKeyed : (t : Table) → IsKeyed t → IsKeyed (update_where p f t)
  unfolding update_where
  update_where-IsKeyed [] h = tt
  update_where-IsKeyed (n ∷ t) h = elim (Bool-cases (p n)) [
    | inl e ↦ rw e (rw (keeps n, ids-update_where t) h.0, update_where-IsKeyed t h.1)
    | inr e ↦ rw e (rw (ids-update_where t) h.0, update_where-IsKeyed t h.1)
  ]

contains-place :
    (k : Bytes) (m : Message) (t : Table)
    → contains k (ids (place m t)) ≡ (beq m.id k || contains k (ids t))
unfolding place contains
contains-place k m [] = refl
contains-place k m (n ∷ t) = ground (arith, contains-place k m t)

pub contains-in_order : (k : Bytes) (t : Table) → contains k (ids (in_order t)) ≡ contains k (ids t)
unfolding in_order contains
contains-in_order k [] = refl
contains-in_order k (m ∷ t) = ground (arith, contains-in_order k t, contains-place k m (in_order t))

length-place : (m : Message) (t : Table) → length (place m t) ≡ suc (length t)
unfolding place
length-place m [] = refl
length-place m (n ∷ t) = ground (arith, length-place m t)

pub length-in_order : (t : Table) → length (in_order t) ≡ length t
unfolding in_order
length-in_order [] = refl
length-in_order (m ∷ t) = omega (arith, length-in_order t, length-place m (in_order t))

pub length-select : (p : Message → Bool) (t : Table) → length (select p t) ≤ length t
unfolding select
length-select p [] = omega arith
length-select p (m ∷ t) = ground (arith, length-select p t)

pub contains-take :
    (k : Bytes) (n : ℕ) (t : Table) → contains k (ids (take n t)) ≡ true → contains k (ids t) ≡ true
unfolding contains
contains-take k zero t h = absurd (cc h)
contains-take k (suc n) [] h = h
contains-take k (suc n) (m ∷ t) h = ground (arith, contains-take k n t)

pub take_all : (n : ℕ) (t : Table) → length t ≤ n → take n t ≡ t
take_all zero [] h = refl
take_all (suc n) [] h = refl
take_all zero (m ∷ t) h = absurd (omega arith)
take_all (suc n) (m ∷ t) h = ap (◌∷◌ m) (take_all n t (omega arith))

-- A row that WHERE keeps is there with what WHERE asks.
pub select-find :
    (p : Message → Bool) (k : Bytes) (t : Table)
    → IsKeyed t
    → contains k (ids (select p t)) ≡ true
    → (m : Message) × (find k t ≡ some m) × (p m ≡ true)
unfolding select find contains
select-find p k [] h e = absurd (cc e)
select-find p k (n ∷ t) h e = elim (Bool-cases (beq n.id k)) [
  | inl here ↦ elim (Bool-cases (p n)) [
    | inl hit ↦ rw here (n, refl, hit)
    | inr miss ↦
        let (m, found, _) = select-find p k t h.1 (rw (miss, select) at e) in
        let same : n.id ≡ k = (beq_iff n.id k).0 here in
        absurd
          (ground (arith, contains-find k t {m = m} found, ap (λ j. contains j (ids t)) same, h.0))
  ]
  | inr there ↦ rw there (
      select-find p k t h.1 (elim (Bool-cases (p n)) [
        | inl hit ↦
            let cut : contains k (ids (n ∷ select p t)) ≡ true = rw (hit, select) at e in
            rw there at cut
        | inr miss ↦ rw (miss, select) at e
      ]))
]

pub contains-select :
    (p : Message → Bool) (k : Bytes) (t : Table) {m : Message}
    → find k t ≡ some m
    → p m ≡ true
    → contains k (ids (select p t)) ≡ true
unfolding select find contains
contains-select p k [] e h = absurd (cc e)
contains-select p k (n ∷ t) {m} e h = elim (Bool-cases (p n)) [
  | inl hit ↦ rw hit (ground (arith, contains-select p k t {m = m}))
  | inr miss ↦ rw miss (contains-select p k t (ground arith) h)
]
