-- ===== src/Common/Sort.antt =====
-- sort.Strings: the strings in lexicographic order, here by insertion.
use system_design.Common.{
  List, [], ◌∷◌, ◌≡◌, refl, ◌||◌, inl, inr, arith, if◌then◌else◌, All, Bool-cases,
}
use system_design.Common.Bytes.{Bytes, beq, ble}
use system_design.Common.Assoc.{contains}

insert_sorted : Bytes → List Bytes → List Bytes
insert_sorted k [] = k ∷ []
insert_sorted k (j ∷ js) = let rest = insert_sorted k js in if ble k j then k ∷ j ∷ js else j ∷ rest

unfoldable pub sort_strings : List Bytes → List Bytes
unfolding insert_sorted
sort_strings [] = []
sort_strings (k ∷ ks) = insert_sorted k (sort_strings ks)

contains-insert_sorted :
    (q k : Bytes) (js : List Bytes) → contains q (insert_sorted k js) ≡ (beq k q || contains q js)
unfolding insert_sorted contains
contains-insert_sorted q k [] = refl
contains-insert_sorted q k (j ∷ js) = ground (arith, contains-insert_sorted q k js)

pub contains-sort_strings :
    (q : Bytes) (ks : List Bytes) → contains q (sort_strings ks) ≡ contains q ks
unfolding sort_strings contains
contains-sort_strings q [] = refl
contains-sort_strings q (k ∷ ks) =
    ground (arith, contains-sort_strings q ks, contains-insert_sorted q k (sort_strings ks))

All-insert_sorted {κ} :
    (P : Bytes → Type κ) (k : Bytes) (js : List Bytes) → P k → All P js → All P (insert_sorted k js)
unfolding insert_sorted
All-insert_sorted P k [] p h = (p, tt)
All-insert_sorted P k (j ∷ js) p h = elim (Bool-cases (ble k j)) [
  | inl e ↦ rw e (p, h)
  | inr e ↦ rw e (h.0, All-insert_sorted P k js p h.1)
]

pub All-sort_strings {κ} :
    (P : Bytes → Type κ) (ks : List Bytes) → All P ks → All P (sort_strings ks)
unfolding sort_strings
All-sort_strings P [] h = tt
All-sort_strings P (k ∷ ks) h =
    All-insert_sorted P k (sort_strings ks) h.0 (All-sort_strings P ks h.1)
