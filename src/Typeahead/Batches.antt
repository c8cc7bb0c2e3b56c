-- ===== src/Typeahead/Batches.antt =====
-- The batches of a rebuild index every item.
use system_design.Common.{
  ℕ, zero, suc, ◌+◌, ◌<◌, ◌≡◌, refl, sym, ◌∙◌, ap, ap₂, List, [], ◌∷◌, ◌++◌, some, ltb, ltb→lt,
  length, take, drop, length-take-le, arith, Bool-cases, inl, inr,
}
use system_design.Typeahead.{Unicode, batch_size}
use system_design.Typeahead.Redis.{Redis}
use system_design.Typeahead.Store.{Item, index_item, index_items, page, reindex}

take_whole {ℓ} : {A : Type ℓ} (n : ℕ) (xs : List A) → length (take n xs) < n → take n xs ≡ xs
take_whole zero xs h = absurd (omega arith)
take_whole (suc n) [] h = refl
take_whole (suc n) (x ∷ xs) h = ap (◌∷◌ x) (take_whole n xs (omega arith))

take-drop {ℓ} : {A : Type ℓ} (n : ℕ) (xs : List A) → take n xs ++ drop n xs ≡ xs
take-drop zero xs = refl
take-drop (suc n) [] = refl
take-drop (suc n) (x ∷ xs) = ap (◌∷◌ x) (take-drop n xs)

drop-nil {ℓ} : {A : Type ℓ} (n : ℕ) → drop {A = A} n [] ≡ []
drop-nil zero = refl
drop-nil (suc n) = refl

drop-drop {ℓ} : {A : Type ℓ} (m n : ℕ) (xs : List A) → drop n (drop m xs) ≡ drop (m + n) xs
drop-drop zero n xs = let e : n ≡ 0 + n = omega arith in ap (λ (k : ℕ). drop k xs) e
drop-drop (suc m) n [] = drop-nil n ∙ sym (drop-nil (suc m + n))
drop-drop (suc m) n (x ∷ xs) =
    let e : suc (m + n) ≡ suc m + n = omega arith in
    drop-drop m n xs ∙ ap (λ (k : ℕ). drop k (x ∷ xs)) e

take-length {ℓ} :
    {A : Type ℓ} (n : ℕ) (xs : List A) → length xs ≡ length (take n xs) + length (drop n xs)
take-length zero xs = omega arith
take-length (suc n) [] = omega arith
take-length (suc n) (x ∷ xs) = omega (arith, take-length n xs)

module _ (u : Unicode) {Score : Type 0} (R : Redis Score) where
  index_items-append :
      (is js : List (Item Score)) (t : R.State)
      → index_items u R (is ++ js) t ≡ index_items u R js (index_items u R is t)
  unfolding index_items
  index_items-append [] js t = refl
  index_items-append (i ∷ is) js t = index_items-append is js (index_item u R i t)

  -- With more turns than items that are left, the batches index them all, in order.
  pub reindex-index_items :
      (fuel offset : ℕ) (items : List (Item Score)) (t : R.State)
      → length (drop offset items) < fuel
      → reindex u R fuel offset items t
        ≡ some (index_items u R (drop offset items) t, offset + length (drop offset items))
  unfolding reindex page
  reindex-index_items zero offset items t h = absurd (omega arith)
  reindex-index_items (suc fuel) offset items t h =
      let left : List (Item Score) = drop offset items in
      let rows : List (Item Score) = take batch_size left in
      elim (Bool-cases (ltb (length rows) batch_size)) [
        | inl short ↦
            let whole : rows ≡ left = take_whole batch_size left (ltb→lt _ _ short) in
            rw (short, reindex) (ap (λ r. some (index_items u R r t, offset + length r)) whole)
        | inr full ↦
            let many : length rows ≡ batch_size =
              ground (arith, full, length-take-le {0} batch_size left) in
            let next : drop (offset + length rows) items ≡ drop batch_size left =
              ap (λ (k : ℕ). drop (offset + k) items) many
              ∙ sym (drop-drop offset batch_size items) in
            let less : length (drop (offset + length rows) items) < fuel =
              omega (arith, ap length next, take-length {0} batch_size left, many, h) in
            let indexed : index_items u R (drop (offset + length rows) items)
                  (index_items u R rows t)
                ≡ index_items u R left t =
              ap (λ r. index_items u R r (index_items u R rows t)) next
              ∙ sym (index_items-append rows (drop batch_size left) t)
              ∙ ap (λ r. index_items u R r t) (take-drop batch_size left) in
            let counted : offset + length rows + length (drop (offset + length rows) items)
                ≡ offset + length left =
              omega (arith, ap length next, take-length {0} batch_size left) in
            rw (full, reindex)
              (reindex-index_items fuel (offset + length rows) items (index_items u R rows t) less
                ∙ ap₂ (λ (a : R.State) (b : ℕ). some (a, b)) indexed counted)
      ]
