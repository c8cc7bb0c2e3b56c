-- ===== src/Typeahead/Stale.antt =====
-- Where the index falls behind the table.
use system_design.Common.{
  ℕ, ◌<◌, ◌≡◌, ◌≢◌, ◌⊎◌, refl, sym, ◌∙◌, ap, Bool, true, false, ◌&&◌, List, [], ◌∷◌, ◌++◌, map,
  Option, none, some, if◌then◌else◌, length, take, length-append, All, All-map, arith, Bool-cases,
  inl, inr,
}
use system_design.Common.Bytes.{Bytes, codes, beq, beq_iff, beq_refl, beq_of_ne}
use system_design.Common.Assoc.{contains}
use system_design.Common.Decimal.{decimal}
use system_design.Typeahead.{Unicode, generate_prefixes, prefix_key, max_prefix_len}
use system_design.Typeahead.Redis.{Redis, IsLawful}
use system_design.Typeahead.Store.{
  Item, Suggestion, Store, member_of, matches, select, by_popularity, backfill, update_scores,
  suggest, suggest_from_pg, parse_redis_results, clamp_limit, increment_popularity, to_suggestion,
  bump,
}
use system_design.Typeahead.Rebuilt.{Any}

length-nil : (xs : Bytes) → length xs ≡ 0 → xs ≡ []
length-nil [] h = refl
length-nil (x ∷ xs) h = absurd (omega (arith, h))

member_of-category :
    (id : ℕ) (text category : Bytes)
    → member_of id text [] ≡ member_of id text category
    → category ≡ []
unfolding member_of
member_of-category id text category e = length-nil category (
    omega (
      arith,
      ap length e,
      length-append {0} (decimal id) (9 ∷ (text ++ 9 ∷ [])),
      length-append {0} (decimal id) (9 ∷ (text ++ 9 ∷ category)),
      length-append {0} text (9 ∷ []),
      length-append {0} text (9 ∷ category),
    ))

module _ (u : Unicode) {Score : Type 0} (R : Redis Score) where
  increment_popularity-index :
      (plus : Score → Score → Score) (id : ℕ) (delta : Score) (s : Store u R) (i : Item Score)
      → (bump plus id delta s.items).0 ≡ some i
      → (increment_popularity u R plus true true id delta s).1.index
        ≡ update_scores u R i.locale i.popularity
            (member_of id i.text [])
            (generate_prefixes u i.text max_prefix_len)
            s.index
  unfolding increment_popularity
  increment_popularity-index plus id delta s i row = rw (row, increment_popularity) refl

module _ (u : Unicode) {Score : Type 0} (R : Redis Score) (law : IsLawful R) where
  -- The members that a backfill writes are those of the rows.
  backfill-zscore :
      (key m : Bytes) (rows : List (Item Score)) (t : R.State) {s : Score}
      → R.zscore key m (backfill u R key rows t) ≡ some s
      → (R.zscore key m t ≡ some s) ⊎ Any (λ i. member_of i.id i.text i.category ≡ m) rows
  unfolding backfill
  backfill-zscore key m [] t e = inl e
  backfill-zscore key m (i ∷ rows) t {s} e =
      let n : Bytes = member_of i.id i.text i.category in
      elim (backfill-zscore key m rows (R.zadd key i.popularity n t) e) [
        | inr later ↦ inr (inr later)
        | inl now ↦ elim (Bool-cases (beq key key && beq n m)) [
          | inl this ↦ inr (inl ((beq_iff n m).0 (ground (arith, this))))
          | inr other_one ↦ inl (
              sym (ap (λ b. if b then some i.popularity else R.zscore key m t) other_one)
              ∙ sym (law.zscore-zadd key m key n i.popularity t)
              ∙ now)
        ]
      ]

  -- A score that is written for all prefixes stands under each of them.
  update_scores-zscore :
      (locale m p : Bytes) (s : Score) (ps : List Bytes) (t : R.State)
      → (contains p ps ≡ true) ⊎ (R.zscore (prefix_key p locale) m t ≡ some s)
      → R.zscore (prefix_key p locale) m (update_scores u R locale s m ps t) ≡ some s
  unfolding update_scores contains
  update_scores-zscore locale m p s [] t (inl h) = absurd (cc h)
  update_scores-zscore locale m p s [] t (inr h) = h
  update_scores-zscore locale m p s (q ∷ ps) t (inr h) =
      update_scores-zscore locale m p s ps (R.zadd (prefix_key q locale) s m t) (
        inr
          (law.zscore-zadd (prefix_key p locale) m (prefix_key q locale) m s t ∙ ground (arith, h)))
  update_scores-zscore locale m p s (q ∷ ps) t (inl h) = elim (Bool-cases (beq q p)) [
    | inr other_one ↦
        update_scores-zscore locale m p s ps (R.zadd (prefix_key q locale) s m t)
          (inl (ground (arith, other_one, h)))
    | inl same ↦
        let key : beq (prefix_key q locale) (prefix_key p locale) ≡ true =
          (beq_iff (prefix_key q locale) (prefix_key p locale)).1
            (ap (λ r. prefix_key r locale) ((beq_iff q p).0 same)) in
        update_scores-zscore locale m p s ps (R.zadd (prefix_key q locale) s m t) (
          inr (
            law.zscore-zadd (prefix_key p locale) m (prefix_key q locale) m s t
            ∙ ground (arith, key, beq_refl m)))
  ]

  -- Other members keep their scores.
  update_scores-ne :
      (locale m n key : Bytes) (s : Score) (ps : List Bytes) (t : R.State)
      → beq m n ≡ false
      → R.zscore key n (update_scores u R locale s m ps t) ≡ R.zscore key n t
  unfolding update_scores
  update_scores-ne locale m n key s [] t ne = refl
  update_scores-ne locale m n key s (q ∷ ps) t ne =
      update_scores-ne locale m n key s ps (R.zadd (prefix_key q locale) s m t) ne
      ∙ law.zscore-zadd key n (prefix_key q locale) m s t
      ∙ ground (arith, ne)

  top_cold :
      (key : Bytes) (n : ℕ) (t : R.State)
      → ((m : Bytes) → R.zscore key m t ≡ none)
      → length (R.top key n t) ≡ 0
  top_cold key n t cold = go (R.top key n t) (law.top-zscore key n t)
    where
      go : (es : List (Bytes × Score)) → All (λ e. R.zscore key e.0 t ≡ some e.1) es → length es ≡ 0
      go [] h = refl
      go (e ∷ es) h = absurd (cc (sym (cold e.0) ∙ h.0))

  module _ (before : Score → Score → Bool) (prefix locale : Bytes) where
    -- The rows that the table gives for a prefix.
    abbrev pub rows_for : ℕ → Store u R → List (Item Score)
    rows_for limit s = take (clamp_limit u R limit) (
        by_popularity before
          (select (matches u locale (map u.to_lower prefix ++ codes "%")) s.items))

    -- What the set of the prefix gives.
    abbrev pub found_for : ℕ → Store u R → List (Bytes × Score)
    found_for limit s = R.top (prefix_key prefix locale) (clamp_limit u R limit) s.index

    suggest-cold :
        (limit : ℕ) (s : Store u R)
        → length (found_for limit s) ≡ 0
        → suggest u R before true true prefix locale limit s ≡ (
          some (map to_suggestion (rows_for limit s)),
          record s { index = backfill u R (prefix_key prefix locale) (rows_for limit s) s.index },
        )
    unfolding suggest suggest_from_pg
    suggest-cold limit s cold = ground (arith, cold)

    suggest-warm :
        (db_up : Bool) (limit : ℕ) (s : Store u R)
        → 0 < length (found_for limit s)
        → (suggest u R before db_up true prefix locale limit s).0
          ≡ some (parse_redis_results (found_for limit s))
    unfolding suggest
    suggest-warm db_up limit s warm = ground (arith, warm)

    -- Where Redis answers, and PostgreSQL in the first call, and the set of a prefix is empty: Suggest
    -- answers with the table's rows, cut at the limit of that call (or its default), and every member
    -- that the set gives after it was made of one of these rows. A second Suggest directly after it,
    -- with nothing in between, that finds something in the set answers with what these members are
    -- parsed to, whatever its own limit and however many items of the table match.
    pub suggest-suggest :
        (db_up : Bool) (limit later : ℕ) (s : Store u R)
        → ((m : Bytes) → R.zscore (prefix_key prefix locale) m s.index ≡ none)
        → 0 < length (found_for later (suggest u R before true true prefix locale limit s).1)
        → let first = suggest u R before true true prefix locale limit s in
          (first.0 ≡ some (map to_suggestion (rows_for limit s)))
          × ((suggest u R before db_up true prefix locale later first.1).0
              ≡ some (parse_redis_results (found_for later first.1)))
          × All
              (λ e. Any (λ i. member_of i.id i.text i.category ≡ e.0) (rows_for limit s))
              (found_for later first.1)
    suggest-suggest db_up limit later s cold warm =
        let first : Option (List (Suggestion Score)) × Store u R =
          suggest u R before true true prefix locale limit s in
        let asked : first ≡ (
          some (map to_suggestion (rows_for limit s)),
          record s { index = backfill u R (prefix_key prefix locale) (rows_for limit s) s.index },
        ) =
          suggest-cold limit s
            (top_cold (prefix_key prefix locale) (clamp_limit u R limit) s.index cold) in
        let index : first.1.index
            ≡ backfill u R (prefix_key prefix locale) (rows_for limit s) s.index =
          ap (λ r. r.1.index) asked in
        (
          ap (λ r. r.0) asked,
          suggest-warm db_up later first.1 warm,
          All-map (λ e. R.zscore (prefix_key prefix locale) e.0 first.1.index ≡ some e.1)
              (λ e. Any (λ i. member_of i.id i.text i.category ≡ e.0) (rows_for limit s))
              (found_for later first.1)
              (λ e there.
                elim (backfill-zscore (prefix_key prefix locale) e.0 (rows_for limit s) s.index
                  (ap (λ t. R.zscore (prefix_key prefix locale) e.0 t) (sym index) ∙ there)) [
                    | inl old ↦ absurd (cc (sym (cold e.0) ∙ old))
                    | inr row ↦ row
                  ])
              (law.top-zscore (prefix_key prefix locale) (clamp_limit u R later) first.1.index),
        )

  -- A click on an item that has a category, which PostgreSQL and Redis answer, does not change the
  -- score of the member that the item was indexed with: under every prefix of the item's text a
  -- second member, without the category, gets the new popularity.
  pub increment_popularity-zscore :
      (plus : Score → Score → Score) (id : ℕ) (delta : Score) (s : Store u R) (i : Item Score)
      (p : Bytes)
      → (bump plus id delta s.items).0 ≡ some i
      → i.category ≢ []
      → contains p (generate_prefixes u i.text max_prefix_len) ≡ true
      → let after = (increment_popularity u R plus true true id delta s).1.index in
        let key = prefix_key p i.locale in
        (R.zscore key (member_of id i.text i.category) after
          ≡ R.zscore key (member_of id i.text i.category) s.index)
        × (R.zscore key (member_of id i.text []) after ≡ some i.popularity)
  increment_popularity-zscore plus id delta s i p row named there =
      let ps : List Bytes = generate_prefixes u i.text max_prefix_len in
      let index : (increment_popularity u R plus true true id delta s).1.index
          ≡ update_scores u R i.locale i.popularity (member_of id i.text []) ps s.index =
        increment_popularity-index u R plus id delta s i row in
      (
        ap (λ t. R.zscore (prefix_key p i.locale) (member_of id i.text i.category) t) index
            ∙ update_scores-ne i.locale (member_of id i.text []) (member_of id i.text i.category)
                (prefix_key p i.locale) i.popularity ps s.index
                (beq_of_ne (member_of id i.text []) (member_of id i.text i.category)
                  (λ same. named (member_of-category id i.text i.category same))),
        ap (λ t. R.zscore (prefix_key p i.locale) (member_of id i.text []) t) index
            ∙ update_scores-zscore i.locale (member_of id i.text []) p i.popularity ps s.index
                (inl there),
      )
