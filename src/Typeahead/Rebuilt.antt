-- ===== src/Typeahead/Rebuilt.antt =====
-- What the index holds after a rebuild.
use system_design.Common.{
  ℕ, suc, ◌≡◌, ◌⊎◌, refl, sym, ◌∙◌, ap, true, ◌&&◌, List, [], ◌∷◌, none, some, if◌then◌else◌,
  length, All, All-map, arith, Bool-cases, inl, inr,
}
use system_design.Common.Bytes.{Bytes, codes, beq, beq_iff, beq_refl}
use system_design.Common.Assoc.{contains}
use system_design.Common.Text.{has_prefix}
use system_design.Typeahead.{Unicode, generate_prefixes, prefix_key, max_prefix_len, top_k}
use system_design.Typeahead.Redis.{Redis, IsLawful}
use system_design.Typeahead.Batches.{reindex-index_items}
use system_design.Typeahead.Store.{
  Item, Store, member_of, index_prefixes, index_item, index_items, rebuild_index, del_all,
}

-- Some element of the list.
abbrev pub Any {ℓ} : {A : Type ℓ} → (A → Type 0) → List A → Type 0
Any P [] = ⊥
Any P (x ∷ xs) = P x ⊎ Any P xs

module _ (u : Unicode) {Score : Type 0} (R : Redis Score) where
  -- A member that the index has for an item: under a prefix of its text, with its popularity.
  abbrev pub IsEntry : Bytes → Bytes → Score → Item Score → Type 0
  IsEntry k m s i =
      (member_of i.id i.text i.category ≡ m)
      × (i.popularity ≡ s)
      × ((p : Bytes) × (contains p (generate_prefixes u i.text max_prefix_len) ≡ true)
          × (prefix_key p i.locale ≡ k))

  module _ (law : IsLawful R) where
    index_prefixes-zscore :
        (locale m n k : Bytes) (s r : Score) (ps : List Bytes) (t : R.State)
        → R.zscore k n (index_prefixes u R locale s m ps t) ≡ some r
        → (R.zscore k n t ≡ some r)
          ⊎ ((m ≡ n) × (s ≡ r) × ((p : Bytes) × (contains p ps ≡ true) × (prefix_key p locale ≡ k)))
    unfolding index_prefixes contains
    index_prefixes-zscore locale m n k s r [] t e = inl e
    index_prefixes-zscore locale m n k s r (p ∷ ps) t e =
        let key : Bytes = prefix_key p locale in
        elim (index_prefixes-zscore locale m n k s r ps (R.keep_top key top_k (R.zadd key s m t))
          e) [
            | inr (mn, sr, (q, there, same)) ↦ inr (mn, sr, (q, ground (arith, there), same))
            | inl kept ↦
                let added : (if beq key k && beq m n then some s else R.zscore k n t) ≡ some r =
                  sym (law.zscore-zadd k n key m s t)
                  ∙ law.zscore-keep_top k n key top_k (R.zadd key s m t) r kept in
                elim (Bool-cases (beq key k && beq m n)) [
                  | inr other_one ↦ inl (rw other_one at added)
                  | inl this ↦
                      let value : some s ≡ some r = rw this at added in
                      inr (
                        (beq_iff m n).0 (ground (arith, this)),
                        cc value,
                        (p, ground (arith, beq_refl p), (beq_iff key k).0 (ground (arith, this))),
                      )
                ]
          ]

    index_items-zscore :
        (k m : Bytes) (s : Score) (is : List (Item Score)) (t : R.State)
        → R.zscore k m (index_items u R is t) ≡ some s
        → (R.zscore k m t ≡ some s) ⊎ Any (IsEntry k m s) is
    unfolding index_items index_item
    index_items-zscore k m s [] t e = inl e
    index_items-zscore k m s (i ∷ is) t e =
        elim (index_items-zscore k m s is (index_item u R i t) e) [
          | inr later ↦ inr (inr later)
          | inl before ↦
              elim (index_prefixes-zscore i.locale (member_of i.id i.text i.category) m k
                i.popularity s (generate_prefixes u i.text max_prefix_len) t before) [
                  | inl kept ↦ inl kept
                  | inr this ↦ inr (inl this)
                ]
        ]

    del_all-zscore :
        (k m : Bytes) (ks : List Bytes) (t : R.State)
        → R.zscore k m (del_all u R ks t) ≡ (if contains k ks then none else R.zscore k m t)
    unfolding del_all contains
    del_all-zscore k m [] t = refl
    del_all-zscore k m (j ∷ ks) t =
        del_all-zscore k m ks (R.del j t)
        ∙ ap (λ o. if contains k ks then none else o) (law.zscore-del k m j t)
        ∙ ground arith

    cleared-zscore :
        (k m : Bytes) (t : R.State) {s : Score}
        → has_prefix (codes "ac:pfx:") k ≡ true
        → R.zscore k m (del_all u R (R.keys (codes "ac:pfx:") t) t) ≡ some s
        → ⊥
    cleared-zscore k m t {s} p e = elim (Bool-cases (contains k (R.keys (codes "ac:pfx:") t))) [
      | inl listed ↦
          let gone : none ≡ some s =
            sym (del_all-zscore k m (R.keys (codes "ac:pfx:") t) t ∙ rw listed refl) ∙ e in
          absurd (cc gone)
      | inr unlisted ↦
          let there : R.zscore k m t ≡ some s =
            sym (del_all-zscore k m (R.keys (codes "ac:pfx:") t) t ∙ rw unlisted refl) ∙ e in
          absurd (cc (sym unlisted ∙ law.contains-keys (codes "ac:pfx:") k m t s there p))
    ]

    rebuild_index-index :
        (s : Store u R)
        → (rebuild_index u R true true s).1.index
          ≡ index_items u R s.items (del_all u R (R.keys (codes "ac:pfx:") s.index) s.index)
    unfolding rebuild_index
    rebuild_index-index s =
        rw
          (
            reindex-index_items u R (suc (length s.items)) 0 s.items
                (del_all u R (R.keys (codes "ac:pfx:") s.index) s.index) (omega arith),
            rebuild_index,
          )
          refl

    rebuild_index-zscore :
        (k m : Bytes) (s : Store u R) {r : Score}
        → has_prefix (codes "ac:pfx:") k ≡ true
        → R.zscore k m (rebuild_index u R true true s).1.index ≡ some r
        → Any (IsEntry k m r) s.items
    rebuild_index-zscore k m s {r} p e =
        elim (index_items-zscore k m r s.items
          (del_all u R (R.keys (codes "ac:pfx:") s.index) s.index)
          (sym (ap (λ t. R.zscore k m t) (rebuild_index-index s)) ∙ e)) [
            | inl kept ↦ absurd (cleared-zscore k m s.index p kept)
            | inr entry ↦ entry
          ]

    -- After a rebuild that PostgreSQL and Redis answer, every member of the sorted set of a prefix
    -- is that of an item of the table: the set's key is the one for a beginning of the item's
    -- normalised text, and the score is the item's popularity.
    pub top-rebuild_index :
        (k : Bytes) (n : ℕ) (s : Store u R)
        → has_prefix (codes "ac:pfx:") k ≡ true
        → All
            (λ e. Any (IsEntry k e.0 e.1) s.items)
            (R.top k n (rebuild_index u R true true s).1.index)
    top-rebuild_index k n s p =
        All-map (λ e. R.zscore k e.0 (rebuild_index u R true true s).1.index ≡ some e.1)
          (λ e. Any (IsEntry k e.0 e.1) s.items) (R.top k n (rebuild_index u R true true s).1.index)
          (λ e there. rebuild_index-zscore k e.0 s p there)
          (law.top-zscore k n (rebuild_index u R true true s).1.index)
