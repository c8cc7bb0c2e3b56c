-- ===== src/Typeahead/Store.antt =====
-- store/store.go: the table of items and the index in Redis. A call finds PostgreSQL, and Redis,
-- answering during all of it or not at all; an answer of the table is read as SQL says. What a key's
-- time to live does is a step of its own, `forget`.
use system_design.Common.{
  ℕ, zero, suc, ◌+◌, Bool, true, false, not, ◌&&◌, ◌||◌, List, [], ◌∷◌, ◌++◌, map, Option, none,
  some, ltb, ◌==◌, if◌then◌else◌, length, take, drop,
}
use system_design.Common.Bytes.{Bytes, codes, beq}
use system_design.Common.Decimal.{decimal, scan_digits}
use system_design.Typeahead.{
  Unicode, max_prefix_len, top_k, default_suggest_limit, batch_size, generate_prefixes, prefix_key,
}
use system_design.Typeahead.Redis.{Redis}

-- fmt.Sprintf("%d\t%s\t%s", id, text, category)
unfoldable pub member_of : ℕ → Bytes → Bytes → Bytes
unfolding decimal
member_of id text category = decimal id ++ (9 ∷ (text ++ (9 ∷ category)))

-- The text up to the first separator, and what is behind it.
unfoldable pub cut : ℕ → Bytes → Option (Bytes × Bytes)
cut sep [] = none
cut sep (c ∷ cs) =
    let rest = cut sep cs in
    if c == sep
    then some ([], cs)
    else elim rest [ none ↦ none | some (before, after) ↦ some (c ∷ before, after) ]

-- The id, the text and the category of a member; `none` for one that is left out.
unfoldable pub parse_member : Bytes → Option (ℕ × Bytes × Bytes)
unfolding cut scan_digits
parse_member member = elim (cut 9 member) [
  | none ↦ none
  | some (id, rest) ↦ elim (cut 9 rest) [
    | none ↦ some (scan_digits 0 id, rest, [])
    | some (text, category) ↦ some (scan_digits 0 id, text, category)
  ]
]

pub record Item (Score : Type 0) : Type 0 where
  pub id : ℕ
  pub text : Bytes
  pub category : Bytes
  pub popularity : Score
  pub locale : Bytes

pub record Suggestion (Score : Type 0) : Type 0 where
  pub text : Bytes
  pub category : Bytes
  pub score : Score
  pub item_id : ℕ

module _ {Score : Type 0} where
  unfoldable pub parse_redis_results : List (Bytes × Score) → List (Suggestion Score)
  unfolding parse_member
  parse_redis_results [] = []
  parse_redis_results ((member, score) ∷ zs) =
      let rest = parse_redis_results zs in
      elim (parse_member member) [
        | none ↦ rest
        | some (id, text, category) ↦
            record { text = text; category = category; score = score; item_id = id } ∷ rest
      ]

  -- WHERE ($1 = '' OR locale = $1) AND lower(text) LIKE $2
  unfoldable pub matches : Unicode → Bytes → Bytes → Item Score → Bool
  unfolding beq
  matches u locale pattern i =
      (length locale == 0 || beq i.locale locale) && u.like (u.pg_lower i.text) pattern

  unfoldable pub select : (Item Score → Bool) → List (Item Score) → List (Item Score)
  select p [] = []
  select p (i ∷ is) = let rest = select p is in if p i then i ∷ rest else rest

  unfoldable pub to_suggestion : Item Score → Suggestion Score
  to_suggestion i = record {
    text = i.text;
    category = i.category;
    score = i.popularity;
    item_id = i.id;
  }

-- The order of two scores, the greater first.
module _ {Score : Type 0} (before : Score → Score → Bool) where
  -- ORDER BY popularity DESC
  unfoldable pub place : Item Score → List (Item Score) → List (Item Score)
  place i [] = i ∷ []
  place i (j ∷ js) =
      let rest = place i js in if before j.popularity i.popularity then j ∷ rest else i ∷ j ∷ js

  unfoldable pub by_popularity : List (Item Score) → List (Item Score)
  unfolding place
  by_popularity [] = []
  by_popularity (i ∷ is) = place i (by_popularity is)

module _ {Score : Type 0} (plus : Score → Score → Score) where
  -- UPDATE ... SET popularity = popularity + $1 WHERE id = $2, with the row that it returns.
  unfoldable pub bump : ℕ → Score → List (Item Score) → Option (Item Score) × List (Item Score)
  bump id delta [] = (none, [])
  bump id delta (i ∷ is) =
      let rest = bump id delta is in
      let bumped : Item Score = record i { popularity = plus i.popularity delta } in
      if i.id == id then (some bumped, bumped ∷ is) else (rest.0, i ∷ rest.1)

module _ {Score : Type 0} where
  unfoldable pub remove_item : ℕ → List (Item Score) → List (Item Score)
  remove_item id [] = []
  remove_item id (i ∷ is) = let rest = remove_item id is in if i.id == id then rest else i ∷ rest

pub record IndexStats : Type 0 where
  pub total_items : ℕ
  pub total_prefixes : ℕ

module _ (u : Unicode) {Score : Type 0} (R : Redis Score) where
  pub record Store : Type 0 where
    pub items : List (Item Score)
    pub index : R.State
    pub stats : IndexStats

  unfoldable pub index_prefixes : Bytes → Score → Bytes → List Bytes → R.State → R.State
  index_prefixes locale score member [] t = t
  index_prefixes locale score member (p ∷ ps) t =
      let key = prefix_key p locale in
      index_prefixes locale score member ps (R.keep_top key top_k (R.zadd key score member t))

  unfoldable pub index_item : Item Score → R.State → R.State
  unfolding index_prefixes member_of
  index_item i t =
      index_prefixes i.locale i.popularity (member_of i.id i.text i.category)
        (generate_prefixes u i.text max_prefix_len) t

  unfoldable pub index_items : List (Item Score) → R.State → R.State
  unfolding index_item
  index_items [] t = t
  index_items (i ∷ is) t = index_items is (index_item i t)

  -- The database gives the id.
  unfoldable pub add_item : Bool → Bool → ℕ → Item Score → Store → Option ℕ × Store
  unfolding index_item
  add_item db_up redis_up id i s =
      let row : Item Score = record i { id = id } in
      if db_up
      then (
        some id,
        record s {
          items = s.items ++ row ∷ [];
          index = if redis_up then index_item row s.index else s.index;
        },
      )
      else (none, s)

  -- Whether the call returned nil.
  unfoldable pub delete_item : Bool → ℕ → Store → Bool × Store
  unfolding remove_item
  delete_item db_up id s =
      if db_up then (true, record s { items = remove_item id s.items }) else (false, s)

  -- The loop of IncrementPopularity: no trimming.
  unfoldable pub update_scores : Bytes → Score → Bytes → List Bytes → R.State → R.State
  update_scores locale score member [] t = t
  update_scores locale score member (p ∷ ps) t =
      update_scores locale score member ps (R.zadd (prefix_key p locale) score member t)

  -- The member is written without the category.
  unfoldable pub increment_popularity :
      (Score → Score → Score) → Bool → Bool → ℕ → Score → Store → Bool × Store
  unfolding bump update_scores member_of
  increment_popularity plus db_up redis_up id delta s =
      let (row, items) = bump plus id delta s.items in
      if db_up
      then elim row [
        | none ↦ (true, s)
        | some i ↦ (
          true,
          record s {
            items = items;
            index =
                if redis_up
                then update_scores i.locale i.popularity (member_of id i.text [])
                    (generate_prefixes u i.text max_prefix_len) s.index
                else s.index;
          },
        )
      ]
      else (false, s)

  unfoldable pub backfill : Bytes → List (Item Score) → R.State → R.State
  unfolding member_of
  backfill key [] t = t
  backfill key (i ∷ is) t =
      backfill key is (R.zadd key i.popularity (member_of i.id i.text i.category) t)

  unfoldable pub suggest_from_pg :
      (Score → Score → Bool)
      → Bool
      → Bool
      → Bytes
      → Bytes
      → ℕ
      → Store
      → Option (List (Suggestion Score)) × Store
  unfolding by_popularity select matches to_suggestion backfill
  suggest_from_pg before db_up redis_up prefix locale limit s =
      let pattern = map u.to_lower prefix ++ codes "%" in
      let rows = take limit (by_popularity before (select (matches u locale pattern) s.items)) in
      if db_up
      then (
        some (map to_suggestion rows),
        record s {
          index = if redis_up then backfill (prefix_key prefix locale) rows s.index else s.index;
        },
      )
      else (none, s)

  -- `limit` is 0 for every one that is not positive.
  unfoldable pub clamp_limit : ℕ → ℕ
  clamp_limit limit =
      let positive = if limit == 0 then default_suggest_limit else limit in
      if ltb top_k positive then top_k else positive

  unfoldable pub suggest :
      (Score → Score → Bool)
      → Bool
      → Bool
      → Bytes
      → Bytes
      → ℕ
      → Store
      → Option (List (Suggestion Score)) × Store
  unfolding suggest_from_pg parse_redis_results clamp_limit
  suggest before db_up redis_up prefix locale limit s =
      let n = clamp_limit limit in
      let results = if redis_up then R.top (prefix_key prefix locale) n s.index else [] in
      let slow = suggest_from_pg before db_up redis_up prefix locale n s in
      if length results == 0 then slow else (some (parse_redis_results results), s)

  unfoldable pub del_all : List Bytes → R.State → R.State
  del_all [] t = t
  del_all (k ∷ ks) t = del_all ks (R.del k t)

  -- ORDER BY id LIMIT $1 OFFSET $2 on the items in the order of their ids.
  unfoldable pub page : ℕ → List (Item Score) → List (Item Score)
  page offset items = take batch_size (drop offset items)

  -- The loop over the batches; `none` is out of fuel. The items do not change during it.
  unfoldable pub reindex : ℕ → ℕ → List (Item Score) → R.State → Option (R.State × ℕ)
  unfolding page index_items
  reindex zero offset items t = none
  reindex (suc fuel) offset items t =
      let rows = page offset items in
      let t' = index_items rows t in
      let more = reindex fuel (offset + length rows) items t' in
      if ltb (length rows) batch_size then some (t', offset + length rows) else more

  -- Each batch but the last has an item at least.
  unfoldable pub rebuild_index : Bool → Bool → Store → Option IndexStats × Store
  unfolding del_all reindex
  rebuild_index db_up redis_up s =
      let cleared = del_all (R.keys (codes "ac:pfx:") s.index) s.index in
      if not redis_up
      then (none, s)
      else if not db_up
      then (none, record s { index = cleared })
      else elim (reindex (suc (length s.items)) 0 s.items cleared) [
        | none ↦ (none, record s { index = cleared })
        | some (t, total) ↦
            let stats : IndexStats = record {
              total_items = total;
              total_prefixes = length (R.keys (codes "ac:pfx:") t);
            } in
            (some stats, record s { index = t; stats = stats })
      ]

  -- A key whose time to live is over.
  unfoldable pub forget : Bytes → Store → Store
  forget key s = record s { index = R.del key s.index }
