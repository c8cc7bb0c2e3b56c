-- ===== src/KvStore/Sst/Merging.antt =====
-- mergeCompact: the merged map holds the last entry of each key, and the table made from it answers
-- like the map without its tombstones.
use system_design.Common.{
  ℕ, ◌^◌, ◌<◌, ◌≡◌, refl, ◌∙◌, ap, not, ◌&&◌, ltb, List, [], ◌∷◌, Option, none, some, if◌then◌else◌,
  arith, length, All, All-append, Bool-cases, Option-cases, inl, inr,
}
use system_design.Common.Bytes.{Bytes, beq, beq_iff}
use system_design.Common.Assoc.{lookup, insert, contains, contains-append, is_some, lookup-insert}
use system_design.Common.Sort.{sort_strings, contains-sort_strings, All-sort_strings}
use system_design.KvStore.Memtable.{Entry}
use system_design.KvStore.Sst.ReadBack.{EntryFits}
use system_design.KvStore.Sst.Lookup.{AllFit, AllFit-lookup, AllFit-table_of}
use system_design.KvStore.Sst.{
  Entries, Merge, last_match, table_of, entry_or_zero, merge_entries, unique_keys, drop_tombstones,
  compacted_entries,
}

-- An entry on top of another one.
abbrev pub over : Option Entry → Option Entry → Option Entry
over none below = below
over (some e) below = some e

-- An entry that is not a tombstone.
abbrev pub live : Option Entry → Option Entry
live none = none
live (some e) = if e.tombstone then none else some e

pub last_match-over :
    (k : Bytes) (found : Option Entry) (es : Entries)
    → last_match k found es ≡ over (last_match k none es) found
unfolding last_match
last_match-over k found [] = refl
last_match-over k found ((j, e) ∷ es) = ground (
  arith,
  last_match-over k (if beq j k then some e else found) es,
  last_match-over k (if beq j k then some e else none) es,
)

pub lookup-merge_entries :
    (k : Bytes) (es : Entries) (m : Merge)
    → lookup k (merge_entries es m).merged ≡ last_match k (lookup k m.merged) es
unfolding merge_entries last_match
lookup-merge_entries k [] m = refl
lookup-merge_entries k ((j, e) ∷ es) m =
    lookup-merge_entries k es _ ∙ ap (λ o. last_match k o es) (lookup-insert j k e m.merged)

-- Every key of the map is among the ordered keys and the other way round.
abbrev pub IsIndexed : Merge → Type 0
IsIndexed m = (k : Bytes) → contains k m.ordered ≡ is_some (lookup k m.merged)

pub merge_entries-IsIndexed :
    (es : Entries) (m : Merge) → IsIndexed m → IsIndexed (merge_entries es m)
unfolding merge_entries
merge_entries-IsIndexed [] m h = h
merge_entries-IsIndexed ((j, e) ∷ es) m h = merge_entries-IsIndexed es _ (λ k.
    rw (lookup-insert j k e m.merged)
      (ground (arith, h k, h j, beq_iff j k, contains-append k m.ordered j)))

-- The sizes that fit stay so.
pub record MergeFits (m : Merge) : Type 0 where
  pub merged : AllFit m.merged
  pub ordered : All (λ k. length k < 2 ^ 32) m.ordered

AllFit-insert :
    (k : Bytes) (e : Entry) (m : Entries) → EntryFits (k, e) → AllFit m → AllFit (insert k e m)
unfolding insert
AllFit-insert k e [] h hm = (h, tt)
AllFit-insert k e ((j, w) ∷ m) h hm = elim (Bool-cases (beq j k)) [
  | inl p ↦ rw p (h, hm.1)
  | inr p ↦ rw p (hm.0, AllFit-insert k e m h hm.1)
]

pub merge_entries-MergeFits :
    (es : Entries) (m : Merge) → AllFit es → MergeFits m → MergeFits (merge_entries es m)
unfolding merge_entries
merge_entries-MergeFits [] m h hm = hm
merge_entries-MergeFits ((j, e) ∷ es) m h hm = merge_entries-MergeFits es _ h.1 (record {
  merged = AllFit-insert j e m.merged h.0 hm.merged;
  ordered = elim (Option-cases (lookup j m.merged)) [
    | inl p ↦ rw p (All-append (λ k. length k < 2 ^ 32) m.ordered (j ∷ []) hm.ordered (h.0.0, tt))
    | inr (w, p) ↦ rw p hm.ordered
  ];
})

contains-unique_keys :
    (k : Bytes) (seen ks : List Bytes)
    → contains k (unique_keys seen ks) ≡ (contains k ks && not (contains k seen))
unfolding unique_keys contains
contains-unique_keys k seen [] = refl
contains-unique_keys k seen (j ∷ ks) =
    ground
      (arith, beq_iff j k, contains-unique_keys k seen ks, contains-unique_keys k (j ∷ seen) ks)

All-unique_keys {κ} :
    (P : Bytes → Type κ) (seen ks : List Bytes) → All P ks → All P (unique_keys seen ks)
unfolding unique_keys
All-unique_keys P seen [] h = tt
All-unique_keys P seen (j ∷ ks) h = elim (Bool-cases (contains j seen)) [
  | inl p ↦ rw p (All-unique_keys P seen ks h.1)
  | inr p ↦ rw p (h.0, All-unique_keys P (j ∷ seen) ks h.1)
]

last_match-drop_tombstones :
    (get : Bytes → Option Entry) (k : Bytes) (found : Option Entry) (ks : List Bytes)
    → last_match k found (drop_tombstones 1 (table_of get ks))
      ≡ (if contains k ks then over (live (some (entry_or_zero (get k)))) found else found)
unfolding last_match drop_tombstones table_of contains
last_match-drop_tombstones get k found [] = refl
last_match-drop_tombstones get k found (j ∷ ks) = ground (
  arith,
  beq_iff j k,
  last_match-drop_tombstones get k found ks,
  last_match-drop_tombstones get k (some (entry_or_zero (get j))) ks,
)

AllFit-drop_tombstones : (level : ℕ) (es : Entries) → AllFit es → AllFit (drop_tombstones level es)
unfolding drop_tombstones
AllFit-drop_tombstones level [] h = tt
AllFit-drop_tombstones level ((k, e) ∷ es) h = elim (Bool-cases (e.tombstone && ltb 0 level)) [
  | inl p ↦ rw p (AllFit-drop_tombstones level es h.1)
  | inr p ↦ rw p (h.0, AllFit-drop_tombstones level es h.1)
]

pub AllFit-compacted_entries :
    (level : ℕ) (m : Merge) → MergeFits m → AllFit (compacted_entries level m)
unfolding compacted_entries
AllFit-compacted_entries level m h = AllFit-drop_tombstones level _ (
    AllFit-table_of (λ k. lookup k m.merged) _
      (All-sort_strings _ _ (All-unique_keys _ [] m.ordered h.ordered))
      (λ k e found. AllFit-lookup k m.merged e h.merged found))

present :
    (o : Option Entry)
    → (if is_some o && not (contains [] [])
        then over (live (some (entry_or_zero o))) none
        else none)
      ≡ live o
unfolding contains
present none = refl
present (some e) = ground arith

-- The compacted table holds, for each key, the entry of the merged map unless it is a tombstone.
pub last_match-compacted_entries :
    (k : Bytes) (m : Merge)
    → IsIndexed m
    → last_match k none (compacted_entries 1 m) ≡ live (lookup k m.merged)
unfolding compacted_entries contains
last_match-compacted_entries k m h =
    last_match-drop_tombstones (λ j. lookup j m.merged) k none
      (sort_strings (unique_keys [] m.ordered))
    ∙ rw (contains-sort_strings k (unique_keys [] m.ordered))
        (rw (contains-unique_keys k [] m.ordered) (rw (h k) (present (lookup k m.merged))))
