-- ===== src/KvStore/Sst.antt =====
-- sstable.go: the tables as the bytes of files, by path.
pub mod ReadBack
pub mod Lookup
pub mod Merging
use system_design.Common.{
  ℕ, zero, suc, ◌%◌, Bool, true, false, not, ◌&&◌, List, [], ◌∷◌, ◌++◌, Option, none, some, ltb,
  ◌==◌, if◌then◌else◌, length, take,
}
use system_design.Common.Bytes.{Bytes, beq}
use system_design.Common.Assoc.{lookup, insert, contains}
use system_design.Common.Sort.{sort_strings}
use system_design.KvStore.Frame.{Read, eof, short, bad_crc, got, frame, read_frame}
use system_design.KvStore.Memtable.{Entry, Memtable, mem_get, sorted_keys}
use system_design.KvStore.Names.{sst_path, parse_name}

pub record SstMeta : Type 0 where
  pub path : Bytes
  pub seq_num : ℕ
  pub level : ℕ
  pub min_key : Bytes
  pub max_key : Bytes
  pub count : ℕ

abbrev pub Files : Type 0
Files = List (Bytes × Bytes)

abbrev pub Entries : Type 0
Entries = List (Bytes × Entry)

-- flags |= sstFlagTombstone
abbrev pub flags_of : Bool → ℕ
flags_of true = 1
flags_of false = 0

-- The chunks written for a list of keys with their entries.
unfoldable pub encode_entries : Entries → Bytes
encode_entries [] = []
encode_entries ((k, e) ∷ es) = frame (flags_of e.tombstone) k e.val ++ encode_entries es

first_key : Entries → Bytes
first_key [] = []
first_key ((k, _) ∷ _) = k

last_key : Entries → Bytes
last_key [] = []
last_key ((k, _) ∷ []) = k
last_key (_ ∷ e ∷ es) = last_key (e ∷ es)

-- What the writing of a file meets: success, no file, or an error with the first bytes written.
pub data Written : Type 0 where
  whole : Written
  not_created : Written
  cut : ℕ → Written

unfoldable pub table_meta : ℕ → ℕ → Entries → SstMeta
unfolding first_key last_key
table_meta seq_num level es = record {
  path = sst_path seq_num level;
  seq_num = seq_num;
  level = level;
  min_key = first_key es;
  max_key = last_key es;
  count = length es;
}

-- O_TRUNC, the entries, Flush and Sync.
unfoldable pub write_table : Written → ℕ → ℕ → Entries → Files → Files × Option SstMeta
unfolding table_meta
write_table whole seq_num level es files =
    (insert (sst_path seq_num level) (encode_entries es) files, some (table_meta seq_num level es))
write_table not_created seq_num level es files = (files, none)
write_table (cut n) seq_num level es files =
    (insert (sst_path seq_num level) (take n (encode_entries es)) files, none)

-- e, _ := mem.getEntry(k): the zero entry for a key that is not there.
abbrev pub entry_or_zero : Option Entry → Entry
entry_or_zero none = record { val = []; tombstone = false }
entry_or_zero (some e) = e

unfoldable pub table_of : (Bytes → Option Entry) → List Bytes → Entries
table_of get [] = []
table_of get (k ∷ ks) = (k, entry_or_zero (get k)) ∷ table_of get ks

unfoldable pub write_sst_from_memtable : Written → ℕ → Memtable → Files → Files × Option SstMeta
unfolding table_of write_table
write_sst_from_memtable o seq_num mem files =
    write_table o seq_num 0 (table_of (λ k. mem_get k mem) (sorted_keys mem)) files

-- What scanSST handed to `fn`, in order, and whether it returned an error.
pub record Scan : Type 0 where
  pub entries : Entries
  pub failed : Bool

-- Out of fuel counts as an error; KvStore/Sst/ReadBack shows that it does not happen.
unfoldable pub scan_from : ℕ → Bytes → Scan
scan_from zero bs = record { entries = []; failed = true }
scan_from (suc fuel) bs = elim (read_frame bs) [
  | eof ↦ record { entries = []; failed = false }
  | short ↦ record { entries = []; failed = true }
  | bad_crc ↦ record { entries = []; failed = true }
  | got flags key val rest ↦
      let more = scan_from fuel rest in
      record {
        entries = (key, record { val = val; tombstone = flags % 2 == 1 }) ∷ more.entries;
        failed = more.failed;
      }
]

unfoldable pub scan_bytes : Bytes → Scan
unfolding scan_from
scan_bytes bs = scan_from (suc (length bs)) bs

-- os.Open fails on a path that is not there.
unfoldable pub scan_sst : Bytes → Files → Scan
unfolding scan_bytes
scan_sst path files = elim (lookup path files) [
  | none ↦ record { entries = []; failed = true }
  | some bs ↦ scan_bytes bs
]

-- The callback of lookupSST keeps the last entry with the key.
unfoldable pub last_match : Bytes → Option Entry → Entries → Option Entry
last_match key found [] = found
last_match key found ((k, e) ∷ es) = last_match key (if beq k key then some e else found) es

unfoldable pub lookup_sst : Bytes → Bytes → Files → Option Entry × Bool
unfolding scan_sst last_match
lookup_sst path key files = let s = scan_sst path files in (last_match key none s.entries, s.failed)

-- The map `merged` and the keys in the order in which they were first seen.
pub record Merge : Type 0 where
  pub merged : Entries
  pub ordered : List Bytes

unfoldable pub merge_entries : Entries → Merge → Merge
merge_entries [] m = m
merge_entries ((k, e) ∷ es) m = merge_entries es (record {
  merged = insert k e m.merged;
  ordered = elim (lookup k m.merged) [ none ↦ m.ordered ++ k ∷ [] | some _ ↦ m.ordered ];
})

-- The loop over the paths, oldest first; `none` on the first table that does not scan.
unfoldable pub merge_paths : List Bytes → Files → Merge → Option Merge
unfolding merge_entries
merge_paths [] files m = some m
merge_paths (p ∷ ps) files m =
    let s = scan_sst p files in
    let rest = merge_paths ps files (merge_entries s.entries m) in if s.failed then none else rest

unfoldable pub unique_keys : List Bytes → List Bytes → List Bytes
unique_keys seen [] = []
unique_keys seen (k ∷ ks) =
    let fresh = k ∷ unique_keys (k ∷ seen) ks in
    let old = unique_keys seen ks in if contains k seen then old else fresh

-- The tombstones are left out at every level above 0.
unfoldable pub drop_tombstones : ℕ → Entries → Entries
drop_tombstones level [] = []
drop_tombstones level ((k, e) ∷ es) =
    let rest = drop_tombstones level es in
    if e.tombstone && ltb 0 level then rest else (k, e) ∷ rest

unfoldable pub compacted_entries : ℕ → Merge → Entries
unfolding table_of unique_keys drop_tombstones
compacted_entries level m =
    drop_tombstones level
      (table_of (λ k. lookup k m.merged) (sort_strings (unique_keys [] m.ordered)))

unfoldable pub merge_compact : Written → ℕ → ℕ → List Bytes → Files → Files × Option SstMeta
unfolding merge_paths compacted_entries write_table
merge_compact o seq_num level paths files =
    elim (merge_paths paths files (record { merged = []; ordered = [] })) [
      | none ↦ (files, none)
      | some m ↦ write_table o seq_num level (compacted_entries level m) files
    ]

-- The metadata of a file found at startup; MinKey is the first key that is not empty.
scan_min : Bytes → Entries → Bytes
scan_min [] ((k, _) ∷ es) = scan_min k es
scan_min min_key _ = min_key

unfoldable pub parse_sst_meta : Bytes → Files → Option SstMeta
unfolding parse_name scan_sst last_key scan_min
parse_sst_meta path files = elim (parse_name path) [
  | none ↦ none
  | some (seq_num, level) ↦
      let s = scan_sst path files in
      if s.failed
      then none
      else some (record {
        path = path;
        seq_num = seq_num;
        level = level;
        min_key = scan_min [] s.entries;
        max_key = last_key s.entries;
        count = length s.entries;
      })
]
