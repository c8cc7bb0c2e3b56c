-- ===== src/KvStore/Sst/Lookup.antt =====
-- A lookup in a table that was just written, and in the tables that were there before.
use system_design.Common.{
  ◌^◌, ◌<◌, ◌≡◌, ◌≢◌, refl, ◌∙◌, ap, false, List, [], ◌∷◌, Option, none, some, if◌then◌else◌, arith,
  length, All,
}
use system_design.Common.Bytes.{Bytes, beq_refl, beq_of_ne}
use system_design.Common.Assoc.{
  lookup, insert, keys, contains, contains-keys, is_some, lookup-insert,
}
use system_design.Common.Sort.{contains-sort_strings, All-sort_strings}
use system_design.KvStore.Memtable.{Entry, Memtable, mem_get, sorted_keys}
use system_design.KvStore.Sst.ReadBack.{EntryFits, scan_bytes-encode_entries, last_match-table_of}
use system_design.KvStore.Sst.{
  Entries, Files, Scan, encode_entries, scan_bytes, scan_sst, last_match, lookup_sst, table_of,
  entry_or_zero,
}

-- The keys and values of a map are shorter than 2 ^ 32 bytes.
abbrev pub AllFit : Entries → Type 0
AllFit = All EntryFits

pub AllFit-lookup :
    (k : Bytes) (m : Entries) (e : Entry) → AllFit m → lookup k m ≡ some e → length e.val < 2 ^ 32
unfolding lookup
AllFit-lookup k [] e h found = cc
AllFit-lookup k ((j, w) ∷ m) e h found = ground (arith, AllFit-lookup k m e h.1)

AllFit-keys : (m : Entries) → AllFit m → All (λ k. length k < 2 ^ 32) (keys m)
AllFit-keys [] h = tt
AllFit-keys ((k, e) ∷ m) h = (h.0.0, AllFit-keys m h.1)

pub AllFit-table_of :
    (get : Bytes → Option Entry) (ks : List Bytes)
    → All (λ k. length k < 2 ^ 32) ks
    → ((k : Bytes) (e : Entry) → get k ≡ some e → length e.val < 2 ^ 32)
    → AllFit (table_of get ks)
unfolding table_of
AllFit-table_of get [] hk hv = tt
AllFit-table_of get (k ∷ ks) hk hv =
    ((hk.0, fits (get k) (λ e h. hv k e h)), AllFit-table_of get ks hk.1 hv)
  where
    fits :
        (o : Option Entry)
        → ((e : Entry) → o ≡ some e → length e.val < 2 ^ 32)
        → length (entry_or_zero o).val < 2 ^ 32
    fits none h = omega arith
    fits (some e) h = h e refl

lookup-insert_ne :
    (path p bs : Bytes) (files : Files)
    → p ≢ path
    → lookup path (insert p bs files) ≡ lookup path files
lookup-insert_ne path p bs files h = rw (lookup-insert p path bs files) (rw (beq_of_ne p path h))

pub scan_sst-insert_ne :
    (path p bs : Bytes) (files : Files)
    → p ≢ path
    → scan_sst path (insert p bs files) ≡ scan_sst path files
unfolding scan_sst
scan_sst-insert_ne path p bs files h = rw (lookup-insert_ne path p bs files h, scan_sst)

pub lookup_sst-insert_ne :
    (path key p bs : Bytes) (files : Files)
    → p ≢ path
    → lookup_sst path key (insert p bs files) ≡ lookup_sst path key files
unfolding lookup_sst
lookup_sst-insert_ne path key p bs files h =
    ap (λ (s : Scan). (last_match key none s.entries, s.failed))
      (scan_sst-insert_ne path p bs files h)

pub scan_sst-insert_self :
    (path bs : Bytes) (files : Files) → scan_sst path (insert path bs files) ≡ scan_bytes bs
unfolding scan_sst
scan_sst-insert_self path bs files =
    rw (lookup-insert path path bs files, scan_sst) (rw (beq_refl path))

-- A table made from `get` at the keys `ks` answers like `get` at those keys.
pub lookup_sst-table :
    (path key : Bytes) (get : Bytes → Option Entry) (ks : List Bytes) (files : Files)
    → AllFit (table_of get ks)
    → lookup_sst path key (insert path (encode_entries (table_of get ks)) files)
      ≡ ((if contains key ks then some (entry_or_zero (get key)) else none), false)
unfolding lookup_sst
lookup_sst-table path key get ks files fits =
    rw (scan_sst-insert_self path (encode_entries (table_of get ks)) files, lookup_sst)
      (rw (scan_bytes-encode_entries (table_of get ks) fits, lookup_sst)
        (rw (last_match-table_of get key none ks)))

or_zero : (o : Option Entry) → (if is_some o then some (entry_or_zero o) else none) ≡ o
or_zero none = refl
or_zero (some e) = refl

AllFit-sorted :
    (m : Memtable) → AllFit m.table → AllFit (table_of (λ k. mem_get k m) (sorted_keys m))
unfolding sorted_keys mem_get
AllFit-sorted m h =
    AllFit-table_of _ _
      (All-sort_strings (λ k. length k < 2 ^ 32) (keys m.table) (AllFit-keys m.table h))
      (λ k e found. AllFit-lookup k m.table e h found)

sorted_keys-all :
    (key : Bytes) (m : Memtable)
    → (if contains key (sorted_keys m) then some (entry_or_zero (mem_get key m)) else none)
      ≡ mem_get key m
unfolding sorted_keys mem_get
sorted_keys-all key m =
    rw (contains-sort_strings key (keys m.table))
      (rw (contains-keys key m.table) (or_zero (lookup key m.table)))

-- The table flushed from a memtable whose keys and values are shorter than 2 ^ 32 bytes answers
-- every key as the memtable did, without an error.
pub lookup_sst-memtable :
    (path key : Bytes) (m : Memtable) (files : Files)
    → AllFit m.table
    → lookup_sst path key
        (insert path (encode_entries (table_of (λ k. mem_get k m) (sorted_keys m))) files)
      ≡ (mem_get key m, false)
lookup_sst-memtable path key m files fits =
    lookup_sst-table path key (λ k. mem_get k m) (sorted_keys m) files (AllFit-sorted m fits)
    ∙ ap (λ o. (o, false)) (sorted_keys-all key m)
