-- ===== src/KvStore/Sst/ReadBack.antt =====
-- Reading a table back: what was written is what a scan finds, and a lookup in it is a lookup in
-- what the table was made from.
use system_design.Common.{
  ℕ, zero, suc, ◌%◌, ◌^◌, ◌<◌, ◌≤◌, ◌≡◌, refl, Bool, true, false, List, [], ◌∷◌, Option, some, ◌==◌,
  if◌then◌else◌, arith, length, length-append, All,
}
use system_design.Common.Bytes.{Bytes, beq, beq_iff}
use system_design.Common.Assoc.{contains}
use system_design.KvStore.Frame.{frame}
use system_design.KvStore.Frame.Laws.{length-frame, read_frame-frame, read_frame-eof}
use system_design.KvStore.Memtable.{Entry}
use system_design.KvStore.Sst.{
  Entries, flags_of, encode_entries, scan_from, scan_bytes, table_of, entry_or_zero, last_match,
}

abbrev pub EntryFits : Bytes × Entry → Type 0
EntryFits e = (length e.0 < 2 ^ 32) × (length e.1.val < 2 ^ 32)

flags : (t : Bool) → (flags_of t % 2 == 1) ≡ t
flags true = refl
flags false = refl

scan_from-encode_entries :
    (es : Entries) (fuel : ℕ)
    → All EntryFits es
    → length es < fuel
    → scan_from fuel (encode_entries es) ≡ record { entries = es; failed = false }
unfolding scan_from encode_entries
scan_from-encode_entries es zero fits h = elim h [ ]
scan_from-encode_entries [] (suc fuel) fits h = rw (read_frame-eof [] (omega arith), scan_from)
scan_from-encode_entries ((k, e) ∷ es) (suc fuel) fits h =
    rw
      (
        read_frame-frame (flags_of e.tombstone) k e.val fits.0.0 fits.0.1 (encode_entries es),
        scan_from,
      )
      (rw (scan_from-encode_entries es fuel fits.1 (omega arith)) (rw flags (refl)))

length-encode_entries : (es : Entries) → length es ≤ length (encode_entries es)
unfolding encode_entries
length-encode_entries [] = omega arith
length-encode_entries ((k, e) ∷ es) = omega (
  arith,
  length-encode_entries es,
  length-append {0} (frame (flags_of e.tombstone) k e.val) (encode_entries es),
  length-frame (flags_of e.tombstone) k e.val,
)

-- A table of entries whose keys and values are shorter than 2 ^ 32 bytes scans without an error
-- to those entries in their order, tombstones included.
pub scan_bytes-encode_entries :
    (es : Entries)
    → All EntryFits es
    → scan_bytes (encode_entries es) ≡ record { entries = es; failed = false }
unfolding scan_bytes
scan_bytes-encode_entries es fits =
    scan_from-encode_entries es (suc (length (encode_entries es))) fits
      (omega (arith, length-encode_entries es))

pub last_match-table_of :
    (get : Bytes → Option Entry) (key : Bytes) (found : Option Entry) (ks : List Bytes)
    → last_match key found (table_of get ks)
      ≡ (if contains key ks then some (entry_or_zero (get key)) else found)
unfolding last_match table_of contains
last_match-table_of get key found [] = refl
last_match-table_of get key found (k ∷ ks) = ground (
  arith,
  beq_iff k key,
  last_match-table_of get key (if beq k key then some (entry_or_zero (get k)) else found) ks,
)
