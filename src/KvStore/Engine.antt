-- ===== src/KvStore/Engine.antt =====
-- engine.go. The engine's fields, the files beside it, and what the operating system answers as
-- arguments. Each definition runs its Go function to the end with no other goroutine between; the
-- interleavings are in KvStore/Engine/Concurrent.
pub mod Open
pub mod View
pub mod Flush
pub mod Tables
pub mod Order
pub mod Compaction
pub mod Concurrent
pub mod Recovery
use mathlib.Core.List.{reverse}
use system_design.Common.{
  ℕ, zero, suc, ◌+◌, ◌-◌, ◌*◌, ◌^◌, Bool, true, false, not, ◌&&◌, List, [], ◌∷◌, ◌++◌, map, Option,
  none, some, ltb, leb, ◌==◌, if◌then◌else◌, length, drop,
}
use system_design.Common.Bytes.{Bytes, codes}
use system_design.Common.Words.{u64}
use system_design.Common.Assoc.{lookup, remove, keys}
use system_design.Common.Sort.{sort_strings}
use system_design.KvStore.Memtable.{
  Entry, Memtable, new_memtable, mem_set, mem_del, mem_get, byte_size, mem_len,
}
use system_design.KvStore.Wal.{
  Wal, WalEntry, Outcome, Rewrite, op_set, op_del, append, replay, truncate,
}
use system_design.Common.Text.{has_prefix, has_suffix}
use system_design.KvStore.Sst.{
  SstMeta, Files, Written, write_sst_from_memtable, lookup_sst, merge_compact, parse_sst_meta,
}

abbrev pub flush_threshold_bytes : ℕ
flush_threshold_bytes = 4 * 1024 * 1024

abbrev pub l0_compact_threshold : ℕ
l0_compact_threshold = 4

pub record Stats : Type 0 where
  pub writes : ℕ
  pub reads : ℕ
  pub deletes : ℕ
  pub flushes : ℕ
  pub compactions : ℕ
  pub memtable_size : ℕ
  pub sst_count : ℕ
  pub wal_entries : ℕ

pub record Engine : Type 0 where
  pub wal : Wal
  pub mem : Memtable
  pub sstables : List SstMeta
  pub seq_num : ℕ
  pub flushing : Bool
  pub stats : Stats
  pub files : Files

-- What a client gets to see of an entry.
abbrev pub visible : Entry → Option Bytes
visible e = if e.tombstone then none else some e.val

-- The new engine, whether the call returned nil, and whether it started a flush.
unfoldable pub set : Outcome → Bytes → Bytes → Engine → Engine × Bool × Bool
set o key val e =
    let (wal', acked) = append o (record { op = op_set; key = key; val = val }) e.wal in
    let mem' = mem_set key val e.mem in
    if acked
    then (
      record e {
        wal = wal';
        mem = mem';
        stats = record e.stats {
          writes = e.stats.writes + 1;
          wal_entries = e.stats.wal_entries + 1;
          memtable_size = byte_size mem';
        };
      },
      true,
      leb flush_threshold_bytes (byte_size mem'),
    )
    else (record e { wal = wal' }, false, false)

unfoldable pub delete : Outcome → Bytes → Engine → Engine × Bool
delete o key e =
    let (wal', acked) = append o (record { op = op_del; key = key; val = [] }) e.wal in
    if acked
    then (
      record e {
        wal = wal';
        mem = mem_del key e.mem;
        stats = record e.stats {
          deletes = e.stats.deletes + 1;
          wal_entries = e.stats.wal_entries + 1;
        };
      },
      true,
    )
    else (record e { wal = wal' }, false)

-- The loop over the tables, newest first. A table that does not scan is passed over.
unfoldable pub find_in : Bytes → List SstMeta → Files → Option Entry
find_in key [] files = none
find_in key (sst ∷ ssts) files =
    let (found, failed) = lookup_sst sst.path key files in
    let rest = find_in key ssts files in
    if failed then rest else elim found [ none ↦ rest | some e ↦ some e ]

abbrev pub shown : Option Entry → Option Bytes
shown none = none
shown (some e) = visible e

-- The value that Get returns, `none` for not found.
unfoldable pub view : Engine → Bytes → Option Bytes
view e key = elim (mem_get key e.mem) [
  | none ↦ shown (find_in key e.sstables e.files)
  | some en ↦ visible en
]

unfoldable pub get : Bytes → Engine → Engine × Option Bytes
unfolding view
get key e = (record e { stats = record e.stats { reads = e.stats.reads + 1 } }, view e key)

-- The first critical section of flushMemtable; the old memtable is still at hand outside it.
unfoldable pub swap_memtable : Engine → Engine
swap_memtable e = record e { seq_num = u64 (e.seq_num + 1); mem = new_memtable }

-- The writing of the table failed: seqNum-- and the old memtable comes back.
unfoldable pub restore_memtable : Memtable → Files → Engine → Engine
restore_memtable old files e = record e {
  seq_num = u64 (e.seq_num + (2 ^ 64 - 1));
  mem = old;
  files = files;
}

-- The second critical section: the new table comes first.
unfoldable pub install_table : SstMeta → Engine → Engine
install_table meta e = record e {
  sstables = meta ∷ e.sstables;
  stats = record e.stats {
    flushes = e.stats.flushes + 1;
    sst_count = length (meta ∷ e.sstables);
    memtable_size = 0;
  };
}

unfoldable pub flush_memtable : Written → Rewrite → Engine → Engine × Bool
unfolding swap_memtable restore_memtable install_table
flush_memtable o r e =
    let old = e.mem in
    let swapped = swap_memtable e in
    let (files', written) = write_sst_from_memtable o swapped.seq_num old e.files in
    elim written [
      | none ↦ (restore_memtable old files' swapped, false)
      | some meta ↦ (
        install_table meta (record swapped { files = files'; wal = (truncate r [] swapped.wal).0 }),
        true,
      )
    ]

unfoldable pub trigger_flush : Written → Rewrite → Engine → Engine
unfolding flush_memtable
trigger_flush o r e =
    let flushed = (flush_memtable o r (record e { flushing = true })).0 in
    if e.flushing then e else record flushed { flushing = false }

unfoldable pub level0 : List SstMeta → List SstMeta
level0 [] = []
level0 (s ∷ ss) = let more = level0 ss in if s.level == 0 then s ∷ more else more

unfoldable pub above0 : List SstMeta → List SstMeta
above0 [] = []
above0 (s ∷ ss) = let more = above0 ss in if s.level == 0 then more else s ∷ more

-- os.Remove on each path; it fails on the paths that are `kept`.
unfoldable pub remove_files : (Bytes → Bool) → List SstMeta → Files → Files
remove_files kept [] files = files
remove_files kept (s ∷ ss) files =
    remove_files kept ss (if kept s.path then files else remove s.path files)

abbrev pub paths_of : List SstMeta → List Bytes
paths_of = map (λ s. s.path)

-- The second critical section of runCompaction and the removal of the merged files: `l0` and
-- `rest` were read in the first one.
unfoldable pub install_compacted :
    (Bytes → Bool) → List SstMeta → List SstMeta → SstMeta → Engine → Engine
unfolding remove_files
install_compacted kept l0 rest merged e = record e {
  sstables = merged ∷ rest;
  files = remove_files kept l0 e.files;
  stats = record e.stats {
    compactions = e.stats.compactions + 1;
    sst_count = length (merged ∷ rest);
  };
}

unfoldable pub run_compaction : Written → (Bytes → Bool) → Engine → Engine × Bool
unfolding level0 above0 install_compacted
run_compaction o kept e =
    let l0 = level0 e.sstables in
    let rest = above0 e.sstables in
    let seq = u64 (e.seq_num + 1) in
    let (files', written) = merge_compact o seq 1 (reverse (paths_of l0)) e.files in
    if ltb (length l0) 2 then (e, true) else elim written [
      | none ↦ (record e { seq_num = seq; files = files' }, false)
      | some merged ↦
          (install_compacted kept l0 rest merged (record e { seq_num = seq; files = files' }), true)
    ]

-- One tick of compactionLoop.
unfoldable pub compaction_tick : Written → (Bytes → Bool) → Engine → Engine
unfolding run_compaction level0
compaction_tick o kept e =
    if leb l0_compact_threshold (length (level0 e.sstables)) then (run_compaction o kept e).0 else e

-- Close: the final flush, if there is anything to flush.
unfoldable pub close_engine : Written → Rewrite → Engine → Engine
unfolding flush_memtable
close_engine o r e = if ltb 0 (mem_len e.mem) then (flush_memtable o r e).0 else e
