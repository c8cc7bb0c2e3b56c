-- ===== src/KvStore/Engine/Open.antt =====
-- Open in engine.go: what a restart makes of the files and the log.
use system_design.Common.{
  ℕ, false, ◌&&◌, List, [], ◌∷◌, ◌++◌, none, some, ltb, ◌==◌, if◌then◌else◌, length, drop,
}
use system_design.Common.Bytes.{Bytes, codes}
use system_design.Common.Assoc.{keys}
use system_design.Common.Sort.{sort_strings}
use system_design.KvStore.Memtable.{Memtable, new_memtable, mem_set, mem_del}
use system_design.KvStore.Wal.{WalEntry, op_set, op_del, replay}
use system_design.Common.Text.{has_prefix, has_suffix}
use system_design.KvStore.Sst.{SstMeta, Files, parse_sst_meta}
use system_design.KvStore.Engine.{Stats, Engine}

-- filepath.Glob("sst-*.sst"): the names in the directory that match, sorted.
glob_names : List Bytes → List Bytes
glob_names [] = []
glob_names (n ∷ ns) =
    let more = glob_names ns in
    if has_prefix (codes "sst-") n && has_suffix (codes ".sst") (drop 4 n) then n ∷ more else more

-- The tables that parse, in the order of the names; the others are skipped.
parse_all : List Bytes → Files → List SstMeta
parse_all [] files = []
parse_all (p ∷ ps) files =
    let more = parse_all ps files in
    elim (parse_sst_meta p files) [ none ↦ more | some meta ↦ meta ∷ more ]

max_seq : ℕ → List SstMeta → ℕ
max_seq n [] = n
max_seq n (s ∷ ss) = max_seq (if ltb n s.seq_num then s.seq_num else n) ss

-- sort.Slice by SeqNum, the greatest first.
insert_newest : SstMeta → List SstMeta → List SstMeta
insert_newest s [] = s ∷ []
insert_newest s (t ∷ ts) =
    let more = insert_newest s ts in if ltb s.seq_num t.seq_num then t ∷ more else s ∷ t ∷ ts

sort_newest : List SstMeta → List SstMeta
unfolding insert_newest
sort_newest [] = []
sort_newest (s ∷ ss) = insert_newest s (sort_newest ss)

unfoldable pub recover_sstables : Engine → Engine
unfolding glob_names parse_all max_seq sort_newest
recover_sstables e =
    let found = parse_all (sort_strings (glob_names (keys e.files))) e.files in
    let tables = sort_newest (e.sstables ++ found) in
    record e {
      sstables = tables;
      seq_num = max_seq e.seq_num found;
      stats = record e.stats { sst_count = length tables };
    }

-- The callback of replayWAL.
unfoldable pub apply_entry : WalEntry → Memtable → Memtable
apply_entry w m =
    if w.op == op_set then mem_set w.key w.val m else if w.op == op_del then mem_del w.key m else m

unfoldable pub apply_entries : List WalEntry → Memtable → Memtable
unfolding apply_entry
apply_entries [] m = m
apply_entries (w ∷ ws) m = apply_entries ws (apply_entry w m)

-- The entries of a log; a replay always ends (KvStore/Wal/Replay).
unfoldable pub replayed : Bytes → List WalEntry
unfolding replay
replayed bs = elim (replay bs) [ none ↦ [] | some es ↦ es ]

unfoldable pub replay_wal : Engine → Engine
unfolding apply_entries replayed
replay_wal e =
    let es = replayed e.wal.file in
    record e { mem = apply_entries es e.mem; stats = record e.stats { wal_entries = length es } }

abbrev zero_stats : Stats
zero_stats = record {
  writes = 0;
  reads = 0;
  deletes = 0;
  flushes = 0;
  compactions = 0;
  memtable_size = 0;
  sst_count = 0;
  wal_entries = 0;
}

-- Open on a directory with these tables and this log.
unfoldable pub open_engine : Bytes → Files → Engine
unfolding recover_sstables replay_wal
open_engine log files = replay_wal (
    recover_sstables (record {
      wal = record { file = log; broken = false; detached = false };
      mem = new_memtable;
      sstables = [];
      seq_num = 0;
      flushing = false;
      stats = zero_stats;
      files = files;
    }))
