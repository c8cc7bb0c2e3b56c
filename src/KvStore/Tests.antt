-- ===== src/KvStore/Tests.antt =====
-- The store at concrete inputs: a small engine with two tables of level 0, one of which hides a key
-- of the table of level 1.
use Prim.Native.Nat.{ℕ}
use system_design.KvStore.Crc.{sum32}
use system_design.Common.{
  ◌≡◌, refl, true, false, ◌&&◌, List, [], ◌∷◌, ◌++◌, none, some, if◌then◌else◌, arith, take,
}
use system_design.Common.Bytes.{Bytes, codes, beq}
use system_design.Common.Assoc.{insert, lookup}
use system_design.KvStore.Frame.{frame, frame_header, read_frame}
use system_design.KvStore.Memtable.{Entry, Memtable, new_memtable, mem_get, mem_set, byte_size}
use system_design.KvStore.Wal.{
  WalEntry, append, op_set, op_del, empty_wal, encode, encode_all, replay, synced, renamed,
  write_failed,
}
use system_design.KvStore.Wal.Replay.{replay_total, replay-torn_tail}
use system_design.KvStore.Names.{sst_path}
use system_design.KvStore.Sst.{
  SstMeta, Files, Entries, Merge, whole, cut, encode_entries, scan_sst, lookup_sst, merge_paths,
}
use system_design.KvStore.Engine.{
  Engine, Stats, set, delete, find_in, view, level0, above0, flush_memtable, run_compaction,
}
use system_design.KvStore.Engine.View.{view-set}
use system_design.KvStore.Engine.Flush.{IsSound, view-flush_memtable}
use system_design.KvStore.Engine.Order.{IsOrdered}
use system_design.KvStore.Engine.Compaction.{view-run_compaction, view-run_compaction_resurrects}
use system_design.KvStore.Engine.Open.{open_engine}
use system_design.KvStore.Engine.Recovery.{Writes, here, sets, deletes, Writes-open_engine}
use system_design.KvStore.Engine.Concurrent.{
  swapped, written, Config, client_set, flush_truncate, crash, crash-client_set_lost,
}

abbrev set_a : WalEntry
set_a = record { op = op_set; key = codes "a"; val = codes "one" }

abbrev del_b : WalEntry
del_b = record { op = op_del; key = codes "b"; val = [] }

abbrev big : Bytes
big = codes "a value of more than forty bytes: it is not all written"

abbrev value_of : Bytes → Entry
value_of v = record { val = v; tombstone = false }

abbrev gone : Entry
gone = record { val = []; tombstone = true }

replay-torn_tail_example :
    replay (encode_all (set_a ∷ del_b ∷ []) ++ take 11 (encode set_a)) ≡ some (set_a ∷ del_b ∷ [])
unfolding encode frame frame_header
replay-torn_tail_example =
    replay-torn_tail (set_a ∷ del_b ∷ []) set_a 11
      ((omega arith, omega arith), ((omega arith, omega arith), tt)) (omega arith, omega arith)
      (omega arith)

replay_total_example : (es : List WalEntry) × (replay (codes "no log") ≡ some es)
replay_total_example = replay_total (codes "no log")

abbrev small_memtable : Memtable
small_memtable = record {
  table = (codes "a", gone) ∷ (codes "b", value_of (codes "2")) ∷ [];
  size = 3;
}

abbrev newer : Entries
newer = (codes "a", gone) ∷ []

abbrev older : Entries
older = (codes "b", value_of (codes "2")) ∷ []

abbrev oldest : Entries
oldest = (codes "a", value_of (codes "1")) ∷ []

abbrev meta_of : ℕ → ℕ → SstMeta
meta_of seq level = record {
  path = sst_path seq level;
  seq_num = seq;
  level = level;
  min_key = [];
  max_key = [];
  count = 1;
}

abbrev no_stats : Stats
no_stats = record {
  writes = 0;
  reads = 0;
  deletes = 0;
  flushes = 0;
  compactions = 0;
  memtable_size = 0;
  sst_count = 0;
  wal_entries = 0;
}

abbrev small_files : Files
small_files =
    (sst_path 3 0, encode_entries newer)
    ∷ (sst_path 2 0, encode_entries older)
    ∷ (sst_path 1 1, encode_entries oldest)
    ∷ []

abbrev small : Engine
small = record {
  wal = empty_wal;
  mem = new_memtable;
  sstables = meta_of 3 0 ∷ meta_of 2 0 ∷ meta_of 1 1 ∷ [];
  seq_num = 3;
  flushing = false;
  stats = no_stats;
  files = small_files;
}

small-IsSound : IsSound small
small-IsSound = record {
  mem_fits = tt;
  named = ((refl, omega arith), ((refl, omega arith), ((refl, omega arith), tt)));
  room = omega arith;
}

abbrev merged_small : Merge
merged_small = record { merged = older ++ newer; ordered = codes "b" ∷ codes "a" ∷ [] }

small-IsOrdered : IsOrdered small
unfolding level0 above0 scan_sst encode_entries frame read_frame sum32 lookup beq sst_path
small-IsOrdered = record {
  newest_first = ((omega arith, (omega arith, tt)), ((omega arith, tt), (tt, tt)));
  levelled = refl;
  tables_fit = (((omega arith, omega arith), tt), (((omega arith, omega arith), tt), tt));
}

view-run_compaction_example :
    view (run_compaction (cut 5) (λ p. true) small).0 (codes "b") ≡ view small (codes "b")
unfolding find_in level0 above0 lookup_sst scan_sst encode_entries frame read_frame sum32 lookup beq
    sst_path
view-run_compaction_example =
    view-run_compaction (cut 5) (λ p. true) small (codes "b") small-IsSound small-IsOrdered
      (λ t e dead. refl)

view-run_compaction_resurrects_example :
    (view small (codes "a") ≡ none)
    × (view (run_compaction whole (λ p. false) small).0 (codes "a") ≡ some (codes "1"))
unfolding find_in level0 above0 lookup_sst scan_sst encode_entries frame read_frame sum32 lookup beq
    sst_path merge_paths mem_get insert
view-run_compaction_resurrects_example =
    view-run_compaction_resurrects (λ p. false) small (codes "a") (codes "1") merged_small gone
      small-IsSound small-IsOrdered refl (omega arith) refl refl refl refl

view-set_example : view (set (write_failed 3) (codes "c") (codes "3") small).0 (codes "c") ≡ (
    if (set (write_failed 3) (codes "c") (codes "3") small).1 && beq (codes "c") (codes "c")
    then some (codes "3")
    else view small (codes "c"))
view-set_example = view-set (write_failed 3) (codes "c") (codes "3") (codes "c") small

abbrev full : Engine
full = record small { mem = small_memtable }

full-IsSound : IsSound full
full-IsSound = record {
  mem_fits = ((omega arith, omega arith), ((omega arith, omega arith), tt));
  named = small-IsSound.named;
  room = small-IsSound.room;
}

view-flush_memtable_example :
    view (flush_memtable whole renamed full).0 (codes "b") ≡ view full (codes "b")
view-flush_memtable_example = view-flush_memtable whole renamed full (codes "b") full-IsSound

abbrev at_written : Config
at_written = record { engine = small; phase = written (meta_of 3 0) }

crash-client_set_lost_example :
    ((set synced (codes "c") (codes "3") small).1 ≡ true)
    × (crash (flush_truncate renamed (client_set synced (codes "c") (codes "3") at_written))
        ≡ crash (flush_truncate renamed at_written))
crash-client_set_lost_example =
    crash-client_set_lost (codes "c") (codes "3") at_written (meta_of 3 0) refl refl

abbrev hiding : Engine
hiding = record full { sstables = []; files = [] }

abbrev at_swapped : Config
at_swapped = record { engine = small; phase = swapped small_memtable }

abbrev reopened : Engine
reopened = open_engine (encode_all (set_a ∷ [])) []

no_flush : (set synced (codes "b") (codes "two") reopened).2 ≡ false
unfolding set append open_engine byte_size mem_set read_frame encode_all encode frame sum32 lookup
    insert beq
no_flush = refl

-- A Set, then a Delete of which five bytes reach the log.
interrupted :
    Writes reopened
      (delete (write_failed 5) (codes "a") (set synced (codes "b") (codes "two") reopened).0).0
unfolding encode frame frame_header
interrupted =
    deletes (write_failed 5) (codes "a") (omega arith) (omega arith, omega arith)
      (sets synced (codes "b") (codes "two") tt (omega arith, omega arith) no_flush here)

Writes-open_engine_example :
    let u =
      (delete (write_failed 5) (codes "a") (set synced (codes "b") (codes "two") reopened).0).0 in
    view (open_engine u.wal.file u.files) (codes "b") ≡ view u (codes "b")
Writes-open_engine_example =
    Writes-open_engine (set_a ∷ []) [] (codes "b") ((omega arith, omega arith), tt) interrupted
