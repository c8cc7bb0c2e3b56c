-- ===== src/KvStore/Engine/Flush.antt =====
-- A flush changes where the entries are, and nothing that a client can read.
use system_design.Common.{
  ℕ, ◌+◌, ◌^◌, ◌<◌, ◌≤◌, ◌≡◌, ◌≢◌, refl, ◌∙◌, ap, List, [], ◌∷◌, Option, none, some, arith, take,
  All,
}
use system_design.Common.Bytes.{Bytes}
use system_design.Common.Words.{u64}
use system_design.Common.Assoc.{insert}
use system_design.KvStore.Memtable.{Entry, Memtable, mem_get, mem_get-new, sorted_keys}
use system_design.KvStore.Wal.{Rewrite}
use system_design.KvStore.Names.{sst_path}
use system_design.KvStore.Names.Distinct.{sst_path_ne}
use system_design.KvStore.Sst.{
  SstMeta, Files, Written, whole, not_created, cut, table_of, encode_entries,
  write_sst_from_memtable,
}
use system_design.KvStore.Sst.Lookup.{AllFit, lookup_sst-insert_ne, lookup_sst-memtable}
use system_design.KvStore.Sst.Merging.{over}
use system_design.KvStore.Engine.{Engine, find_in, view, flush_memtable, visible, shown}

-- The tables stand under their own names and none is newer than the engine's counter.
abbrev pub IsNamed : ℕ → SstMeta → Type 0
IsNamed seq s = (s.path ≡ sst_path s.seq_num s.level) × (s.seq_num ≤ seq)

pub record IsSound (e : Engine) : Type 0 where
  pub mem_fits : AllFit e.mem.table
  pub named : All (IsNamed e.seq_num) e.sstables
  pub room : e.seq_num + 1 < 2 ^ 64

abbrev pub Avoids : Bytes → SstMeta → Type 0
Avoids p s = p ≢ s.path

new_path :
    (seq : ℕ) (level : ℕ) (s : SstMeta)
    → IsNamed seq s
    → seq + 1 < 2 ^ 64
    → Avoids (sst_path (u64 (seq + 1)) level) s
new_path seq level s named room e =
    sst_path_ne (u64 (seq + 1)) s.seq_num level s.level (omega arith) (omega arith)
      (λ same. absurd (omega arith)) (e ∙ named.0)

pub All-avoid :
    (seq level : ℕ) (ss : List SstMeta)
    → All (IsNamed seq) ss
    → seq + 1 < 2 ^ 64
    → All (Avoids (sst_path (u64 (seq + 1)) level)) ss
All-avoid seq level [] h room = tt
All-avoid seq level (s ∷ ss) h room =
    (new_path seq level s h.0 room, All-avoid seq level ss h.1 room)

-- Writing a file under a new name changes no lookup in the tables that are there.
pub find_in-insert :
    (key p bs : Bytes) (ss : List SstMeta) (files : Files)
    → All (Avoids p) ss
    → find_in key ss (insert p bs files) ≡ find_in key ss files
unfolding find_in
find_in-insert key p bs [] files h = refl
find_in-insert key p bs (s ∷ ss) files h =
    ground
      (arith, lookup_sst-insert_ne s.path key p bs files h.0, find_in-insert key p bs ss files h.1)

-- The bytes that a flush writes.
abbrev image : Memtable → Bytes
image m = encode_entries (table_of (λ k. mem_get k m) (sorted_keys m))

-- The flushed table comes first, and answers as the memtable did.
find_in-flushed :
    (key : Bytes) (m : Memtable) (s : SstMeta) (ss : List SstMeta) (files : Files)
    → AllFit m.table
    → All (Avoids s.path) ss
    → find_in key (s ∷ ss) (insert s.path (image m) files)
      ≡ over (mem_get key m) (find_in key ss files)
unfolding find_in
find_in-flushed key m s ss files fits avoid = ground (
  arith,
  lookup_sst-memtable s.path key m files fits,
  find_in-insert key s.path (image m) ss files avoid,
)

shown-over :
    (o below : Option Entry)
    → shown (over o below) ≡ elim o [ none ↦ shown below | some e ↦ visible e ]
shown-over none below = refl
shown-over (some e) below = refl

-- A flush changes no Get, whatever happens: the table is written, or cannot be created, or is cut
-- short by an error, and the log is rewritten or not. The keys and values of the memtable are
-- shorter than 2 ^ 32 bytes, the tables stand under their names with numbers up to the engine's,
-- and that is below 2 ^ 64 - 1.
pub view-flush_memtable :
    (o : Written) (r : Rewrite) (e : Engine) (key : Bytes)
    → IsSound e
    → view (flush_memtable o r e).0 key ≡ view e key
unfolding view flush_memtable write_sst_from_memtable
view-flush_memtable whole r e key h =
    let seq = u64 (e.seq_num + 1) in
    let avoid = All-avoid e.seq_num 0 e.sstables h.named h.room in
    rw (mem_get-new key, view)
      (ap shown (find_in-flushed key e.mem _ e.sstables e.files h.mem_fits avoid)
        ∙ shown-over (mem_get key e.mem) (find_in key e.sstables e.files))
view-flush_memtable not_created r e key h = refl
view-flush_memtable (cut n) r e key h =
    ap (λ below. elim (mem_get key e.mem) [ none ↦ shown below | some en ↦ visible en ])
      (find_in-insert key _ (take n (image e.mem)) e.sstables e.files
        (All-avoid e.seq_num 0 e.sstables h.named h.room))
