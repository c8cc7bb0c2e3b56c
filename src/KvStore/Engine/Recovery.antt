-- ===== src/KvStore/Engine/Recovery.antt =====
-- What a restart after a crash gives back of the writes since the engine was opened.
use system_design.Common.{
  ◌≡◌, refl, sym, ◌∙◌, ap, subst, Bool, true, false, List, [], ◌∷◌, ◌++◌, some, arith, All,
  if◌then◌else◌,
}
use system_design.Common.Bytes.{Bytes}
use system_design.KvStore.Memtable.{Memtable, new_memtable}
use system_design.KvStore.Wal.{WalEntry, op_set, op_del, Outcome, append, encode_all, replay}
use system_design.KvStore.Wal.Replay.{Fits}
use system_design.KvStore.Wal.Durable.{
  IsClean, IsReplayed, written, append-IsReplayed, replay-encode_all,
}
use system_design.KvStore.Sst.{Files}
use system_design.KvStore.Engine.{Engine, set, delete, view}
use system_design.KvStore.Engine.Open.{
  open_engine, recover_sstables, replay_wal, replayed, apply_entry, apply_entries,
}

abbrev set_entry : Bytes → Bytes → WalEntry
set_entry key val = record { op = op_set; key = key; val = val }

abbrev del_entry : Bytes → WalEntry
del_entry key = record { op = op_del; key = key; val = [] }

apply_entries-append :
    (es : List WalEntry) (w : WalEntry) (m : Memtable)
    → apply_entries (es ++ w ∷ []) m ≡ apply_entry w (apply_entries es m)
unfolding apply_entries
apply_entries-append [] w m = refl
apply_entries-append (e ∷ es) w m = apply_entries-append es w (apply_entry e m)

-- The log's records make the memtable, and the tables are those of the files.
record IsLogged (files : Files) (e : Engine) (es : List WalEntry) : Type 0 where
  log : IsReplayed e.wal es
  mem : e.mem ≡ apply_entries es new_memtable
  tables : e.sstables ≡ (open_engine [] files).sstables
  same : e.files ≡ files

-- An operation that writes one record and changes the memtable by it.
record Logs (o : Outcome) (w : WalEntry) (e u : Engine) : Type 0 where
  wal : u.wal ≡ (append o w e.wal).0
  mem : u.mem ≡ (if (append o w e.wal).1 then apply_entry w e.mem else e.mem)
  tables : u.sstables ≡ e.sstables
  same : u.files ≡ e.files

set-Logs :
    (o : Outcome) (key val : Bytes) (e : Engine) → Logs o (set_entry key val) e (set o key val e).0
unfolding set apply_entry
set-Logs o key val e = ground arith

delete-Logs : (o : Outcome) (key : Bytes) (e : Engine) → Logs o (del_entry key) e (delete o key e).0
unfolding delete apply_entry
delete-Logs o key e = ground arith

written-mem :
    (acked : Bool) (es : List WalEntry) (w : WalEntry) (m : Memtable)
    → (if acked then apply_entry w (apply_entries es m) else apply_entries es m)
      ≡ apply_entries (written es w acked) m
written-mem true es w m = sym (apply_entries-append es w m)
written-mem false es w m = refl

Logs-IsLogged :
    (files : Files) (o : Outcome) (w : WalEntry) (e u : Engine) (es : List WalEntry)
    → IsClean o w
    → Fits w
    → Logs o w e u
    → IsLogged files e es
    → IsLogged files u (written es w (append o w e.wal).1)
Logs-IsLogged files o w e u es clean fit step h = record {
  log =
      subst (λ v. IsReplayed v (written es w (append o w e.wal).1)) (sym step.wal)
        (append-IsReplayed o w e.wal es clean fit h.log);
  mem =
      step.mem
      ∙ ap (λ m. if (append o w e.wal).1 then apply_entry w m else m) h.mem
      ∙ written-mem (append o w e.wal).1 es w new_memtable;
  tables = step.tables ∙ h.tables;
  same = step.same ∙ h.same;
}

-- Calls of Set and Delete, with clean outcomes, none of which starts a flush.
pub data Writes (s : Engine) : Engine → Type 0 where
  here : Writes s s
  sets :
      {u : Engine} (o : Outcome) (key val : Bytes)
      → IsClean o (set_entry key val)
      → Fits (set_entry key val)
      → ((set o key val u).2 ≡ false)
      → Writes s u
      → Writes s (set o key val u).0
  deletes :
      {u : Engine} (o : Outcome) (key : Bytes)
      → IsClean o (del_entry key)
      → Fits (del_entry key)
      → Writes s u
      → Writes s (delete o key u).0

Writes-IsLogged :
    (files : Files) {s u : Engine} {es : List WalEntry}
    → IsLogged files s es
    → Writes s u
    → (fs : List WalEntry) × IsLogged files u fs
Writes-IsLogged files {es} h here = (es, h)
Writes-IsLogged files h (sets {u} o key val clean fit calm before) =
    let (fs, k) = Writes-IsLogged files h before in
    (_, Logs-IsLogged files o (set_entry key val) u _ fs clean fit (set-Logs o key val u) k)
Writes-IsLogged files h (deletes {u} o key clean fit before) =
    let (fs, k) = Writes-IsLogged files h before in
    (_, Logs-IsLogged files o (del_entry key) u _ fs clean fit (delete-Logs o key u) k)

replayed-some : (log : Bytes) {es : List WalEntry} → replay log ≡ some es → replayed log ≡ es
unfolding replayed
replayed-some log e = rw (e, replayed) refl

open_engine-mem :
    (log : Bytes) (files : Files) {es : List WalEntry}
    → replay log ≡ some es
    → (open_engine log files).mem ≡ apply_entries es new_memtable
unfolding open_engine replay_wal recover_sstables
open_engine-mem log files e = ap (λ fs. apply_entries fs new_memtable) (replayed-some log e)

open_engine-tables :
    (log : Bytes) (files : Files)
    → (open_engine log files).sstables ≡ (open_engine [] files).sstables
unfolding open_engine replay_wal recover_sstables
open_engine-tables log files = refl

open_engine-files : (log : Bytes) (files : Files) → (open_engine log files).files ≡ files
unfolding open_engine replay_wal recover_sstables
open_engine-files log files = refl

open_engine-wal :
    (log : Bytes) (files : Files)
    → (open_engine log files).wal ≡ record { file = log; broken = false; detached = false }
unfolding open_engine replay_wal recover_sstables
open_engine-wal log files = refl

view-same :
    (e u : Engine) (key : Bytes)
    → e.mem ≡ u.mem
    → e.sstables ≡ u.sstables
    → e.files ≡ u.files
    → view e key ≡ view u key
unfolding view
view-same e u key m t f = ground arith

-- An engine is opened on the log of some records and on any files, and then Set and Delete are
-- called any number of times, where no Set starts a flush. Each write of a record is complete and
-- synced, or stops before the end of the record: an fsync that fails behind a complete record is
-- left out. Keys and values are shorter than 2 ^ 32 bytes. If the engine crashes then, and is opened
-- on what is on the disk, every Get gives what it gave before the crash.
pub Writes-open_engine :
    (es : List WalEntry) (files : Files) {u : Engine} (key : Bytes)
    → All Fits es
    → Writes (open_engine (encode_all es) files) u
    → view (open_engine u.wal.file u.files) key ≡ view u key
Writes-open_engine es files {u} key fits run =
    let first : IsReplayed (open_engine (encode_all es) files).wal es =
      subst (λ w. IsReplayed w es) (sym (open_engine-wal (encode_all es) files))
        (record {
          fits = fits;
          attached = refl;
          replays = replay-encode_all es fits;
          whole = λ _. refl;
        }) in
    let start : IsLogged files (open_engine (encode_all es) files) es = record {
      log = first;
      mem = open_engine-mem (encode_all es) files (replay-encode_all es fits);
      tables = open_engine-tables (encode_all es) files;
      same = open_engine-files (encode_all es) files;
    } in
    let (fs, h) = Writes-IsLogged files start run in
    view-same (open_engine u.wal.file u.files) u key
      (open_engine-mem u.wal.file u.files h.log.replays ∙ sym h.mem)
      (open_engine-tables u.wal.file u.files
        ∙ ap (λ f. (open_engine [] f).sstables) h.same
        ∙ sym h.tables)
      (open_engine-files u.wal.file u.files)
