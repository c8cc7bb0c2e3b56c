-- ===== src/KvStore/Engine/Concurrent.antt =====
-- flushMemtable as the goroutine of triggerFlush runs it: four steps, between which clients write
-- and read. The lock is held within a step and not between them.
use system_design.Common.{◌≡◌, refl, ◌∙◌, true, false, [], none, some, arith}
use system_design.Common.Bytes.{Bytes, beq_refl}
use system_design.KvStore.Memtable.{Entry, Memtable, mem_get, mem_get-new}
use system_design.KvStore.Wal.{Outcome, synced, Rewrite, renamed, append, truncate}
use system_design.KvStore.Sst.{SstMeta, Written, whole, not_created, write_sst_from_memtable}
use system_design.KvStore.Engine.{
  Engine, set, find_in, view, visible, swap_memtable, restore_memtable, install_table,
  flush_memtable,
}
use system_design.KvStore.Engine.Open.{open_engine}
use system_design.KvStore.Engine.View.{view-set}

pub data Phase : Type 0 where
  idle : Phase
  swapped : Memtable → Phase
  written : SstMeta → Phase
  truncated : SstMeta → Phase

pub record Config : Type 0 where
  pub engine : Engine
  pub phase : Phase

-- A client's Set runs in any phase.
unfoldable pub client_set : Outcome → Bytes → Bytes → Config → Config
client_set o key val c = record c { engine = (set o key val c.engine).0 }

-- The first critical section.
swap_from : Phase → Config → Config
swap_from idle c = record { engine = swap_memtable c.engine; phase = swapped c.engine.mem }
swap_from _ c = c

unfoldable pub flush_swap : Config → Config
unfolding swap_from
flush_swap c = swap_from c.phase c

-- writeSSTFromMemtable, and the critical section that puts the old memtable back.
write_from : Phase → Written → Config → Config
write_from (swapped old) o c =
    let (files', meta) = write_sst_from_memtable o c.engine.seq_num old c.engine.files in
    elim meta [
      | none ↦ record { engine = restore_memtable old files' c.engine; phase = idle }
      | some s ↦ record { engine = record c.engine { files = files' }; phase = written s }
    ]
write_from _ o c = c

unfoldable pub flush_write : Written → Config → Config
unfolding write_from
flush_write o c = write_from c.phase o c

-- wal.Truncate(nil)
truncate_from : Phase → Rewrite → Config → Config
truncate_from (written s) r c = record {
  engine = record c.engine { wal = (truncate r [] c.engine.wal).0 };
  phase = truncated s;
}
truncate_from _ r c = c

unfoldable pub flush_truncate : Rewrite → Config → Config
unfolding truncate_from
flush_truncate r c = truncate_from c.phase r c

-- The last critical section.
install_from : Phase → Config → Config
install_from (truncated s) c = record { engine = install_table s c.engine; phase = idle }
install_from _ c = c

unfoldable pub flush_install : Config → Config
unfolding install_from
flush_install c = install_from c.phase c

-- What is on the disk after a crash, opened again.
unfoldable pub crash : Config → Engine
crash c = open_engine c.engine.wal.file c.engine.files

-- With no client between them, the four steps from an idle engine are flushMemtable.
pub flush_steps-flush_memtable :
    (o : Written) (r : Rewrite) (e : Engine)
    → flush_install
        (flush_truncate r (flush_write o (flush_swap (record { engine = e; phase = idle }))))
      ≡ record { engine = (flush_memtable o r e).0; phase = idle }
unfolding flush_swap flush_write flush_truncate flush_install flush_memtable write_sst_from_memtable
flush_steps-flush_memtable whole r e = refl
flush_steps-flush_memtable _ r e = refl

-- A Set between the writing of the table and the rewriting of the log is acknowledged, but a crash
-- after the rewriting leaves the disk as if the Set had not been made. The log is neither broken
-- nor detached.
pub crash-client_set_lost :
    (key val : Bytes) (c : Config) (s : SstMeta)
    → c.phase ≡ written s
    → c.engine.wal.broken ≡ false
    → ((set synced key val c.engine).1 ≡ true)
      × (crash (flush_truncate renamed (client_set synced key val c))
          ≡ crash (flush_truncate renamed c))
unfolding crash flush_truncate client_set set append truncate
crash-client_set_lost key val c s at whole_log = (ground arith, ground arith)

-- Between the swap and the last step a key that was only in the memtable is not found, although a
-- Get found its value before.
pub view-flush_swap_hides :
    (key v : Bytes) (c : Config) (en : Entry)
    → c.phase ≡ idle
    → mem_get key c.engine.mem ≡ some en
    → visible en ≡ some v
    → find_in key c.engine.sstables c.engine.files ≡ none
    → (view c.engine key ≡ some v) × (view (flush_swap c).engine key ≡ none)
unfolding view flush_swap swap_memtable
view-flush_swap_hides key v c en at here shows below =
    (ground arith, ground (arith, mem_get-new key))

-- A Set while the table is being written is acknowledged and read, and when the writing fails the
-- old memtable comes back in its place: the Get of any key is the one of the old memtable.
pub view-flush_write_forgets :
    (key val : Bytes) (c : Config) (old : Memtable) (j : Bytes)
    → c.phase ≡ swapped old
    → c.engine.wal.broken ≡ false
    → (view (client_set synced key val c).engine key ≡ some val)
      × (view (flush_write not_created (client_set synced key val c)).engine j
          ≡ view (flush_write not_created c).engine j)
unfolding client_set flush_write set append restore_memtable write_sst_from_memtable
view-flush_write_forgets key val c old j at whole_log =
    let acked : (set synced key val c.engine).1 ≡ true = ground arith in
    (
      view-set synced key val key c.engine ∙ ground (arith, beq_refl key),
      unfold view in ground arith,
    )
