-- ===== src/KvStore/Wal.antt =====
-- wal.go. The bytes of the log file are explicit, and so are the ways in which the operating
-- system can fail: they are arguments.
pub mod Replay
pub mod Durable
use system_design.Common.{
  ℕ, zero, suc, Bool, true, false, List, [], ◌∷◌, ◌++◌, Option, none, some, if◌then◌else◌, length,
  take,
}
use system_design.Common.Bytes.{Bytes}
use system_design.KvStore.Frame.{Read, eof, short, bad_crc, got, frame, read_frame}

-- walOp is a byte; opSet is 1 and opDel is 2.
abbrev pub op_set : ℕ
op_set = 1

abbrev pub op_del : ℕ
op_del = 2

pub record WalEntry : Type 0 where
  pub op : ℕ
  pub key : Bytes
  pub val : Bytes

-- `file` is what stands under the log's path. After a failed write bufio.Writer keeps its error
-- (`broken`); after Truncate has renamed its file and could not open it, the handle writes to a
-- file that has no name (`detached`).
pub record Wal : Type 0 where
  pub file : Bytes
  pub broken : Bool
  pub detached : Bool

abbrev pub empty_wal : Wal
empty_wal = record { file = []; broken = false; detached = false }

unfoldable pub encode : WalEntry → Bytes
encode e = frame e.op e.key e.val

-- What one Append meets: all is well, only the first bytes reach the file, or fsync fails.
pub data Outcome : Type 0 where
  synced : Outcome
  write_failed : ℕ → Outcome
  sync_failed : Outcome

grow : Wal → Bytes → Bytes
grow w bs = if w.detached then w.file else w.file ++ bs

-- The new log, and whether Append returned nil.
unfoldable pub append : Outcome → WalEntry → Wal → Wal × Bool
unfolding grow
append synced e w = if w.broken then (w, false) else (record w { file = grow w (encode e) }, true)
append (write_failed n) e w =
    if w.broken
    then (w, false)
    else (record w { file = grow w (take n (encode e)); broken = true }, false)
append sync_failed e w =
    if w.broken then (w, false) else (record w { file = grow w (encode e) }, false)

-- The loop of Replay: the entries given to `fn`, in order. `none` is out of fuel.
unfoldable pub replay_from : ℕ → Bytes → Option (List WalEntry)
replay_from zero bs = none
replay_from (suc fuel) bs = elim (read_frame bs) [
  | eof ↦ some []
  | short ↦ some []
  | bad_crc ↦ some []
  | got op key val rest ↦ elim (replay_from fuel rest) [
    | none ↦ none
    | some es ↦ some (record { op = op; key = key; val = val } ∷ es)
  ]
]

-- Each turn reads 13 bytes at least, so one turn for each byte and one more are enough.
unfoldable pub replay : Bytes → Option (List WalEntry)
unfolding replay_from
replay bs = replay_from (suc (length bs)) bs

unfoldable pub encode_all : List WalEntry → Bytes
encode_all [] = []
encode_all (e ∷ es) = encode e ++ encode_all es

-- What Truncate meets: success, a failure before or at the rename, or at the reopening.
pub data Rewrite : Type 0 where
  renamed : Rewrite
  not_renamed : Rewrite
  not_reopened : Rewrite

unfoldable pub truncate : Rewrite → List WalEntry → Wal → Wal × Bool
unfolding encode_all
truncate renamed es w = (record { file = encode_all es; broken = false; detached = false }, true)
truncate not_renamed es w = (w, false)
truncate not_reopened es w = (record w { file = encode_all es; detached = true }, false)
