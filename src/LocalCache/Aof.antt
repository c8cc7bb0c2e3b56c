-- ===== src/LocalCache/Aof.antt =====
-- The append-only file of the cache (projects/09-caching-system/store/aof.go). The file is its lines,
-- each the record that encoding/json reads from it, or `none` for no record or an unknown operation. A
-- write that fails writes nothing. The clock is an
-- argument, and whether the operating system answers.
pub mod Recent
mod Tests
use system_design.Common.{
  ℕ, Bool, true, List, [], ◌∷◌, ◌++◌, Option, none, some, ltb, if◌then◌else◌, map,
}
use system_design.Common.Bytes.{Bytes}
use system_design.Common.Assoc.{insert, remove}

-- `expires_at` is `none` for the zero time.
pub data Record : Type 0 where
  op_set : Bytes → Bytes → Option ℕ → Record
  op_delete : Bytes → Record
  op_flush : Record

pub record SetEntry : Type 0 where
  pub key : Bytes
  pub value : Bytes
  pub expires_at : Option ℕ

abbrev pub Lines : Type 0
Lines = List (Option Record)

-- Whether the record was written, and the file.
unfoldable pub append_record : Bool → Record → Lines → Bool × Lines
append_record ok r f = (ok, if ok then f ++ some r ∷ [] else f)

unfoldable pub append_set : Bool → Bytes → Bytes → Option ℕ → Lines → Bool × Lines
unfolding append_record
append_set ok key value expires_at f = append_record ok (op_set key value expires_at) f

unfoldable pub append_delete : Bool → Bytes → Lines → Bool × Lines
unfolding append_record
append_delete ok key f = append_record ok (op_delete key) f

unfoldable pub append_flush : Bool → Lines → Bool × Lines
unfolding append_record
append_flush ok f = append_record ok op_flush f

unfoldable pub is_valid : ℕ → Option ℕ → Bool
is_valid now none = true
is_valid now (some t) = ltb now t

unfoldable pub apply_record : ℕ → Option Record → List (Bytes × SetEntry) → List (Bytes × SetEntry)
unfolding is_valid insert remove
apply_record now none state = state
apply_record now (some (op_set key value expires_at)) state =
    if is_valid now expires_at
    then insert key (record { key = key; value = value; expires_at = expires_at }) state
    else state
apply_record now (some (op_delete key)) state = remove key state
apply_record now (some op_flush) state = []

unfoldable pub scan : ℕ → Lines → List (Bytes × SetEntry) → List (Bytes × SetEntry)
unfolding apply_record
scan now [] state = state
scan now (line ∷ f) state = scan now f (apply_record now line state)

-- The seek and the scanner may fail.
unfoldable pub replay_aof : Bool → Bool → ℕ → Lines → Option (List SetEntry)
unfolding scan
replay_aof seek_ok scan_ok now f =
    if seek_ok then if scan_ok then some (map (λ e. e.1) (scan now f [])) else none else none
