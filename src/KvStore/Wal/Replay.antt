-- ===== src/KvStore/Wal/Replay.antt =====
-- Replay gives back what was appended, and stops at a torn record.
use mathlib.Core.List.{append_assoc}
use system_design.Common.{
  ℕ, zero, suc, ◌+◌, ◌^◌, ◌<◌, ◌≤◌, ◌≡◌, refl, ◌⊎◌, inl, inr, some, List, [], ◌∷◌, ◌++◌, arith,
  length, take, length-append, All,
}
use system_design.Common.Bytes.{Bytes}
use system_design.KvStore.Frame.{Read, eof, short, bad_crc, got, frame_header, read_frame}
use system_design.KvStore.Frame.Laws.{
  length-frame, length-read_frame, read_frame-frame, read_frame-cut, read_frame-short,
}
use system_design.KvStore.Wal.{WalEntry, encode, encode_all, replay_from, replay}

-- The lengths that a record's four-byte fields can hold.
abbrev pub Fits : WalEntry → Type 0
Fits e = (length e.key < 2 ^ 32) × (length e.val < 2 ^ 32)

-- Where the reading stops without a record.
abbrev pub IsStop : Read → Type 0
IsStop eof = Unit {0}
IsStop short = Unit {0}
IsStop bad_crc = Unit {0}
IsStop (got _ _ _ _) = ⊥

Read-cases :
    (r : Read)
    → IsStop r
      ⊎ ((op : ℕ) × (key : Bytes) × (val : Bytes) × (rest : Bytes) × (r ≡ got op key val rest))
Read-cases eof = inl tt
Read-cases short = inl tt
Read-cases bad_crc = inl tt
Read-cases (got op key val rest) = inr (op, key, val, rest, refl)

replay_from-stop :
    (fuel : ℕ) (bs : Bytes) → IsStop (read_frame bs) → replay_from (suc fuel) bs ≡ some []
unfolding replay_from
replay_from-stop fuel bs h = ground arith

-- The loop with enough fuel: the appended entries, then what the rest of the file gives.
replay_from-encode_all :
    (es : List WalEntry) (tail : Bytes) (fuel : ℕ)
    → All Fits es
    → IsStop (read_frame tail)
    → length es < fuel
    → replay_from fuel (encode_all es ++ tail) ≡ some es
unfolding replay_from encode_all encode
replay_from-encode_all es tail zero fits stop h = elim h [ ]
replay_from-encode_all [] tail (suc fuel) fits stop h = replay_from-stop fuel tail stop
replay_from-encode_all (e ∷ es) tail (suc fuel) fits stop h = simp append_assoc (
    rw (read_frame-frame e.op e.key e.val fits.0.0 fits.0.1 (encode_all es ++ tail), replay_from)
      (rw (replay_from-encode_all es tail fuel fits.1 stop (omega arith)) refl))

-- More fuel than bytes is enough, whatever the bytes are.
replay_from-ne-none :
    (fuel : ℕ) (bs : Bytes)
    → length bs < fuel
    → (es : List WalEntry) × (replay_from fuel bs ≡ some es)
unfolding replay_from
replay_from-ne-none zero bs h = elim h [ ]
replay_from-ne-none (suc fuel) bs h = elim (Read-cases (read_frame bs)) [
  | inl stop ↦ ([], replay_from-stop fuel bs stop)
  | inr (op, key, val, rest, e) ↦
      let shorter = length-read_frame bs e in
      let (es, ih) = replay_from-ne-none fuel rest (omega arith) in
      (record { op = op; key = key; val = val } ∷ es, rw (e, replay_from) (rw (ih, replay_from)))
]

-- Replay of any file ends and gives a list of entries.
pub replay_total : (bs : Bytes) → (es : List WalEntry) × (replay bs ≡ some es)
unfolding replay
replay_total bs = replay_from-ne-none (suc (length bs)) bs (omega arith)

length-encode_all : (es : List WalEntry) → length es ≤ length (encode_all es)
unfolding encode_all encode
length-encode_all [] = omega arith
length-encode_all (e ∷ es) = omega (
  arith,
  length-encode_all es,
  length-append {0} (encode e) (encode_all es),
  length-frame e.op e.key e.val,
)

replay-stop :
    (es : List WalEntry) (tail : Bytes)
    → All Fits es
    → IsStop (read_frame tail)
    → replay (encode_all es ++ tail) ≡ some es
unfolding replay
replay-stop es tail fits stop =
    replay_from-encode_all es tail (suc (length (encode_all es ++ tail))) fits stop
      (omega (arith, length-encode_all es, length-append {0} (encode_all es) tail))

-- Replay of a log that holds some records, followed by the first bytes of one more record (fewer
-- than all of them, perhaps none), gives exactly those records. Keys and values are shorter than
-- 2 ^ 32 bytes.
pub replay-torn_tail :
    (es : List WalEntry) (last : WalEntry) (n : ℕ)
    → All Fits es
    → Fits last
    → n < length (encode last)
    → replay (encode_all es ++ take n (encode last)) ≡ some es
unfolding encode
replay-torn_tail es last n fits last_fits h =
    replay-stop es _ fits
      (elim (read_frame-cut last.op last.key last.val last_fits.0 last_fits.1 n h) [
        | inl e ↦ rw e tt
        | inr e ↦ rw e tt
      ])

-- A record is torn: its header is in the log and its body is not. Whatever is appended behind it,
-- as long as the bytes do not make up for the missing body, is not given back by a replay.
pub replay-lost_behind_torn :
    (es : List WalEntry) (torn : WalEntry) (body : Bytes) (later : List WalEntry)
    → All Fits es
    → Fits torn
    → length body + length (encode_all later) < length torn.key + length torn.val + 4
    → replay
        (encode_all es ++ (frame_header torn.op torn.key torn.val ++ (body ++ encode_all later)))
      ≡ some es
replay-lost_behind_torn es torn body later fits torn_fits h = replay-stop es _ fits (
    rw
      (read_frame-short torn.op torn.key torn.val torn_fits.0 torn_fits.1 (body ++ encode_all later)
        (omega (arith, length-append {0} body (encode_all later))))
      tt)
