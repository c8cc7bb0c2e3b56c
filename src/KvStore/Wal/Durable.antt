-- ===== src/KvStore/Wal/Durable.antt =====
-- What a log holds after any number of appends, for a replay.
use mathlib.Core.List.{append_assoc, append-nil}
use system_design.Common.{
  ℕ, ◌<◌, ◌≡◌, sym, ◌∙◌, ap, subst, inl, inr, Bool, true, false, List, [], ◌∷◌, ◌++◌, some, arith,
  length, take, All, Bool-cases, if◌then◌else◌,
}
use system_design.KvStore.Frame.Laws.{length-frame}
use system_design.KvStore.Wal.{
  Wal, WalEntry, Outcome, synced, write_failed, sync_failed, append, encode, encode_all, replay,
}
use system_design.KvStore.Wal.Replay.{Fits, replay-torn_tail}

-- What the write of a record meets, if a crash after it cannot leave a whole record that was not
-- acknowledged: all is well, or only some of its bytes reach the file.
abbrev pub IsClean : Outcome → WalEntry → Type 0
IsClean synced w = Unit {0}
IsClean (write_failed n) w = n < length (encode w)
IsClean sync_failed w = ⊥

-- The log holds these records, and perhaps the beginning of another one behind them, after which
-- nothing is written.
pub record IsReplayed (w : Wal) (es : List WalEntry) : Type 0 where
  pub fits : All Fits es
  pub attached : w.detached ≡ false
  pub replays : replay w.file ≡ some es
  pub whole : w.broken ≡ false → w.file ≡ encode_all es

encode_all-append :
    (es : List WalEntry) (w : WalEntry) → encode_all (es ++ w ∷ []) ≡ encode_all es ++ encode w
unfolding encode_all
encode_all-append [] w = append-nil (encode w)
encode_all-append (e ∷ es) w = simp (encode_all-append es w, append_assoc)

All-snoc : (es : List WalEntry) (w : WalEntry) → All Fits es → Fits w → All Fits (es ++ w ∷ [])
All-snoc [] w h f = (f, tt)
All-snoc (e ∷ es) w h f = (h.0, All-snoc es w h.1 f)

length-encode : (w : WalEntry) → 0 < length (encode w)
unfolding encode
length-encode w = omega (arith, length-frame w.op w.key w.val)

pub replay-encode_all : (es : List WalEntry) → All Fits es → replay (encode_all es) ≡ some es
unfolding encode_all
replay-encode_all es fits =
    ap replay (sym (append-nil (encode_all es)))
    ∙ replay-torn_tail es (record { op = 0; key = []; val = [] }) 0 fits (omega arith, omega arith)
        (length-encode (record { op = 0; key = []; val = [] }))

append-broken : (o : Outcome) (e : WalEntry) (w : Wal) → w.broken ≡ true → append o e w ≡ (w, false)
unfolding append
append-broken synced e w h = ground arith
append-broken (write_failed n) e w h = ground arith
append-broken sync_failed e w h = ground arith

append-synced :
    (e : WalEntry) (w : Wal)
    → w.broken ≡ false
    → w.detached ≡ false
    → append synced e w ≡ (record w { file = w.file ++ encode e }, true)
unfolding append
append-synced e w h d = ground arith

append-write_failed :
    (n : ℕ) (e : WalEntry) (w : Wal)
    → w.broken ≡ false
    → w.detached ≡ false
    → append (write_failed n) e w
      ≡ (record w { file = w.file ++ take n (encode e); broken = true }, false)
unfolding append
append-write_failed n e w h d = ground arith

-- The records that the log holds after the writing of one more.
abbrev pub written : List WalEntry → WalEntry → Bool → List WalEntry
written es e acked = if acked then es ++ e ∷ [] else es

pub append-IsReplayed :
    (o : Outcome) (e : WalEntry) (w : Wal) (es : List WalEntry)
    → IsClean o e
    → Fits e
    → IsReplayed w es
    → IsReplayed (append o e w).0 (written es e (append o e w).1)
append-IsReplayed o e w es clean fit h = elim (Bool-cases w.broken) [
  | inl broken ↦ subst P (sym (append-broken o e w broken)) h
  | inr whole ↦ go o whole clean
]
  where
    P : Wal × Bool → Type 0
    P r = IsReplayed r.0 (written es e r.1)

    go : (q : Outcome) → w.broken ≡ false → IsClean q e → P (append q e w)
    go synced whole clean_q =
        let grown : w.file ++ encode e ≡ encode_all (es ++ e ∷ []) =
          ap (λ b. b ++ encode e) (h.whole whole) ∙ sym (encode_all-append es e) in
        subst P (sym (append-synced e w whole h.attached)) (record {
          fits = All-snoc es e h.fits fit;
          attached = h.attached;
          replays = ap replay grown ∙ replay-encode_all (es ++ e ∷ []) (All-snoc es e h.fits fit);
          whole = λ _. grown;
        })
    go (write_failed n) whole clean_q =
        subst P (sym (append-write_failed n e w whole h.attached)) (record {
          fits = h.fits;
          attached = h.attached;
          replays =
              ap (λ b. replay (b ++ take n (encode e))) (h.whole whole)
              ∙ replay-torn_tail es e n h.fits fit clean_q;
          whole = λ broken. cc;
        })
    go sync_failed whole clean_q = absurd clean_q
