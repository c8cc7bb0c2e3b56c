-- ===== src/LocalCache/Aof/Recent.antt =====
-- Which record of the file decides what a replay gives for a key.
use system_design.Common.{
  ℕ, ◌≡◌, refl, ◌∙◌, [], ◌∷◌, Option, none, some, List, Bool-cases, Option-cases, inl, inr, arith,
  if◌then◌else◌,
}
use system_design.Common.Bytes.{Bytes, beq}
use system_design.Common.Assoc.{lookup, lookup-insert, lookup-remove}
use system_design.LocalCache.Aof.{
  Record, op_set, op_delete, op_flush, SetEntry, Lines, is_valid, apply_record, scan,
}

-- What a line says of a key: nothing, that it has no value, or that it has one.
unfoldable pub says : ℕ → Bytes → Option Record → Option (Option SetEntry)
says now k none = none
says now k (some (op_set key value expires_at)) =
    if beq key k
    then if is_valid now expires_at
      then some (some (record { key = key; value = value; expires_at = expires_at }))
      else none
    else none
says now k (some (op_delete key)) = if beq key k then some none else none
says now k (some op_flush) = some none

-- The last line that says something of the key; a set that has expired says nothing.
unfoldable pub last_said : ℕ → Bytes → Lines → Option (Option SetEntry)
unfolding says
last_said now k [] = none
last_said now k (line ∷ f) = elim (last_said now k f) [
  | some said ↦ some said
  | none ↦ says now k line
]

unfoldable or_else : Option (Option SetEntry) → Option SetEntry → Option SetEntry
or_else none before = before
or_else (some said) before = said

apply_record-says :
    (now : ℕ) (k : Bytes) (line : Option Record) (state : List (Bytes × SetEntry))
    → lookup k (apply_record now line state) ≡ or_else (says now k line) (lookup k state)
unfolding apply_record says or_else lookup
apply_record-says now k none state = refl
apply_record-says now k (some (op_set key value expires_at)) state =
    elim (Bool-cases (is_valid now expires_at)) [
      | inl valid ↦ rw valid (
          lookup-insert key k (record { key = key; value = value; expires_at = expires_at }) state
          ∙ ground arith)
      | inr over ↦ rw over (ground arith)
    ]
apply_record-says now k (some (op_delete key)) state = lookup-remove key k state ∙ ground arith
apply_record-says now k (some op_flush) state = refl

scan-last_said :
    (now : ℕ) (k : Bytes) (f : Lines) (state : List (Bytes × SetEntry))
    → lookup k (scan now f state) ≡ or_else (last_said now k f) (lookup k state)
unfolding scan last_said or_else
scan-last_said now k [] state = refl
scan-last_said now k (line ∷ f) state =
    scan-last_said now k f (apply_record now line state) ∙ elim (Option-cases (last_said now k f)) [
      | inl e ↦ rw (e, last_said, or_else) (apply_record-says now k line state)
      | inr (said, e) ↦ rw (e, last_said, or_else) refl
    ]

-- A replay gives for a key what the last line of the file that says something of it says: its value
-- and expiry if that line is a set, nothing if it is a deletion, a flush, or if there is none. A
-- malformed line and a set that has expired by then say nothing, so that an earlier set of the key
-- counts again.
pub lookup-scan :
    (now : ℕ) (k : Bytes) (f : Lines)
    → lookup k (scan now f []) ≡ elim (last_said now k f) [ none ↦ none | some said ↦ said ]
unfolding or_else lookup
lookup-scan now k f =
    scan-last_said now k f []
    ∙ elim (Option-cases (last_said now k f)) [ inl e ↦ rw e refl | inr (said, e) ↦ rw e refl ]
