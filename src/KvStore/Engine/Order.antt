-- ===== src/KvStore/Engine/Order.antt =====
-- The order of the tables, and the names of those that a compaction touches.
use system_design.Common.{
  ℕ, ◌+◌, ◌^◌, ◌<◌, ◌≢◌, ◌∙◌, sym, List, [], ◌∷◌, ◌==◌, arith, All, Bool-cases, inl, inr,
}
use system_design.KvStore.Names.Distinct.{sst_path_ne}
use system_design.KvStore.Sst.{SstMeta}
use system_design.KvStore.Engine.{Engine, level0, above0}
use system_design.KvStore.Engine.Flush.{IsNamed, Avoids}
use system_design.KvStore.Engine.Tables.{IsNewestFirst, IsLevelled, TableFits}

-- The order of the tables, and the sizes in those of level 0.
pub record IsOrdered (e : Engine) : Type 0 where
  pub newest_first : IsNewestFirst e.sstables
  pub levelled : IsLevelled e.sstables
  pub tables_fit : All (TableFits e.files) (level0 e.sstables)

module _ {κ} (P : SstMeta → Type κ) where
  pub All-level0 : (ss : List SstMeta) → All P ss → All P (level0 ss)
  unfolding level0
  All-level0 [] h = tt
  All-level0 (s ∷ ss) h = elim (Bool-cases (s.level == 0)) [
    | inl p ↦ rw p (h.0, All-level0 ss h.1)
    | inr p ↦ rw p (All-level0 ss h.1)
  ]

  pub All-above0 : (ss : List SstMeta) → All P ss → All P (above0 ss)
  unfolding above0
  All-above0 [] h = tt
  All-above0 (s ∷ ss) h = elim (Bool-cases (s.level == 0)) [
    | inl p ↦ rw p (All-above0 ss h.1)
    | inr p ↦ rw p (h.0, All-above0 ss h.1)
  ]

-- Two tables with different numbers stand under different names.
Avoids-older :
    (seq : ℕ) (s t : SstMeta)
    → seq + 1 < 2 ^ 64
    → IsNamed seq s
    → IsNamed seq t
    → t.seq_num < s.seq_num
    → s.path ≢ t.path
Avoids-older seq s t room ns nt older e =
    sst_path_ne s.seq_num t.seq_num s.level t.level (omega arith) (omega arith) (omega arith)
      (sym ns.0 ∙ e ∙ nt.0)

All-avoid_older :
    (seq : ℕ) (s : SstMeta) (ss : List SstMeta)
    → seq + 1 < 2 ^ 64
    → IsNamed seq s
    → All (IsNamed seq) ss
    → All (λ t. t.seq_num < s.seq_num) ss
    → All (Avoids s.path) ss
All-avoid_older seq s [] room ns h older = tt
All-avoid_older seq s (t ∷ ss) room ns h older =
    (Avoids-older seq s t room ns h.0 older.0, All-avoid_older seq s ss room ns h.1 older.1)

All-avoid_newer :
    (seq : ℕ) (s : SstMeta) (ss : List SstMeta)
    → seq + 1 < 2 ^ 64
    → IsNamed seq s
    → All (IsNamed seq) ss
    → All (λ t. t.seq_num < s.seq_num) ss
    → All (λ t. t.path ≢ s.path) ss
All-avoid_newer seq s [] room ns h older = tt
All-avoid_newer seq s (t ∷ ss) room ns h older = (
  (λ e. Avoids-older seq s t room ns h.0 older.0 (sym e)),
  All-avoid_newer seq s ss room ns h.1 older.1,
)

pub All-cons2 {κ μ} :
    {A : Type κ} {B : Type κ} (P : A → B → Type μ) (y : B) (ys : List B) (xs : List A)
    → All (λ x. P x y) xs
    → All (λ x. All (P x) ys) xs
    → All (λ x. All (P x) (y ∷ ys)) xs
All-cons2 P y ys [] h k = tt
All-cons2 P y ys (x ∷ xs) h k = ((h.0, k.0), All-cons2 P y ys xs h.1 k.1)

-- The tables that a compaction removes and those that it leaves have different names.
pub level0-avoid-above0 :
    (seq : ℕ) (ss : List SstMeta)
    → seq + 1 < 2 ^ 64
    → All (IsNamed seq) ss
    → IsNewestFirst ss
    → All (λ g. All (Avoids g.path) (above0 ss)) (level0 ss)
unfolding level0 above0
level0-avoid-above0 seq [] room named newest = tt
level0-avoid-above0 seq (s ∷ ss) room named newest = elim (Bool-cases (s.level == 0)) [
  | inl p ↦ rw p (
    All-above0 (Avoids s.path) ss (All-avoid_older seq s ss room named.0 named.1 newest.0),
    level0-avoid-above0 seq ss room named.1 newest.1,
  )
  | inr p ↦ rw p (
      All-cons2 (λ (g : SstMeta) (t : SstMeta). Avoids g.path t) s (above0 ss) (level0 ss)
        (All-level0 (λ t. t.path ≢ s.path) ss
          (All-avoid_newer seq s ss room named.0 named.1 newest.0))
        (level0-avoid-above0 seq ss room named.1 newest.1))
]
