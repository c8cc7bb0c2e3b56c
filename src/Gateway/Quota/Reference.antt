-- ===== src/Gateway/Quota/Reference.antt =====
-- The limiter against the list of all requests.
use system_design.Common.{
  ℕ, ◌+◌, ◌-◌, ◌≤◌, ◌<◌, ◌≡◌, refl, sym, ◌∙◌, ap, subst, List, [], ◌∷◌, Option, some, ltb, leb,
  if◌then◌else◌, length, arith, Bool-cases, inl, inr,
}
use system_design.Common.Bytes.{Bytes, beq, beq_iff}
use system_design.Common.Assoc.{lookup, lookup-insert}
use system_design.Gateway.Quota.{minute, Zset, Sets, done, rl_key, after_commands, allow}
use system_design.Gateway.Quota.Kept.{
  count_above, IsKept, IsKept-ext, kept_now, hit, length-kept_now, hit-IsKept,
}

-- Requests with their times, which ascend from the first bound to the second.
abbrev pub Ascends : ℕ → List (Bytes × ℕ) → ℕ → Type 0
Ascends lo [] hi = lo < hi
Ascends lo ((id, t) ∷ rs) hi = (lo < t) × Ascends t rs hi

-- How many requests with this key have a score above the cutoff.
unfoldable pub recent : (ℕ → ℕ) → Bytes → ℕ → List (Bytes × ℕ) → ℕ
recent score id c [] = 0
recent score id c ((i, t) ∷ rs) =
    (if beq i id then if leb (score t) c then 0 else 1 else 0) + recent score id c rs

-- The requests one after the other, each with the limit of its key, all answered.
unfoldable pub serve : (ℕ → ℕ) → (Bytes → ℕ) → List (Bytes × ℕ) → Sets → Sets
unfolding allow
serve score limit [] sets = sets
serve score limit ((id, t) ∷ rs) sets =
    serve score limit rs (allow score done t sets id (limit id)).0

module _ (score : ℕ → ℕ) (mono : (a b : ℕ) → a ≤ b → score a ≤ score b) where
  abbrev AllKept : ℕ → (Bytes → ℕ → ℕ) → Sets → Type 0
  AllKept last hist sets = (id : Bytes) → IsKept score last (hist id) (lookup (rl_key id) sets)

  abbrev with_hit : Bytes → ℕ → (Bytes → ℕ → ℕ) → Bytes → ℕ → ℕ
  with_hit i t hist id c = hist id c + (if beq i id then count_above score c (t ∷ []) else 0)

  beq-rl_key : (i id : Bytes) → beq (rl_key i) (rl_key id) ≡ beq i id
  unfolding beq
  beq-rl_key i id = refl

  allow-AllKept :
      (limit : ℕ) (i : Bytes) (t : ℕ) {last : ℕ} (hist : Bytes → ℕ → ℕ) (sets : Sets)
      → last < t
      → AllKept last hist sets
      → AllKept t (with_hit i t hist) (allow score done t sets i limit).0
  unfolding allow hit kept_now after_commands
  allow-AllKept limit i t {last} hist sets later kept id =
      subst (IsKept score t (with_hit i t hist id))
        (sym (
          lookup-insert (rl_key i) (rl_key id) (hit score t (lookup (rl_key i) sets)) sets
          ∙ ap
              (λ b.
                if b then some (hit score t (lookup (rl_key i) sets)) else lookup (rl_key id) sets)
              (beq-rl_key i id)))
        (elim (Bool-cases (beq i id)) [
          | inr another ↦
              subst (λ b. IsKept score t (with_hit i t hist id) (if b then after else before))
                (sym another)
                (IsKept-ext score t (with_hit i t hist id) (omega arith)
                  (λ c. ground (arith, another)) (kept id))
          | inl this ↦
              subst (λ b. IsKept score t (with_hit i t hist id) (if b then after else before))
                (sym this)
                (IsKept-ext score t (with_hit i t hist id) (omega arith)
                  (λ c.
                    ap (λ j. hist j c + count_above score c (t ∷ [])) ((beq_iff i id).0 this)
                    ∙ ground (arith, this))
                  (hit-IsKept score mono (kept i) t later))
        ])
    where
      after : Option Zset
      after = some (hit score t (lookup (rl_key i) sets))

      before : Option Zset
      before = lookup (rl_key id) sets

  serve-counted :
      (limit : Bytes → ℕ) (rs : List (Bytes × ℕ)) (now : ℕ) {last : ℕ} (hist : Bytes → ℕ → ℕ)
      (sets : Sets) (id : Bytes)
      → AllKept last hist sets
      → Ascends last rs now
      → length (kept_now score now (lookup (rl_key id) (serve score limit rs sets)))
        ≡ hist id (score (now - minute)) + recent score id (score (now - minute)) rs
  unfolding serve recent count_above
  serve-counted limit [] now hist sets id kept up =
      omega (arith, length-kept_now score mono (kept id) now up)
  serve-counted limit ((i, t) ∷ rs) now hist sets id kept up =
      let later =
        serve-counted limit rs now (with_hit i t hist) (allow score done t sets i (limit i)).0 id
          (allow-AllKept (limit i) i t hist sets up.0 kept) up.1 in
      later ∙ ground arith

  -- Allow lets a request through exactly if fewer requests with its key than the limit, whether they
  -- were let through or not, came in the minute before it, where the scores are compared. The times
  -- ascend, the server has answered every request, and a later time has no smaller score.
  pub allow-serve :
      (limit : Bytes → ℕ) (rs : List (Bytes × ℕ)) (now : ℕ) (id : Bytes)
      → Ascends 0 rs now
      → (allow score done now (serve score limit rs []) id (limit id)).1
        ≡ some (ltb (recent score id (score (now - minute)) rs) (limit id))
  unfolding allow kept_now lookup count_above
  allow-serve limit rs now id up =
      ap (λ n. some (ltb n (limit id)))
        (serve-counted limit rs now {last = 0} (λ i c. 0) [] id
            (λ i. record { counted = λ n h. refl; aged = λ z e. absurd (cc e); past = tt }) up
          ∙ omega arith)
