-- ===== src/Typeahead/Redis.antt =====
-- The commands of a Redis server that the typeahead uses on its sorted sets, as an interface: what
-- their documentation says is `IsLawful`. Typeahead/Memory has a server that meets it.
use system_design.Common.{
  ℕ, ◌<◌, ◌≡◌, true, List, Option, none, some, if◌then◌else◌, ◌&&◌, length, All,
}
use system_design.Common.Bytes.{Bytes, beq}
use system_design.Common.Assoc.{contains}
use system_design.Common.Text.{has_prefix}

-- `keep_top k n` is ZREMRANGEBYRANK k 0 -(n + 1), `keys p` are the keys that a whole SCAN for p*
-- gives, and `top k n` is ZREVRANGE k 0 (n - 1) WITHSCORES.
pub record Redis (Score : Type 0) : Type 1 where
  pub State : Type 0
  pub zadd : Bytes → Score → Bytes → State → State
  pub keep_top : Bytes → ℕ → State → State
  pub del : Bytes → State → State
  pub keys : Bytes → State → List Bytes
  pub top : Bytes → ℕ → State → List (Bytes × Score)
  pub zscore : Bytes → Bytes → State → Option Score

pub record IsLawful {Score : Type 0} (R : Redis Score) : Type 0 where
  pub zscore-zadd :
      (k m j n : Bytes) (s : Score) (t : R.State)
      → R.zscore k m (R.zadd j s n t) ≡ (if beq j k && beq n m then some s else R.zscore k m t)
  pub zscore-keep_top :
      (k m j : Bytes) (n : ℕ) (t : R.State) (s : Score)
      → R.zscore k m (R.keep_top j n t) ≡ some s
      → R.zscore k m t ≡ some s
  pub zscore-del :
      (k m j : Bytes) (t : R.State)
      → R.zscore k m (R.del j t) ≡ (if beq j k then none else R.zscore k m t)
  pub contains-keys :
      (p k m : Bytes) (t : R.State) (s : Score)
      → R.zscore k m t ≡ some s
      → has_prefix p k ≡ true
      → contains k (R.keys p t) ≡ true
  pub top-zscore :
      (k : Bytes) (n : ℕ) (t : R.State) → All (λ e. R.zscore k e.0 t ≡ some e.1) (R.top k n t)
  pub top-some :
      (k m : Bytes) (n : ℕ) (t : R.State) (s : Score)
      → R.zscore k m t ≡ some s
      → 0 < n
      → 0 < length (R.top k n t)
