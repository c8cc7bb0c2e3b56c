-- ===== src/Crawler/Obeys.antt =====
-- That the rules of robots.txt are obeyed.
use system_design.Common.{
  ◌<◌, ◌&&◌, ◌≡◌, refl, sym, subst, ◌∙◌, ap, Bool, true, false, not, ◌||◌, List, [], ◌∷◌, ◌++◌,
  length, ◌==◌, All, arith, Bool-cases, inl, inr, ltb,
}
use system_design.Common.Bytes.{Bytes, beq, beq_iff, beq_refl}
use system_design.Common.Text.{has_prefix}
use system_design.Common.Assoc.{contains, contains-append}
use system_design.Crawler.Robots.{
  Rules, Line, agent, disallow, delay, other, is_for, apply_line, rules_from, is_allowed,
  leading_number,
}

-- A path that begins with a disallowed one is not allowed.
is_allowed-contains :
    (path p : Bytes) (ps : List Bytes)
    → 0 < length p
    → has_prefix p path ≡ true
    → contains p ps ≡ true
    → is_allowed path ps ≡ false
unfolding is_allowed contains
is_allowed-contains path p [] ne h e = absurd (cc e)
is_allowed-contains path p (q ∷ ps) ne h e = elim (Bool-cases (beq q p)) [
  | inl same ↦
      let hit : (not (length q == 0) && has_prefix q path) ≡ true =
        let it : p ≡ q = sym ((beq_iff q p).0 same) in
        subst (λ x. (not (length x == 0) && has_prefix x path) ≡ true) it (ground arith) in
      rw hit refl
  | inr apart ↦
      let rest = is_allowed-contains path p ps ne h (ground arith) in
      elim (Bool-cases (not (length q == 0) && has_prefix q path)) [
        | inl hit ↦ rw hit refl
        | inr miss ↦ rw miss rest
      ]
]

apply_line-keeps :
    (l : Line) (p : Bytes) (r : Rules)
    → contains p r.disallowed ≡ true
    → contains p (apply_line l r).disallowed ≡ true
unfolding apply_line
apply_line-keeps (agent val) p r h = h
apply_line-keeps (disallow path) p r h = elim (Bool-cases (length path == 0)) [
  | inl empty ↦ rw empty h
  | inr full ↦ rw full (contains-append p r.disallowed path ∙ ap (λ b. b || beq path p) h)
]
apply_line-keeps (delay val) p r h = elim (Bool-cases (ltb 0 (leading_number 0 val))) [
  | inl some_delay ↦ rw some_delay h
  | inr none_given ↦ rw none_given h
]
apply_line-keeps other p r h = h

rules_from-keeps :
    (ua : Bytes) (active : Bool) (ls : List Line) (p : Bytes) (r : Rules)
    → contains p r.disallowed ≡ true
    → contains p (rules_from ua active ls r).disallowed ≡ true
unfolding rules_from
rules_from-keeps ua active [] p r h = h
rules_from-keeps ua active (agent val ∷ ls) p r h = rules_from-keeps ua (is_for ua val) ls p r h
rules_from-keeps ua active (other ∷ ls) p r h = rules_from-keeps ua active ls p r h
rules_from-keeps ua true (disallow path ∷ ls) p r h =
    rules_from-keeps ua true ls p _ (apply_line-keeps (disallow path) p r h)
rules_from-keeps ua false (disallow path ∷ ls) p r h = rules_from-keeps ua false ls p r h
rules_from-keeps ua true (delay val ∷ ls) p r h =
    rules_from-keeps ua true ls p _ (apply_line-keeps (delay val) p r h)
rules_from-keeps ua false (delay val ∷ ls) p r h = rules_from-keeps ua false ls p r h

-- A line that is not an agent line.
abbrev pub is_rule : Line → Bool
is_rule (agent val) = false
is_rule _ = true

inactive :
    (ua : Bytes) (ls : List Line) (r : Rules)
    → All (λ l. is_rule l ≡ true) ls
    → rules_from ua false ls r ≡ r
unfolding rules_from
inactive ua [] r h = refl
inactive ua (agent val ∷ ls) r h = absurd (cc (h.0))
inactive ua (disallow q ∷ ls) r h = inactive ua ls r h.1
inactive ua (delay val ∷ ls) r h = inactive ua ls r h.1
inactive ua (other ∷ ls) r h = inactive ua ls r h.1

added :
    (p : Bytes) (r : Rules)
    → 0 < length p
    → contains p (apply_line (disallow p) r).disallowed ≡ true
unfolding apply_line
added p r ne =
    let full : (length p == 0) ≡ false = ground arith in
    rw full (contains-append p r.disallowed p ∙ ground (arith, beq_refl p))

rules_from-active :
    (ua : Bytes) (mid post : List Line) (p : Bytes) (r : Rules)
    → 0 < length p
    → All (λ l. is_rule l ≡ true) mid
    → contains p (rules_from ua true (mid ++ disallow p ∷ post) r).disallowed ≡ true
unfolding rules_from
rules_from-active ua [] post p r ne h =
    rules_from-keeps ua true post p (apply_line (disallow p) r) (added p r ne)
rules_from-active ua (agent val ∷ mid) post p r ne h = absurd (cc (h.0))
rules_from-active ua (disallow q ∷ mid) post p r ne h = rules_from-active ua mid post p _ ne h.1
rules_from-active ua (delay val ∷ mid) post p r ne h = rules_from-active ua mid post p _ ne h.1
rules_from-active ua (other ∷ mid) post p r ne h = rules_from-active ua mid post p r ne h.1

-- A disallowed path is enforced: when some agent line is for us, and a Disallow line with a path
-- follows it with no other agent line in between, no path that begins with it is allowed, whatever
-- lines stand before, between and after.
pub is_allowed-rules_from :
    (ua : Bytes) (active : Bool) (pre mid post : List Line) (val p path : Bytes) (r : Rules)
    → is_for ua val ≡ true
    → All (λ l. is_rule l ≡ true) mid
    → 0 < length p
    → has_prefix p path ≡ true
    → is_allowed path
        (rules_from ua active (pre ++ agent val ∷ mid ++ disallow p ∷ post) r).disallowed
      ≡ false
unfolding rules_from
is_allowed-rules_from ua active [] mid post val p path r ours h ne begins =
    is_allowed-contains path p _ ne begins (
      ap (λ b. contains p (rules_from ua b (mid ++ disallow p ∷ post) r).disallowed) ours
      ∙ rules_from-active ua mid post p r ne h)
is_allowed-rules_from ua active (agent v ∷ pre) mid post val p path r ours h ne begins =
    is_allowed-rules_from ua (is_for ua v) pre mid post val p path r ours h ne begins
is_allowed-rules_from ua active (disallow q ∷ pre) mid post val p path r ours h ne begins =
    is_allowed-rules_from ua active pre mid post val p path _ ours h ne begins
is_allowed-rules_from ua active (delay v ∷ pre) mid post val p path r ours h ne begins =
    is_allowed-rules_from ua active pre mid post val p path _ ours h ne begins
is_allowed-rules_from ua active (other ∷ pre) mid post val p path r ours h ne begins =
    is_allowed-rules_from ua active pre mid post val p path r ours h ne begins

-- An agent line for another crawler right behind one that is for us takes the group away from us:
-- no rule up to the next agent line counts, though a group of several agents is meant for each.
pub rules_from-second_agent :
    (ua : Bytes) (ours theirs : Bytes) (rules : List Line) (r : Rules)
    → is_for ua ours ≡ true
    → is_for ua theirs ≡ false
    → All (λ l. is_rule l ≡ true) rules
    → rules_from ua false (agent ours ∷ agent theirs ∷ rules) r ≡ r
unfolding rules_from
rules_from-second_agent ua ours theirs rules r yes_ours not_ours h =
    ap (λ b. rules_from ua b rules r) not_ours ∙ inactive ua rules r h
