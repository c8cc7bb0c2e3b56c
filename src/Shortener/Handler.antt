-- ===== src/Shortener/Handler.antt =====
-- The requests of the URL shortener that create a link and that ask for the statistics of one
-- (api/handler.go). Of the statistics, the link and the number of its clicks are kept.
use system_design.Common.{
  ℕ, suc, ◌≡◌, ap, sym, ◌∙◌, Bool, List, [], ◌∷◌, Option, none, some, ◌==◌, length, if◌then◌else◌,
  Bool-cases, inl, inr,
}
use system_design.Common.Bytes.{Bytes, beq, beq_iff}
use system_design.Shortener.{
  Link, Shortener, Turn, Url, Answers, Created, created, refused, owner_required, invalid_url,
  quota_exceeded, collision, find_link, create_link,
}

-- The status of the answer to the creation.
unfoldable pub create_status : Created → ℕ
create_status (created l) = 201
create_status (refused owner_required) = 400
create_status (refused invalid_url) = 400
create_status (refused quota_exceeded) = 429
create_status (refused collision) = 503
create_status (refused _) = 500

-- `none` for a body that is not read.
unfoldable pub post_link :
    (Bytes → Option Url)
    → Answers
    → (ℕ → Turn)
    → ℕ
    → Bytes
    → Option (Bytes × Option ℕ)
    → Shortener
    → ℕ × Shortener
unfolding create_status create_link
post_link parse a turns now owner none s = (400, s)
post_link parse a turns now owner (some (url, expires_at)) s =
    let (made, after) = create_link parse a turns now owner url expires_at s in
    (create_status made, after)

unfoldable pub total_clicks : Bytes → List Bytes → ℕ
unfolding beq
total_clicks code [] = 0
total_clicks code (c ∷ cs) =
    let rest = total_clicks code cs in if beq c code then suc rest else rest

pub data StatsReply : Type 0 where
  shown : Link → ℕ → StatsReply
  bad_request unknown_link failed forbidden : StatsReply

unfoldable pub stats_of : Bytes → Bytes → Option Link → Shortener → StatsReply
unfolding total_clicks beq
stats_of owner code none s = unknown_link
stats_of owner code (some l) s =
    if beq l.owner_id owner then shown l (total_clicks code s.clicks) else forbidden

-- Whether the statements are answered is an argument.
unfoldable pub link_stats : Bool → Bytes → Bytes → Shortener → StatsReply
unfolding stats_of find_link
link_stats ok owner code s =
    if length owner == 0
    then bad_request
    else if ok
    then stats_of owner code (find_link code s.links) s
    else failed

stats_of-shown :
    (owner code : Bytes) (o : Option Link) (s : Shortener) {l : Link} {n : ℕ}
    → stats_of owner code o s ≡ shown l n
    → (o ≡ some l) × (l.owner_id ≡ owner)
unfolding stats_of
stats_of-shown owner code none s e = absurd (cc e)
stats_of-shown owner code (some k) s {l} {n} e = elim (Bool-cases (beq k.owner_id owner)) [
  | inr stranger ↦ absurd (cc (rw (stranger, stats_of) at e))
  | inl mine ↦
      let given : shown k (total_clicks code s.clicks) ≡ shown l n = rw (mine, stats_of) at e in
      let same : k ≡ l = cc given in
      (ap some same, ap (λ j. j.owner_id) (sym same) ∙ (beq_iff k.owner_id owner).0 mine)
]

-- The statistics of a link are shown to its owner only.
pub link_stats-shown :
    (ok : Bool) (owner code : Bytes) (s : Shortener) {l : Link} {n : ℕ}
    → link_stats ok owner code s ≡ shown l n
    → (find_link code s.links ≡ some l) × (l.owner_id ≡ owner)
unfolding link_stats
link_stats-shown ok owner code s {l} {n} e = elim (Bool-cases (length owner == 0)) [
  | inl empty ↦ absurd (cc (rw (empty, link_stats) at e))
  | inr named ↦ elim (Bool-cases ok) [
    | inr down ↦ absurd (cc (rw (named, down, link_stats) at e))
    | inl up ↦
        stats_of-shown owner code (find_link code s.links) s (rw (named, up, link_stats) at e)
  ]
]
