-- ===== src/Shortener/Tests.antt =====
-- Runs of the URL shortener, and its theorems at one input each.
use system_design.Common.{ℕ, ◌≤◌, ◌≡◌, refl, true, false, [], ◌∷◌, Option, none, some, arith}
use system_design.Common.Bytes.{Bytes, codes, beq}
use system_design.Common.Assoc.{lookup}
use system_design.Shortener.{
  Link, Shortener, Turn, Url, Answers, create_link, created, refused, quota_exceeded, collision,
  redirect, found, status_gone, status_not_found, is_valid_code, get_url, unknown, find_link,
  active, active_link_count, negative_cache_value,
}
use system_design.Shortener.Handler.{post_link, link_stats, shown, forbidden}
use system_design.Shortener.Quota.{create_link-quota}
use system_design.Shortener.Coherent.{IsCoherent}
use system_design.Shortener.Served.{Reach, here, redirected, made, Reach-redirect}

abbrev address : Bytes
address = codes "https://example.com/a"

abbrev parsed : Bytes → Option Url
parsed _ = some (record { scheme = codes "https"; host = codes "example.com" })

abbrev well : Answers
well = record { owner_ok = true; count_ok = true }

-- Each turn gets the same code.
abbrev stuck : ℕ → Turn
stuck _ = record {
  code = some (codes "abc1234");
  insert_ok = true;
  created_at = 100;
  read_ok = true;
}

abbrev made_link : Link
made_link = record {
  code = codes "abc1234";
  long_url = address;
  owner_id = codes "demo";
  expires_at = some 160;
  created_at = 100;
  disabled_at = none;
}

abbrev fresh : Shortener
fresh = record { owners = (codes "demo", 1) ∷ []; links = []; cache = []; clicks = [] }

abbrev stored : Shortener
stored = record { owners = (codes "demo", 1) ∷ []; links = made_link ∷ []; cache = []; clicks = [] }

abbrev create : Shortener → ℕ → Shortener
create s now = (create_link parsed well stuck now (codes "demo") address (some 160) s).1

create_runs :
    create_link parsed well stuck 100 (codes "demo") address (some 160) fresh
    ≡ (created made_link, stored)
unfolding create_link
create_runs = refl

create_refused :
    create_link parsed well stuck 100 (codes "demo") address none stored
    ≡ (refused quota_exceeded, stored)
unfolding create_link
create_refused = refl

-- The quota is free again after the expiry, and all codes are taken.
create_collides :
    create_link parsed well stuck 200 (codes "demo") address none stored
    ≡ (refused collision, stored)
unfolding create_link
create_collides = refl

redirect_late : (redirect true true 160 (codes "abc1234") stored).0 ≡ status_gone
unfolding redirect
redirect_late = refl

redirect_strange : (redirect true true 160 (codes "abc-") stored).0 ≡ status_not_found
unfolding redirect
redirect_strange = refl

-- A code that was asked for too early is not found for thirty seconds.
redirect_early :
    (redirect true true 110
      (codes "abc1234")
      (create (redirect true true 99 (codes "abc1234") fresh).1 100)).0
    ≡ status_not_found
unfolding redirect create_link
redirect_early = refl

known : lookup (codes "demo") fresh.owners ≡ some 1
unfolding lookup beq
known = refl

none_yet : active_link_count (codes "demo") 100 fresh.links ≤ 1
unfolding active_link_count
none_yet = omega arith

create_link-quota_example : active_link_count (codes "demo") 100 (create fresh 100).links ≤ 1
create_link-quota_example =
    create_link-quota parsed well stuck 100 (codes "demo") address (some 160) fresh known none_yet

stored-IsCoherent : IsCoherent stored
unfolding lookup
stored-IsCoherent code value until e = absurd (cc e)

there : find_link (codes "abc1234") stored.links ≡ some made_link
unfolding find_link
there = refl

run : Reach stored (create (redirect true true 110 (codes "abc1234") stored).1 170)
run =
    made parsed well stuck 170 (codes "demo") address (some 160)
      (redirected true true 110 (codes "abc1234") here)

answer :
    (redirect true true 180
      (codes "abc1234")
      (create (redirect true true 110 (codes "abc1234") stored).1 170)).0
    ≡ found address
unfolding redirect create_link
answer = refl

Reach-redirect_example : address ≡ made_link.long_url
Reach-redirect_example =
    Reach-redirect (codes "abc1234") true true 180 stored-IsCoherent there run answer

is_valid : is_valid_code (codes "abc1234") ≡ true
unfolding is_valid_code
is_valid = refl

cold : get_url 110 (codes "abc1234") stored ≡ unknown
unfolding get_url
cold = refl

alive : active 110 made_link ≡ none
unfolding active
alive = refl

real : beq address negative_cache_value ≡ false
unfolding beq
real = refl

post_refused :
    (post_link parsed well stuck 100 (codes "demo") (some (address, none)) stored).0 ≡ 429
unfolding post_link create_link
post_refused = refl

stats_shown :
    link_stats true
      (codes "demo")
      (codes "abc1234")
      (redirect true true 110 (codes "abc1234") stored).1
    ≡ shown made_link 1
unfolding link_stats redirect
stats_shown = refl

stats_forbidden : link_stats true (codes "creator") (codes "abc1234") stored ≡ forbidden
unfolding link_stats
stats_forbidden = refl
