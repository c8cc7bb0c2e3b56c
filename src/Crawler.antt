-- ===== src/Crawler.antt =====
-- The web crawler (projects/12-web-crawler): the host check of crawler/ssrf.go and the work on one
-- URL of worker/worker.go. The robots rules of crawler/crawler.go are in Crawler/Robots.
pub mod Text
pub mod Robots
pub mod Links
pub mod Obeys
pub mod Requests
mod Tests
use system_design.Common.{
  ℕ, zero, suc, ◌+◌, ◌-◌, ◌*◌, Bool, true, false, ◌&&◌, ◌||◌, not, List, [], ◌∷◌, ◌++◌, Option,
  none, some, ltb, leb, ◌==◌, if◌then◌else◌, length,
}
use system_design.Common.Bytes.{Bytes, codes}
use system_design.Common.Assoc.{lookup, insert, contains, is_some}
use system_design.Crawler.Text.{has_infix}
use system_design.Crawler.Robots.{Rules, parse_robots_txt, is_allowed}

abbrev pub user_agent : Bytes
user_agent = codes "GoWebCrawler/1.0"

abbrev pub max_links_per_page : ℕ
max_links_per_page = 50

-- Seconds.
abbrev pub recrawl_after : ℕ
recrawl_after = 24 * 3600

abbrev pub default_delay : ℕ
default_delay = 1

-- `error` is the text of the error and whether it wraps ErrSSRF.
pub record FetchResult : Type 0 where
  pub status_code : ℕ
  pub body : Bytes
  pub content_type : Bytes
  pub final_url : Bytes
  pub error : Option (Bytes × Bool)

-- The response to one request: a redirect to a URL, with its host, and what Fetch returns if it is
-- not followed, or what Fetch returns.
pub data Response : Type 0 where
  moved : Bytes → Bytes → FetchResult → Response
  final : FetchResult → Response

-- What the packages net, net/url, crypto/sha256 and golang.org/x/net/html, and the servers, answer:
-- the addresses of a host and which of them are private, the path and the host of a URL, its hash,
-- the normalised links of a page, the response to a request, and the error of the client where
-- CheckRedirect refuses a host.
pub record Net : Type 0 where
  pub lookup_ip : Bytes → Option (List Bytes)
  pub private_ip : Bytes → Bool
  pub parse : Bytes → Option (Bytes × Bytes)
  pub hash : Bytes → Bytes
  pub extract_links : Bytes → Bytes → List Bytes
  pub respond : Bytes → Response
  pub blocked_error : Bytes → Bytes × Bool

pub data Outcome : Type 0 where
  done undone skipped : Outcome

pub record Entry : Type 0 where
  pub id : ℕ
  pub url : Bytes
  pub host : Bytes

pub record PageFetch : Type 0 where
  pub url : Bytes
  pub status : ℕ
  pub body_size : ℕ
  pub category : Bytes

-- A request that Fetch was called for, or one that followed a redirect, with its host.
pub data Sent : Type 0 where
  asked : Bytes → Sent
  redirected : Bytes → Bytes → Sent

-- The seen-set and the robots rules of the cache, the tables of the database, and what was
-- requested from the network, the newest first. `marks` has what MarkURLDone was told: id, outcome, delay.
pub record Crawl : Type 0 where
  pub seen : List Bytes
  pub robots : List (Bytes × Rules)
  pub pages : List PageFetch
  pub marks : List (ℕ × Outcome × ℕ)
  pub frontier : List (Bytes × Bytes)
  pub requested : List Sent
  pub slept : ℕ

unfoldable pub any_private : (Bytes → Bool) → List Bytes → Bool
any_private private [] = false
any_private private (ip ∷ ips) = private ip || any_private private ips

-- IsPublicHost: true for no error.
unfoldable pub is_public_host : Net → Bytes → Bool
unfolding any_private
is_public_host net host = elim (net.lookup_ip host) [
  | none ↦ false
  | some addrs ↦ not (length addrs == 0) && not (any_private net.private_ip addrs)
]

-- CheckRedirectSSRF: stop at the fifth redirect, refuse a host that is not public.
pub data Redirect : Type 0 where
  follow use_last_response blocked : Redirect

unfoldable pub check_redirect_ssrf : Net → Bytes → ℕ → Redirect
unfolding is_public_host
check_redirect_ssrf net host via =
    if leb 5 via then use_last_response else if is_public_host net host then follow else blocked

-- The client on a URL, with how many requests it may still send: a redirect of the fifth one is not
-- followed. What Fetch returns, and the requests that followed a redirect.
unfoldable pub fetch_from : Net → ℕ → Bytes → FetchResult × List Sent
unfolding check_redirect_ssrf
fetch_from net zero url = elim (net.respond url) [ final r ↦ (r, []) | moved to host r ↦ (r, []) ]
fetch_from net (suc n) url = elim (net.respond url) [
  | final r ↦ (r, [])
  | moved to host r ↦
      let (last, others) = fetch_from net n to in
      elim (check_redirect_ssrf net host (4 - n)) [
        | use_last_response ↦ (r, [])
        | follow ↦ (last, others ++ redirected to host ∷ [])
        | blocked ↦ (
          record {
            status_code = 0;
            body = [];
            content_type = [];
            final_url = [];
            error = some (net.blocked_error host);
          },
          [],
        )
      ]
]

-- HTTPFetcher.Fetch, with all its requests.
unfoldable pub fetch : Net → Bytes → FetchResult × List Sent
unfolding fetch_from
fetch net url = let (r, others) = fetch_from net 4 url in (r, others ++ asked url ∷ [])

unfoldable pub classify_err : Bytes → Bool → Bytes
unfolding has_infix
classify_err msg ssrf =
    if ssrf
    then codes "ssrf_blocked"
    else if has_infix (codes "timeout") msg || has_infix (codes "deadline") msg
    then codes "timeout"
    else if has_infix (codes "tls") msg || has_infix (codes "certificate") msg
    then codes "tls_error"
    else if has_infix (codes "connection refused") msg
    then codes "connection_refused"
    else if has_infix (codes "no such host") msg || has_infix (codes "lookup") msg
    then codes "dns_error"
    else if has_infix (codes "redirect") msg
    then codes "redirect_error"
    else codes "dial_error"

unfoldable pub mark : Entry → Outcome → ℕ → Crawl → Crawl
mark e outcome delay s = record s { marks = (e.id, outcome, delay) ∷ s.marks }

-- The rules of a response to the request for robots.txt.
unfoldable pub rules_of : FetchResult → Rules
unfolding parse_robots_txt
rules_of r =
    if not (is_some r.error) && r.status_code == 200
    then parse_robots_txt r.body user_agent
    else record { disallowed = []; crawl_delay = 0 }

abbrev pub robots_url : Bytes → Bytes
robots_url host = codes "https://" ++ host ++ codes "/robots.txt"

-- The rules of a host: from the cache, none for a host that is not public, or requested and kept.
unfoldable pub get_robots : Net → Bytes → Crawl → Rules × Crawl
unfolding is_public_host rules_of lookup insert fetch
get_robots net host s =
    let url = robots_url host in
    let rules = rules_of (fetch net url).0 in
    elim (lookup host s.robots) [
      | some known ↦ (known, s)
      | none ↦
          if is_public_host net host
          then (
            rules,
            record s {
              robots = insert host rules s.robots;
              requested = (fetch net url).1 ++ s.requested;
            },
          )
          else (record { disallowed = []; crawl_delay = 0 }, s)
    ]

-- EnqueueURL: a URL that is there already is left alone.
unfoldable pub enqueue_url : Bytes → Bytes → Crawl → Crawl
unfolding lookup
enqueue_url url host s =
    if is_some (lookup url s.frontier) then s else record s { frontier = (url, host) ∷ s.frontier }

-- The loop over the links of a page, with how many were enqueued before.
unfoldable pub enqueue_links : Net → List Bytes → ℕ → Crawl → Crawl
unfolding is_public_host contains enqueue_url
enqueue_links net [] enqueued s = s
enqueue_links net (link ∷ links) enqueued s =
    let skip = enqueue_links net links enqueued s in
    elim (net.parse link) [
      | none ↦ if leb max_links_per_page enqueued then s else skip
      | some (path, host) ↦
          let take = enqueue_links net links (enqueued + 1) (enqueue_url link host s) in
          if leb max_links_per_page enqueued
          then s
          else if not (is_public_host net host)
          then skip
          else if contains (net.hash link) s.seen
          then skip
          else take
    ]

-- What follows the fetch.
unfoldable pub store_page : Net → Entry → FetchResult → Crawl → Crawl
unfolding mark enqueue_links classify_err has_infix
store_page net e r s = elim r.error [
  | some (msg, ssrf) ↦ mark e undone 300 (record s {
    pages =
        record { url = e.url; status = 0; body_size = 0; category = classify_err msg ssrf }
        ∷ s.pages;
  })
  | none ↦
      let stored = mark e done recrawl_after (record s {
        pages =
            record { url = e.url; status = r.status_code; body_size = length r.body; category = [] }
            ∷ s.pages;
        seen = net.hash e.url ∷ s.seen;
      }) in
      if (r.status_code == 200) && has_infix (codes "text/html") r.content_type
      then enqueue_links net (net.extract_links r.body r.final_url) 0 stored
      else stored
]

unfoldable pub fetch_page : Net → Entry → Rules → Crawl → Crawl
unfolding store_page fetch
fetch_page net e rules s =
    let delay = if ltb 0 rules.crawl_delay then rules.crawl_delay else default_delay in
    store_page net e (fetch net e.url).0
      (record s { slept = s.slept + delay; requested = (fetch net e.url).1 ++ s.requested })

-- Whether the rules let the URL be fetched; one that url.Parse refuses is not checked.
unfoldable pub permitted : Net → Bytes → Rules → Bool
unfolding is_allowed
permitted net url rules = elim (net.parse url) [
  | none ↦ true
  | some (path, host) ↦ is_allowed path rules.disallowed
]

unfoldable pub process_entry : Net → Entry → Crawl → Crawl
unfolding get_robots permitted fetch_page mark contains
process_entry net e s =
    let (rules, s1) = get_robots net e.host s in
    if contains (net.hash e.url) s.seen
    then mark e skipped recrawl_after s
    else if permitted net e.url rules
    then fetch_page net e rules s1
    else mark e skipped recrawl_after s1
