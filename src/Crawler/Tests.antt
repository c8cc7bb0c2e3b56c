-- ===== src/Crawler/Tests.antt =====
-- Runs of the crawler, and its theorems at one input each.
use system_design.Common.{◌≡◌, refl, true, false, if◌then◌else◌, [], ◌∷◌, ◌++◌, none, some, arith}
use system_design.Common.Bytes.{Bytes, codes, beq}
use system_design.Common.Assoc.{lookup}
use system_design.Common.Text.{has_prefix}
use system_design.Crawler.{
  FetchResult, final, moved, asked, redirected, Net, Entry, Crawl, user_agent, process_entry,
  get_robots, permitted, classify_err,
}
use system_design.Crawler.Robots.{
  Rules, agent, disallow, other, is_for, rules_from, parse_robots_txt, is_allowed,
}
use system_design.Crawler.Obeys.{is_allowed-rules_from}

parse_runs :
    parse_robots_txt
      (codes
        "# hi\nUser-Agent: *\nDisallow: /private \nCrawl-delay: 12s\n\nuser-agent: Other\nDisallow: /all")
      user_agent
    ≡ record { disallowed = codes "/private" ∷ []; crawl_delay = 12 }
unfolding parse_robots_txt
parse_runs = refl

classify_runs : classify_err (codes "context deadline exceeded") false ≡ codes "timeout"
unfolding classify_err
classify_runs = refl

abbrev no_rules : Rules
no_rules = record { disallowed = []; crawl_delay = 0 }

star_ours : is_for user_agent (codes "*") ≡ true
unfolding is_for
star_ours = refl

other_theirs : is_for user_agent (codes "other") ≡ false
unfolding is_for
other_theirs = refl

begins : has_prefix (codes "/private") (codes "/private/x") ≡ true
unfolding has_prefix
begins = refl

is_allowed-rules_from_example :
    is_allowed
      (codes "/private/x")
      (rules_from user_agent false
        ((other ∷ []) ++ agent (codes "*") ∷ (other ∷ []) ++ disallow (codes "/private") ∷ [])
        no_rules).disallowed
    ≡ false
is_allowed-rules_from_example =
    is_allowed-rules_from user_agent false (other ∷ []) (other ∷ []) [] (codes "*")
      (codes "/private") (codes "/private/x") no_rules star_ours (refl, tt) (omega arith) begins

abbrev page_of : Bytes → FetchResult
page_of url = record {
  status_code = 200;
  body = codes "x";
  content_type = codes "text/html";
  final_url = url;
  error = none;
}

-- A network where each page has the same two links and every address but 127.0.0.1 is public.
abbrev net : Net
net = record {
  lookup_ip = λ host. some (host ∷ []);
  private_ip = λ ip. beq ip (codes "127.0.0.1");
  parse = λ url. some (codes "/", url);
  hash = λ url. url;
  extract_links = λ body final. codes "a" ∷ codes "127.0.0.1" ∷ [];
  respond = λ url. final (page_of url);
  blocked_error = λ host. (codes "ssrf", true);
}

abbrev entry : Entry
entry = record { id = 1; url = codes "h"; host = codes "h" }

abbrev start : Crawl
start = record {
  seen = [];
  robots = [];
  pages = [];
  marks = [];
  frontier = [];
  requested = [];
  slept = 0;
}

process_runs : (process_entry net entry start).frontier ≡ (codes "a", codes "a") ∷ []
unfolding process_entry lookup beq
process_runs = refl

-- A network where the page of the entry is moved to one that the robots.txt disallows.
abbrev moving : Net
moving = record net {
  respond = λ url.
      if beq url (codes "h")
      then moved (codes "h/private") (codes "h") (page_of url)
      else final (record (page_of url) {
        body = codes "User-agent: *\nDisallow: /private";
        content_type = [];
      });
  parse = λ url. some (if beq url (codes "h") then codes "/" else codes "/private", codes "h");
}

-- The target of the redirect is requested, though the rules of its host do not permit it.
moved_to_disallowed :
    ((process_entry moving entry start).requested
      ≡ redirected (codes "h/private") (codes "h")
        ∷ asked (codes "h")
        ∷ asked (codes "https://h/robots.txt")
        ∷ [])
    × (permitted moving (codes "h/private") (get_robots moving (codes "h") start).0 ≡ false)
unfolding process_entry get_robots lookup beq permitted
moved_to_disallowed = (refl, refl)
