-- ===== src/Crawler/Requests.antt =====
-- What the work on a URL requests from the network.
use system_design.Common.{ℕ, ◌≤◌, ◌⊎◌, All, length, true, false, ◌≡◌, List, ◌++◌}
use system_design.Common.Bytes.{Bytes}
use system_design.Common.Assoc.{contains}
use system_design.Crawler.{
  Net, Sent, asked, redirected, fetch_from, robots_url, Entry, Crawl, get_robots, permitted,
  is_public_host,
}

module _ (net : Net) where
  -- The reasons for a request in the work on a URL.
  abbrev pub Justified : Entry → Crawl → Sent → Type 0
  Justified e s (asked url) =
      ((url ≡ robots_url e.host) × (is_public_host net e.host ≡ true))
      ⊎ ((url ≡ e.url)
          × (contains (net.hash e.url) s.seen ≡ false)
          × (permitted net e.url (get_robots net e.host s).0 ≡ true))
  Justified e s (redirected url host) = is_public_host net host ≡ true

  -- Requests that were added to others.
  pub record Added (P : Sent → Type 0) (most : ℕ) (old new : List Sent) : Type 0 where
    pub sent : List Sent
    pub grown : new ≡ sent ++ old
    pub justified : All P sent
    pub few : length sent ≤ most

  module _ (P : Sent → Type 0)
      (ok : (url host : Bytes) → is_public_host net host ≡ true → P (redirected url host)) where
    abbrev Rest : ℕ → Type 0
    Rest n = (to : Bytes) → All P (fetch_from net n to).1 × (length (fetch_from net n to).1 ≤ n)
