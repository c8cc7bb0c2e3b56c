-- ===== src/Crawler/Links.antt =====
-- Which links of a page get into the frontier.
use system_design.Common.{
  ℕ, ◌+◌, ◌-◌, ◌≤◌, ◌≡◌, ◌&&◌, ◌==◌, refl, sym, subst, ap, true, List, [], ◌∷◌, leb, length, All,
  arith, Bool-cases, Option-cases, inl, inr,
}
use system_design.Common.Bytes.{Bytes, codes}
use system_design.Common.Assoc.{contains, lookup, is_some}
use system_design.Crawler.Text.{has_infix}
use system_design.Crawler.{
  Net, fetch, Entry, Crawl, FetchResult, max_links_per_page, is_public_host, enqueue_url,
  enqueue_links, store_page, fetch_page, process_entry, get_robots, mark, permitted,
}

module _ (net : Net) where
  -- The hosts of the frontier are public, and it has at most `k` URLs.
  pub record IsFit (k : ℕ) (s : Crawl) : Type 0 where
    pub public : All (λ l. is_public_host net l.1 ≡ true) s.frontier
    pub few : length s.frontier ≤ k

  enqueue_url-IsFit :
      (k : ℕ) (url host : Bytes) (s : Crawl)
      → is_public_host net host ≡ true
      → IsFit k s
      → IsFit (k + 1) (enqueue_url url host s)
  unfolding enqueue_url
  enqueue_url-IsFit k url host s ok h = elim (Bool-cases (is_some (lookup url s.frontier))) [
    | inl there ↦ rw there (record { public = h.public; few = omega (arith, h.few) })
    | inr new ↦ rw new (record { public = (ok, h.public); few = omega (arith, h.few) })
  ]

  IsFit-le : (k m : ℕ) (s : Crawl) → k ≤ m → IsFit k s → IsFit m s
  IsFit-le k m s le h = record { public = h.public; few = omega (arith, h.few) }

  enqueue_links-IsFit :
      (links : List Bytes) (enqueued k : ℕ) (s : Crawl)
      → enqueued ≤ max_links_per_page
      → IsFit k s
      → IsFit (k + (max_links_per_page - enqueued)) (enqueue_links net links enqueued s)
  unfolding enqueue_links
  enqueue_links-IsFit [] n k s le h = IsFit-le k (k + (50 - n)) s (omega arith) h
  enqueue_links-IsFit (link ∷ links) n k s le h =
      let skip = enqueue_links-IsFit links n k s le h in
      let stop = IsFit-le k (k + (50 - n)) s (omega arith) h in
      elim (Bool-cases (leb 50 n)) [
        | inl full ↦ elim (Option-cases (net.parse link)) [
          | inl bad ↦ rw (bad, full, enqueue_links) stop
          | inr ((path, host), good) ↦ rw (good, full, enqueue_links) stop
        ]
        | inr room ↦ elim (Option-cases (net.parse link)) [
          | inl bad ↦ rw (bad, room, enqueue_links) skip
          | inr ((path, host), good) ↦
              rw (good, room, enqueue_links)
                (elim (Bool-cases (is_public_host net host)) [
                  | inr private ↦ rw private skip
                  | inl public ↦ rw public (elim (Bool-cases (contains (net.hash link) s.seen)) [
                    | inl old ↦ rw old skip
                    | inr new ↦ rw new (
                        IsFit-le (k + 1 + (50 - (n + 1))) (k + (50 - n)) _ (ground arith) (
                          enqueue_links-IsFit links (n + 1) (k + 1) (enqueue_url link host s)
                            (ground arith) (enqueue_url-IsFit k link host s public h)))
                  ])
                ])
        ]
      ]

  get_robots-frontier : (host : Bytes) (s : Crawl) → (get_robots net host s).1.frontier ≡ s.frontier
  unfolding get_robots
  get_robots-frontier host s = elim (Option-cases (lookup host s.robots)) [
    | inr (known, hit) ↦ rw (hit, get_robots) refl
    | inl miss ↦
        rw (miss, get_robots)
          (elim (Bool-cases (is_public_host net host)) [
            | inl public ↦ rw public refl
            | inr private ↦ rw private refl
          ])
  ]

  store_page-IsFit :
      (e : Entry) (r : FetchResult) (k : ℕ) (s : Crawl)
      → IsFit k s
      → IsFit (k + max_links_per_page) (store_page net e r s)
  unfolding store_page mark
  store_page-IsFit e r k s h = elim (Option-cases r.error) [
    | inr (err, failed) ↦
        rw (failed, store_page) (record { public = h.public; few = omega (arith, h.few) })
    | inl fine ↦
        rw (fine, store_page)
          (elim (Bool-cases
            ((r.status_code == 200) && has_infix (codes "text/html") r.content_type)) [
              | inr plain ↦ rw plain (record { public = h.public; few = omega (arith, h.few) })
              | inl html ↦ rw html (
                  enqueue_links-IsFit (net.extract_links r.body r.final_url) 0 k _ (omega arith)
                    (record { public = h.public; few = h.few }))
            ])
  ]

  -- The work on one URL, whatever the network answers: if all hosts of the frontier were public,
  -- they still are, and the frontier has at most 50 URLs more than before.
  pub process_entry-IsFit :
      (e : Entry) (k : ℕ) (s : Crawl)
      → IsFit k s
      → IsFit (k + max_links_per_page) (process_entry net e s)
  unfolding process_entry fetch_page mark
  process_entry-IsFit e k s h =
      let s1 : Crawl = (get_robots net e.host s).1 in
      let h1 : IsFit k s1 = record {
        public =
            subst (All (λ l. is_public_host net l.1 ≡ true)) (sym (get_robots-frontier e.host s))
              h.public;
        few = omega (arith, ap length (get_robots-frontier e.host s), h.few);
      } in
      elim (Bool-cases (contains (net.hash e.url) s.seen)) [
        | inl old ↦ rw old (record { public = h.public; few = omega (arith, h.few) })
        | inr new ↦ rw new (elim (Bool-cases (permitted net e.url (get_robots net e.host s).0)) [
          | inr forbidden ↦
              rw forbidden (record { public = h1.public; few = omega (arith, h1.few) })
          | inl fine ↦ rw fine (
              store_page-IsFit e (fetch net e.url).0 k _
                (record { public = h1.public; few = h1.few }))
        ])
      ]
