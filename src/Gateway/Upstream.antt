-- ===== src/Gateway/Upstream.antt =====
-- The address that a request is sent to.
use system_design.Common.{ℕ, ◌≡◌, refl, ◌∙◌, ap, true, [], ◌∷◌, ◌++◌, length, drop}
use system_design.Common.Bytes.{Bytes}
use system_design.Common.Text.{trim_prefix, trim_right, has_prefix-append}
use system_design.Gateway.{Route, Request, build_upstream_url, query_part}

drop-append : (xs ys : Bytes) → drop (length xs) (xs ++ ys) ≡ ys
drop-append [] ys = refl
drop-append (x ∷ xs) ys = drop-append xs ys

trim_prefix-append : (p bs : Bytes) → trim_prefix p (p ++ bs) ≡ bs
unfolding trim_prefix
trim_prefix-append p bs = rw (has_prefix-append p bs) (drop-append p bs)

-- A route that strips its prefix sends a path with more behind the prefix to the upstream, without
-- its trailing slashes, followed at once by that rest and the query. No slash is put between.
pub build_upstream_url-strip_prefix :
    (route : Route) (r : Request) (c : ℕ) (rest : Bytes)
    → route.strip_prefix ≡ true
    → r.path ≡ route.path_prefix ++ c ∷ rest
    → build_upstream_url route r
      ≡ trim_right b'/' route.upstream ++ (c ∷ rest ++ query_part r.raw_query)
unfolding build_upstream_url
build_upstream_url-strip_prefix route r c rest strips path =
    let trimmed : trim_prefix route.path_prefix r.path ≡ c ∷ rest =
      ap (trim_prefix route.path_prefix) path ∙ trim_prefix-append route.path_prefix (c ∷ rest) in
    rw strips (rw trimmed refl)
