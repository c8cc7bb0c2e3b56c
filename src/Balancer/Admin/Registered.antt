-- ===== src/Balancer/Admin/Registered.antt =====
-- Which backends are registered in the pools and which have a row, after each operation.
use system_design.Common.{
  ℕ, ◌≡◌, refl, sym, ◌∙◌, ap, Bool, true, false, not, ◌&&◌, ◌||◌, List, [], ◌∷◌, ◌++◌, Option, none,
  some, if◌then◌else◌, All, arith, Bool-cases, inl, inr,
}
use system_design.Common.Bytes.{Bytes, beq, beq_iff}
use system_design.Common.Assoc.{lookup, insert, lookup-insert}
use system_design.Balancer.{
  Backend, Pool, Pools, healthy, has_url, others, add, remove_backend, add_backend, pool_or_new,
}
use system_design.Balancer.Admin.{Row, Rows, upsert_backend, delete_row, reload_backends}

pub has_url-append :
    (u : Bytes) (bs : List Backend) (b : Backend)
    → has_url u (bs ++ b ∷ []) ≡ (beq b.url u || has_url u bs)
unfolding has_url
has_url-append u [] b = ground arith
has_url-append u (c ∷ bs) b = ground (arith, has_url-append u bs b)

pub has_url-others :
    (u url : Bytes) (bs : List Backend)
    → has_url u (others url bs) ≡ (not (beq url u) && has_url u bs)
unfolding has_url others
has_url-others u url [] = ground arith
has_url-others u url (b ∷ bs) =
    ground (arith, has_url-others u url bs, beq_iff b.url url, beq_iff b.url u, beq_iff url u)

pub has_url-add :
    (u : Bytes) (b : Backend) (p : Pool)
    → has_url u (add b p).backends ≡ (beq b.url u || has_url u p.backends)
unfolding add
has_url-add u b p = elim (Bool-cases (has_url b.url p.backends)) [
  | inr new ↦ rw new (has_url-append u p.backends b)
  | inl old ↦ elim (Bool-cases (beq b.url u)) [
    | inr other_one ↦ rw (old, other_one) refl
    | inl same ↦
        rw (old, same) (ap (λ w. has_url w p.backends) (sym ((beq_iff b.url u).0 same)) ∙ old)
  ]
]

-- Whether a backend is in the pool of a service, and whether it has a row.
abbrev pub has_in : Bytes → Option Pool → Bool
has_in u none = false
has_in u (some p) = has_url u p.backends

unfoldable pub registered : Bytes → Bytes → Pools → Bool
unfolding lookup has_url
registered s u pools = has_in u (lookup s pools)

unfoldable pub has_row : Bytes → Bytes → Rows → Bool
has_row s u [] = false
has_row s u (q ∷ qs) = beq q.service s && beq q.url u || has_row s u qs

pub has_row-upsert_backend :
    (s u : Bytes) (r : Row) (rows : Rows)
    → has_row s u (upsert_backend r rows) ≡ (beq r.service s && beq r.url u || has_row s u rows)
unfolding has_row upsert_backend
has_row-upsert_backend s u r [] = ground arith
has_row-upsert_backend s u r (q ∷ qs) =
    ground
      (arith, has_row-upsert_backend s u r qs, beq_iff q.service r.service, beq_iff q.url r.url)

pub has_row-delete_row :
    (s u service url : Bytes) (rows : Rows)
    → has_row s u (delete_row service url rows)
      ≡ (not (beq service s && beq url u) && has_row s u rows)
unfolding has_row delete_row
has_row-delete_row s u service url [] = ground arith
has_row-delete_row s u service url (q ∷ qs) = ground (
  arith,
  has_row-delete_row s u service url qs,
  beq_iff q.service service,
  beq_iff q.url url,
  beq_iff q.service s,
  beq_iff q.url u,
  beq_iff service s,
  beq_iff url u,
)

has_in-if :
    (u : Bytes) (b : Bool) (p : Pool) (o : Option Pool)
    → has_in u (if b then some p else o) ≡ (if b then has_url u p.backends else has_in u o)
has_in-if u true p o = refl
has_in-if u false p o = refl

pub registered-insert :
    (s u service : Bytes) (p : Pool) (pools : Pools)
    → registered s u (insert service p pools)
      ≡ (if beq service s then has_url u p.backends else registered s u pools)
unfolding registered
registered-insert s u service p pools =
    ap (has_in u) (lookup-insert service s p pools) ∙ has_in-if u (beq service s) p (lookup s pools)

has_url-pool_or_new :
    (u : Bytes) (o : Option Pool) → has_url u (pool_or_new o).backends ≡ has_in u o
unfolding has_url
has_url-pool_or_new u none = refl
has_url-pool_or_new u (some p) = refl

add_backend-valid :
    (valid : Bytes → Bool) (service url : Bytes) (w : ℕ) (pools : Pools)
    → valid url ≡ true
    → (add_backend valid service url w pools).0
      ≡ insert service
          (add
            (record {
              url = url;
              service = service;
              weight = w;
              active_conns = 0;
              total_conns = 0;
              status = healthy;
            })
            (pool_or_new (lookup service pools)))
          pools
unfolding add_backend
add_backend-valid valid service url w pools ok = rw (ok, add_backend) refl

pub registered-add :
    (s u service : Bytes) (b : Backend) (pools : Pools)
    → registered s u (insert service (add b (pool_or_new (lookup service pools))) pools)
      ≡ (beq service s && beq b.url u || registered s u pools)
registered-add s u service b pools =
    registered-insert s u service (add b (pool_or_new (lookup service pools))) pools
    ∙ elim (Bool-cases (beq service s)) [
      | inr other_one ↦ rw other_one refl
      | inl same ↦ rw same (
          has_url-add u b (pool_or_new (lookup service pools))
          ∙ ap (λ c. beq b.url u || c)
              (has_url-pool_or_new u (lookup service pools)
                ∙ ap (λ t. has_in u (lookup t pools)) ((beq_iff service s).0 same)
                ∙ (unfold registered in refl)))
    ]

registered-known :
    (s u service : Bytes) {p : Pool} (pools : Pools)
    → lookup service pools ≡ some p
    → beq service s ≡ true
    → registered s u pools ≡ has_url u p.backends
unfolding registered
registered-known s u service pools known same =
    ap (λ t. has_in u (lookup t pools)) (sym ((beq_iff service s).0 same)) ∙ ap (has_in u) known

pub registered-remove_backend :
    (s u service url : Bytes) {p : Pool} (pools : Pools)
    → lookup service pools ≡ some p
    → registered s u (insert service (remove_backend url p) pools)
      ≡ (not (beq service s && beq url u) && registered s u pools)
unfolding remove_backend
registered-remove_backend s u service url {p} pools known =
    registered-insert s u service (remove_backend url p) pools ∙ elim (Bool-cases (beq service s)) [
      | inr other_one ↦ rw other_one refl
      | inl same ↦
          rw (same, registered-known s u service pools known same) (has_url-others u url p.backends)
    ]

pub registered-same_backends :
    (s u service : Bytes) {p : Pool} (q : Pool) (pools : Pools)
    → lookup service pools ≡ some p
    → q.backends ≡ p.backends
    → registered s u (insert service q pools) ≡ registered s u pools
registered-same_backends s u service q pools known kept =
    registered-insert s u service q pools ∙ elim (Bool-cases (beq service s)) [
      | inr other_one ↦ rw other_one refl
      | inl same ↦ rw (same, registered-known s u service pools known same) (ap (has_url u) kept)
    ]

pub registered-add_backend :
    (valid : Bytes → Bool) (s u service url : Bytes) (w : ℕ) (pools : Pools)
    → valid url ≡ true
    → registered s u (add_backend valid service url w pools).0
      ≡ (beq service s && beq url u || registered s u pools)
registered-add_backend valid s u service url w pools ok =
    let b : Backend = record {
      url = url;
      service = service;
      weight = w;
      active_conns = 0;
      total_conns = 0;
      status = healthy;
    } in
    ap (registered s u) (add_backend-valid valid service url w pools ok)
    ∙ registered-add s u service b pools

-- After a restart the same backends are registered.
pub registered-reload_backends :
    (valid : Bytes → Bool) (s u : Bytes) (rows : Rows) (pools : Pools)
    → All (λ r. valid r.url ≡ true) rows
    → registered s u (reload_backends valid rows pools) ≡ (has_row s u rows || registered s u pools)
unfolding reload_backends has_row
registered-reload_backends valid s u [] pools h = refl
registered-reload_backends valid s u (r ∷ rs) pools h = ground (
  arith,
  registered-reload_backends valid s u rs (add_backend valid r.service r.url r.weight pools).0 h.1,
  registered-add_backend valid s u r.service r.url r.weight pools h.0,
)
