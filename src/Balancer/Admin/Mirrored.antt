-- ===== src/Balancer/Admin/Mirrored.antt =====
-- That the rows of the store say which backends are registered, so that a restart finds them again.
use system_design.Common.{
  ℕ, ◌≡◌, refl, sym, ◌∙◌, ap, Bool, true, not, ◌&&◌, ◌||◌, List, [], ◌∷◌, ◌++◌, Option, none, some,
  if◌then◌else◌, length, ◌==◌, All, arith, Bool-cases, Option-cases, inl, inr,
}
use system_design.Common.Bytes.{Bytes, codes, beq}
use system_design.Common.Assoc.{lookup}
use system_design.Balancer.{Backend, healthy, Algorithm, add_backend, set_algorithm}
use system_design.Balancer.Admin.{
  Row, Rows, Plane, Request, add_request, remove_request, algorithm_request, read_request,
  upsert_backend, delete_row, handle_add, handle_remove, handle_algorithm, handle, admin,
  reload_backends,
}
use system_design.Balancer.Admin.Registered.{
  registered, has_row, has_row-upsert_backend, has_row-delete_row, registered-add,
  registered-remove_backend, registered-same_backends, registered-reload_backends,
}

-- The rows are those of the registered backends, and all their addresses are valid.
pub record IsMirrored (valid : Bytes → Bool) (s : Plane) : Type 0 where
  pub same : (service url : Bytes) → has_row service url s.rows ≡ registered service url s.pools
  pub valid_rows : All (λ r. valid r.url ≡ true) s.rows

All-upsert_backend {κ} :
    (P : Row → Type κ) (r : Row) (rows : Rows) → P r → All P rows → All P (upsert_backend r rows)
unfolding upsert_backend
All-upsert_backend P r [] p h = (p, tt)
All-upsert_backend P r (q ∷ qs) p h =
    elim (Bool-cases (beq q.service r.service && beq q.url r.url)) [
      | inl this ↦ rw (this, upsert_backend) (p, h.1)
      | inr another ↦ rw (another, upsert_backend) (h.0, All-upsert_backend P r qs p h.1)
    ]

All-delete_row {κ} :
    (P : Row → Type κ) (service url : Bytes) (rows : Rows)
    → All P rows
    → All P (delete_row service url rows)
unfolding delete_row
All-delete_row P service url [] h = tt
All-delete_row P service url (q ∷ qs) h =
    elim (Bool-cases (beq q.service service && beq q.url url)) [
      | inl this ↦ rw (this, delete_row) (All-delete_row P service url qs h.1)
      | inr another ↦ rw (another, delete_row) (h.0, All-delete_row P service url qs h.1)
    ]

abbrev fresh : Bytes → Bytes → ℕ → Backend
fresh service url w = record {
  url = url;
  service = service;
  weight = w;
  active_conns = 0;
  total_conns = 0;
  status = healthy;
}

module _ (valid : Bytes → Bool) where
  handle_add-IsMirrored :
      (service : Bytes) (body : Option (Bytes × ℕ)) (s : Plane)
      → IsMirrored valid s
      → IsMirrored valid (handle_add valid true service body s).1
  unfolding handle_add
  handle_add-IsMirrored service none s h = h
  handle_add-IsMirrored service (some (url, weight)) s h =
      let w = if weight == 0 then 1 else weight in
      let row : Row = record { service = service; url = url; weight = w } in
      elim (Bool-cases (length url == 0)) [
        | inl empty ↦ rw (empty, handle_add) h
        | inr given ↦ elim (Bool-cases (valid url)) [
          | inr bad ↦ rw (given, bad, add_backend, handle_add) h
          | inl good ↦
              rw (given, handle_add, add_backend, good)
                (record {
                  same = λ t u.
                      has_row-upsert_backend t u row s.rows
                      ∙ ap (λ c. beq service t && beq url u || c) (h.same t u)
                      ∙ sym (registered-add t u service (fresh service url w) s.pools);
                  valid_rows =
                      All-upsert_backend (λ r. valid r.url ≡ true) row s.rows good h.valid_rows;
                })
        ]
      ]

  handle_remove-IsMirrored :
      (service : Bytes) (url : Option Bytes) (s : Plane)
      → IsMirrored valid s
      → IsMirrored valid (handle_remove true service url s).1
  unfolding handle_remove
  handle_remove-IsMirrored service none s h = h
  handle_remove-IsMirrored service (some url) s h = elim (Option-cases (lookup service s.pools)) [
    | inl unknown ↦ rw (unknown, handle_remove) h
    | inr (p, known) ↦
        rw (known, handle_remove)
          (record {
            same = λ t u.
                has_row-delete_row t u service url s.rows
                ∙ ap (λ c. not (beq service t && beq url u) && c) (h.same t u)
                ∙ sym (registered-remove_backend t u service url s.pools known);
            valid_rows = All-delete_row (λ r. valid r.url ≡ true) service url s.rows h.valid_rows;
          })
  ]

  handle_algorithm-IsMirrored :
      (service : Bytes) (algo : Option Algorithm) (s : Plane)
      → IsMirrored valid s
      → IsMirrored valid (handle_algorithm service algo s).1
  unfolding handle_algorithm set_algorithm
  handle_algorithm-IsMirrored service none s h = h
  handle_algorithm-IsMirrored service (some algo) s h =
      elim (Option-cases (lookup service s.pools)) [
        | inl unknown ↦ rw (unknown, handle_algorithm, set_algorithm) h
        | inr (p, known) ↦
            rw (known, handle_algorithm, set_algorithm)
              (record {
                same = λ t u.
                    h.same t u
                    ∙ sym (
                        registered-same_backends t u service (record p { algorithm = algo }) s.pools
                          known refl);
                valid_rows = h.valid_rows;
              })
      ]

  -- A change of the plane that the store answers keeps the rows those of the registered backends,
  -- whoever sends it.
  admin-IsMirrored :
      (token got : Bytes) (req : Request) (s : Plane)
      → IsMirrored valid s
      → IsMirrored valid (admin token got valid true req s).1
  unfolding admin handle
  admin-IsMirrored token got req s h = elim (Bool-cases (length token == 0)) [
    | inl open_to_all ↦ rw (open_to_all, admin) (handled req)
    | inr guarded ↦ elim (Bool-cases (beq got (codes "Bearer " ++ token))) [
      | inl known ↦ rw (guarded, known, admin) (handled req)
      | inr unknown ↦ rw (guarded, unknown, admin) h
    ]
  ]
    where
      handled : (r : Request) → IsMirrored valid (handle valid true r s).1
      handled (add_request service body) = handle_add-IsMirrored service body s h
      handled (remove_request service url) = handle_remove-IsMirrored service url s h
      handled (algorithm_request service algo) = handle_algorithm-IsMirrored service algo s h
      handled read_request = h

  -- A session: requests with their Authorization headers, in order.
  unfoldable pub serve : Bytes → List (Bytes × Request) → Plane → Plane
  unfolding admin
  serve token [] s = s
  serve token ((got, req) ∷ reqs) s = serve token reqs (admin token got valid true req s).1

  serve-IsMirrored :
      (token : Bytes) (reqs : List (Bytes × Request)) (s : Plane)
      → IsMirrored valid s
      → IsMirrored valid (serve token reqs s)
  unfolding serve
  serve-IsMirrored token [] s h = h
  serve-IsMirrored token ((got, req) ∷ reqs) s h =
      serve-IsMirrored token reqs (admin token got valid true req s).1
        (admin-IsMirrored token got req s h)

  -- From a start with no backend and no row, after any requests to the control plane whose
  -- statements are all answered: if the process is started again, exactly the backends that were
  -- registered are registered, provided that whether an address is valid has not changed.
  pub reload_backends-serve :
      (token : Bytes) (reqs : List (Bytes × Request)) (service url : Bytes)
      → registered service url
          (reload_backends valid (serve token reqs (record { pools = []; rows = [] })).rows [])
        ≡ registered service url (serve token reqs (record { pools = []; rows = [] })).pools
  unfolding registered has_row
  reload_backends-serve token reqs service url =
      let h =
        serve-IsMirrored token reqs (record { pools = []; rows = [] })
          (record { same = λ t u. refl; valid_rows = tt }) in
      registered-reload_backends valid service url
        (serve token reqs (record { pools = []; rows = [] })).rows [] h.valid_rows
      ∙ ground (arith, h.same service url)
