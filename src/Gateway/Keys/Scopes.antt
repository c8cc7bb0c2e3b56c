-- ===== src/Gateway/Keys/Scopes.antt =====
-- That a key that was created is found by its value, with its scopes.
use system_design.Common.{
  ◌≡◌, refl, ◌∙◌, ap, subst, true, false, List, [], ◌∷◌, ◌++◌, some, length, ◌==◌, if◌then◌else◌,
  arith, All, Bool-cases, inl, inr,
}
use system_design.Common.Bytes.{Bytes, beq, beq_refl}
use system_design.Common.Text.{split, free_of, split-free_of, split-append}
use system_design.Gateway.{ApiKey}
use system_design.Gateway.Keys.{KeyRow, join, taken, create_key, scan_key, by_digest, authenticate}

-- A scope that the table can hold: not empty, and with no comma in it.
abbrev pub Plain : Bytes → Type 0
Plain s = ((length s == 0) ≡ false) × (free_of b',' s ≡ true)

split-join :
    (s : Bytes) (ss : List Bytes) → Plain s → All Plain ss → split b',' (join (s ∷ ss)) ≡ s ∷ ss
unfolding join
split-join s [] p h = split-free_of b',' s p.1
split-join s (t ∷ ts) p h =
    split-append b',' s (join (t ∷ ts)) p.1 ∙ ap (◌∷◌ s) (split-join t ts h.0 h.1)

length-join : (s : Bytes) (ss : List Bytes) → Plain s → (length (join (s ∷ ss)) == 0) ≡ false
unfolding join
length-join [] ss p = ground arith
length-join (b ∷ s) [] p = ground arith
length-join (b ∷ s) (t ∷ ts) p = ground arith

scopes-join :
    (ss : List Bytes)
    → All Plain ss
    → (if length (join ss) == 0 then [] else split b',' (join ss)) ≡ ss
unfolding join
scopes-join [] h = refl
scopes-join (s ∷ ss) h = rw (length-join s ss h.0) (split-join s ss h.0 h.1)

by_digest-append :
    (id hashed : Bytes) (rows : List KeyRow) (row : KeyRow)
    → taken id hashed rows ≡ false
    → row.hashed_key ≡ hashed
    → by_digest hashed (rows ++ row ∷ []) ≡ some (scan_key row)
unfolding by_digest taken
by_digest-append id hashed [] row new same = rw (ap (λ h. beq h hashed) same ∙ beq_refl hashed) refl
by_digest-append id hashed (q ∷ qs) row new same = ground (arith, by_digest-append id hashed qs row)

-- A key whose scopes are not empty and have no comma is found by its value once it is created: it is
-- the key that was created, with the digest in place of the value.
pub authenticate-create_key :
    (hash : Bytes → Bytes) (k : ApiKey) (rows after : List KeyRow)
    → All Plain k.scopes
    → create_key hash k rows ≡ some after
    → authenticate hash after k.hashed_key ≡ some (record k { hashed_key = hash k.hashed_key })
unfolding authenticate create_key scan_key
authenticate-create_key hash k rows after plain made =
    elim (Bool-cases (taken k.id (hash k.hashed_key) rows)) [
      | inl old ↦ absurd (cc (rw (old, create_key) at made))
      | inr new ↦
          let row : KeyRow = record {
            id = k.id;
            owner = k.owner;
            hashed_key = hash k.hashed_key;
            scopes = join k.scopes;
            quota_per_min = k.quota_per_min;
            active = k.active;
          } in
          let same : some (rows ++ row ∷ []) ≡ some after = rw (new, create_key) at made in
          subst
            (λ t.
              by_digest (hash k.hashed_key) t ≡ some (record k { hashed_key = hash k.hashed_key }))
            {x = rows ++ row ∷ []} {y = after} (cc same)
            (by_digest-append k.id (hash k.hashed_key) rows row new refl
              ∙ ap (λ ss. some (record k { hashed_key = hash k.hashed_key; scopes = ss }))
                  (scopes-join k.scopes plain))
    ]
