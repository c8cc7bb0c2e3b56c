-- ===== src/KvStore/Frame/Laws.antt =====
-- Reading back what the writers of wal.go and sstable.go wrote, whole or cut short.
use mathlib.Core.List.{append_assoc}
use native.Mathlib.Decide.{dec_lt}
use system_design.Common.{
  ℕ, zero, suc, ◌+◌, ◌-◌, ◌^◌, ◌<◌, ◌≤◌, ◌≡◌, refl, ◌⊎◌, inl, inr, none, some, [], ◌∷◌, ◌++◌, arith,
  length, take, drop, length-append, length-take-le, take-append, ==_refl, Option-cases,
}
use system_design.Common.Bytes.{Bytes}
use system_design.Common.Words.{put_uint32, uint32, uint32-put_uint32}
use system_design.KvStore.Crc.{sum32-lt}
use system_design.KvStore.Frame.{
  frame_header, frame_crc, frame, read_full, eof, short, got, header_tag, check_crc, read_body,
  read_frame,
}

pub read_full-append :
    (n : ℕ) (xs rest : Bytes) → length xs ≡ n → read_full n (xs ++ rest) ≡ some (xs, rest)
unfolding read_full
read_full-append zero [] rest h = refl
read_full-append zero (x ∷ xs) rest h = absurd (omega arith)
read_full-append (suc n) [] rest h = absurd (omega arith)
read_full-append (suc n) (x ∷ xs) rest h = rw (read_full-append n xs rest (omega arith))

pub read_full_short : (n : ℕ) (bs : Bytes) → length bs < n → read_full n bs ≡ none
unfolding read_full
read_full_short zero bs h = elim h [ ]
read_full_short (suc n) [] h = refl
read_full_short (suc n) (b ∷ bs) h = rw (read_full_short n bs (omega arith))

-- What `read_full` leaves is shorter by what it read.
pub length-read_full :
    (n : ℕ) (bs xs rest : Bytes) → read_full n bs ≡ some (xs, rest) → length rest + n ≡ length bs
unfolding read_full
length-read_full zero bs xs rest h = ground arith
length-read_full (suc n) [] xs rest h = cc
length-read_full (suc n) (b ∷ bs) xs rest h = elim (Option-cases (read_full n bs)) [
  | inl e ↦ absurd (ground arith)
  | inr (p, e) ↦ let ih = length-read_full n bs p.0 p.1 e in ground arith
]

pub length-frame :
    (tag : ℕ) (key val : Bytes) → length (frame tag key val) ≡ length key + length val + 13
unfolding frame
length-frame tag key val = omega (
  arith,
  length-append {0} key (val ++ put_uint32 (frame_crc (frame_header tag key val) key val)),
  length-append {0} val (put_uint32 (frame_crc (frame_header tag key val) key val)),
)

-- Fewer bytes than a header are the end of the file.
pub read_frame-eof : (bs : Bytes) → length bs < 9 → read_frame bs ≡ eof
unfolding read_frame
read_frame-eof bs h = rw (read_full_short 9 bs h, read_frame)

frame_crc-lt : (hdr key val : Bytes) → frame_crc hdr key val < 2 ^ 32
unfolding frame_crc
frame_crc-lt hdr key val = sum32-lt _

check_crc-put_uint32 :
    (hdr key val rest : Bytes)
    → check_crc hdr key val (put_uint32 (frame_crc hdr key val)) rest
      ≡ got (header_tag hdr) key val rest
unfolding check_crc
check_crc-put_uint32 hdr key val rest =
    rw (uint32-put_uint32 _ (frame_crc-lt hdr key val)) (rw (==_refl (frame_crc hdr key val)))

check_crc-got :
    (hdr k v chk r : Bytes) {tag : ℕ} {key val rest : Bytes}
    → check_crc hdr k v chk r ≡ got tag key val rest
    → r ≡ rest
unfolding check_crc
check_crc-got hdr k v chk r h = ground arith

-- A record takes 13 bytes at least off the file.
pub length-read_frame :
    (bs : Bytes) {tag : ℕ} {key val rest : Bytes}
    → read_frame bs ≡ got tag key val rest
    → length rest + 13 ≤ length bs
unfolding read_frame read_body
length-read_frame bs h = elim (Option-cases (read_full 9 bs)) [
  | inl e ↦ absurd (ground arith)
  | inr (p, e) ↦ elim (Option-cases (read_full (uint32 (drop 1 p.0)) p.1)) [
    | inl e₁ ↦ absurd (ground arith)
    | inr (q, e₁) ↦ elim (Option-cases (read_full (uint32 (drop 5 p.0)) q.1)) [
      | inl e₂ ↦ absurd (ground arith)
      | inr (r, e₂) ↦ elim (Option-cases (read_full 4 r.1)) [
        | inl e₃ ↦ absurd (ground arith)
        | inr (s, e₃) ↦
            let l = length-read_full 9 bs p.0 p.1 e in
            let l₁ = length-read_full _ p.1 q.0 q.1 e₁ in
            let l₂ = length-read_full _ q.1 r.0 r.1 e₂ in
            let l₃ = length-read_full 4 r.1 s.0 s.1 e₃ in
            ground (arith, check_crc-got p.0 q.0 r.0 s.0 s.1)
      ]
    ]
  ]
]

module _ (tag : ℕ) (key val : Bytes) (key_fits : length key < 2 ^ 32)
    (val_fits : length val < 2 ^ 32) where
  abbrev hdr : Bytes
  hdr = frame_header tag key val

  abbrev chk : Bytes
  chk = put_uint32 (frame_crc hdr key val)

  header-key : length key ≡ uint32 (drop 1 hdr)
  unfolding frame_header
  header-key = omega arith

  header-val : length val ≡ uint32 (drop 5 hdr)
  unfolding frame_header
  header-val = omega arith

  header-tag : header_tag hdr ≡ tag
  unfolding frame_header
  header-tag = refl

  length-hdr : length hdr ≡ 9
  unfolding frame_header
  length-hdr = refl

  read_body-whole :
      (rest : Bytes) → read_body hdr (key ++ (val ++ (chk ++ rest))) ≡ got tag key val rest
  unfolding read_body
  read_body-whole rest =
      rw (read_full-append _ key (val ++ (chk ++ rest)) header-key, read_body)
        (rw (read_full-append _ val (chk ++ rest) header-val, read_body)
          (rw (check_crc-put_uint32 hdr key val rest) (rw header-tag)))

  -- A frame reads back as what was written, whatever follows it.
  pub read_frame-frame :
      (rest : Bytes) → read_frame (frame tag key val ++ rest) ≡ got tag key val rest
  unfolding read_frame frame
  read_frame-frame rest = simp append_assoc (read_body-whole rest)

  read_body-short :
      (bs : Bytes) → length bs < length key + length val + 4 → read_body hdr bs ≡ short
  unfolding read_body
  read_body-short bs h = elim (Option-cases (read_full (uint32 (drop 1 hdr)) bs)) [
    | inl e ↦ rw (e, read_body)
    | inr (p, e) ↦ elim (Option-cases (read_full (uint32 (drop 5 hdr)) p.1)) [
      | inl e₁ ↦ rw (e, read_body) (rw (e₁, read_body))
      | inr (q, e₁) ↦
          let left = length-read_full _ bs p.0 p.1 e in
          let left₁ = length-read_full _ p.1 q.0 q.1 e₁ in
          rw (e, read_body)
            (rw (e₁, read_body)
              (rw (read_full_short 4 q.1 (omega (arith, header-key, header-val)), read_body)))
    ]
  ]

  -- A frame whose body is not all there reads as a short body.
  pub read_frame-short :
      (bs : Bytes) → length bs < length key + length val + 4 → read_frame (hdr ++ bs) ≡ short
  unfolding read_frame frame_header
  read_frame-short bs h = read_body-short bs h

  frame-split : frame tag key val ≡ hdr ++ (key ++ (val ++ chk))
  unfolding frame
  frame-split = refl

  length-body-take :
      (m : ℕ)
      → m < length key + length val + 4
      → length (take m (key ++ (val ++ chk))) < length key + length val + 4
  length-body-take m h = omega (arith, length-take-le m (key ++ (val ++ chk)))

  -- A frame cut anywhere reads as the end of the file or as a short body.
  pub read_frame-cut :
      (n : ℕ)
      → n < length (frame tag key val)
      → (read_frame (take n (frame tag key val)) ≡ eof)
        ⊎ (read_frame (take n (frame tag key val)) ≡ short)
  read_frame-cut n h = elim (dec_lt n 9) [
    | yes p ↦ inl (read_frame-eof _ (omega (arith, length-take-le n (frame tag key val))))
    | no p ↦ inr (
        rw frame-split (
          rw (take-append n hdr (key ++ (val ++ chk)) (omega (arith, length-hdr))) (
            read_frame-short _ (
              length-body-take (n - length hdr)
                (omega (arith, length-hdr, length-frame tag key val))))))
  ]
