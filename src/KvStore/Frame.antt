-- ===== src/KvStore/Frame.antt =====
-- The record layout that wal.go and sstable.go share:
-- [tag:1][keyLen:4][valLen:4][key][val][crc32:4], little-endian.
pub mod Laws
use system_design.Common.{
  ℕ, zero, suc, ◌+◌, ◌^◌, ◌<◌, ◌≡◌, refl, Option, none, some, List, [], ◌∷◌, ◌++◌, arith, ◌==◌,
  if◌then◌else◌, length, take, drop, ==_refl,
}
use system_design.Common.Bytes.{Bytes}
use system_design.Common.Words.{u32, put_uint32, uint32, uint32-put_uint32}
use system_design.KvStore.Crc.{crc_write, sum32, sum32-lt}

unfoldable pub frame_header : ℕ → Bytes → Bytes → Bytes
frame_header tag key val = tag ∷ (put_uint32 (u32 (length key)) ++ put_uint32 (u32 (length val)))

pub frame_crc : Bytes → Bytes → Bytes → ℕ
frame_crc hdr key val = sum32 (crc_write (crc_write (crc_write 0 hdr) key) val)

-- The chunks hdr, keyB, e.Val and chk, one after the other.
unfoldable pub frame : ℕ → Bytes → Bytes → Bytes
unfolding frame_header frame_crc
frame tag key val =
    let hdr = frame_header tag key val in
    hdr ++ (key ++ (val ++ put_uint32 (frame_crc hdr key val)))

-- io.ReadFull into a slice of `n` bytes: what was read and what is left, or an error.
unfoldable pub read_full : ℕ → Bytes → Option (Bytes × Bytes)
read_full zero bs = some ([], bs)
read_full (suc n) [] = none
read_full (suc n) (b ∷ bs) =
    let more = read_full n bs in elim more [ none ↦ none | some (xs, rest) ↦ some (b ∷ xs, rest) ]

-- One turn of the read loops: the header could not be read (io.EOF or io.ErrUnexpectedEOF), the
-- body could not be read, the checksum is wrong, or a record and the bytes behind it.
pub data Read : Type 0 where
  eof : Read
  short : Read
  bad_crc : Read
  got : ℕ → Bytes → Bytes → Bytes → Read

abbrev header_tag : Bytes → ℕ
header_tag [] = 0
header_tag (t ∷ _) = t

check_crc : Bytes → Bytes → Bytes → Bytes → Bytes → Read
check_crc hdr key val chk rest =
    if frame_crc hdr key val == uint32 chk then got (header_tag hdr) key val rest else bad_crc

read_body : Bytes → Bytes → Read
unfolding read_full check_crc
read_body hdr bs = elim (read_full (uint32 (drop 1 hdr)) bs) [
  | none ↦ short
  | some (key, bs₁) ↦ elim (read_full (uint32 (drop 5 hdr)) bs₁) [
    | none ↦ short
    | some (val, bs₂) ↦ elim (read_full 4 bs₂) [
      | none ↦ short
      | some (chk, rest) ↦ check_crc hdr key val chk rest
    ]
  ]
]

unfoldable pub read_frame : Bytes → Read
unfolding read_body
read_frame bs = elim (read_full 9 bs) [ none ↦ eof | some (hdr, rest) ↦ read_body hdr rest ]
