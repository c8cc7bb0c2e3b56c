-- ===== src/KvStore/Crc.antt =====
-- hash/crc32 with the IEEE polynomial, as wal.go and sstable.go use it: NewIEEE, Write, Sum32.
use Prim.Native.Nat.{bit_xor}
use system_design.Common.{
  ℕ, zero, suc, ◌/◌, ◌%◌, ◌^◌, ◌<◌, ◌≡◌, refl, [], ◌∷◌, arith, ◌==◌, if◌then◌else◌,
}
use system_design.Common.Bytes.{Bytes, codes}
use system_design.Common.Words.{u32}

crc_bit : ℕ → ℕ
crc_bit c = let half = c / 2 in if c % 2 == 1 then bit_xor half 0xEDB88320 else half

crc_bits : ℕ → ℕ → ℕ
crc_bits zero c = c
crc_bits (suc n) c = crc_bits n (crc_bit c)

crc_update : ℕ → Bytes → ℕ
crc_update c [] = c
crc_update c (b ∷ bs) = crc_update (crc_bits 8 (bit_xor c b)) bs

-- The digest after a Write: the checksum of all that was written.
pub crc_write : ℕ → Bytes → ℕ
unfolding crc_bit crc_bits crc_update
crc_write digest bs = bit_xor (crc_update (bit_xor digest 0xFFFFFFFF) bs) 0xFFFFFFFF

unfoldable pub sum32 : ℕ → ℕ
unfolding crc_write
sum32 digest = u32 digest

pub sum32-lt : (d : ℕ) → sum32 d < 2 ^ 32
unfolding sum32
sum32-lt d = omega arith

crc_check_value : sum32 (crc_write (crc_write 0 (codes "1234")) (codes "56789")) ≡ 0xCBF43926
unfolding sum32
crc_check_value = refl
