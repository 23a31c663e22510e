-- ===== src/Link/Crc.antt =====
-- link/crc16.hpp: CRC-16/CCITT-FALSE over a byte sequence.
pub mod Detects
use omgp.Base.{
  ℕ, zero, suc, ◌*◌, ◌^◌, ◌<◌, ◌≡◌, refl, [], ◌∷◌, ◌++◌, arith, ◌==◌, if◌then◌else◌, bit_and,
  bit_xor, Bytes, length,
}
use omgp.Base.Words.{u16}

-- The inner loop's body: one shift, with the polynomial where a one falls out.
unfoldable pub crc_bit : ℕ → ℕ
crc_bit crc = if bit_and crc 0x8000 == 0 then u16 (crc * 2) else u16 (bit_xor (crc * 2) 0x1021)

-- for (int b = 0; b < n; ++b)
unfoldable pub crc_bits : ℕ → ℕ → ℕ
crc_bits zero crc = crc
crc_bits (suc n) crc = crc_bits n (crc_bit crc)

-- The outer loop's body.
unfoldable pub crc_byte : ℕ → ℕ → ℕ
unfolding crc_bits
crc_byte crc d = crc_bits 8 (u16 (bit_xor crc (d * 2 ^ 8)))

unfoldable pub crc16_ccitt_false : Bytes → ℕ → ℕ
crc16_ccitt_false [] crc = crc
crc16_ccitt_false (d ∷ ds) crc = crc16_ccitt_false ds (crc_byte crc d)

abbrev pub crc_init : ℕ
crc_init = 0xffff

-- The check value of CRC-16/CCITT-FALSE: the checksum of "123456789".
check_value :
    crc16_ccitt_false (0x31 ∷ 0x32 ∷ 0x33 ∷ 0x34 ∷ 0x35 ∷ 0x36 ∷ 0x37 ∷ 0x38 ∷ 0x39 ∷ []) crc_init
    ≡ 0x29b1
unfolding crc16_ccitt_false crc_byte crc_bits crc_bit
check_value = refl
