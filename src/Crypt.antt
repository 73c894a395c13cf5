-- ===== src/Crypt.antt =====
-- libsyncs/syncs-crypt.c: the checksum, and the encryption of packets. AES-256-CBC of OpenSSL is a
-- parameter.
pub mod Digits
pub mod Xor
pub mod Checksum
pub mod Packets
pub mod Fields
mod Tests
use syncscribe.Common.{
  ℕ, zero, suc, ◌-◌, ◌/◌, ◌^◌, List, [], ◌∷◌, ◌==◌, if◌then◌else◌, bit_and, bit_xor,
}

abbrev pub crc32_polynomial : ℕ
crc32_polynomial = 0xEDB88320

-- A round of the inner loop.
unfoldable pub crc_bit : ℕ → ℕ
crc_bit crc = if bit_and crc 1 == 0 then crc / 2 else bit_xor (crc / 2) crc32_polynomial

unfoldable pub crc_bits : ℕ → ℕ → ℕ
unfolding crc_bit
crc_bits zero crc = crc
crc_bits (suc j) crc = crc_bits j (crc_bit crc)

-- The loop over the bytes.
unfoldable pub crc_bytes : List ℕ → ℕ → ℕ
unfolding crc_bits
crc_bytes [] crc = crc
crc_bytes (byte ∷ bytes) crc = crc_bytes bytes (crc_bits 8 (bit_xor crc byte))

-- `crc32`; the result is complemented.
unfoldable pub crc32 : List ℕ → ℕ
unfolding crc_bytes
crc32 bytes = 2 ^ 32 - 1 - crc_bytes bytes (2 ^ 32 - 1)
