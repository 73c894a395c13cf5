-- ===== src/Crypt/Packets.antt =====
-- `syncs_crypt_encode_packet` and `syncs_crypt_decode_packet`, on the memory of a packet.
pub mod Segments
pub mod Sealed
pub mod RoundTrip
use syncscribe.Common.{
  ℕ, ◌+◌, ◌-◌, ◌*◌, ◌/◌, ◌≡◌, List, [], ◌∷◌, ◌++◌, All, IsByte, Option, none, some, ltb, ◌==◌,
  if◌then◌else◌, length, take, drop, word, bytes_of, bit_or, ◌>>=◌,
}
use syncscribe.Wire.{packet_data_size}
use syncscribe.Crypt.{crc32}

-- AES-256-CBC of OpenSSL: the text that a key and an initial vector make of a text. `none`: a call
-- fails.
pub record Cipher : Type 0 where
  pub encrypt : List ℕ → List ℕ → List ℕ → Option (List ℕ)
  pub decrypt : List ℕ → List ℕ → List ℕ → Option (List ℕ)

-- What OpenSSL says of it: the text is padded to the next whole block, a full one where it is whole
-- already, and what is encrypted is decrypted by the same key and vector.
pub record IsCipher (c : Cipher) : Type 0 where
  pub padded :
      (key iv text out : List ℕ)
      → c.encrypt key iv text ≡ some out
      → length out ≡ (length text / 16 + 1) * 16
  pub inverse :
      (key iv text out : List ℕ)
      → c.encrypt key iv text ≡ some out
      → c.decrypt key iv out ≡ some text

abbrev pub aes_block_size : ℕ
aes_block_size = 16

-- `SYNCS_CRYPT_HEADER_SIZE` and `SYNCS_CRC_HEADER_SIZE`.
abbrev pub crypt_header_size : ℕ
crypt_header_size = 56

abbrev pub crc_header_size : ℕ
crc_header_size = 55

-- `sizeof(crypt_buffer)`.
abbrev pub crypt_buffer_size : ℕ
crypt_buffer_size = 4096

abbrev pub calculate_aes256_cbc_ciphertext_length : ℕ → ℕ
calculate_aes256_cbc_ciphertext_length data_size = (data_size + 16 - 1) / 16 * 16

-- `SYNCS_SET_PACKET_SIZE`.
unfoldable pub set_packet_size : ℕ → ℕ → ℕ
set_packet_size size pad = bit_or (pad * 4096) (packet_data_size size)

-- n bytes of a memory from an offset, and bytes written there.
abbrev pub slice : ℕ → ℕ → List ℕ → List ℕ
slice k n m = take n (drop k m)

abbrev pub patch : ℕ → List ℕ → List ℕ → List ℕ
patch k bytes m = take k m ++ (bytes ++ drop (length bytes) (drop k m))

-- `header.data_size`, at offset 57.
abbrev pub size_of : List ℕ → ℕ
size_of m = packet_data_size (word (slice 57 2 m))

-- The memory with the size of the text to be, and then with the checksum of all from `type` on.
unfoldable pub with_size : List ℕ → List ℕ
unfolding set_packet_size
with_size m =
    let size = crypt_header_size + size_of m in
    let total = calculate_aes256_cbc_ciphertext_length size in
    patch 57 (bytes_of 2 (set_packet_size (total - crypt_header_size) (total - size))) m

unfoldable pub with_crc : ℕ → List ℕ → List ℕ
with_crc n m = patch 1 (bytes_of 4 (crc32 (slice 5 (crc_header_size + n) m))) m

-- The header from `crc` to `update_counter`, and n bytes of data.
abbrev pub secret : ℕ → List ℕ → List ℕ
secret n m = slice 1 crypt_header_size m ++ slice 60 n m

abbrev pub put_secret : List ℕ → List ℕ → List ℕ
put_secret text m = patch 60 (drop crypt_header_size text) (patch 1 (take crypt_header_size text) m)

module _ (c : Cipher) (key : List ℕ) where
  -- From the copy into `crypt_buffer` on. The outer `none` is an overrun of it, the inner one NULL.
  unfoldable pub encrypt_packet : ℕ → List ℕ → Option (Option (List ℕ))
  encrypt_packet n m =
      if ltb crypt_buffer_size (crypt_header_size + n)
      then none
      else elim (c.encrypt (drop aes_block_size key) (take aes_block_size key) (secret n m)) [
        | none ↦ some none
        | some out ↦
            if ltb crypt_buffer_size (length out)
            then none
            else if length out == calculate_aes256_cbc_ciphertext_length (crypt_header_size + n)
            then some (some (put_secret out m))
            else some none
      ]

  unfoldable pub crypt_encode_packet : List ℕ → Option (Option (List ℕ))
  unfolding encrypt_packet with_size with_crc
  crypt_encode_packet m = let n = size_of m in encrypt_packet n (with_crc n (with_size m))

  unfoldable pub crypt_decode_packet : List ℕ → Option (Option (List ℕ))
  crypt_decode_packet m =
      let n = size_of m in
      if ltb crypt_buffer_size (crypt_header_size + n)
      then none
      else elim (c.decrypt (drop aes_block_size key) (take aes_block_size key) (secret n m)) [
        | none ↦ some none
        | some text ↦
            if ltb (length text) crypt_header_size then none else some (some (put_secret text m))
      ]
