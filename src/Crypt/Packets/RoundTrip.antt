-- ===== src/Crypt/Packets/RoundTrip.antt =====
-- What `syncs_crypt_encode_packet` makes of a packet, `syncs_crypt_decode_packet` reads back.
use syncscribe.Common.{
  ℕ, ◌+◌, ◌-◌, ◌*◌, ◌/◌, ◌%◌, ◌≤◌, ◌≡◌, ◌≢◌, refl, sym, ap, ap₂, ◌∙◌, List, ◌++◌, none, some, arith,
  true, false, ltb, ◌==◌, if◌then◌else◌, inl, inr, Bool-cases, length, take, drop, length-append,
  length-take, length-drop, take-append-drop, take-append_left, drop-append_left, append_assoc,
}
use syncscribe.Common.Words.{word-bytes_of_two}
use syncscribe.Wire.{packet_data_size}
use syncscribe.Crypt.Packets.{
  Cipher, IsCipher, aes_block_size, crypt_header_size, crypt_buffer_size,
  calculate_aes256_cbc_ciphertext_length, size_of, secret, put_secret, encrypt_packet,
  crypt_encode_packet, crypt_decode_packet,
}
use syncscribe.Crypt.Packets.Segments.{
  Layout, IsLayout, memory_of, frame, secret-frame, put_secret-frame, size_of-frame,
}
use syncscribe.Crypt.Packets.Sealed.{
  sealed_size, sealed, plain, padding_of, encoded, received, memory-frame, head_length, tail_length,
  length-sealed_size, length-sealed_crc, secret-sealed, length-plain, crypt_encode_packet-memory_of,
}
use syncscribe.Crypt.Fields.{set_packet_size_lem, packet_data_size-set_packet_size}

module _ (c : Cipher) (is_cipher : IsCipher c) (key : List ℕ) (l : Layout) (is : IsLayout l)
    (out : List ℕ)
    (encrypted : c.encrypt (drop aes_block_size key) (take aes_block_size key) (plain l) ≡ some out)
    (fits : 56 + length l.content ≤ 4096) where
  open l use {magic, crc, fields, content, rest}

  length-out : length out ≡ ((56 + length content) / 16 + 1) * 16
  length-out =
      is_cipher.padded (drop aes_block_size key) (take aes_block_size key) (plain l) out encrypted
      ∙ ap (λ n. (n / 16 + 1) * 16) (length-plain l is)

  -- A packet whose text (56 bytes of the header and the data) is a multiple of 16 bytes is not
  -- encrypted: the cipher pads it by one more block, which the length expected does not count, and the
  -- result is NULL. Where the text has 4096 bytes, the cipher writes past `crypt_buffer`. The cipher
  -- is one that pads to the next whole block, and no call of it fails; the text has 4096 bytes at most.
  pub crypt_encode_packet_whole :
      (56 + length content) % 16 ≡ 0
      → crypt_encode_packet c key (memory_of l)
        ≡ (if 56 + length content == 4096 then none else some none)
  unfolding encrypt_packet
  crypt_encode_packet_whole whole =
      let small : ltb 4096 (56 + length content) ≡ false = ground arith in
      let other : (length out
            == calculate_aes256_cbc_ciphertext_length (crypt_header_size + length content))
          ≡ false =
        ground (arith, length-out) in
      crypt_encode_packet-memory_of l is c key
      ∙ rw (small, secret-sealed l is, encrypted, other)
          (elim (Bool-cases (56 + length content == 4096)) [
            | inl e ↦
                let long : ltb 4096 (length out) ≡ true = ground (arith, length-out) in rw (e, long)
            | inr e ↦
                let short : ltb 4096 (length out) ≡ false = ground (arith, length-out) in
                rw (e, short)
          ])

  module _ (cut : (56 + length content) % 16 ≢ 0) (room : padding_of l ≤ length rest) where
    -- The memory past the data that the padding takes.
    sealed-frame :
        memory_of (sealed l)
        ≡ frame magic
            ((sealed l).crc ++ fields)
            ((sealed l).size ++ l.magic_data)
            (content ++ take (padding_of l) rest)
            (drop (padding_of l) rest)
    sealed-frame =
        memory-frame l is (sealed l)
        ∙ ap
            (λ r.
              frame magic ((sealed l).crc ++ fields) ((sealed l).size ++ l.magic_data) content r)
            (sym (take-append-drop (padding_of l) rest))
        ∙ simp append_assoc

    put_secret-sealed : put_secret out (memory_of (sealed l)) ≡ encoded l out
    put_secret-sealed =
        ap (put_secret out) sealed-frame
        ∙ put_secret-frame magic ((sealed l).crc ++ fields) ((sealed l).size ++ l.magic_data)
            is.magic_size (head_length l is (sealed l).crc (length-sealed_crc l is))
            (tail_length l is (sealed l).size (length-sealed_size l is)) out
            (content ++ take (padding_of l) rest) (drop (padding_of l) rest)
            (omega (
              arith,
              length-out,
              length-append content (take (padding_of l) rest),
              length-take (padding_of l) rest,
            ))

    encode_lem : crypt_encode_packet c key (memory_of l) ≡ some (some (encoded l out))
    unfolding encrypt_packet
    encode_lem =
        let small : ltb 4096 (56 + length content) ≡ false = ground arith in
        let short : ltb 4096 (length out) ≡ false = ground (arith, length-out) in
        let same : (length out
              == calculate_aes256_cbc_ciphertext_length (crypt_header_size + length content))
            ≡ true =
          ground (arith, length-out) in
        crypt_encode_packet-memory_of l is c key
        ∙ rw (small, secret-sealed l is, encrypted, short, same, put_secret-sealed)

    -- What arrives: the size of the text past its header.
    sealed_size_lem :
        sealed_size (length content)
        ≡ padding_of l * 4096 + (calculate_aes256_cbc_ciphertext_length (56 + length content) - 56)
    sealed_size_lem =
        set_packet_size_lem (calculate_aes256_cbc_ciphertext_length (56 + length content) - 56)
          (padding_of l) (omega arith)

    encoded_head : length (take 56 out) ≡ 56
    encoded_head = omega (arith, length-take 56 out, length-out)

    size_of-encoded :
        size_of (encoded l out) ≡ calculate_aes256_cbc_ciphertext_length (56 + length content) - 56
    size_of-encoded =
        size_of-frame magic (take 56 out) ((sealed l).size ++ l.magic_data) is.magic_size
          encoded_head (tail_length l is (sealed l).size (length-sealed_size l is)) (sealed l).size
          l.magic_data (drop 56 out) (drop (padding_of l) rest) refl (length-sealed_size l is)
        ∙ ap packet_data_size
            (word-bytes_of_two (sealed_size (length content)) (omega (arith, sealed_size_lem)))
        ∙ packet_data_size-set_packet_size
            (calculate_aes256_cbc_ciphertext_length (56 + length content) - 56) (padding_of l)
            (omega arith)

    secret-encoded : secret (size_of (encoded l out)) (encoded l out) ≡ out
    secret-encoded =
        secret-frame magic (take 56 out) ((sealed l).size ++ l.magic_data) is.magic_size
          encoded_head (tail_length l is (sealed l).size (length-sealed_size l is))
          (size_of (encoded l out)) (drop 56 out) (drop (padding_of l) rest)
          (omega (arith, size_of-encoded, length-drop 56 out, length-out))
        ∙ take-append-drop 56 out

    head-plain : (take 56 (plain l) ≡ (sealed l).crc ++ fields) × (drop 56 (plain l) ≡ content)
    head-plain =
        let head = head_length l is (sealed l).crc (length-sealed_crc l is) in
        (
          ap (λ k. take k (plain l)) (sym head)
              ∙ take-append_left ((sealed l).crc ++ fields) content,
          ap (λ k. drop k (plain l)) (sym head)
              ∙ drop-append_left ((sealed l).crc ++ fields) content,
        )

    -- The text is shorter than what it was encrypted to: the rest of that stays.
    encoded-frame :
        encoded l out
        ≡ frame magic
            (take 56 out)
            ((sealed l).size ++ l.magic_data)
            (take (length content) (drop 56 out))
            (drop (length content) (drop 56 out) ++ drop (padding_of l) rest)
    encoded-frame =
        ap
          (λ t.
            frame magic (take 56 out) ((sealed l).size ++ l.magic_data) t
              (drop (padding_of l) rest))
          (sym (take-append-drop (length content) (drop 56 out)))
        ∙ simp append_assoc

    put_secret-encoded : put_secret (plain l) (encoded l out) ≡ memory_of (received l out)
    put_secret-encoded =
        ap (put_secret (plain l)) encoded-frame
        ∙ put_secret-frame magic (take 56 out) ((sealed l).size ++ l.magic_data) is.magic_size
            encoded_head (tail_length l is (sealed l).size (length-sealed_size l is)) (plain l)
            (take (length content) (drop 56 out))
            (drop (length content) (drop 56 out) ++ drop (padding_of l) rest)
            (omega (
              arith,
              length-plain l is,
              length-take (length content) (drop 56 out),
              length-drop 56 out,
              length-out,
            ))
        ∙ ap₂ (λ h t. frame magic h ((sealed l).size ++ l.magic_data) t (received l out).rest)
            head-plain.0 head-plain.1
        ∙ sym (memory-frame l is (received l out))

    decode_lem :
        crypt_decode_packet c key (encoded l out) ≡ some (some (memory_of (received l out)))
    unfolding crypt_decode_packet
    decode_lem =
        let small : ltb crypt_buffer_size (crypt_header_size + size_of (encoded l out)) ≡ false =
          ground (arith, size_of-encoded) in
        let back =
          is_cipher.inverse (drop aes_block_size key) (take aes_block_size key) (plain l) out
            encrypted in
        let enough : ltb (length (plain l)) crypt_header_size ≡ false =
          ground (arith, length-plain l is) in
        rw (small, secret-encoded, back, enough, put_secret-encoded)

    -- A packet whose text (56 bytes of the header and the data) is 4096 bytes at most and no multiple of
    -- 16 bytes, and whose buffer has room for the padding, is encrypted in place: `data_size` then says the padded size and how much
    -- of it is padding, `crc` is the checksum of the fields and the data, and these are replaced by the
    -- text of the cipher. Decrypting that with the same key gives the fields and the data back, with
    -- the checksum; `data_size` stays the padded one and the bytes after the data are the cipher's.
    -- The cipher is one that pads to the next whole block and that decrypts what it has encrypted.
    pub crypt_decode_packet-crypt_encode_packet :
        (crypt_encode_packet c key (memory_of l) ≡ some (some (encoded l out)))
        × (crypt_decode_packet c key (encoded l out) ≡ some (some (memory_of (received l out))))
    crypt_decode_packet-crypt_encode_packet = (encode_lem, decode_lem)
