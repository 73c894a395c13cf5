-- ===== src/Crypt/Packets/Sealed.antt =====
-- The steps of `syncs_crypt_encode_packet` up to the encryption.
use syncscribe.Common.{
  ℕ, ◌+◌, ◌-◌, ◌≡◌, refl, sym, ap, ◌∙◌, List, ◌++◌, arith, length, take, drop, bytes_of,
  length-append, append_assoc,
}
use syncscribe.Common.Words.{length-bytes_of}
use syncscribe.Crypt.{crc32}
use syncscribe.Crypt.Packets.{
  Cipher, crc_header_size, calculate_aes256_cbc_ciphertext_length, set_packet_size, slice, patch,
  size_of, with_size, with_crc, secret, encrypt_packet, crypt_encode_packet,
}
use syncscribe.Crypt.Packets.Segments.{
  Layout, IsLayout, memory_of, frame, slice-append, patch-append, secret-frame, size_of-frame,
}

-- `data_size` of a packet that is sent: the size of the text past its header and the padding.
abbrev pub sealed_size : ℕ → ℕ
sealed_size n =
    let total = calculate_aes256_cbc_ciphertext_length (56 + n) in
    set_packet_size (total - 56) (total - (56 + n))

abbrev pub sealed : Layout → Layout
sealed l = record {
  magic = l.magic;
  crc = bytes_of 4 (
      crc32
        (l.fields ++ (bytes_of 2 (sealed_size (length l.content)) ++ (l.magic_data ++ l.content))));
  fields = l.fields;
  size = bytes_of 2 (sealed_size (length l.content));
  magic_data = l.magic_data;
  content = l.content;
  rest = l.rest;
}

-- The text that is encrypted.
abbrev pub plain : Layout → List ℕ
plain l = ((sealed l).crc ++ l.fields) ++ l.content

-- The number of bytes that the padding adds.
abbrev pub padding_of : Layout → ℕ
padding_of l =
    calculate_aes256_cbc_ciphertext_length (56 + length l.content) - (56 + length l.content)

-- The memory once encrypted, and once decrypted.
abbrev pub encoded : Layout → List ℕ → List ℕ
encoded l out =
    frame l.magic (take 56 out) ((sealed l).size ++ l.magic_data) (drop 56 out)
      (drop (padding_of l) l.rest)

abbrev pub received : Layout → List ℕ → Layout
received l out = record {
  magic = l.magic;
  crc = (sealed l).crc;
  fields = l.fields;
  size = (sealed l).size;
  magic_data = l.magic_data;
  content = l.content;
  rest = drop (length l.content) (drop 56 out) ++ drop (padding_of l) l.rest;
}

module _ (l : Layout) (is : IsLayout l) where
  open l use {magic, crc, fields, size, magic_data, content, rest}

  pub head_length : (x : List ℕ) → length x ≡ 4 → length (x ++ fields) ≡ 56
  head_length x h = omega (arith, length-append x fields, h, is.fields_size)

  pub tail_length : (x : List ℕ) → length x ≡ 2 → length (x ++ magic_data) ≡ 3
  tail_length x h = omega (arith, length-append x magic_data, h, is.magic_data_size)

  pub memory-frame :
      (x : Layout)
      → memory_of x ≡ frame x.magic (x.crc ++ x.fields) (x.size ++ x.magic_data) x.content x.rest
  memory-frame x = simp append_assoc

  size_of-memory_of : size_of (memory_of l) ≡ length content
  size_of-memory_of =
      ap size_of (memory-frame l)
      ∙ size_of-frame magic (crc ++ fields) (size ++ magic_data) is.magic_size
          (head_length crc is.crc_size) (tail_length size is.size_size) size magic_data content rest
          refl is.size_size
      ∙ sym is.content_size

  abbrev sized : Layout
  sized = record {
    magic = magic;
    crc = crc;
    fields = fields;
    size = (sealed l).size;
    magic_data = magic_data;
    content = content;
    rest = rest;
  }

  pub length-sealed_size : length (sealed l).size ≡ 2
  length-sealed_size = length-bytes_of 2 (sealed_size (length content))

  pub length-sealed_crc : length (sealed l).crc ≡ 4
  length-sealed_crc =
      length-bytes_of 4 (crc32 (fields ++ ((sealed l).size ++ (magic_data ++ content))))

  with_size-memory_of : with_size (memory_of l) ≡ memory_of sized
  unfolding with_size
  with_size-memory_of =
      ap (λ n. patch 57 (bytes_of 2 (sealed_size n)) (memory_of l)) size_of-memory_of
      ∙ ap (patch 57 (sealed l).size) front
      ∙ patch-append 57 (magic ++ (crc ++ fields)) size (sealed l).size
          (magic_data ++ (content ++ rest))
          (omega (
            arith,
            length-append magic (crc ++ fields),
            head_length crc is.crc_size,
            is.magic_size,
          ))
          (omega (arith, length-sealed_size, is.size_size))
      ∙ simp append_assoc
    where
      front :
          memory_of l ≡ (magic ++ (crc ++ fields)) ++ (size ++ (magic_data ++ (content ++ rest)))
      front = simp append_assoc

  with_crc-sized : with_crc (length content) (memory_of sized) ≡ memory_of (sealed l)
  unfolding with_crc
  with_crc-sized =
      ap (λ x. patch 1 (bytes_of 4 (crc32 x)) (memory_of sized)) summed
      ∙ patch-append 1 magic crc (sealed l).crc _ is.magic_size
          (omega (arith, length-sealed_crc, is.crc_size))
    where
      regroup :
          memory_of sized
          ≡ (magic ++ crc) ++ ((fields ++ ((sealed l).size ++ (magic_data ++ content))) ++ rest)
      regroup = simp append_assoc

      summed :
          slice 5 (crc_header_size + length content) (memory_of sized)
          ≡ fields ++ ((sealed l).size ++ (magic_data ++ content))
      summed =
          ap (slice 5 (crc_header_size + length content)) regroup
          ∙ slice-append 5 (crc_header_size + length content) (magic ++ crc)
              (fields ++ ((sealed l).size ++ (magic_data ++ content))) rest
              (omega (arith, length-append magic crc, is.magic_size, is.crc_size))
              (omega (
                arith,
                length-append fields ((sealed l).size ++ (magic_data ++ content)),
                length-append (sealed l).size (magic_data ++ content),
                length-append magic_data content,
                length-sealed_size,
                is.fields_size,
                is.magic_data_size,
              ))

  pub crypt_encode_packet-memory_of :
      (c : Cipher) (key : List ℕ)
      → crypt_encode_packet c key (memory_of l)
        ≡ encrypt_packet c key (length content) (memory_of (sealed l))
  unfolding crypt_encode_packet
  crypt_encode_packet-memory_of c key =
      ap (λ n. encrypt_packet c key n (with_crc n (with_size (memory_of l)))) size_of-memory_of
      ∙ ap (encrypt_packet c key (length content))
          (ap (with_crc (length content)) with_size-memory_of ∙ with_crc-sized)

  pub secret-sealed : secret (length content) (memory_of (sealed l)) ≡ plain l
  secret-sealed =
      ap (secret (length content)) (memory-frame (sealed l))
      ∙ secret-frame magic ((sealed l).crc ++ fields) ((sealed l).size ++ magic_data) is.magic_size
          (head_length (sealed l).crc length-sealed_crc)
          (tail_length (sealed l).size length-sealed_size) (length content) content rest refl

  pub length-plain : length (plain l) ≡ 56 + length content
  length-plain = omega (
    arith,
    length-append ((sealed l).crc ++ fields) content,
    head_length (sealed l).crc length-sealed_crc,
  )
