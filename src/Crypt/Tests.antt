-- ===== src/Crypt/Tests.antt =====
-- The check value of the checksum, and a packet through a cipher that only pads.
use syncscribe.Common.{
  ℕ, zero, suc, ◌+◌, ◌-◌, ◌%◌, ◌/◌, ◌*◌, ◌≡◌, ◌≢◌, refl, sym, ap, ◌∙◌, List, [], ◌∷◌, ◌++◌, Option,
  none, some, arith, length, drop, take, replicate, bytes_of, length-append, length-replicate,
  drop-append_left,
}
use syncscribe.Text.{codes}
use syncscribe.Crypt.{crc32}
use syncscribe.Crypt.Checksum.{crc32_changed_byte}
use syncscribe.Crypt.Packets.{Cipher, IsCipher, crypt_encode_packet, crypt_decode_packet}
use syncscribe.Crypt.Packets.Segments.{Layout, IsLayout, memory_of}
use syncscribe.Crypt.Packets.Sealed.{plain, encoded, received}
use syncscribe.Crypt.Packets.RoundTrip.{
  crypt_decode_packet-crypt_encode_packet, crypt_encode_packet_whole,
}

crc32_check : crc32 (codes "123456789") ≡ 0xCBF43926
unfolding crc32
crc32_check = refl

crc32_changed_byte_example : crc32 (codes "syncs") ≢ crc32 (codes "syncz")
crc32_changed_byte_example =
    crc32_changed_byte (codes "sync") [] 115 122
      (omega arith, (omega arith, (omega arith, (omega arith, tt)))) tt (omega arith) (omega arith)
      (λ e. absurd (omega (arith, e)))

abbrev stuffed : List ℕ → List ℕ
stuffed text = (16 - length text % 16) ∷ (replicate (15 - length text % 16) 0 ++ text)

abbrev unstuffed : List ℕ → Option (List ℕ)
unstuffed [] = none
unstuffed (pad ∷ text) = some (drop (pad - 1) text)

abbrev stuffing : Cipher
stuffing = record {
  encrypt = λ key iv text. some (stuffed text);
  decrypt = λ key iv text. unstuffed text;
}

abbrev payload : Option (List ℕ) → List ℕ
payload none = []
payload (some x) = x

stuffing-IsCipher : IsCipher stuffing
stuffing-IsCipher = record {
  padded = λ key iv text out e.
      ap length (sym (ap payload e))
      ∙ omega (
        arith,
        length-append (replicate (15 - length text % 16) 0) text,
        length-replicate {A = ℕ} (15 - length text % 16) 0,
      );
  inverse = λ key iv text out e.
      ap unstuffed (sym (ap payload e))
      ∙ ap some (
          ap (λ n. drop n (replicate (15 - length text % 16) 0 ++ text))
            {y = length (replicate (15 - length text % 16) 0)}
            (omega (arith, length-replicate {A = ℕ} (15 - length text % 16) 0))
          ∙ drop-append_left (replicate (15 - length text % 16) 0) text);
}

abbrev note : Layout
note = record {
  magic = 0xA8 ∷ [];
  crc = replicate 4 0;
  fields = replicate 52 1;
  size = 3 ∷ 0 ∷ [];
  magic_data = 0 ∷ [];
  content = codes "abc";
  rest = replicate 8 0;
}

note-IsLayout : IsLayout note
unfolding syncscribe.Common.word
note-IsLayout = record {
  magic_size = refl;
  crc_size = refl;
  fields_size = refl;
  size_size = refl;
  magic_data_size = refl;
  content_size = refl;
}

crypt_decode_packet-crypt_encode_packet_example :
    (crypt_encode_packet stuffing (replicate 48 7) (memory_of note)
      ≡ some (some (encoded note (stuffed (plain note)))))
    × (crypt_decode_packet stuffing (replicate 48 7) (encoded note (stuffed (plain note)))
        ≡ some (some (memory_of (received note (stuffed (plain note))))))
crypt_decode_packet-crypt_encode_packet_example =
    crypt_decode_packet-crypt_encode_packet stuffing stuffing-IsCipher (replicate 48 7) note
      note-IsLayout (stuffed (plain note)) refl (omega arith) (λ e. absurd (omega (arith, e)))
      (omega arith)

abbrev whole_note : Layout
whole_note = record note { size = 8 ∷ 0 ∷ []; content = codes "abcdefgh" }

whole_note-IsLayout : IsLayout whole_note
unfolding syncscribe.Common.word
whole_note-IsLayout = record {
  magic_size = refl;
  crc_size = refl;
  fields_size = refl;
  size_size = refl;
  magic_data_size = refl;
  content_size = refl;
}

crypt_encode_packet_whole_example :
    crypt_encode_packet stuffing (replicate 48 7) (memory_of whole_note) ≡ some none
crypt_encode_packet_whole_example =
    crypt_encode_packet_whole stuffing stuffing-IsCipher (replicate 48 7) whole_note
      whole_note-IsLayout (stuffed (plain whole_note)) refl (omega arith) (omega arith)
