-- ===== src/Crypt/Packets/Segments.antt =====
-- The memory of a packet as the segments that the functions of the encryption touch.
use syncscribe.Common.{
  ℕ, ◌+◌, ◌≡◌, sym, ap, ap₂, ◌∙◌, List, ◌++◌, arith, length, take, drop, word, length-append,
  length-take, length-drop, take-append_left, drop-append_left, append_assoc,
}
use syncscribe.Wire.{packet_data_size}
use syncscribe.Crypt.Packets.{slice, patch, size_of, secret, put_secret}

-- The middle one of three segments.
pub slice-append :
    (k n : ℕ) (a b c : List ℕ) → length a ≡ k → length b ≡ n → slice k n (a ++ (b ++ c)) ≡ b
slice-append k n a b c ha hb =
    ap₂ (λ i j. take j (drop i (a ++ (b ++ c)))) (sym ha) (sym hb)
    ∙ ap (take (length b)) (drop-append_left a (b ++ c))
    ∙ take-append_left b c

pub patch-append :
    (k : ℕ) (a b b' c : List ℕ)
    → length a ≡ k
    → length b' ≡ length b
    → patch k b' (a ++ (b ++ c)) ≡ a ++ (b' ++ c)
patch-append k a b b' c ha hb =
    ap (λ i. take i (a ++ (b ++ c)) ++ (b' ++ drop (length b') (drop i (a ++ (b ++ c))))) (sym ha)
    ∙ ap₂ (λ x y. x ++ (b' ++ drop (length b') y)) (take-append_left a (b ++ c))
        (drop-append_left a (b ++ c))
    ∙ ap (λ i. a ++ (b' ++ drop i (b ++ c))) hb
    ∙ ap (λ y. a ++ (b' ++ y)) (drop-append_left b c)

-- A packet in memory: `magic`, `crc`, from `type` to `update_counter`, `data_size`, `magic_data`, the
-- data, and the rest of the buffer.
pub record Layout : Type 0 where
  pub magic : List ℕ
  pub crc : List ℕ
  pub fields : List ℕ
  pub size : List ℕ
  pub magic_data : List ℕ
  pub content : List ℕ
  pub rest : List ℕ

abbrev pub memory_of : Layout → List ℕ
memory_of l =
    l.magic ++ (l.crc ++ (l.fields ++ (l.size ++ (l.magic_data ++ (l.content ++ l.rest)))))

pub record IsLayout (l : Layout) : Type 0 where
  pub magic_size : length l.magic ≡ 1
  pub crc_size : length l.crc ≡ 4
  pub fields_size : length l.fields ≡ 52
  pub size_size : length l.size ≡ 2
  pub magic_data_size : length l.magic_data ≡ 1
  pub content_size : length l.content ≡ packet_data_size (word l.size)

-- The memory as what is encrypted sees it: 1 byte, 56 of the header, 3, and the data.
abbrev pub frame : List ℕ → List ℕ → List ℕ → List ℕ → List ℕ → List ℕ
frame a h s t r = a ++ (h ++ (s ++ (t ++ r)))

module _ (a h s : List ℕ) (ha : length a ≡ 1) (hh : length h ≡ 56) (hs : length s ≡ 3) where
  before_data : length (a ++ (h ++ s)) ≡ 60
  before_data = omega (arith, length-append a (h ++ s), length-append h s, ha, hh, hs)

  regroup : (t r : List ℕ) → frame a h s t r ≡ (a ++ (h ++ s)) ++ (t ++ r)
  regroup t r = simp append_assoc

  pub secret-frame : (n : ℕ) (t r : List ℕ) → length t ≡ n → secret n (frame a h s t r) ≡ h ++ t
  secret-frame n t r ht =
      ap₂ ◌++◌ (slice-append 1 56 a h (s ++ (t ++ r)) ha hh)
        (ap (slice 60 n) (regroup t r) ∙ slice-append 60 n (a ++ (h ++ s)) t r before_data ht)

  -- A text that replaces what it was made of.
  pub put_secret-frame :
      (text t r : List ℕ)
      → length text ≡ 56 + length t
      → put_secret text (frame a h s t r) ≡ frame a (take 56 text) s (drop 56 text) r
  put_secret-frame text t r ht =
      ap (patch 60 (drop 56 text)) (
        patch-append 1 a h (take 56 text) (s ++ (t ++ r)) ha
          (omega (arith, length-take 56 text, ht, hh)))
      ∙ ap (patch 60 (drop 56 text)) again
      ∙ patch-append 60 (a ++ (take 56 text ++ s)) t (drop 56 text) r
          (omega (
            arith,
            length-append a (take 56 text ++ s),
            length-append (take 56 text) s,
            length-take 56 text,
            ha,
            ht,
            hs,
          ))
          (omega (arith, length-drop 56 text, ht))
      ∙ simp append_assoc
    where
      again : a ++ (take 56 text ++ (s ++ (t ++ r))) ≡ (a ++ (take 56 text ++ s)) ++ (t ++ r)
      again = simp append_assoc

  pub size_of-frame :
      (size one t r : List ℕ)
      → s ≡ size ++ one
      → length size ≡ 2
      → size_of (frame a h s t r) ≡ packet_data_size (word size)
  size_of-frame size one t r e two =
      ap (λ m. packet_data_size (word (slice 57 2 m))) (ap (λ x. frame a h x t r) e ∙ sorted)
      ∙ ap (λ x. packet_data_size (word x))
          (slice-append 57 2 (a ++ h) size (one ++ (t ++ r))
            (omega (arith, length-append a h, ha, hh)) two)
    where
      sorted : frame a h (size ++ one) t r ≡ (a ++ h) ++ (size ++ (one ++ (t ++ r)))
      sorted = simp append_assoc
