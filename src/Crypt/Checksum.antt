-- ===== src/Crypt/Checksum.antt =====
-- The checksum detects a change of any one byte.
use syncscribe.Common.{
  ℕ, zero, suc, ◌-◌, ◌/◌, ◌%◌, ◌^◌, ◌≤◌, ◌<◌, ◌≡◌, ◌≢◌, sym, ap, ap₂, ◌∙◌, ◌⊎◌, All-append, List,
  [], ◌∷◌, ◌++◌, All, IsByte, inl, inr, Bool-cases, ◌==◌, arith, bit_and, bit_xor,
}
use syncscribe.Crypt.{crc32_polynomial, crc_bit, crc_bits, crc_bytes, crc32}
use syncscribe.Crypt.Xor.{lowest_digit, bit_xor_twice, shr-bit_xor, shr_word}

abbrev IsWord : ℕ → Type 0
IsWord x = x < 2 ^ 32

top_digit : (a b : ℕ) → bit_xor a b / 2 ^ 31 ≡ bit_xor (a / 2 ^ 31) (b / 2 ^ 31)
top_digit a b =
    sym (shr_word (bit_xor a b)) ∙ shr-bit_xor 31 a b ∙ ap₂ bit_xor (shr_word a) (shr_word b)

one_digit : (x y : ℕ) → x < 2 → y < 2 → bit_xor x y < 2
one_digit zero zero p q = omega arith
one_digit zero (suc zero) p q = omega arith
one_digit (suc zero) zero p q = omega arith
one_digit (suc zero) (suc zero) p q = omega arith
one_digit zero (suc (suc y)) p q = absurd (omega arith)
one_digit (suc zero) (suc (suc y)) p q = absurd (omega arith)
one_digit (suc (suc x)) y p q = absurd (omega arith)

bit_xor-IsWord : (a b : ℕ) → IsWord a → IsWord b → IsWord (bit_xor a b)
bit_xor-IsWord a b p q =
    omega (arith, top_digit a b, one_digit (a / 2 ^ 31) (b / 2 ^ 31) (omega arith) (omega arith))

-- The polynomial sets the highest digit of a number that has been halved.
polynomial_top : (x : ℕ) → x < 2 ^ 31 → 2 ^ 31 ≤ bit_xor x crc32_polynomial
polynomial_top x h =
    let low : x / 2 ^ 31 ≡ 0 = omega arith in
    let top : bit_xor x crc32_polynomial / 2 ^ 31 ≡ 1 =
      top_digit x crc32_polynomial ∙ ap (λ t. bit_xor t 1) low in
    omega (arith, top)

-- A round, by the lowest digit.
crc_bit_even : (x : ℕ) → x % 2 ≡ 0 → crc_bit x ≡ x / 2
unfolding crc_bit
crc_bit_even x h = let e : bit_and x 1 ≡ 0 = lowest_digit x ∙ h in rw e

crc_bit_odd : (x : ℕ) → x % 2 ≡ 1 → crc_bit x ≡ bit_xor (x / 2) crc32_polynomial
unfolding crc_bit
crc_bit_odd x h = let e : bit_and x 1 ≡ 1 = lowest_digit x ∙ h in rw e

Parity-cases : (x : ℕ) → (x % 2 ≡ 0) ⊎ (x % 2 ≡ 1)
Parity-cases x = elim (Bool-cases (x % 2 == 0)) [
  | inl e ↦ inl (ground arith)
  | inr e ↦ inr (ground arith)
]

crc_bit-IsWord : (x : ℕ) → IsWord x → IsWord (crc_bit x)
crc_bit-IsWord x w = elim (Parity-cases x) [
  | inl even ↦ rw (crc_bit_even x even) (omega arith)
  | inr odd ↦
      rw (crc_bit_odd x odd) (bit_xor-IsWord (x / 2) crc32_polynomial (omega arith) (omega arith))
]

bit_xor-injective : (a b p : ℕ) → bit_xor a p ≡ bit_xor b p → a ≡ b
bit_xor-injective a b p e =
    sym (bit_xor_twice a p).0 ∙ ap (λ x. bit_xor x p) e ∙ (bit_xor_twice b p).0

bit_xor-injective_right : (c a b : ℕ) → bit_xor c a ≡ bit_xor c b → a ≡ b
bit_xor-injective_right c a b e =
    sym (bit_xor_twice c a).1 ∙ ap (bit_xor c) e ∙ (bit_xor_twice c b).1

-- A round loses nothing.
crc_bit-injective : (x y : ℕ) → IsWord x → IsWord y → crc_bit x ≡ crc_bit y → x ≡ y
crc_bit-injective x y p q e = elim (Parity-cases x) [
  | inl even ↦ elim (Parity-cases y) [
    | inl even' ↦ omega (arith, crc_bit_even x even, crc_bit_even y even', e)
    | inr odd' ↦ absurd (
        omega
          (arith, crc_bit_even x even, crc_bit_odd y odd', e, polynomial_top (y / 2) (omega arith)))
  ]
  | inr odd ↦ elim (Parity-cases y) [
    | inl even' ↦ absurd (
        omega
          (arith, crc_bit_odd x odd, crc_bit_even y even', e, polynomial_top (x / 2) (omega arith)))
    | inr odd' ↦ omega (
      arith,
      bit_xor-injective (x / 2) (y / 2) crc32_polynomial
          (sym (crc_bit_odd x odd) ∙ e ∙ crc_bit_odd y odd'),
    )
  ]
]

crc_bits-IsWord : (j x : ℕ) → IsWord x → IsWord (crc_bits j x)
unfolding crc_bits
crc_bits-IsWord zero x w = w
crc_bits-IsWord (suc j) x w = crc_bits-IsWord j (crc_bit x) (crc_bit-IsWord x w)

crc_bits-injective : (j x y : ℕ) → IsWord x → IsWord y → crc_bits j x ≡ crc_bits j y → x ≡ y
unfolding crc_bits
crc_bits-injective zero x y p q e = e
crc_bits-injective (suc j) x y p q e =
    crc_bit-injective x y p q
      (crc_bits-injective j (crc_bit x) (crc_bit y) (crc_bit-IsWord x p) (crc_bit-IsWord y q) e)

byte-IsWord : (c b : ℕ) → IsWord c → IsByte b → IsWord (crc_bits 8 (bit_xor c b))
byte-IsWord c b w s = crc_bits-IsWord 8 (bit_xor c b) (bit_xor-IsWord c b w (omega arith))

crc_bytes-IsWord :
    (bytes : List ℕ) (c : ℕ) → All IsByte bytes → IsWord c → IsWord (crc_bytes bytes c)
unfolding crc_bytes
crc_bytes-IsWord [] c h w = w
crc_bytes-IsWord (b ∷ bytes) c h w =
    crc_bytes-IsWord bytes (crc_bits 8 (bit_xor c b)) h.1 (byte-IsWord c b w h.0)

crc_bytes-injective :
    (bytes : List ℕ) (c d : ℕ)
    → All IsByte bytes
    → IsWord c
    → IsWord d
    → crc_bytes bytes c ≡ crc_bytes bytes d
    → c ≡ d
unfolding crc_bytes
crc_bytes-injective [] c d h p q e = e
crc_bytes-injective (b ∷ bytes) c d h p q e =
    let small : IsWord b = omega (arith, h.0) in
    bit_xor-injective c d b (
      crc_bits-injective 8 (bit_xor c b) (bit_xor d b) (bit_xor-IsWord c b p small)
        (bit_xor-IsWord d b q small)
        (crc_bytes-injective bytes (crc_bits 8 (bit_xor c b)) (crc_bits 8 (bit_xor d b)) h.1
          (byte-IsWord c b p h.0) (byte-IsWord d b q h.0) e))

changed_byte :
    (before after : List ℕ) (c a b : ℕ)
    → All IsByte before
    → All IsByte after
    → IsWord c
    → IsByte a
    → IsByte b
    → crc_bytes (before ++ a ∷ after) c ≡ crc_bytes (before ++ b ∷ after) c
    → a ≡ b
unfolding crc_bytes
changed_byte [] after c a b h k w p q e = bit_xor-injective_right c a b (
    crc_bits-injective 8 (bit_xor c a) (bit_xor c b) (bit_xor-IsWord c a w (omega (arith, p)))
      (bit_xor-IsWord c b w (omega (arith, q)))
      (crc_bytes-injective after (crc_bits 8 (bit_xor c a)) (crc_bits 8 (bit_xor c b)) k
        (byte-IsWord c a w p) (byte-IsWord c b w q) e))
changed_byte (x ∷ before) after c a b h k w p q e =
    changed_byte before after (crc_bits 8 (bit_xor c x)) a b h.1 k (byte-IsWord c x w h.0) p q e

-- The checksum detects every change of one byte: two sequences of bytes that differ in one place,
-- and there only, have different checksums.
pub crc32_changed_byte :
    (before after : List ℕ) (a b : ℕ)
    → All IsByte before
    → All IsByte after
    → IsByte a
    → IsByte b
    → a ≢ b
    → crc32 (before ++ a ∷ after) ≢ crc32 (before ++ b ∷ after)
unfolding crc32
crc32_changed_byte before after a b h k p q differ e =
    let start : IsWord (2 ^ 32 - 1) = omega arith in
    differ (
      changed_byte before after (2 ^ 32 - 1) a b h k start p q (
        omega (
          arith,
          e,
          crc_bytes-IsWord (before ++ a ∷ after) (2 ^ 32 - 1)
              (All-append IsByte before (a ∷ after) h (p, k)) start,
          crc_bytes-IsWord (before ++ b ∷ after) (2 ^ 32 - 1)
              (All-append IsByte before (b ∷ after) h (q, k)) start,
        )))
