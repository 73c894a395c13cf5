-- ===== src/Crypt/Xor.antt =====
-- Laws of `^` and of `& 1` at variables, from their recursion on binary digits.
use Prim.Native.Nat.{differ}
use syncscribe.Common.{
  ℕ, zero, suc, ◌+◌, ◌*◌, ◌/◌, ◌%◌, ◌^◌, ◌≤◌, ◌<◌, ◌≡◌, refl, ap, ap₂, ◌∙◌, arith, bit_and, bit_xor,
}
use syncscribe.Crypt.Digits.{bit_and-IsDigitwise, bit_xor-IsDigitwise, bit_and-zero}

pub lowest_digit : (a : ℕ) → bit_and a 1 ≡ a % 2
lowest_digit a = omega (arith, bit_and-IsDigitwise a 1, bit_and-zero (a / 2))

differ-lt : (x y : ℕ) → x < 2 → y < 2 → differ x y < 2
differ-lt zero y p q = q
differ-lt (suc zero) zero p q = omega arith
differ-lt (suc zero) (suc zero) p q = omega arith
differ-lt (suc zero) (suc (suc y)) p q = absurd (omega arith)
differ-lt (suc (suc x)) y p q = absurd (omega arith)

differ_twice : (x y : ℕ) → x < 2 → y < 2 → (differ (differ x y) y ≡ x) × (differ x (differ x y) ≡ y)
differ_twice zero zero p q = (refl, refl)
differ_twice zero (suc zero) p q = (refl, refl)
differ_twice (suc zero) zero p q = (refl, refl)
differ_twice (suc zero) (suc zero) p q = (refl, refl)
differ_twice zero (suc (suc y)) p q = absurd (omega arith)
differ_twice (suc zero) (suc (suc y)) p q = absurd (omega arith)
differ_twice (suc (suc x)) y p q = absurd (omega arith)

bit_xor_halves :
    (a b : ℕ)
    → (bit_xor a b / 2 ≡ bit_xor (a / 2) (b / 2)) × (bit_xor a b % 2 ≡ differ (a % 2) (b % 2))
bit_xor_halves a b =
    let small = differ-lt (a % 2) (b % 2) (omega arith) (omega arith) in
    (omega (arith, bit_xor-IsDigitwise a b, small), omega (arith, bit_xor-IsDigitwise a b, small))

-- What is put in twice goes out again.
bit_xor_twice_rounds :
    (n a b : ℕ) → a ≤ n → b ≤ n → (bit_xor (bit_xor a b) b ≡ a) × (bit_xor a (bit_xor a b) ≡ b)
bit_xor_twice_rounds zero zero zero p q = (refl, refl)
bit_xor_twice_rounds zero zero (suc b) p q = absurd (omega arith)
bit_xor_twice_rounds zero (suc a) b p q = absurd (omega arith)
bit_xor_twice_rounds (suc n) a b p q =
    let (left, right) = bit_xor_twice_rounds n (a / 2) (b / 2) (omega arith) (omega arith) in
    let (half, digit) = bit_xor_halves a b in
    let (d, e) = differ_twice (a % 2) (b % 2) (omega arith) (omega arith) in
    let step_left = bit_xor-IsDigitwise (bit_xor a b) b in
    let step_right = bit_xor-IsDigitwise a (bit_xor a b) in
    (
      step_left
          ∙ ap₂ (λ x y. x * 2 + y) (ap (λ x. bit_xor x (b / 2)) half ∙ left)
              (ap (λ x. differ x (b % 2)) digit ∙ d)
          ∙ omega arith,
      step_right
          ∙ ap₂ (λ x y. x * 2 + y) (ap (bit_xor (a / 2)) half ∙ right)
              (ap (differ (a % 2)) digit ∙ e)
          ∙ omega arith,
    )

pub bit_xor_twice : (a b : ℕ) → (bit_xor (bit_xor a b) b ≡ a) × (bit_xor a (bit_xor a b) ≡ b)
bit_xor_twice a b = bit_xor_twice_rounds (a + b) a b (omega arith) (omega arith)

abbrev pub shr : ℕ → ℕ → ℕ
shr zero x = x
shr (suc k) x = shr k (x / 2)

pub shr-bit_xor : (k a b : ℕ) → shr k (bit_xor a b) ≡ bit_xor (shr k a) (shr k b)
shr-bit_xor zero a b = refl
shr-bit_xor (suc k) a b = ap (shr k) (bit_xor_halves a b).0 ∙ shr-bit_xor k (a / 2) (b / 2)

pub shr_word : (x : ℕ) → shr 31 x ≡ x / 2 ^ 31
shr_word x = omega arith
