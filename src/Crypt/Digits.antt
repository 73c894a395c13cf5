-- ===== src/Crypt/Digits.antt =====
-- The native `&`, `|` and `^` work digit by digit.
use Prim.Native.Nat.{
  digits, bitwise, differ, min, max, bit_and-bitwise, bit_or-bitwise, bit_xor-bitwise,
}
use syncscribe.Common.{
  ℕ, zero, suc, ◌+◌, ◌-◌, ◌*◌, ◌/◌, ◌%◌, ◌≤◌, ◌≡◌, refl, sym, ap, ◌∙◌, arith, bit_and, bit_or,
  bit_xor, bit_and-le,
}

-- The lowest digit comes from the lowest ones, the rest from the rest.
abbrev pub IsDigitwise : (ℕ → ℕ → ℕ) → (ℕ → ℕ → ℕ) → Type 0
IsDigitwise op f = (a b : ℕ) → op a b ≡ op (a / 2) (b / 2) * 2 + f (a % 2) (b % 2)

module _ (z : ℕ → ℕ) (f : ℕ → ℕ → ℕ) where
  -- Where the number has run out, one more round changes nothing, nor do any k.
  one_more : (n a b : ℕ) → a ≤ n → digits z f (suc n) a b ≡ digits z f n a b
  one_more zero zero b h = refl
  one_more zero (suc a) b h = absurd (omega arith)
  one_more (suc n) zero b h = refl
  one_more (suc n) (suc a) b h =
      ap (λ x. x * 2 + f (suc a % 2) (b % 2)) (one_more n (suc a / 2) (b / 2) (omega arith))

  k_more : (k n a b : ℕ) → a ≤ n → digits z f (k + n) a b ≡ digits z f n a b
  k_more zero n a b h = ap (λ m. digits z f m a b) {x = 0 + n} (omega arith)
  k_more (suc k) n a b h =
      ap (λ m. digits z f m a b) {x = suc k + n} {y = suc (k + n)} (omega arith)
      ∙ one_more (k + n) a b (omega arith)
      ∙ k_more k n a b h

  bitwise-IsDigitwise : ((b : ℕ) → z b ≡ z (b / 2) * 2 + f 0 (b % 2)) → IsDigitwise (bitwise z f) f
  bitwise-IsDigitwise start zero b = start b
  bitwise-IsDigitwise start (suc a) b =
      let spare : a ≡ (a - suc a / 2) + suc a / 2 = omega arith in
      ap (λ x. x * 2 + f (suc a % 2) (b % 2))
        (ap (λ n. digits z f n (suc a / 2) (b / 2)) spare
          ∙ k_more (a - suc a / 2) (suc a / 2) (suc a / 2) (b / 2) (omega arith))

  -- An operation that stands for such a recursion.
  IsDigitwise-of_bitwise :
      (op : ℕ → ℕ → ℕ)
      → ((a b : ℕ) → op a b ≡ bitwise z f a b)
      → ((b : ℕ) → z b ≡ z (b / 2) * 2 + f 0 (b % 2))
      → IsDigitwise op f
  IsDigitwise-of_bitwise op e start a b =
      e a b
      ∙ bitwise-IsDigitwise start a b
      ∙ ap (λ x. x * 2 + f (a % 2) (b % 2)) (sym (e (a / 2) (b / 2)))

pub bit_and-IsDigitwise : IsDigitwise bit_and min
bit_and-IsDigitwise =
    IsDigitwise-of_bitwise (λ b. 0) min bit_and (λ a b. bit_and-bitwise a b) (λ b. omega arith)

pub bit_or-IsDigitwise : IsDigitwise bit_or max
bit_or-IsDigitwise =
    IsDigitwise-of_bitwise (λ b. b) max bit_or (λ a b. bit_or-bitwise a b) (λ b. omega arith)

pub bit_xor-IsDigitwise : IsDigitwise bit_xor differ
bit_xor-IsDigitwise =
    IsDigitwise-of_bitwise (λ b. b) differ bit_xor (λ a b. bit_xor-bitwise a b) (λ b. omega arith)

pub bit_and-zero : (a : ℕ) → bit_and a 0 ≡ 0
bit_and-zero a = omega (arith, bit_and-le a 0)

or_rounds-zero : (n a : ℕ) → a ≤ n → digits (λ b. b) max n a 0 ≡ a
or_rounds-zero zero zero h = refl
or_rounds-zero zero (suc a) h = absurd (omega arith)
or_rounds-zero (suc n) zero h = refl
or_rounds-zero (suc n) (suc a) h = omega (arith, or_rounds-zero n (suc a / 2) (omega arith))

pub bit_or-zero : (a : ℕ) → bit_or a 0 ≡ a
bit_or-zero a = bit_or-bitwise a 0 ∙ or_rounds-zero a a (omega arith)
