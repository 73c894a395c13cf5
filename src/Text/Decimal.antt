-- ===== src/Text/Decimal.antt =====
-- The digits of a number.
use syncscribe.Common.{
  ℕ, zero, suc, ◌+◌, ◌/◌, ◌%◌, ◌<◌, ◌≤◌, List, [], ◌∷◌, arith, ◌==◌, length, Bool-cases, inl, inr,
  ◌^◌,
}
use native.Mathlib.Nat.{pow-suc}
use syncscribe.Text.{digits, decimal}
use syncscribe.Text.Search.{IsText}

-- They are no terminators, and few.
digits-IsText : (fuel n : ℕ) (rest : List ℕ) → IsText rest → IsText (digits fuel n rest)
unfolding digits
digits-IsText zero n rest h = h
digits-IsText (suc fuel) n rest h = elim (Bool-cases (n / 10 == 0)) [
  | inl last ↦ rw (last, digits) (omega arith, h)
  | inr more ↦
      rw (more, digits) (digits-IsText fuel (n / 10) ((b'0' + n % 10) ∷ rest) (omega arith, h))
]

pub decimal-IsText : (n : ℕ) → IsText (decimal n)
unfolding decimal
decimal-IsText n = digits-IsText (n + 1) n [] tt

length-digits :
    (places fuel n : ℕ) (rest : List ℕ)
    → n < 10 ^ suc places
    → length (digits fuel n rest) ≤ suc places + length rest
unfolding digits
length-digits places zero n rest h = omega arith
length-digits zero (suc fuel) n rest h = elim (Bool-cases (n / 10 == 0)) [
  | inl last ↦ rw (last, digits) (omega arith)
  | inr more ↦ absurd (ground arith)
]
length-digits (suc places) (suc fuel) n rest h = elim (Bool-cases (n / 10 == 0)) [
  | inl last ↦ rw (last, digits) (omega arith)
  | inr more ↦
      rw (more, digits)
        (omega (
          arith,
          length-digits places fuel (n / 10) ((b'0' + n % 10) ∷ rest)
              (omega (arith, h, pow-suc 10 (suc places))),
        ))
]

pub length-decimal : (n : ℕ) → n < 2 ^ 31 → length (decimal n) ≤ 10
unfolding decimal
length-decimal n h = omega (arith, length-digits 9 (n + 1) n [] (omega arith))
