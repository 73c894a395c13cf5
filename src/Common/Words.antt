-- ===== src/Common/Words.antt =====
-- Machine words: little-endian byte sequences, and the wrap-around of 32-bit counters.
use Prim.Native.Nat.{ℕ, zero, suc, ◌+◌, ◌-◌, ◌*◌, ◌/◌, ◌%◌, ◌^◌, ◌<◌}
use mathlib.Core.Path.{◌≡◌, refl, ap₂}
use mathlib.Core.List.{List, [], ◌∷◌}
use native.Mathlib.Omega.{arith}
use syncscribe.Common.Lists.{length, All}

-- `x++` and `x--` on a 32-bit counter.
abbrev pub inc32 : ℕ → ℕ
inc32 n = (n + 1) % 2 ^ 32

abbrev pub dec32 : ℕ → ℕ
dec32 n = (n + 2 ^ 32 - 1) % 2 ^ 32

-- `x++` on a `char` or `uint8_t`, as its byte.
abbrev pub inc8 : ℕ → ℕ
inc8 n = (n + 1) % 256

abbrev pub IsByte : ℕ → Type 0
IsByte b = b < 256

-- The number that the bytes hold, the least significant first.
unfoldable pub word : List ℕ → ℕ
word [] = 0
word (b ∷ bs) = b + 256 * word bs

-- The n least significant bytes of a number.
unfoldable pub bytes_of : ℕ → ℕ → List ℕ
bytes_of zero x = []
bytes_of (suc n) x = x % 256 ∷ bytes_of n (x / 256)

pub length-bytes_of : (n x : ℕ) → length (bytes_of n x) ≡ n
unfolding bytes_of
length-bytes_of zero x = refl
length-bytes_of (suc n) x = omega (arith, length-bytes_of n (x / 256))

pub bytes_of-IsByte : (n x : ℕ) → All IsByte (bytes_of n x)
unfolding bytes_of
bytes_of-IsByte zero x = tt
bytes_of-IsByte (suc n) x = (omega arith, bytes_of-IsByte n (x / 256))

-- Reading back what was written, for each width of the packed structures.
pub word-bytes_of_one : (x : ℕ) → x < 256 → word (bytes_of 1 x) ≡ x
unfolding word bytes_of
word-bytes_of_one x h = omega arith

pub word-bytes_of_two : (x : ℕ) → x < 2 ^ 16 → word (bytes_of 2 x) ≡ x
unfolding word bytes_of
word-bytes_of_two x h = omega arith

pub word-bytes_of_four : (x : ℕ) → x < 2 ^ 32 → word (bytes_of 4 x) ≡ x
unfolding word bytes_of
word-bytes_of_four x h = omega arith

pub word-bytes_of_eight : (x : ℕ) → x < 2 ^ 64 → word (bytes_of 8 x) ≡ x
unfolding word bytes_of
word-bytes_of_eight x h = omega arith

-- Equally many bytes hold the same number only if they are the same.
pub word-injective :
    (xs ys : List ℕ)
    → length xs ≡ length ys
    → All IsByte xs
    → All IsByte ys
    → word xs ≡ word ys
    → xs ≡ ys
unfolding word
word-injective [] [] l p q e = refl
word-injective [] (b ∷ ys) l p q e = absurd (omega arith)
word-injective (a ∷ xs) [] l p q e = absurd (omega arith)
word-injective (a ∷ xs) (b ∷ ys) l p q e =
    ap₂ ◌∷◌ (omega (arith, p.0, q.0))
      (word-injective xs ys (omega arith) p.1 q.1 (omega (arith, p.0, q.0)))
