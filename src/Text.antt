-- ===== src/Text.antt =====
-- The functions of the standard library on text that discovery and the programs call: `strlen`,
-- `memcmp`, `strstr`, `strncpy`, `snprintf` with `%s` and `%d`, `isdigit`. Text is the list of its
-- bytes, a C string in memory the bytes before the first 0.
pub mod Search
pub mod Decimal
use Prim.Native.Char.{code}
use Prim.Native.String.{String}
use syncscribe.Common.{
  ℕ, zero, suc, ◌+◌, ◌-◌, ◌*◌, ◌/◌, ◌%◌, ◌≤◌, List, [], ◌∷◌, ◌++◌, Bool, true, false, ◌&&◌, Option,
  none, some, leb, ltb, ◌==◌, if◌then◌else◌, length, take, drop, ◌>>=◌,
}

abbrev pub codes : String → List ℕ
codes String.[] = []
codes (String.◌∷◌ c s) = code c ∷ codes s

-- The string that starts a memory. `none`: no terminator, and a reader runs past the end.
unfoldable pub c_string : List ℕ → Option (List ℕ)
c_string [] = none
c_string (x ∷ xs) = elim (x == 0) [
  | true ↦ some []
  | false ↦ elim (c_string xs) [ none ↦ none | some s ↦ some (x ∷ s) ]
]

-- `memcmp(b, a, strlen(a)) == 0` for a text a, with b of that length at least.
unfoldable pub starts : List ℕ → List ℕ → Bool
starts [] b = true
starts (x ∷ a) [] = false
starts (x ∷ a) (y ∷ b) = (x == y) && starts a b

-- `strstr(b, a)` for a text a that is not empty, as an offset in b.
unfoldable pub find_text : List ℕ → List ℕ → Option ℕ
unfolding starts
find_text a [] = none
find_text a (y ∷ b) = elim (starts a (y ∷ b)) [
  | true ↦ some 0
  | false ↦ elim (find_text a b) [ none ↦ none | some i ↦ some (suc i) ]
]

-- Bytes written at the start of a memory. `none`: they do not fit.
unfoldable pub write_bytes : List ℕ → List ℕ → Option (List ℕ)
write_bytes bytes memory =
    if leb (length bytes) (length memory) then some (bytes ++ drop (length bytes) memory) else none

-- `snprintf(memory, size, …)` of the text: its length, and the memory with as much of the text as
-- fits before the terminator.
unfoldable pub snprintf : ℕ → List ℕ → List ℕ → Option (ℕ × List ℕ)
unfolding write_bytes
snprintf size text memory = do
  memory' ← write_bytes (take (size - 1) text ++ 0 ∷ []) memory
  some (length text, memory')

-- The decimal digits of a number, before those of `rest`; the fuel is the number's own bound.
unfoldable pub digits : ℕ → ℕ → List ℕ → List ℕ
digits zero n rest = rest
digits (suc fuel) n rest = elim (n / 10 == 0) [
  | true ↦ (b'0' + n % 10) ∷ rest
  | false ↦ digits fuel (n / 10) ((b'0' + n % 10) ∷ rest)
]

-- `%d` of a number that is not negative: at most ten digits for an `int`.
unfoldable pub decimal : ℕ → List ℕ
unfolding digits
decimal n = digits (n + 1) n []

abbrev pub is_digit : ℕ → Bool
is_digit c = leb b'0' c && leb c b'9'

-- The n characters that `strncpy` writes: the text and zeros, or the start of the text.
padded : ℕ → List ℕ → List ℕ
padded zero text = []
padded (suc n) [] = 0 ∷ padded n []
padded (suc n) (x ∷ text) = x ∷ padded n text

-- `strncpy(memory, text, n)`.
unfoldable pub strncpy : ℕ → List ℕ → List ℕ → Option (List ℕ)
unfolding write_bytes padded
strncpy n text memory = write_bytes (padded n text) memory
