-- ===== src/Common/Search.antt =====
-- What the search loop finds, and how a write changes a count.
use Prim.Native.Nat.{ℕ, zero, suc, ◌+◌, ◌≤◌, ◌<◌}
use mathlib.Core.Path.{◌≡◌, refl}
use mathlib.Core.Bool.{Bool, true, false}
use mathlib.Core.List.{List, [], ◌∷◌}
use mathlib.Core.Option.{none, some}
use native.Mathlib.Omega.{arith}
use syncscribe.Common.Tests.{if◌then◌else◌}
use syncscribe.Common.Lists.{length, get_elem?, set, All, find_index, count}

module _ {ℓ} {A : Type ℓ} (p : A → Bool) where
  -- The entry found passes the test.
  pub find_index-some :
      (xs : List A) (i : ℕ)
      → find_index p xs ≡ some i
      → (a : A) × (get_elem? xs i ≡ some a) × (p a ≡ true)
  unfolding find_index
  find_index-some [] i h = cc
  find_index-some (x ∷ xs) zero h = (x, refl, ground arith)
  find_index-some (x ∷ xs) (suc i) h = find_index-some xs i (ground arith)

  pub find_index-none : (xs : List A) → find_index p xs ≡ none → All (λ x. p x ≡ false) xs
  unfolding find_index
  find_index-none [] h = tt
  find_index-none (x ∷ xs) h = (ground arith, find_index-none xs (ground arith))

  pub find_index_of_count_zero : (xs : List A) → count p xs ≡ 0 → find_index p xs ≡ none
  unfolding find_index count
  find_index_of_count_zero [] h = refl
  find_index_of_count_zero (x ∷ xs) h = ground (arith, find_index_of_count_zero xs)

  pub count_of_none : (xs : List A) → find_index p xs ≡ none → count p xs ≡ 0
  unfolding find_index count
  count_of_none [] h = refl
  count_of_none (x ∷ xs) h = ground (arith, count_of_none xs)

  pub find_index-lt-length : (xs : List A) (i : ℕ) → find_index p xs ≡ some i → i < length xs
  unfolding find_index
  find_index-lt-length [] i h = cc
  find_index-lt-length (x ∷ xs) zero h = omega arith
  find_index-lt-length (x ∷ xs) (suc i) h = omega (arith, find_index-lt-length xs i (ground arith))

  -- The search loop is bounded by the number of entries that pass, and they by the entries.
  pub count-le-length : (xs : List A) → count p xs ≤ length xs
  unfolding count
  count-le-length [] = omega arith
  count-le-length (x ∷ xs) = ground (arith, count-le-length xs)

  pub count-set :
      (xs : List A) (i : ℕ) (a v : A)
      → get_elem? xs i ≡ some a
      → count p (set xs i v) + (if p a then 1 else 0) ≡ count p xs + (if p v then 1 else 0)
  unfolding count
  count-set [] i a v h = cc
  count-set (x ∷ xs) zero a v h = ground arith
  count-set (x ∷ xs) (suc i) a v h = ground (arith, count-set xs i a v h)

  -- A write of the first passing entry is found where it was written.
  pub find_index-set :
      (xs : List A) (i : ℕ) (v : A)
      → find_index p xs ≡ none
      → p v ≡ true
      → i < length xs
      → find_index p (set xs i v) ≡ some i
  unfolding find_index
  find_index-set [] i v h e k = elim k [ ]
  find_index-set (x ∷ xs) zero v h e k = ground arith
  find_index-set (x ∷ xs) (suc i) v h e k = ground (arith, find_index-set xs i v)

  -- A write that passes the test alike leaves the search as it was.
  pub find_index-set_same :
      (xs : List A) (i : ℕ) (a v : A)
      → get_elem? xs i ≡ some a
      → p v ≡ p a
      → find_index p (set xs i v) ≡ find_index p xs
  unfolding find_index
  find_index-set_same [] i a v h e = refl
  find_index-set_same (x ∷ xs) zero a v h e = ground arith
  find_index-set_same (x ∷ xs) (suc i) a v h e = ground (arith, find_index-set_same xs i a v h e)

  pub count-set_same :
      (xs : List A) (i : ℕ) (a v : A)
      → get_elem? xs i ≡ some a
      → p v ≡ p a
      → count p (set xs i v) ≡ count p xs
  count-set_same xs i a v h e = ground (arith, count-set xs i a v h)

  pub count-pos :
      (xs : List A) (i : ℕ) (a : A) → get_elem? xs i ≡ some a → p a ≡ true → 0 < count p xs
  unfolding count
  count-pos [] i a h e = cc
  count-pos (x ∷ xs) zero a h e = ground arith
  count-pos (x ∷ xs) (suc i) a h e = ground (arith, count-pos xs i a h e)
