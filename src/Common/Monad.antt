-- ===== src/Common/Monad.antt =====
-- Steps that may be undefined behaviour: `none` is a read or a write outside of an object. A
-- property of such a step is that it yields a value, and of what it yields.
use Prim.Native.Nat.{ℕ, ◌<◌}
use mathlib.Core.Path.{◌≡◌, refl, sym, subst}
use mathlib.Core.List.{List}
use mathlib.Core.Bool.{Bool, true, false}
use mathlib.Core.Option.{Option, none, some}
use syncscribe.Common.Tests.{if◌then◌else◌}
use syncscribe.Common.Lists.{length, get_elem?, get_elem?_of_lt}

infixl 5 ◌>>=◌
abbrev pub ◌>>=◌ {ℓ κ} : {A : Type ℓ} {B : Type κ} → Option A → (A → Option B) → Option B
none >>= f = none
some a >>= f = f a

pub data Yields {A : Type 0} (P : A → Type 0) : Option A → Type 0 where
  yields : (a : A) → P a → Yields P (some a)

module _ {A : Type 0} {P : A → Type 0} where
  -- Some step, then one that goes on from what it yields.
  pub bind :
      {B : Type 0} {Q : B → Type 0} {m : Option A} (f : A → Option B)
      → Yields P m
      → ((a : A) → P a → Yields Q (f a))
      → Yields Q (m >>= f)
  bind f (yields a p) k = k a p

  value_of : {a : A} → Yields P (some a) → P a
  value_of (yields a p) = p

module _ {A : Type 0} {P : A → Type 0} where
  -- Two properties of one step.
  pub Yields-both :
      {Q : A → Type 0} {m : Option A} → Yields P m → Yields Q m → Yields (λ a. P a × Q a) m
  Yields-both (yields a p) k = yields a (p, value_of k)

  pub weaken : {Q : A → Type 0} {m : Option A} → Yields P m → ((a : A) → P a → Q a) → Yields Q m
  weaken (yields a p) k = yields a (k a p)

  -- Yielding as a witness and an equation.
  pub Yields-some : {m : Option A} → Yields P m → (a : A) × (m ≡ some a) × P a
  Yields-some (yields a p) = (a, refl, p)

  pub Yields-of_eq : {m : Option A} {a : A} → m ≡ some a → P a → Yields P m
  Yields-of_eq {a} e p = subst (Yields P) (sym e) (yields a p)

  pub Yields-if :
      (b : Bool) (m n : Option A)
      → (b ≡ true → Yields P m)
      → (b ≡ false → Yields P n)
      → Yields P (if b then m else n)
  Yields-if true m n h k = h refl
  Yields-if false m n h k = k refl

pub Yields-get :
    {A : Type 0} (xs : List A) (i : ℕ)
    → i < length xs
    → Yields (λ a. get_elem? xs i ≡ some a) (get_elem? xs i)
Yields-get xs i h = let (a, e) = get_elem?_of_lt xs i h in Yields-of_eq e e

-- What is yielded has the property.
pub Yields-value :
    {A : Type 0} {P : A → Type 0} {m : Option A} {a : A} → Yields P m → m ≡ some a → P a
Yields-value {P} k e = value_of (subst (Yields P) e k)
