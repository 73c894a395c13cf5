-- ===== src/Text/Search.antt =====
-- Searching and reading texts that are put together.
use syncscribe.Common.{
  ℕ, suc, ◌≡◌, ◌≢◌, refl, List, [], ◌∷◌, ◌++◌, true, some, ==_self, ==_ne, length, All, Bool-cases,
  inl, inr,
}
use syncscribe.Text.{c_string, starts, find_text}

abbrev pub IsText : List ℕ → Type 0
IsText = All (λ x. x ≢ 0)

pub starts-append : (a b : List ℕ) → starts a (a ++ b) ≡ true
unfolding starts
starts-append [] b = refl
starts-append (x ∷ a) b = rw (==_self x, starts-append a b)

-- Before the terminator stands the text, whatever comes after it.
pub c_string-append :
    (text rest more : List ℕ)
    → IsText text
    → c_string more ≡ some rest
    → c_string (text ++ more) ≡ some (text ++ rest)
unfolding c_string
c_string-append [] rest more h e = e
c_string-append (x ∷ text) rest more h e =
    rw (==_ne x 0 h.0, c_string, c_string-append text rest more h.1 e)

-- A text that holds another has it found.
pub find_text_there :
    (needle before after : List ℕ)
    → length needle ≢ 0
    → (i : ℕ) × (find_text needle (before ++ (needle ++ after)) ≡ some i)
unfolding find_text
find_text_there [] before after h = absurd (h refl)
find_text_there (x ∷ needle) [] after h = (0, rw (starts-append (x ∷ needle) after, find_text))
find_text_there (x ∷ needle) (y ∷ before) after h =
    elim (Bool-cases (starts (x ∷ needle) (y ∷ (before ++ ((x ∷ needle) ++ after))))) [
      | inl here ↦ (0, rw (here, find_text))
      | inr later ↦
          let (i, e) = find_text_there (x ∷ needle) before after h in
          (suc i, rw (later, find_text, e))
    ]
