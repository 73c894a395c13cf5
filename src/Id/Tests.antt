-- ===== src/Id/Tests.antt =====
-- Identifiers at concrete names.
use syncscribe.Common.{
  some, ℕ, ◌≡◌, ◌↔◌, refl, true, false, List, [], ◌∷◌, ◌++◌, arith, replicate, All, All-replicate,
  leb, length, take, drop,
}
use syncscribe.Id.{idcmp, idcmp_str, idstr, stridcpy}
use syncscribe.Id.Compare.{IsId, idcmp_iff}
use syncscribe.Id.Text.{IsChar, idstr-IsId, idcmp_str-idstr, stridcpy-idstr}

abbrev name : List ℕ
name = 116 ∷ 101 ∷ 109 ∷ 112 ∷ []

abbrev long_name : List ℕ
long_name = replicate 40 97

name-IsChar : All IsChar name
name-IsChar = (
  (omega arith, omega arith),
  ((omega arith, omega arith), ((omega arith, omega arith), ((omega arith, omega arith), tt))),
)

long_name-IsChar : All IsChar long_name
long_name-IsChar = All-replicate IsChar 40 97 (omega arith, omega arith)

idstr-IsId_example : IsId (idstr name)
idstr-IsId_example = idstr-IsId name name-IsChar

idcmp_iff_example : (idcmp (idstr name) (idstr long_name) ≡ true) ↔ (idstr name ≡ idstr long_name)
idcmp_iff_example =
    idcmp_iff (idstr name) (idstr long_name) (idstr-IsId name name-IsChar)
      (idstr-IsId long_name long_name-IsChar)

idcmp_str-idstr_example : idcmp_str (idstr long_name) long_name ≡ leb (length long_name) 31
idcmp_str-idstr_example = idcmp_str-idstr long_name long_name-IsChar

stridcpy-idstr_example :
    stridcpy (replicate 40 7) (idstr long_name)
    ≡ some (
        take 31 (long_name ++ 0 ∷ [])
        ++ drop (length (take 31 (long_name ++ 0 ∷ []))) (replicate 40 7))
stridcpy-idstr_example = stridcpy-idstr long_name (replicate 40 7) long_name-IsChar

-- The name of a sensor is recognised, a name of 40 characters is not.
recognised : idcmp_str (idstr name) name ≡ true
unfolding idcmp_str idstr
recognised = refl

not_recognised : idcmp_str (idstr long_name) long_name ≡ false
unfolding idcmp_str idstr
not_recognised = refl
