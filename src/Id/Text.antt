-- ===== src/Id/Text.antt =====
-- Names and identifiers: what `syncs_idstr` writes, and how `syncs_idcmp_str` and
-- `syncs_stridcpy` read it back.
use syncscribe.Common.{
  memcpy, some, none, inl, inr, le→leb, Bool-cases, if◌then◌else◌, ℕ, zero, suc, ◌≤◌, ◌<◌, ◌≡◌,
  refl, sym, ap, ◌∙◌, List, [], ◌∷◌, ◌++◌, arith, leb, length, take, drop, replicate, All, IsByte,
  length-append, length-drop, All-append, All-replicate, All-drop,
}
use syncscribe.Id.{idstr, copy_str, idcmp_str, idcmp_str_from, stridcpy}
use syncscribe.Id.Compare.{IsId}

-- A byte of a name: no terminator stands before the end.
abbrev pub IsChar : ℕ → Type 0
IsChar c = (0 < c) × (c < 256)

length-copy_str-le : (n : ℕ) (b : List ℕ) → length (copy_str n b) ≤ n
unfolding copy_str
length-copy_str-le zero b = omega arith
length-copy_str-le (suc n) [] = omega arith
length-copy_str-le (suc n) (x ∷ b) = ground (arith, length-copy_str-le n b)

copy_str-IsByte : (n : ℕ) (b : List ℕ) → All IsChar b → All IsByte (copy_str n b)
unfolding copy_str
copy_str-IsByte zero b h = tt
copy_str-IsByte (suc n) [] h = (omega arith, tt)
copy_str-IsByte (suc n) (x ∷ b) h = ground (arith, copy_str-IsByte n b h.1)

zeroes : List ℕ
zeroes = replicate 32 0

-- `syncs_idstr` fills a whole identifier of 32 bytes, whatever the length of the name.
pub idstr-IsId : (name : List ℕ) → All IsChar name → IsId (idstr name)
unfolding idstr zeroes
idstr-IsId name h =
    let w = copy_str 31 name in
    record {
      size = omega (
        arith,
        length-append w (drop (length w) zeroes),
        length-drop (length w) zeroes,
        length-copy_str-le 31 name,
      );
      bytes =
          All-append IsByte w (drop (length w) zeroes) (copy_str-IsByte 31 name h)
            (All-drop IsByte (length w) zeroes (All-replicate IsByte 32 0 (omega arith)));
    }

-- Comparing what was copied over zeroes: equal, if the name ended within the rounds.
idcmp_str_from-copy_str :
    (n : ℕ) (b : List ℕ)
    → All IsChar b
    → idcmp_str_from n (copy_str n b ++ drop (length (copy_str n b)) (replicate (suc n) 0)) b
      ≡ leb (length b) n
unfolding idcmp_str_from copy_str
idcmp_str_from-copy_str zero [] h = ground arith
idcmp_str_from-copy_str zero (x ∷ b) h = ground arith
idcmp_str_from-copy_str (suc n) [] h = ground arith
idcmp_str_from-copy_str (suc n) (x ∷ b) h = ground (arith, h.0, idcmp_str_from-copy_str n b h.1)

-- A name is recognised in the identifier made from it exactly if it has at most 31 characters: a
-- longer name is cut off by `syncs_idstr`, and `syncs_idcmp_str` then tells the two apart.
pub idcmp_str-idstr :
    (name : List ℕ) → All IsChar name → idcmp_str (idstr name) name ≡ leb (length name) 31
unfolding idcmp_str idstr
idcmp_str-idstr name h = idcmp_str_from-copy_str 31 name h

take-nil : (n : ℕ) → take {A = ℕ} n [] ≡ []
take-nil zero = refl
take-nil (suc n) = refl

copy_str-take : (n : ℕ) (b : List ℕ) → All IsChar b → copy_str n b ≡ take n (b ++ 0 ∷ [])
unfolding copy_str
copy_str-take zero b h = refl
copy_str-take (suc n) [] h = ap (λ t. 0 ∷ t) (sym (take-nil n))
copy_str-take (suc n) (x ∷ b) h = ground (arith, h.0, copy_str-take n b h.1)

copy_str_twice :
    (n : ℕ) (b rest : List ℕ) → All IsChar b → copy_str n (copy_str n b ++ rest) ≡ copy_str n b
unfolding copy_str
copy_str_twice zero b rest h = refl
copy_str_twice (suc n) [] rest h = refl
copy_str_twice (suc n) (x ∷ b) rest h = ground (arith, h.0, copy_str_twice n b rest h.1)

take-length : (xs : List ℕ) → take (length xs) xs ≡ xs
take-length [] = refl
take-length (x ∷ xs) = ap (λ t. x ∷ t) (take-length xs)

memcpy_whole :
    (a v : List ℕ)
    → memcpy a v (length v)
      ≡ (if leb (length v) (length a) then some (v ++ drop (length v) a) else none)
unfolding syncscribe.Common.memcpy
memcpy_whole a v = elim (Bool-cases (leb (length v) (length a))) [
  | inl room ↦ rw (room, le→leb (length v) (length v) (omega arith)) (rw (take-length v) refl)
  | inr short ↦ rw short refl
]

-- Copying the identifier of a name out again gives the name and its terminator, but the first 31
-- characters only: of a name of 31 characters or more, with no terminator. Where the memory is
-- shorter than what is written, it is overrun.
pub stridcpy-idstr :
    (name a : List ℕ)
    → All IsChar name
    → let written = take 31 (name ++ 0 ∷ []) in
      stridcpy a (idstr name) ≡ (
        if leb (length written) (length a) then some (written ++ drop (length written) a) else none)
unfolding stridcpy idstr
stridcpy-idstr name a h =
    let w = copy_str 31 name in
    ap (λ v. memcpy a v (length v))
      (copy_str_twice 31 name (drop (length w) (replicate 32 0)) h ∙ copy_str-take 31 name h)
    ∙ memcpy_whole a (take 31 (name ++ 0 ∷ []))
