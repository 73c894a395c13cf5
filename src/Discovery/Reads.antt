-- ===== src/Discovery/Reads.antt =====
-- Which datagrams are answered, and how an address and a port are read from one.
use syncscribe.Common.{
  ℕ, zero, suc, ◌+◌, ◌-◌, ◌*◌, ◌/◌, ◌%◌, ◌^◌, ◌<◌, ◌≡◌, ◌≢◌, refl, ap, ◌∙◌, List, [], ◌∷◌, ◌++◌,
  true, false, some, arith, ltb, le→leb, lt→ltb, ◌==◌, ==_ne, inl, inr, Bool-cases, length, All,
  length-append, append_assoc,
}
use syncscribe.Text.{digits, c_string, starts, find_text, decimal}
use syncscribe.Text.Search.{IsText, starts-append, c_string-append, find_text_there}
use syncscribe.Discovery.{field_name, asks_for, copy_address, read_port, is_found}

-- The text starts with `line` and names the servers after it.
pub record Names (line text : List ℕ) : Type 0 where
  pub before : List ℕ
  pub after : List ℕ
  pub parts : text ≡ line ++ (before ++ (field_name ++ after))

-- A text that starts as asked and names the servers is accepted.
pub asks_for_named :
    (line text more rest : List ℕ)
    → Names line text
    → IsText text
    → c_string more ≡ some rest
    → asks_for line (length text) (text ++ more) ≡ some true
unfolding asks_for
asks_for_named line text more rest n h there =
    rw (few, begins, c_string-append text rest more h there) (ap (λ o. some (is_found o)) named.1)
  where
    few : ltb (length text) (length line) ≡ false
    few =
        ground (arith, ap length n.parts, length-append line (n.before ++ (field_name ++ n.after)))

    begins : starts line (text ++ more) ≡ true
    begins =
        rw (n.parts, append_assoc line (n.before ++ (field_name ++ n.after)) more)
          (starts-append line _)

    named : (i : ℕ) × (find_text field_name (text ++ rest) ≡ some i)
    named =
        let (i, f) =
          find_text_there field_name (line ++ n.before) (n.after ++ rest) (omega arith) in
        (
          i,
          ap (find_text field_name) {x = text ++ rest}
                {y = (line ++ n.before) ++ (field_name ++ (n.after ++ rest))}
                (simp (n.parts, append_assoc))
              ∙ f,
        )

read_port-digit :
    (k p : ℕ) (rest : List ℕ)
    → k < 10
    → p * 10 + k < 2 ^ 31
    → read_port ((b'0' + k) ∷ rest) p ≡ read_port rest (p * 10 + k)
unfolding read_port
read_port-digit k p rest h lt =
    let same : p * 10 + (b'0' + k - b'0') ≡ p * 10 + k = omega arith in
    rw
      (
        le→leb b'0' (b'0' + k) (omega arith),
        le→leb (b'0' + k) b'9' (omega arith),
        read_port,
        lt→ltb (p * 10 + (b'0' + k - b'0')) (2 ^ 31) (omega arith),
      )
      (ap (read_port rest) same)

-- The digits of a number are read as the number.
read_port-digits :
    (fuel n : ℕ) (rest : List ℕ)
    → n < fuel
    → n < 2 ^ 31
    → read_port (digits fuel n rest) 0 ≡ read_port rest n
unfolding digits
read_port-digits zero n rest h lt = elim h [ ]
read_port-digits (suc fuel) n rest h lt = elim (Bool-cases (n / 10 == 0)) [
  | inl last ↦
      let same : 0 * 10 + n % 10 ≡ n = ground arith in
      rw (last, digits)
        (read_port-digit (n % 10) 0 rest (omega arith) (omega arith) ∙ ap (read_port rest) same)
  | inr more ↦
      let same : n / 10 * 10 + n % 10 ≡ n = omega arith in
      rw (more, digits)
        (read_port-digits fuel (n / 10) ((b'0' + n % 10) ∷ rest) (ground arith) (omega arith)
          ∙ read_port-digit (n % 10) (n / 10) rest (omega arith) (omega arith)
          ∙ ap (read_port rest) same)
]

-- An address without a colon is copied as a whole.
pub copy_address_lem :
    (rounds : ℕ) (a rest : List ℕ)
    → length a < rounds
    → All (λ x. x ≢ b':') a
    → copy_address rounds (a ++ b':' ∷ rest) ≡ some (a, b':' ∷ rest)
unfolding copy_address
copy_address_lem zero a rest h clean = elim h [ ]
copy_address_lem (suc rounds) [] rest h clean = refl
copy_address_lem (suc rounds) (x ∷ a) rest h clean =
    rw (==_ne x b':' clean.0, copy_address, copy_address_lem rounds a rest (omega arith) clean.1)

digits-append :
    (fuel n : ℕ) (rest more : List ℕ) → digits fuel n rest ++ more ≡ digits fuel n (rest ++ more)
unfolding digits
digits-append zero n rest more = refl
digits-append (suc fuel) n rest more = elim (Bool-cases (n / 10 == 0)) [
  | inl last ↦ rw (last, digits)
  | inr on ↦ rw (on, digits) (digits-append fuel (n / 10) ((b'0' + n % 10) ∷ rest) more)
]

pub read_port-decimal :
    (n : ℕ) (rest : List ℕ) → n < 2 ^ 31 → read_port (decimal n ++ rest) 0 ≡ read_port rest n
unfolding decimal
read_port-decimal n rest h =
    rw (digits-append (n + 1) n [] rest) (read_port-digits (n + 1) n rest (omega arith) h)
