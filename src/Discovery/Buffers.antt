-- ===== src/Discovery/Buffers.antt =====
-- The buffers that datagrams are received and printed in.
use syncscribe.Common.{
  ℕ, zero, suc, ◌+◌, ◌-◌, ◌≤◌, ◌<◌, ◌≡◌, refl, ap, ◌∙◌, List, [], ◌∷◌, ◌++◌, some, arith, le→leb,
  ◌==◌, inl, inr, subst, Bool-cases, length, take, drop, get_elem?, length-append, length-drop,
  append_assoc,
}
use syncscribe.Text.{c_string, write_bytes, snprintf}
use syncscribe.Discovery.{ssdp_packet_size}

-- A stack buffer of 1500 bytes, the last of them 0.
pub record IsBuffer (b : List ℕ) : Type 0 where
  pub size : length b ≡ ssdp_packet_size
  pub ends : get_elem? b 1499 ≡ some 0

get_elem?-append_right :
    (xs ys : List ℕ) (i : ℕ) → get_elem? (xs ++ ys) (length xs + i) ≡ get_elem? ys i
get_elem?-append_right [] ys i = ap (get_elem? ys) {x = 0 + i} (omega arith)
get_elem?-append_right (x ∷ xs) ys i =
    ap (get_elem? (x ∷ (xs ++ ys))) {x = suc (length xs) + i} {y = suc (length xs + i)}
      (omega arith)
    ∙ get_elem?-append_right xs ys i

get_elem?-drop : (n : ℕ) (xs : List ℕ) (i : ℕ) → get_elem? (drop n xs) i ≡ get_elem? xs (n + i)
get_elem?-drop zero xs i = ap (get_elem? xs) {y = 0 + i} (omega arith)
get_elem?-drop (suc n) [] i = refl
get_elem?-drop (suc n) (x ∷ xs) i =
    get_elem?-drop n xs i ∙ ap (get_elem? (x ∷ xs)) {x = suc (n + i)} {y = suc n + i} (omega arith)

-- A terminator ahead makes a string.
pub c_string_there :
    (b : List ℕ) (i : ℕ) → get_elem? b i ≡ some 0 → (t : List ℕ) × (c_string b ≡ some t)
unfolding c_string
c_string_there [] i h = cc
c_string_there (x ∷ b) zero h = ([], ground arith)
c_string_there (x ∷ b) (suc i) h = elim (Bool-cases (x == 0)) [
  | inl ends ↦ ([], rw (ends, c_string))
  | inr on ↦ let (t, e) = c_string_there b i h in (x ∷ t, rw (on, c_string, e))
]

-- A write of 1499 bytes at most leaves a buffer one, with the bytes at its start.
pub write_bytes-IsBuffer :
    (bytes b : List ℕ)
    → length bytes < ssdp_packet_size
    → IsBuffer b
    → (write_bytes bytes b ≡ some (bytes ++ drop (length bytes) b))
      × IsBuffer (bytes ++ drop (length bytes) b)
unfolding write_bytes
write_bytes-IsBuffer bytes b short h = (
  rw (le→leb (length bytes) (length b) (omega (arith, h.size))),
  record {
    size =
        omega (
          arith,
          length-append bytes (drop (length bytes) b),
          length-drop (length bytes) b,
          h.size,
        );
    ends = at_end;
  },
)
  where
    at_end : get_elem? (bytes ++ drop (length bytes) b) 1499 ≡ some 0
    at_end =
        ap (get_elem? (bytes ++ drop (length bytes) b)) {y = length bytes + (1499 - length bytes)}
          (omega arith)
        ∙ get_elem?-append_right bytes (drop (length bytes) b) (1499 - length bytes)
        ∙ get_elem?-drop (length bytes) b (1499 - length bytes)
        ∙ ap (get_elem? b) {x = length bytes + (1499 - length bytes)} (omega arith)
        ∙ h.ends

-- After the text at the start of a buffer there is a terminator still.
pub rest_of_buffer :
    (bytes b : List ℕ)
    → length bytes < ssdp_packet_size
    → IsBuffer b
    → (t : List ℕ) × (c_string (drop (length bytes) b) ≡ some t)
rest_of_buffer bytes b short h = c_string_there (drop (length bytes) b) (1499 - length bytes) (
    get_elem?-drop (length bytes) b (1499 - length bytes)
    ∙ ap (get_elem? b) {x = length bytes + (1499 - length bytes)} (omega arith)
    ∙ h.ends)

take_whole : (n : ℕ) (xs : List ℕ) → length xs ≤ n → take n xs ≡ xs
take_whole zero [] h = refl
take_whole zero (x ∷ xs) h = absurd (omega arith)
take_whole (suc n) [] h = refl
take_whole (suc n) (x ∷ xs) h = ap (λ t. x ∷ t) (take_whole n xs (omega arith))

-- Printing a text of 1498 bytes at most.
pub snprintf-IsBuffer :
    (text b : List ℕ)
    → length text + 1 < ssdp_packet_size
    → IsBuffer b
    → (rest : List ℕ) × (snprintf ssdp_packet_size text b ≡ some (length text, text ++ rest))
      × IsBuffer (text ++ rest)
unfolding snprintf
snprintf-IsBuffer text b short h =
    let whole = take_whole 1499 text (omega arith) in
    let (e, is) =
      write_bytes-IsBuffer (text ++ 0 ∷ []) b (omega (arith, length-append text (0 ∷ []))) h in
    let rest = 0 ∷ drop (length (text ++ 0 ∷ [])) b in
    let same : (text ++ 0 ∷ []) ++ drop (length (text ++ 0 ∷ [])) b ≡ text ++ rest =
      append_assoc text (0 ∷ []) _ in
    (rest, rw (whole, e) (rw same), subst IsBuffer same is)
