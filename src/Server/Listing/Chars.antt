-- ===== src/Server/Listing/Chars.antt =====
-- The characters of a list packet's identifier: what is set is read.
use syncscribe.Common.{
  ℕ, zero, suc, ◌+◌, ◌%◌, ◌≤◌, ◌<◌, ◌≡◌, ◌≢◌, refl, ap, ◌∙◌, List, [], ◌∷◌, arith, length, set,
  update, drop, inc8, length-set, length-update,
}
use syncscribe.Types.{Header}
use syncscribe.Id.{char_at}
use syncscribe.Client.Packets.{char_of}
use syncscribe.Server.Listing.{set_char}

char_at-set : (xs : List ℕ) (k v : ℕ) → k < length xs → char_at (drop k (set xs k v)) ≡ v
char_at-set [] k v h = elim h [ ]
char_at-set (x ∷ xs) zero v h = refl
char_at-set (x ∷ xs) (suc k) v h = char_at-set xs k v (omega arith)

char_at-set_ne :
    (xs : List ℕ) (k j v : ℕ) → k ≢ j → char_at (drop j (set xs k v)) ≡ char_at (drop j xs)
char_at-set_ne [] k j v h = refl
char_at-set_ne (x ∷ xs) zero zero v h = absurd (h refl)
char_at-set_ne (x ∷ xs) zero (suc j) v h = refl
char_at-set_ne (x ∷ xs) (suc k) zero v h = refl
char_at-set_ne (x ∷ xs) (suc k) (suc j) v h = char_at-set_ne xs k j v (λ e. h (ap suc e))

-- The numbers in the identifier of a list packet that the rounds of the loop keep.
pub record IsListHeader (n seq : ℕ) (h : Header) : Type 0 where
  pub long : 5 ≤ length h.id
  pub number : char_of 0 h ≡ n
  pub answers : char_of 3 h ≡ seq
  pub open_end : char_of 4 h ≡ 0

pub char_of-set_char :
    (k v : ℕ) (h : Header) → k < length h.id → char_of k (set_char k v h) ≡ v % 256
char_of-set_char k v h lt = char_at-set h.id k (v % 256) lt

pub char_of-set_char_ne :
    (k j v : ℕ) (h : Header) → k ≢ j → char_of j (set_char k v h) ≡ char_of j h
char_of-set_char_ne k j v h ne = char_at-set_ne h.id k j (v % 256) ne

pub set_char-IsListHeader :
    (n seq v size : ℕ) (h : Header)
    → IsListHeader n seq h
    → IsListHeader n seq (record (set_char 2 v h) { data_size = size })
set_char-IsListHeader n seq v size h is = record {
  long = omega (arith, length-set h.id 2 (v % 256), is.long);
  number = char_of-set_char_ne 2 0 v h (omega arith) ∙ is.number;
  answers = char_of-set_char_ne 2 3 v h (omega arith) ∙ is.answers;
  open_end = char_of-set_char_ne 2 4 v h (omega arith) ∙ is.open_end;
}

char_at-update : (xs : List ℕ) → 0 < length xs → char_at (update xs 0 inc8) ≡ inc8 (char_at xs)
char_at-update [] h = elim h [ ]
char_at-update (x ∷ xs) h = refl

char_at-update_ne :
    (xs : List ℕ) (j : ℕ) → char_at (drop (suc j) (update xs 0 inc8)) ≡ char_at (drop (suc j) xs)
char_at-update_ne [] j = refl
char_at-update_ne (x ∷ xs) j = refl

-- `id.c[0]++`.
pub next-IsListHeader :
    (n seq : ℕ) (h : Header)
    → n < 255
    → IsListHeader n seq h
    → IsListHeader (n + 1) seq (record h { id = update h.id 0 inc8 })
next-IsListHeader n seq h lt is = record {
  long = omega (arith, length-update h.id 0 inc8, is.long);
  number = char_at-update h.id (omega (arith, is.long)) ∙ ground (arith, is.number);
  answers = char_at-update_ne h.id 2 ∙ is.answers;
  open_end = char_at-update_ne h.id 3 ∙ is.open_end;
}

-- The header that a list starts with.
pub start-IsListHeader :
    (v sequance : ℕ) (h : Header)
    → 5 ≤ length h.id
    → IsListHeader 0
        (sequance % 256)
        (set_char 4 0 (set_char 3 sequance (set_char 1 v (set_char 0 0 h))))
start-IsListHeader v sequance h long =
    let h0 = set_char 0 0 h in
    let h1 = set_char 1 v h0 in
    let h3 = set_char 3 sequance h1 in
    let l0 : length h0.id ≡ length h.id = length-set h.id 0 0 in
    let l1 : length h1.id ≡ length h.id = length-set h0.id 1 (v % 256) ∙ l0 in
    let l3 : length h3.id ≡ length h.id = length-set h1.id 3 (sequance % 256) ∙ l1 in
    record {
      long = omega (arith, length-set h3.id 4 0, l3, long);
      number =
          char_of-set_char_ne 4 0 0 h3 (omega arith)
          ∙ char_of-set_char_ne 3 0 sequance h1 (omega arith)
          ∙ char_of-set_char_ne 1 0 v h0 (omega arith)
          ∙ char_of-set_char 0 0 h (omega (arith, long));
      answers =
          char_of-set_char_ne 4 3 0 h3 (omega arith)
          ∙ char_of-set_char 3 sequance h1 (omega (arith, l1, long));
      open_end = char_of-set_char 4 0 h3 (omega (arith, l3, long));
    }
