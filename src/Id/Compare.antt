-- ===== src/Id/Compare.antt =====
-- `syncs_idcmp` decides equality, and what marking a slot free does to its identifier.
use syncscribe.Common.{
  ℕ, zero, suc, ◌+◌, ◌≤◌, ◌≡◌, refl, sym, ap, ap₂, ◌∙◌, ◌↔◌, List, [], ◌∷◌, ◌++◌, true, arith,
  length, take, drop, replicate, All-replicate, All, IsByte, word, take-append-drop, length-take,
  length-drop, All-append, All-take, All-drop,
}
use syncscribe.Common.Words.{word-injective}
use syncscribe.Types.{SyncsId, id_size}
use syncscribe.Id.{idcmp, is_free, mark_free}

-- A `syncsid_t`: 32 characters.
pub record IsId (id : SyncsId) : Type 0 where
  pub size : length id ≡ id_size
  pub bytes : All IsByte id

drop-nil : (k : ℕ) → drop {A = ℕ} k [] ≡ []
drop-nil zero = refl
drop-nil (suc k) = refl

drop-drop : (n m : ℕ) (xs : List ℕ) → drop m (drop n xs) ≡ drop (n + m) xs
drop-drop n m [] = rw (drop-nil n, drop-nil m, drop-nil (n + m))
drop-drop zero m (x ∷ xs) = ap (λ k. drop k (x ∷ xs)) (omega arith)
drop-drop (suc n) m (x ∷ xs) =
    drop-drop n m xs ∙ ap (λ k. drop k (x ∷ xs)) {x = suc (n + m)} (omega arith)

drop_all : (n : ℕ) (xs : List ℕ) → length xs ≤ n → drop n xs ≡ []
drop_all zero [] h = refl
drop_all zero (x ∷ xs) h = absurd (omega arith)
drop_all (suc n) [] h = refl
drop_all (suc n) (x ∷ xs) h = drop_all n xs (omega arith)

-- One word equal and the rest equal.
block :
    (a b : List ℕ) (n : ℕ)
    → n + 8 ≤ 32
    → IsId a
    → IsId b
    → word (take 8 (drop n a)) ≡ word (take 8 (drop n b))
    → drop (n + 8) a ≡ drop (n + 8) b
    → drop n a ≡ drop n b
block a b n h p q e rest =
    sym (take-append-drop 8 (drop n a))
    ∙ ap₂ ◌++◌ first (drop-drop n 8 a ∙ rest ∙ sym (drop-drop n 8 b))
    ∙ take-append-drop 8 (drop n b)
  where
    first : take 8 (drop n a) ≡ take 8 (drop n b)
    first =
        word-injective (take 8 (drop n a)) (take 8 (drop n b))
          (omega (
            arith,
            length-take 8 (drop n a),
            length-take 8 (drop n b),
            length-drop n a,
            length-drop n b,
            p.size,
            q.size,
          ))
          (All-take IsByte 8 (drop n a) (All-drop IsByte n a p.bytes))
          (All-take IsByte 8 (drop n b) (All-drop IsByte n b q.bytes)) e

-- On identifiers of 32 characters `syncs_idcmp` answers 1 exactly when they are equal.
pub idcmp_iff : (a b : SyncsId) → IsId a → IsId b → (idcmp a b ≡ true) ↔ (a ≡ b)
unfolding idcmp
idcmp_iff a b p q = (equal, λ e. rw e (same b))
  where
    same : (x : SyncsId) → idcmp x x ≡ true
    same x = ground arith

    words :
        idcmp a b ≡ true
        → (word (take 8 a) ≡ word (take 8 b))
          × (word (take 8 (drop 8 a)) ≡ word (take 8 (drop 8 b)))
          × (word (take 8 (drop 16 a)) ≡ word (take 8 (drop 16 b)))
          × (word (take 8 (drop 24 a)) ≡ word (take 8 (drop 24 b)))
    words h = ground arith

    equal : idcmp a b ≡ true → a ≡ b
    equal h =
        let w = words h in
        block a b 0 (omega arith) p q w.0 (
          block a b 8 (omega arith) p q w.1 (
            block a b 16 (omega arith) p q w.2 (
              block a b 24 (omega arith) p q w.3 (
                drop_all 32 a (omega (arith, p.size))
                ∙ sym (drop_all 32 b (omega (arith, q.size)))))))

pub idcmp_self : (x : SyncsId) → idcmp x x ≡ true
unfolding idcmp
idcmp_self x = ground arith

-- A slot that has been marked is free.
pub is_free-mark_free : (id : SyncsId) → is_free (mark_free id) ≡ true
unfolding is_free mark_free word
is_free-mark_free id = refl

pub mark_free-IsId : (id : SyncsId) → IsId id → IsId (mark_free id)
unfolding mark_free
mark_free-IsId id p = record {
  size = omega (arith, length-drop 8 id, p.size);
  bytes =
      All-append IsByte (replicate 8 255) (drop 8 id) (All-replicate IsByte 8 255 (omega arith))
        (All-drop IsByte 8 id p.bytes);
}

pub idcmp-is_free : (a b : SyncsId) → idcmp a b ≡ true → is_free a ≡ is_free b
unfolding idcmp is_free
idcmp-is_free a b h = ground arith
