-- ===== src/Net/Complete.antt =====
-- `syncs_blocking_send` sends everything, in order, or reports the failure.
use syncscribe.Common.{
  ℕ, zero, suc, ◌+◌, ◌<◌, ◌≡◌, refl, sym, subst, ap, ◌∙◌, inl, inr, List, [], ◌∷◌, ◌++◌, Option,
  none, some, arith, length, take, drop, Option-cases, append_assoc, append-nil, length-drop,
  take-append-drop,
}
use syncscribe.Types.{ℤ, pos, negsuc}
use syncscribe.Net.{Send, MakesProgress, send_from, blocking_send}

-- What the call promises of a buffer: all of it was taken, in order, and 0 returned; or a shorter
-- start of it, and -1.
pub data Sends (buffer : List ℕ) (result : Option (ℤ × List ℕ)) : Type 0 where
  all : result ≡ some (pos 0, buffer) → Sends buffer result
  partial :
      (taken left : List ℕ)
      → taken ++ left ≡ buffer
      → 0 < length left
      → result ≡ some (negsuc 0, taken)
      → Sends buffer result

module _ (send : Send) where
  stops :
      (fuel round x : ℕ) (left taken : List ℕ)
      → send round (x ∷ left) ≡ none
      → send_from send (suc fuel) round (x ∷ left) taken ≡ some (negsuc 0, taken)
  unfolding send_from
  stops fuel round x left taken h = ground arith

  goes_on :
      (fuel round x n : ℕ) (left taken : List ℕ)
      → send round (x ∷ left) ≡ some n
      → send_from send (suc fuel) round (x ∷ left) taken
        ≡ send_from send fuel (round + 1) (drop n (x ∷ left)) (taken ++ take n (x ∷ left))
  unfolding send_from
  goes_on fuel round x n left taken h = ground arith

  all_sent :
      (fuel round : ℕ) (taken : List ℕ)
      → send_from send (suc fuel) round [] taken ≡ some (pos 0, taken)
  unfolding send_from
  all_sent fuel round taken = refl

  send_from_lem :
      (fuel round : ℕ) (left taken : List ℕ)
      → MakesProgress send
      → length left < fuel
      → Sends (taken ++ left) (send_from send fuel round left taken)
  send_from_lem zero round left taken progress h = elim h [ ]
  send_from_lem (suc fuel) round [] taken progress h =
      all (all_sent fuel round taken ∙ ap (λ t. some (pos 0, t)) (sym (append-nil taken)))
  send_from_lem (suc fuel) round (x ∷ left) taken progress h =
      elim (Option-cases (send round (x ∷ left))) [
        | inl failed ↦
            partial taken (x ∷ left) refl (omega arith) (stops fuel round x left taken failed)
        | inr (n, took) ↦
            let step = progress round (x ∷ left) n (omega arith) took in
            rw (goes_on fuel round x n left taken took) (
              subst
                (λ b. Sends b (
                  send_from send fuel (round + 1) (drop n (x ∷ left)) (taken ++ take n (x ∷ left))))
                (regroup n)
                (send_from_lem fuel (round + 1) (drop n (x ∷ left)) (taken ++ take n (x ∷ left))
                  progress (omega (arith, step, length-drop n (x ∷ left)))))
      ]
    where
      regroup : (n : ℕ) → (taken ++ take n (x ∷ left)) ++ drop n (x ∷ left) ≡ taken ++ (x ∷ left)
      regroup n =
          append_assoc taken (take n (x ∷ left)) (drop n (x ∷ left))
          ∙ ap (λ t. taken ++ t) (take-append-drop n (x ∷ left))

  -- With a socket that makes progress `syncs_blocking_send` terminates: it hands over the whole
  -- buffer in order and returns 0, or a proper start of it and returns -1.
  pub blocking_send-Sends :
      (buffer : List ℕ) → MakesProgress send → Sends buffer (blocking_send send buffer)
  unfolding blocking_send
  blocking_send-Sends buffer progress =
      send_from_lem (length buffer + 1) 0 buffer [] progress (omega arith)
