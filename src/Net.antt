-- ===== src/Net.antt =====
-- libsyncs/syncs-net-common.c: `syncs_blocking_send`. The `send` of the system is a parameter.
pub mod Complete
pub mod Sockets
mod Tests
use syncscribe.Common.{
  ℕ, zero, suc, ◌+◌, ◌-◌, ◌≤◌, ◌<◌, min, ◌≡◌, refl, ap, ◌∙◌, ◌⊎◌, inl, inr, List, [], ◌∷◌, ◌++◌,
  Option, none, some, arith, ◌==◌, if◌then◌else◌, ==_ne, length, take, drop, Option-cases,
}
use syncscribe.Types.{ℤ, pos, negsuc}

-- A send of the bytes given, in the round given: `none` for -1, else how many bytes it took.
abbrev pub Send : Type 0
Send = ℕ → List ℕ → Option ℕ

-- POSIX send: of a non-empty buffer it takes at least one byte, and no more than there are.
abbrev pub MakesProgress : Send → Type 0
MakesProgress send =
    (round : ℕ) (buffer : List ℕ) (n : ℕ)
    → 0 < length buffer
    → send round buffer ≡ some n
    → (0 < n) × (n ≤ length buffer)

module _ (send : Send) where
  -- The loop, on fuel, from the bytes still to send. The result is the return code and the bytes
  -- that the socket took; `none` that the fuel ran out.
  send_from : ℕ → ℕ → List ℕ → List ℕ → Option (ℤ × List ℕ)
  send_from zero round buffer taken = none
  send_from (suc fuel) round buffer taken =
      if length buffer == 0 then some (pos 0, taken) else elim (send round buffer) [
        | none ↦ some (negsuc 0, taken)
        | some n ↦ send_from fuel (round + 1) (drop n buffer) (taken ++ take n buffer)
      ]

  -- `syncs_blocking_send`, with fuel for one round a byte.
  pub blocking_send : List ℕ → Option (ℤ × List ℕ)
  blocking_send buffer = send_from (length buffer + 1) 0 buffer []
