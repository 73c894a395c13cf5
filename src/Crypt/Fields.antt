-- ===== src/Crypt/Fields.antt =====
-- The two fields of `data_size`: a size of twelve digits and the padding above it.
use Prim.Native.Nat.{max, min}
use syncscribe.Common.{
  ℕ, zero, suc, ◌+◌, ◌*◌, ◌/◌, ◌%◌, ◌≤◌, ◌<◌, ◌≡◌, ap, ap₂, ◌∙◌, arith, bit_and, bit_or, bit_and-le,
}
use syncscribe.Wire.{packet_data_size}
use syncscribe.Crypt.Digits.{bit_and-IsDigitwise, bit_or-IsDigitwise, bit_and-zero, bit_or-zero}
use syncscribe.Crypt.Packets.{set_packet_size}

-- q with k zeros behind it, and a number of k ones.
abbrev shifted : ℕ → ℕ → ℕ
shifted zero q = q
shifted (suc k) q = 2 * shifted k q

abbrev ones : ℕ → ℕ
ones zero = 0
ones (suc k) = 2 * ones k + 1

bit_or-shifted : (k q r : ℕ) → r ≤ ones k → bit_or (shifted k q) r ≡ shifted k q + r
bit_or-shifted zero q r h =
    let none_left : r ≡ 0 = omega arith in rw none_left (bit_or-zero q ∙ omega arith)
bit_or-shifted (suc k) q r h =
    let half : shifted (suc k) q / 2 ≡ shifted k q = omega arith in
    bit_or-IsDigitwise (shifted (suc k) q) r
    ∙ ap (λ x. bit_or x (r / 2) * 2 + max (shifted (suc k) q % 2) (r % 2)) half
    ∙ omega (arith, bit_or-shifted k q (r / 2) (omega arith))

-- The digits below the mask's are kept.
bit_and-ones : (k q r : ℕ) → r ≤ ones k → bit_and (shifted k q + r) (ones k) ≡ r
bit_and-ones zero q r h = bit_and-zero (q + r) ∙ omega arith
bit_and-ones (suc k) q r h =
    let half : (shifted (suc k) q + r) / 2 ≡ shifted k q + r / 2 = omega arith in
    let mask : ones (suc k) / 2 ≡ ones k = omega arith in
    bit_and-IsDigitwise (shifted (suc k) q + r) (ones (suc k))
    ∙ ap₂ (λ x y. bit_and x y * 2 + min ((shifted (suc k) q + r) % 2) (ones (suc k) % 2)) half mask
    ∙ omega (arith, bit_and-ones k q (r / 2) (omega arith))

pub packet_data_size-lt : (x : ℕ) → packet_data_size x < 4096
packet_data_size-lt x = omega (arith, bit_and-le x 0x0fff)

packet_data_size_lem : (x : ℕ) → x < 4096 → packet_data_size x ≡ x
packet_data_size_lem x h =
    ap (λ y. bit_and y 0x0fff) {y = shifted 12 0 + x} (omega arith)
    ∙ bit_and-ones 12 0 x (omega arith)

pub set_packet_size_lem :
    (size pad : ℕ) → size < 4096 → set_packet_size size pad ≡ pad * 4096 + size
unfolding set_packet_size
set_packet_size_lem size pad h =
    ap (bit_or (pad * 4096)) (packet_data_size_lem size h)
    ∙ ap (λ y. bit_or y size) {y = shifted 12 pad} (omega arith)
    ∙ bit_or-shifted 12 pad size (omega arith)
    ∙ omega arith

-- The size is read as it was set.
pub packet_data_size-set_packet_size :
    (size pad : ℕ) → size < 4096 → packet_data_size (set_packet_size size pad) ≡ size
packet_data_size-set_packet_size size pad h =
    ap packet_data_size (set_packet_size_lem size pad h)
    ∙ ap (λ y. bit_and y 0x0fff) {y = shifted 12 pad + size} (omega arith)
    ∙ bit_and-ones 12 pad size (omega arith)
