-- ===== src/Stdlib/Bcd.antt =====
-- Packed decimal: two digits of four bits. About `bcd_to_bin` and `bin_to_bcd` of lib/stdlib.c.
use kanaos.Prelude.{
  ℕ, ◌+◌, ◌*◌, ◌/◌, ◌%◌, ◌≤◌, ◌<◌, ◌≡◌, ◌^◌, refl, true, arith, ◌==◌, ==_iff, bit_and, holds_below,
  holds_below_lem,
}
use kanaos.Stdlib.{bcd_to_bin, bin_to_bcd}

-- Both decimal digits of a byte are at most nine.
abbrev pub IsBcd : ℕ → Type 0
IsBcd b = (b / 16 ≤ 9) × (b % 16 ≤ 9)

low_digit_table : holds_below (λ b. bit_and b 0xf == b % 16) 256 ≡ true
unfolding holds_below
low_digit_table = refl

low_digit : (b : ℕ) → b < 256 → bit_and b 0xf ≡ b % 16
low_digit b h = (==_iff _ _).0 (holds_below_lem _ b low_digit_table h)

-- A number below 100 comes back from its packed form, which has two decimal digits.
pub bcd_to_bin-bin_to_bcd :
    (v : ℕ) → v < 100 → (bcd_to_bin (bin_to_bcd v) ≡ v) × IsBcd (bin_to_bcd v)
unfolding bcd_to_bin bin_to_bcd
bcd_to_bin-bin_to_bcd v h =
    omega (arith, low_digit ((v / 10 * 0x10 + v % 10) % 2 ^ 8) (omega arith))

-- A packed byte is the decimal number of its two digits, below 100, and comes back from it.
pub bin_to_bcd-bcd_to_bin :
    (b : ℕ)
    → IsBcd b
    → (bcd_to_bin b ≡ b / 16 * 10 + b % 16) × (bcd_to_bin b < 100) × (bin_to_bcd (bcd_to_bin b) ≡ b)
unfolding bcd_to_bin bin_to_bcd
bin_to_bcd-bcd_to_bin b h = omega (arith, low_digit b (omega arith))
