-- ===== src/Keyboard/Scancode.antt =====
-- What the bits of a scan code say. About the tests of `keyboard_handler` in kernel/keyboard.c.
use kanaos.Prelude.{
  ℕ, ◌/◌, ◌%◌, ◌*◌, ◌<◌, ◌≡◌, refl, true, ◌&&◌, arith, ◌==◌, bit_and, bit_or, holds_below,
  holds_below_lem,
}

plain_table :
    holds_below (λ s. (bit_and s 0x7f == s % 128) && (bit_and s 0x80 == s / 128 * 128)) 256 ≡ true
unfolding holds_below
plain_table = refl

extended_table :
    holds_below
      (λ s.
        (bit_and (bit_or s 0xe000) 0x7f == s % 128)
        && (bit_and (bit_or s 0xe000) 0x80 == s / 128 * 128))
      256
    ≡ true
unfolding holds_below
extended_table = refl

pub plain_bits : (s : ℕ) → s < 256 → (bit_and s 0x7f ≡ s % 128) × (bit_and s 0x80 ≡ s / 128 * 128)
plain_bits s h = ground (arith, holds_below_lem _ s plain_table h)

pub extended_bits :
    (s : ℕ)
    → s < 256
    → (bit_and (bit_or s 0xe000) 0x7f ≡ s % 128) × (bit_and (bit_or s 0xe000) 0x80 ≡ s / 128 * 128)
extended_bits s h = ground (arith, holds_below_lem _ s extended_table h)
