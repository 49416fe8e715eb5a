-- ===== src/Prelude/Masks.antt =====
-- Masks of words as arithmetic.
use Prim.Native.Nat.{
  ℕ, zero, suc, ◌+◌, ◌*◌, ◌/◌, ◌%◌, ◌^◌, ◌≤◌, ◌<◌, min, max, bit_and, bit_or, digits,
  bit_and-bitwise, bit_or-bitwise,
}
use mathlib.Core.Path.{◌≡◌, refl, sym, ap, ◌∙◌}
use native.Mathlib.Omega.{arith}

-- The count of digits to go does not matter as long as it is enough.
module _ (end : ℕ → ℕ) (digit : ℕ → ℕ → ℕ) where
  enough_digits : (n m a b : ℕ) → a ≤ n → a ≤ m → digits end digit n a b ≡ digits end digit m a b
  enough_digits zero zero zero b l l' = refl
  enough_digits zero (suc m) zero b l l' = refl
  enough_digits (suc n) zero zero b l l' = refl
  enough_digits (suc n) (suc m) zero b l l' = refl
  enough_digits zero m (suc a) b l l' = absurd (omega (arith, l))
  enough_digits (suc n) zero (suc a) b l l' = absurd (omega (arith, l'))
  enough_digits (suc n) (suc m) (suc a) b l l' =
      ap (λ d. d * 2 + digit (suc a % 2) (b % 2))
        (enough_digits n m (suc a / 2) (b / 2) (omega (arith, l)) (omega (arith, l')))

-- The lowest digit apart.
bit_and-low : (a b : ℕ) → bit_and a b ≡ bit_and (a / 2) (b / 2) * 2 + min (a % 2) (b % 2)
bit_and-low zero b = omega (arith, bit_and-bitwise 0 b, bit_and-bitwise 0 (b / 2))
bit_and-low (suc a) b =
    bit_and-bitwise (suc a) b
    ∙ ap (λ d. d * 2 + min (suc a % 2) (b % 2))
        (enough_digits (λ b. zero) min a (suc a / 2) (suc a / 2) (b / 2) (omega arith) (omega arith)
          ∙ sym (bit_and-bitwise (suc a / 2) (b / 2)))

bit_or-low : (a b : ℕ) → bit_or a b ≡ bit_or (a / 2) (b / 2) * 2 + max (a % 2) (b % 2)
bit_or-low zero b = omega (arith, bit_or-bitwise 0 b, bit_or-bitwise 0 (b / 2))
bit_or-low (suc a) b =
    bit_or-bitwise (suc a) b
    ∙ ap (λ d. d * 2 + max (suc a % 2) (b % 2))
        (enough_digits (λ b. b) max a (suc a / 2) (suc a / 2) (b / 2) (omega arith) (omega arith)
          ∙ sym (bit_or-bitwise (suc a / 2) (b / 2)))

and_zero : (n a : ℕ) → a ≤ n → bit_and a 0 ≡ 0
and_zero n zero l = bit_and-bitwise 0 0
and_zero zero (suc a) l = absurd (omega (arith, l))
and_zero (suc n) (suc a) l =
    omega (arith, bit_and-low (suc a) 0, and_zero n (suc a / 2) (omega (arith, l)))

or_zero : (n a : ℕ) → a ≤ n → bit_or a 0 ≡ a
or_zero n zero l = bit_or-bitwise 0 0
or_zero zero (suc a) l = absurd (omega (arith, l))
or_zero (suc n) (suc a) l =
    omega (arith, bit_or-low (suc a) 0, or_zero n (suc a / 2) (omega (arith, l)))

-- `n` ones, a number moved up by `n` digits, and one moved down.
unfoldable ones : ℕ → ℕ
ones zero = 0
ones (suc n) = ones n + ones n + 1

unfoldable up : ℕ → ℕ → ℕ
up zero b = b
up (suc n) b = up n b + up n b

unfoldable down : ℕ → ℕ → ℕ
down zero a = a
down (suc n) a = down n (a / 2)

unfoldable lows : ℕ → ℕ → ℕ
lows zero a = 0
lows (suc n) a = lows n (a / 2) * 2 + a % 2

and_ones : (n a : ℕ) → bit_and a (ones n) ≡ lows n a
unfolding ones lows
and_ones zero a = and_zero a a (omega arith)
and_ones (suc n) a =
    let half : (ones n + ones n + 1) / 2 ≡ ones n = omega arith in
    bit_and-low a (ones n + ones n + 1)
    ∙ omega (arith, ap (bit_and (a / 2)) half, and_ones n (a / 2))

and_up : (n a b : ℕ) → bit_and a (up n b) ≡ up n (bit_and (down n a) b)
unfolding up down
and_up zero a b = refl
and_up (suc n) a b =
    let half : (up n b + up n b) / 2 ≡ up n b = omega arith in
    bit_and-low a (up n b + up n b) ∙ omega (arith, ap (bit_and (a / 2)) half, and_up n (a / 2) b)

lows_all : (n a : ℕ) → a < up n 1 → lows n a ≡ a
unfolding lows up
lows_all zero a l = omega (arith, l)
lows_all (suc n) a l = omega (arith, lows_all n (a / 2) (omega (arith, l)))

mask_split : (n k a : ℕ) → bit_and a (up n (ones k)) ≡ up n (lows k (down n a))
mask_split n k a = and_up n a (ones k) ∙ ap (up n) (and_ones k (down n a))

up_12 : (b : ℕ) → up 12 b ≡ b * 4096
unfolding up
up_12 b = omega arith

down_12 : (v : ℕ) → down 12 v ≡ v / 4096
unfolding down
down_12 v = omega arith

up_10 : (b : ℕ) → up 10 b ≡ b * 1024
unfolding up
up_10 b = omega arith

down_10 : (v : ℕ) → down 10 v ≡ v / 1024
unfolding down
down_10 v = omega arith

lows_10 : (v : ℕ) → lows 10 v ≡ v % 1024
unfolding lows
lows_10 v = omega arith

up_22 : (b : ℕ) → up 22 b ≡ b * 4194304
unfolding up
up_22 b = up_12 (up 10 b) ∙ ap (λ x. x * 4096) (up_10 b) ∙ omega arith

down_22 : (v : ℕ) → down 22 v ≡ v / 4194304
unfolding down
down_22 v = down_10 (down 12 v) ∙ ap (λ x. x / 1024) (down_12 v) ∙ omega arith

-- The number of a page, of its table, and of its entry there; the place in the page.
pub and_page : (v : ℕ) → v < 2 ^ 32 → bit_and v 0xfffff000 ≡ v / 4096 * 4096
unfolding up ones
and_page v l =
    mask_split 12 20 v
    ∙ ap (up 12) (ap (lows 20) (down_12 v) ∙ lows_all 20 (v / 4096) (omega (arith, l)))
    ∙ up_12 (v / 4096)

pub and_table : (v : ℕ) → v < 2 ^ 32 → bit_and v 0xffc00000 ≡ v / 4194304 * 4194304
unfolding up ones
and_table v l =
    mask_split 22 10 v
    ∙ ap (up 22) (ap (lows 10) (down_22 v) ∙ lows_all 10 (v / 4194304) (omega (arith, l)))
    ∙ up_22 (v / 4194304)

pub and_entry : (v : ℕ) → bit_and v 0x3ff000 ≡ v / 4096 % 1024 * 4096
unfolding up ones
and_entry v =
    mask_split 12 10 v
    ∙ ap (up 12) (ap (lows 10) (down_12 v) ∙ lows_10 (v / 4096))
    ∙ up_12 (v / 4096 % 1024)

pub and_place : (v : ℕ) → bit_and v 0xfff ≡ v % 4096
unfolding up ones down lows
and_place v = mask_split 0 12 v ∙ omega arith

pub and_one : (v : ℕ) → bit_and v 1 ≡ v % 2
unfolding up ones down lows
and_one v = mask_split 0 1 v ∙ omega arith

-- The three lowest digits of a number that has none of them.
pub or_seven : (v : ℕ) → v % 8 ≡ 0 → bit_or (bit_or (bit_or v 4) 2) 1 ≡ v + 7
or_seven v e =
    let a : bit_or v 4 ≡ v + 4 = omega (
      arith,
      e,
      bit_or-low v 4,
      bit_or-low (v / 2) 2,
      bit_or-low (v / 2 / 2) 1,
      or_zero (v / 2 / 2 / 2) (v / 2 / 2 / 2) (omega arith),
    ) in
    let b : bit_or (v + 4) 2 ≡ v + 6 = omega (
      arith,
      e,
      bit_or-low (v + 4) 2,
      bit_or-low ((v + 4) / 2) 1,
      or_zero ((v + 4) / 2 / 2) ((v + 4) / 2 / 2) (omega arith),
    ) in
    let c : bit_or (v + 6) 1 ≡ v + 7 =
      omega (arith, e, bit_or-low (v + 6) 1, or_zero ((v + 6) / 2) ((v + 6) / 2) (omega arith)) in
    ap (λ x. bit_or (bit_or x 2) 1) a ∙ ap (λ x. bit_or x 1) b ∙ c
