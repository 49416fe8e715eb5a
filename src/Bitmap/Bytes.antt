-- ===== src/Bitmap/Bytes.antt =====
-- The bits of a byte, by tables over all bytes. About the masks of lib/bitmap.c.
use kanaos.Prelude.{
  ℕ, ◌+◌, ◌-◌, ◌*◌, ◌/◌, ◌%◌, ◌^◌, ◌<◌, ◌≡◌, refl, ap, ◌∙◌, bit_and, bit_or, Bool, true, false,
  ◌==◌, ltb, ◌&&◌, not, if◌then◌else◌, arith, holds_below, holds_below_lem, exactly_one, sym,
  ltb→lt,
}
use kanaos.Bitmap.{test_bit}

abbrev agree : Bool → Bool → Bool
agree a b = not (exactly_one a b)

-- Bit `l` of byte `b` after bit `k` of it is set, and after it is cleared.
abbrev set_at : ℕ → ℕ → ℕ → Bool
set_at b k l =
    agree (test_bit (bit_or b (2 ^ k)) l) (if l == k then true else test_bit b l)
    && agree (test_bit (bit_and b (255 - 2 ^ k)) l) (if l == k then false else test_bit b l)
    && ltb (bit_or b (2 ^ k)) 256
    && ltb (bit_and b (255 - 2 ^ k)) 256

set_at_table : holds_below (λ x. set_at (x / 64) (x / 8 % 8) (x % 8)) 16384 ≡ true
unfolding holds_below test_bit
set_at_table = refl

set_at_lem : (b k l : ℕ) → b < 256 → k < 8 → l < 8 → set_at b k l ≡ true
set_at_lem b k l hb hk hl =
    sym (shape b k l hb hk hl)
    ∙ holds_below_lem (λ x. set_at (x / 64) (x / 8 % 8) (x % 8)) (b * 64 + k * 8 + l) set_at_table
        (omega arith)
  where
    shape :
        (b k l : ℕ)
        → b < 256
        → k < 8
        → l < 8
        → set_at
            ((b * 64 + k * 8 + l) / 64)
            ((b * 64 + k * 8 + l) / 8 % 8)
            ((b * 64 + k * 8 + l) % 8)
          ≡ set_at b k l
    shape b k l hb hk hl =
        let e : (b * 64 + k * 8 + l) / 64 ≡ b = omega arith in
        let e' : (b * 64 + k * 8 + l) / 8 % 8 ≡ k = omega arith in
        let e'' : (b * 64 + k * 8 + l) % 8 ≡ l = omega arith in
        ap (λ x. set_at x ((b * 64 + k * 8 + l) / 8 % 8) ((b * 64 + k * 8 + l) % 8)) e
        ∙ ap (λ x. set_at b x ((b * 64 + k * 8 + l) % 8)) e'
        ∙ ap (set_at b k) e''

and_both : (a b : Bool) → (a && b) ≡ true → (a ≡ true) × (b ≡ true)
and_both true true h = (refl, refl)
and_both true false h = absurd (ground arith)
and_both false b h = absurd (ground arith)

of_agree : (a b : Bool) → agree a b ≡ true → a ≡ b
of_agree true true h = refl
of_agree true false h = absurd (ground arith)
of_agree false true h = absurd (ground arith)
of_agree false false h = refl

-- A byte that differs from `b` in bit `k` only, which is `v`.
abbrev pub DiffersAt : ℕ → ℕ → Bool → ℕ → Type 0
DiffersAt b k v b' =
    ((l : ℕ) → l < 8 → test_bit b' l ≡ (if l == k then v else test_bit b l)) × (b' < 256)

-- The four parts of `set_at`.
set_at_parts :
    (b k l : ℕ)
    → b < 256
    → k < 8
    → l < 8
    → (test_bit (bit_or b (2 ^ k)) l ≡ (if l == k then true else test_bit b l))
      × (test_bit (bit_and b (255 - 2 ^ k)) l ≡ (if l == k then false else test_bit b l))
      × (bit_or b (2 ^ k) < 256)
      × (bit_and b (255 - 2 ^ k) < 256)
set_at_parts b k l hb hk hl =
    let three = and_both _ _ (set_at_lem b k l hb hk hl) in
    let two = and_both _ _ (three.0) in
    let one = and_both _ _ (two.0) in
    (of_agree _ _ (one.0), of_agree _ _ (one.1), ltb→lt _ _ (two.1), ltb→lt _ _ (three.1))

pub bit_or-DiffersAt : (b k : ℕ) → b < 256 → k < 8 → DiffersAt b k true (bit_or b (2 ^ k))
bit_or-DiffersAt b k hb hk =
    (λ l hl. (set_at_parts b k l hb hk hl).0, (set_at_parts b k 0 hb hk (omega arith)).2)

pub bit_and-DiffersAt : (b k : ℕ) → b < 256 → k < 8 → DiffersAt b k false (bit_and b (255 - 2 ^ k))
bit_and-DiffersAt b k hb hk =
    (λ l hl. (set_at_parts b k l hb hk hl).1, (set_at_parts b k 0 hb hk (omega arith)).3)

test_bit_zero_table : holds_below (λ k. not (test_bit 0 k)) 8 ≡ true
unfolding holds_below test_bit
test_bit_zero_table = refl

pub test_bit_zero : (k : ℕ) → k < 8 → test_bit 0 k ≡ false
test_bit_zero k h =
    not_true (test_bit 0 k) (holds_below_lem (λ k. not (test_bit 0 k)) k test_bit_zero_table h)
  where
    not_true : (b : Bool) → not b ≡ true → b ≡ false
    not_true true e = absurd (ground arith)
    not_true false e = refl
