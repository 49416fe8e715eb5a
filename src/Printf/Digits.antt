-- ===== src/Printf/Digits.antt =====
-- The digits of a number. About `number` of lib/vsprintf.c.
use native.Mathlib.Nat.{mod-lt, div-add-mod, div-lt_iff_lt-mul, mul-le-mul_left}
use kanaos.Prelude.{
  ℕ, zero, suc, ◌+◌, ◌-◌, ◌*◌, ◌/◌, ◌%◌, ◌^◌, ◌<◌, ◌≤◌, ◌≡◌, ◌≢◌, refl, sym, ap, ◌∙◌, Bool, true,
  false, ltb, ◌==◌, if◌then◌else◌, List, [], ◌∷◌, length, All, arith, Bool-cases, ==_iff, inl, inr,
  ok, ◌⊎◌, subst,
}
use kanaos.Printf.{digit, tmp_digits, fill_tmp}

-- The number that a digit stands for.
unfoldable pub char_value : Bool → ℕ → ℕ
char_value lower c = if ltb c 58 then c - b'0' else c - (if lower then b'a' else b'A') + 10

-- The number that digits stand for, the lowest first.
abbrev pub value : Bool → ℕ → List ℕ → ℕ
value lower base [] = 0
value lower base (c ∷ cs) = base * value lower base cs + char_value lower c

char_value-digit :
    (lower : Bool) (index : ℕ) → index < 36 → char_value lower (digit lower index) ≡ index
unfolding char_value digit
char_value-digit true index h = ground arith
char_value-digit false index h = ground arith

pub digit_not_minus : (lower : Bool) (index : ℕ) → digit lower index ≢ b'-'
unfolding digit
digit_not_minus true index = ground arith
digit_not_minus false index = ground arith

-- A character of a number in the base: '0' to '9', then the letters from 'a' or 'A' on.
abbrev pub IsDigit : Bool → ℕ → ℕ → Type 0
IsDigit lower base c =
    ((b'0' ≤ c) × (c < b'0' + 10) × (c < b'0' + base))
    ⊎ (((if lower then b'a' else b'A') ≤ c) × (c + 10 < (if lower then b'a' else b'A') + base))

-- Of digits, the lowest first: there is a highest, and it is not '0'.
abbrev pub NoLeadingZero : List ℕ → Type 0
NoLeadingZero [] = ⊥
NoLeadingZero (c ∷ []) = c ≢ b'0'
NoLeadingZero (c ∷ (d ∷ cs)) = NoLeadingZero (d ∷ cs)

-- The digits of the number in the base and nothing else, the lowest first, with no zero that could go.
abbrev pub Numeral : Bool → ℕ → ℕ → List ℕ → Type 0
Numeral lower base num tmp =
    (value lower base tmp ≡ num)
    × All (λ c. IsDigit lower base c) tmp
    × ((tmp ≡ b'0' ∷ []) ⊎ NoLeadingZero tmp)

digit-IsDigit :
    (lower : Bool) (base index : ℕ) → index < base → IsDigit lower base (digit lower index)
unfolding digit
digit-IsDigit true base index h = ground arith
digit-IsDigit false base index h = ground arith

digit_not_zero : (lower : Bool) (index : ℕ) → index ≢ 0 → digit lower index ≢ b'0'
unfolding digit
digit_not_zero true index ne = ground arith
digit_not_zero false index ne = ground arith

NoLeadingZero-cons : (c : ℕ) (cs : List ℕ) → NoLeadingZero cs → NoLeadingZero (c ∷ cs)
NoLeadingZero-cons c [] h = absurd h
NoLeadingZero-cons c (d ∷ cs) h = h

abbrev pub doubles : ℕ → ℕ
doubles zero = 1
doubles (suc n) = doubles n * 2

-- What the digits of `num` are.
abbrev pub DigitsOf : Bool → ℕ → ℕ → ℕ → List ℕ → Type 0
DigitsOf lower base num most tmp =
    (value lower base tmp ≡ num) × (length tmp ≤ most) × All (λ c. c ≢ b'-') tmp

quotient_small : (num base limit : ℕ) → 1 < base → num < limit * 2 → num / base < limit
quotient_small num base limit hb h =
    (div-lt_iff_lt-mul {k = base} {x = num} {y = limit} (omega arith)).1
      (omega (arith, h, mul-le-mul_left {m = 2} {n = base} limit hb))

last_digit : (num base : ℕ) → num / base ≡ 0 → (num == 0) ≡ false → num % base ≢ 0
last_digit num base gone e =
    let sum = div-add-mod num base in
    let zero_times : base * (num / base) ≡ 0 = ap (λ q. base * q) gone ∙ omega arith in
    let some_num : num ≢ 0 = ground arith in λ z. some_num (omega (arith, sum, zero_times, z))

tmp_digits-DigitsOf :
    (fuel : ℕ) (lower : Bool) (base num : ℕ)
    → 1 < base
    → base ≤ 36
    → num < doubles fuel
    → (tmp : List ℕ) × (tmp_digits (suc fuel) lower base num ≡ ok tmp)
      × DigitsOf lower base num fuel tmp
      × All (λ c. IsDigit lower base c) tmp
      × ((tmp ≡ []) ⊎ NoLeadingZero tmp)
unfolding tmp_digits
tmp_digits-DigitsOf zero lower base num lo hi h =
    ([], rw ((==_iff num 0).1 (omega arith)) refl, (omega arith, omega arith, tt), tt, inl refl)
tmp_digits-DigitsOf (suc fuel) lower base num lo hi h = elim (Bool-cases (num == 0)) [
  | inl e ↦ ([], rw e refl, (sym ((==_iff num 0).0 e), omega arith, tt), tt, inl refl)
  | inr e ↦
      let rest =
        tmp_digits-DigitsOf fuel lower base (num / base) lo hi
          (quotient_small num base (doubles fuel) lo h) in
      let low = mod-lt num {m = base} (omega arith) in
      (
        digit lower (num % base) ∷ rest.0,
        rw (e, rest.1) refl,
        (
          ap (λ v. base * v + char_value lower (digit lower (num % base))) (rest.2.0)
              ∙ ap (λ v. base * (num / base) + v)
                  (char_value-digit lower (num % base) (omega arith))
              ∙ div-add-mod num base,
          omega (arith, rest.2.1),
          (digit_not_minus lower (num % base), rest.2.2),
        ),
        (digit-IsDigit lower base (num % base) (omega arith), rest.3),
        inr (elim (rest.4) [
          | inl none ↦
              let gone : num / base ≡ 0 = sym (rest.2.0) ∙ ap (value lower base) none in
              subst (λ cs. NoLeadingZero (digit lower (num % base) ∷ cs)) (sym none)
                (digit_not_zero lower (num % base) (last_digit num base gone e))
          | inr top ↦ NoLeadingZero-cons (digit lower (num % base)) (rest.0) top
        ]),
      )
]

zero_value : (lower : Bool) (base : ℕ) → value lower base (b'0' ∷ []) ≡ 0
unfolding char_value
zero_value lower base = omega arith

-- The first case of `tmp`, and the other: 33 rounds are enough for a `uint32`.
pub fill_tmp-DigitsOf :
    (lower : Bool) (base num : ℕ)
    → 1 < base
    → base ≤ 36
    → num < 2 ^ 32
    → (tmp : List ℕ) × (fill_tmp 33 lower base num ≡ ok tmp)
      × DigitsOf lower base num 32 tmp
      × (0 < length tmp)
      × Numeral lower base num tmp
unfolding fill_tmp
fill_tmp-DigitsOf lower base num lo hi h = elim (Bool-cases (num == 0)) [
  | inl e ↦ (
    b'0' ∷ [],
    rw e refl,
    (zero_value lower base ∙ sym ((==_iff num 0).0 e), omega arith, (omega arith, tt)),
    omega arith,
    (
      zero_value lower base ∙ sym ((==_iff num 0).0 e),
      (inl (omega arith, omega arith, omega (arith, lo)), tt),
      inl refl,
    ),
  )
  | inr e ↦
      let rest = tmp_digits-DigitsOf 32 lower base num lo hi h in
      let some_digit = not_empty num base lower (rest.0) e (rest.2.0) in
      (
        rest.0,
        rw e (rest.1),
        rest.2,
        some_digit,
        (
          rest.2.0,
          rest.3,
          elim (rest.4) [
            | inl none ↦ absurd (omega (arith, some_digit, ap length none))
            | inr top ↦ inr top
          ],
        ),
      )
]
  where
    not_empty :
        (num base : ℕ) (lower : Bool) (tmp : List ℕ)
        → (num == 0) ≡ false
        → value lower base tmp ≡ num
        → 0 < length tmp
    not_empty num base lower [] e v = ground arith
    not_empty num base lower (c ∷ tmp) e v = omega arith
