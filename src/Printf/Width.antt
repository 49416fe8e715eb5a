-- ===== src/Printf/Width.antt =====
-- What `number` of lib/vsprintf.c writes.
use kanaos.Prelude.{
  ℕ, zero, suc, ◌+◌, ◌-◌, ◌^◌, ◌<◌, ◌≤◌, ◌≡◌, ◌⊎◌, inl, inr, refl, sym, ap, ◌∙◌, subst, Bool, true,
  false, ltb, ◌==◌, ◌&&◌, ◌||◌, not, if◌then◌else◌, List, [], ◌∷◌, ◌++◌, length, length-append,
  replicate, arith, Bool-cases, some, ok, ltb_of_le,
}
use kanaos.Printf.{
  sign_of, sign_text, prefix, reversed, layout, number, has, sign_flag, special, small, left,
  zeropad,
}
use kanaos.Printf.Digits.{DigitsOf, Numeral, fill_tmp-DigitsOf}

pub length-replicate : (n a : ℕ) → length (replicate n a) ≡ n
length-replicate zero a = refl
length-replicate (suc n) a = omega (arith, length-replicate n a)

pub length-reversed : (tmp out : List ℕ) → length (reversed tmp out) ≡ length tmp + length out
length-reversed [] out = omega arith
length-reversed (c ∷ tmp) out = length-reversed tmp (c ∷ out) ∙ omega arith

-- The length of the text by the lengths of its seven parts.
length-seven :
    (a b c d e f g : List ℕ)
    → length (a ++ (b ++ (c ++ (d ++ (e ++ (f ++ g))))))
      ≡ length a + (length b + (length c + (length d + (length e + (length f + length g)))))
length-seven a b c d e f g = omega (
  arith,
  length-append a (b ++ (c ++ (d ++ (e ++ (f ++ g))))),
  length-append b (c ++ (d ++ (e ++ (f ++ g)))),
  length-append c (d ++ (e ++ (f ++ g))),
  length-append d (e ++ (f ++ g)),
  length-append e (f ++ g),
  length-append f g,
)

-- The length of a text of these seven parts.
length-parts :
    (blanks fill zeros more c : ℕ) (sign pre tmp : List ℕ)
    → length (
        replicate blanks b' '
        ++ (sign
            ++ (pre
                ++ (replicate fill c
                    ++ (replicate zeros b'0' ++ (reversed tmp [] ++ replicate more b' '))))))
      ≡ blanks + length sign + length pre + fill + zeros + length tmp + more
length-parts blanks fill zeros more c sign pre tmp = omega (
  arith,
  length-seven (replicate blanks b' ') sign pre (replicate fill c) (replicate zeros b'0')
      (reversed tmp []) (replicate more b' '),
  length-replicate blanks b' ',
  length-replicate fill c,
  length-replicate zeros b'0',
  length-replicate more b' ',
  length-reversed tmp [],
)

-- The pads share out what is left of the width.
pads_sum :
    (zeros left' : Bool) (size precision i s p : ℕ)
    → (let w = if ltb precision i then i else precision in
        let b = if zeros || left' then 0 else size - w in
        let f = if left' then 0 else size - w - b in
        b + s + p + f + (w - i) + i + (size - w - b - f))
      ≡ s
        + p
        + (if ltb precision i then i else precision)
        + (size - (if ltb precision i then i else precision))
pads_sum true true size precision i s p = ground arith
pads_sum true false size precision i s p = ground arith
pads_sum false true size precision i s p = ground arith
pads_sum false false size precision i s p = ground arith

-- The wider of the precision and the digits.
abbrev pub wide : ℕ → ℕ → ℕ
wide precision i = if ltb precision i then i else precision

-- The text is as wide as `size` asks for, or as wide as its parts need, whichever is more.
length-layout :
    (flags base size precision : ℕ) (sign tmp : List ℕ)
    → length (layout flags base size precision sign tmp)
      ≡ length sign
        + length (prefix flags base)
        + wide precision (length tmp)
        + (size - wide precision (length tmp))
unfolding layout
length-layout flags base size precision sign tmp =
    length-parts _ _ _ _ _ sign (prefix flags base) tmp
    ∙ pads_sum (has flags zeropad && not (has flags left)) (has flags left) size precision
        (length tmp) (length sign) (length (prefix flags base))

sign_never : (b : Bool) (num : ℕ) → (b && ltb num 0) ≡ false
sign_never true num = ground arith
sign_never false num = refl

-- What the sign and the prefix leave of the width.
abbrev pub reduced : ℕ → ℕ → ℕ → ℕ → ℕ
reduced flags base size sign =
    let size' = if sign == 0 then size else size - 1 in
    if has flags special
    then (if base == 16 then size' - 2 else (if base == 8 then size' - 1 else size'))
    else size'

abbrev sign_width : ℕ → ℕ
sign_width sign = if sign == 0 then 0 else 1

abbrev prefix_width : Bool → ℕ → ℕ
prefix_width marked base =
    if marked then (if base == 8 then 1 else (if base == 16 then 2 else 0)) else 0

length-sign_text : (sign : ℕ) → length (sign_text sign) ≡ sign_width sign
unfolding sign_text
length-sign_text sign = elim (Bool-cases (sign == 0)) [ inl e ↦ rw e refl | inr e ↦ rw e refl ]

length-prefix :
    (flags base : ℕ) → length (prefix flags base) ≡ prefix_width (has flags special) base
unfolding prefix
length-prefix flags base = elim (Bool-cases (has flags special)) [
  | inl e ↦ elim (Bool-cases (base == 8)) [
    | inl e' ↦ rw (e, e') refl
    | inr e' ↦ elim (Bool-cases (base == 16)) [
      | inl e'' ↦ rw (e, e', e'') refl
      | inr e'' ↦ rw (e, e', e'') refl
    ]
  ]
  | inr e ↦ rw e refl
]

reduced_lem :
    (marked : Bool) (base size sign : ℕ)
    → (let size' = if sign == 0 then size else size - 1 in
        if marked
        then (if base == 16 then size' - 2 else (if base == 8 then size' - 1 else size'))
        else size')
      ≡ size - sign_width sign - prefix_width marked base
reduced_lem true base size sign = ground arith
reduced_lem false base size sign = ground arith

sign_width_small : (sign : ℕ) → sign_width sign ≤ 1
sign_width_small sign = ground arith

prefix_width_small : (marked : Bool) (base : ℕ) → prefix_width marked base ≤ 2
prefix_width_small true base = ground arith
prefix_width_small false base = ground arith

wide_small :
    (precision i : ℕ) → i ≤ 32 → (i ≤ wide precision i) × (wide precision i ≤ precision + 32)
wide_small precision i h = (ground arith, ground arith)

pub number-layout :
    (num base size precision flags : ℕ)
    → 1 < base
    → base ≤ 36
    → num < 2 ^ 32
    → (tmp : List ℕ) × (number 33 num base size precision flags
        ≡ ok (
            some (
              layout flags base
                (reduced flags base size (sign_of flags num))
                precision
                (sign_text (sign_of flags num))
                tmp)))
      × DigitsOf (has flags small) base num 32 tmp
      × (0 < length tmp)
      × Numeral (has flags small) base num tmp
unfolding number
number-layout num base size precision flags lo hi h =
    let filled = fill_tmp-DigitsOf (has flags small) base num lo hi h in
    (
      filled.0,
      rw (sign_never (has flags sign_flag) num, ltb_of_le base 2 lo, ltb_of_le 36 base hi, filled.1)
          refl,
      filled.2,
      filled.3,
      filled.4,
    )

-- The total width, by arithmetic.
total_width :
    (size size' s p w precision : ℕ)
    → size' ≡ size - s - p
    → s ≤ 1
    → p ≤ 2
    → w ≤ precision + 32
    → (size ≤ s + p + w + (size' - w))
      × ((s + p + w + (size' - w) ≡ size) ⊎ (s + p + w + (size' - w) ≤ precision + 35))
total_width size size' s p w precision e hs hp hw = (
  omega arith,
  elim (Bool-cases (ltb size (s + p + w))) [
    | inl h ↦ inr (ground arith)
    | inr h ↦ inl (ground arith)
  ],
)

-- For a base from 2 to 36 `number` of a `uint32` returns, its loop ending within 33 rounds, a text at
-- least `size` wide; a text wider than that has at most 35 characters more than `precision`.
pub number-width :
    (num base size precision flags : ℕ)
    → 1 < base
    → base ≤ 36
    → num < 2 ^ 32
    → (text : List ℕ) × (number 33 num base size precision flags ≡ ok (some text))
      × (size ≤ length text)
      × ((length text ≡ size) ⊎ (length text ≤ precision + 35))
number-width num base size precision flags lo hi h =
    let sign = sign_of flags num in
    let made = number-layout num base size precision flags lo hi h in
    let tmp = made.0 in
    let long =
      length-layout flags base (reduced flags base size sign) precision (sign_text sign) tmp in
    let e : reduced flags base size sign
        ≡ size - length (sign_text sign) - length (prefix flags base) =
      reduced_lem (has flags special) base size sign
      ∙ ap (λ s. size - s - prefix_width (has flags special) base) (sym (length-sign_text sign))
      ∙ ap (λ p. size - length (sign_text sign) - p) (sym (length-prefix flags base)) in
    let total =
      total_width size (reduced flags base size sign) (length (sign_text sign))
        (length (prefix flags base)) (wide precision (length tmp)) precision e
        (omega (arith, length-sign_text sign, sign_width_small sign))
        (omega (arith, length-prefix flags base, prefix_width_small (has flags special) base))
        ((wide_small precision (length tmp) (made.2.1)).1) in
    (
      layout flags base (reduced flags base size sign) precision (sign_text sign) tmp,
      made.1,
      subst (λ n. size ≤ n) (sym long) (total.0),
      subst (λ n. (n ≡ size) ⊎ (n ≤ precision + 35)) (sym long) (total.1),
    )
