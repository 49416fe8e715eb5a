-- ===== src/Printf/Text.antt =====
-- The characters that `number` of lib/vsprintf.c writes.
use mathlib.Core.List.{append-nil}
use kanaos.Prelude.{
  ℕ, zero, suc, ◌-◌, ◌^◌, ◌<◌, ◌≤◌, ◌≡◌, ◌≢◌, refl, ap, ◌∙◌, subst, Bool, true, false, ltb, ◌==◌,
  ◌&&◌, ◌||◌, not, if◌then◌else◌, List, [], ◌∷◌, ◌++◌, length, replicate, All, arith, Bool-cases,
  inl, inr, some, ok,
}
use kanaos.Printf.{
  sign_of, sign_text, prefix, reversed, layout, number, has, sign_flag, plus, space, special, small,
  left, zeropad,
}
use kanaos.Printf.Digits.{value, digit_not_minus}
use kanaos.Printf.Width.{number-layout, reduced}

abbrev pub NotMinus : ℕ → Type 0
NotMinus c = c ≢ b'-'

abbrev pub NoMinus : List ℕ → Type 0
NoMinus text = All (λ c. c ≢ b'-') text

join-NoMinus : (xs ys : List ℕ) → NoMinus xs → NoMinus ys → NoMinus (xs ++ ys)
join-NoMinus [] ys f g = g
join-NoMinus (x ∷ xs) ys (p, f) g = (p, join-NoMinus xs ys f g)

replicate-NoMinus : (n c : ℕ) → c ≢ b'-' → NoMinus (replicate n c)
replicate-NoMinus zero c h = tt
replicate-NoMinus (suc n) c h = (h, replicate-NoMinus n c h)

reversed-NoMinus : (tmp out : List ℕ) → NoMinus tmp → NoMinus out → NoMinus (reversed tmp out)
reversed-NoMinus [] out f g = g
reversed-NoMinus (c ∷ tmp) out (p, f) g = reversed-NoMinus tmp (c ∷ out) f (p, g)

plain-NotMinus : (p s : Bool) → NotMinus (if p then b'+' else (if s then b' ' else 0))
plain-NotMinus true s = omega arith
plain-NotMinus false true = omega arith
plain-NotMinus false false = omega arith

no_sign : (b : Bool) (num : ℕ) → (b && ltb num 0) ≡ false
no_sign true num = ground arith
no_sign false num = refl

sign_of-NoMinus : (flags num : ℕ) → NoMinus (sign_text (sign_of flags num))
unfolding sign_text sign_of
sign_of-NoMinus flags num = elim (Bool-cases (sign_of flags num == 0)) [
  | inl e ↦ rw e tt
  | inr e ↦ rw e (
    rw (no_sign (has flags sign_flag) num) (plain-NotMinus (has flags plus) (has flags space)),
    tt,
  )
]

prefix-NoMinus : (flags base : ℕ) → NoMinus (prefix flags base)
unfolding prefix
prefix-NoMinus flags base = elim (Bool-cases (has flags special)) [
  | inl e ↦ elim (Bool-cases (base == 8)) [
    | inl e' ↦ rw (e, e') (omega arith, tt)
    | inr e' ↦ elim (Bool-cases (base == 16)) [
      | inl e'' ↦ rw (e, e', e'') (omega arith, (digit_not_minus (has flags small) 33, tt))
      | inr e'' ↦ rw (e, e', e'') tt
    ]
  ]
  | inr e ↦ rw e tt
]

fill-NotMinus : (b : Bool) → NotMinus (if b then b'0' else b' ')
fill-NotMinus true = omega arith
fill-NotMinus false = omega arith

parts-NoMinus :
    (blanks fill zeros more c : ℕ) (sign pre tmp : List ℕ)
    → NotMinus c
    → NoMinus sign
    → NoMinus pre
    → NoMinus tmp
    → NoMinus (
        replicate blanks b' '
        ++ (sign
            ++ (pre
                ++ (replicate fill c
                    ++ (replicate zeros b'0' ++ (reversed tmp [] ++ replicate more b' '))))))
parts-NoMinus blanks fill zeros more c sign pre tmp k s p t =
    join-NoMinus (replicate blanks b' ') _ (replicate-NoMinus blanks b' ' (omega arith)) (
      join-NoMinus sign _ s (
        join-NoMinus pre _ p (
          join-NoMinus (replicate fill c) _ (replicate-NoMinus fill c k) (
            join-NoMinus (replicate zeros b'0') _ (replicate-NoMinus zeros b'0' (omega arith)) (
              join-NoMinus (reversed tmp []) (replicate more b' ') (reversed-NoMinus tmp [] t tt)
                (replicate-NoMinus more b' ' (omega arith)))))))

layout-NoMinus :
    (flags base size precision : ℕ) (sign tmp : List ℕ)
    → NoMinus sign
    → NoMinus tmp
    → NoMinus (layout flags base size precision sign tmp)
unfolding layout
layout-NoMinus flags base size precision sign tmp s t =
    let zeros = has flags zeropad && not (has flags left) in
    let w = if ltb precision (length tmp) then length tmp else precision in
    let blanks = if zeros || has flags left then 0 else size - w in
    let fill = if has flags left then 0 else size - w - blanks in
    parts-NoMinus blanks fill (w - length tmp) (size - w - blanks - fill)
      (if zeros then b'0' else b' ') sign (prefix flags base) tmp (fill-NotMinus zeros) s
      (prefix-NoMinus flags base) t

-- For a base from 2 to 36 the text that `number` makes of a `uint32` has no minus sign in it, the
-- conversions that ask for a sign included.
pub number-NoMinus :
    (num base size precision flags : ℕ)
    → 1 < base
    → base ≤ 36
    → num < 2 ^ 32
    → (text : List ℕ) × (number 33 num base size precision flags ≡ ok (some text)) × NoMinus text
number-NoMinus num base size precision flags lo hi h =
    let made = number-layout num base size precision flags lo hi h in
    let sign = sign_of flags num in
    (
      layout flags base (reduced flags base size sign) precision (sign_text sign) (made.0),
      made.1,
      layout-NoMinus flags base (reduced flags base size sign) precision (sign_text sign) (made.0)
          (sign_of-NoMinus flags num) (made.2.2),
    )

pub reversed-reversed :
    (tmp out more : List ℕ) → reversed (reversed tmp out) more ≡ reversed out (tmp ++ more)
reversed-reversed [] out more = refl
reversed-reversed (c ∷ tmp) out more = reversed-reversed tmp (c ∷ out) more

no_precision : (i : ℕ) → (if ltb 0 i then i else 0) ≡ i
no_precision i = ground arith

no_width : (i : ℕ) → 0 - i ≡ 0
no_width i = omega arith

no_zeros : (i : ℕ) → i - i ≡ 0
no_zeros i = omega arith

no_small : has 0 small ≡ false
unfolding has
no_small = refl

bare :
    (base num : ℕ) (tmp : List ℕ)
    → layout 0 base (reduced 0 base 0 (sign_of 0 num)) 0 (sign_text (sign_of 0 num)) tmp
      ≡ reversed tmp [] ++ []
unfolding layout prefix has sign_of sign_text
bare base num tmp =
    rw (no_precision (length tmp), no_width (length tmp), no_zeros (length tmp)) refl

-- For a base from 2 to 36 `number` without flags, width and precision writes the digits of a `uint32`
-- in that base, the highest first.
pub number-value :
    (num base : ℕ)
    → 1 < base
    → base ≤ 36
    → num < 2 ^ 32
    → (text : List ℕ) × (number 33 num base 0 0 0 ≡ ok (some text))
      × (value false base (reversed text []) ≡ num)
number-value num base lo hi h =
    let made = number-layout num base 0 0 0 lo hi h in
    let tmp = made.0 in
    (
      reversed tmp [],
      made.1 ∙ ap (λ text. ok (some text)) (bare base num tmp ∙ append-nil (reversed tmp [])),
      ap (value false base) (reversed-reversed tmp [] [] ∙ append-nil tmp)
          ∙ subst (λ b. value b base tmp ≡ num) no_small (made.2.0),
    )
