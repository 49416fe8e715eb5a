-- ===== src/Format/Convert.antt =====
-- The bare conversions of a character, a text and a number. About lib/vsprintf.c.
use mathlib.Core.List.{append-nil}
use kanaos.Prelude.{
  ℕ, ◌+◌, ◌-◌, ◌%◌, ◌^◌, ◌≤◌, ◌<◌, ◌≡◌, ◌⊎◌, inl, inr, refl, ap, sym, ◌∙◌, subst, List, [], ◌∷◌,
  ◌++◌, length, arith, ok, some, ltb, if◌then◌else◌,
}
use kanaos.Strings.Text.{CString, strlen-CString}
use kanaos.Printf.{number, layout, reversed, has, prefix, sign_of, sign_text, small, sign_flag}
use kanaos.Printf.Digits.{Numeral}
use kanaos.Printf.Width.{number-layout, reduced, length-reversed}
use kanaos.Printf.Text.{reversed-reversed}
use kanaos.Format.{
  Printing, put, put_all, put_char, put_string, put_number, cut, at_least_0, convert, put_other,
}
use kanaos.Format.Write.{put_bytes-CString}
use kanaos.Format.Pieces.{
  Conversion, decimal, unsigned, octal, hex, capital_hex, letter, base, in_small, bare,
}

-- The printing behind a taken argument.
abbrev pub taken : Printing → Printing
taken p = record p { next_arg = p.next_arg + 1 }

pub convert-char :
    (fuel : ℕ) (args : ℕ → ℕ) (buf n : ℕ) (p : Printing)
    → p.mem p.fmt ≡ b'c'
    → args p.next_arg ≡ n
    → convert fuel args buf bare p ≡ ok (put_all (n % 256 ∷ []) (taken p))
unfolding convert put_char has at_least_0 put
convert-char fuel args buf n p e a = rw e (rw a refl)

pub convert-percent :
    (fuel : ℕ) (args : ℕ → ℕ) (buf : ℕ) (p : Printing)
    → p.mem p.fmt ≡ b'%'
    → convert fuel args buf bare p ≡ ok (put_all (b'%' ∷ []) p)
unfolding convert put_other put
convert-percent fuel args buf p e = rw e (rw e refl)

string_lem :
    (fuel : ℕ) (args : ℕ → ℕ) (a : ℕ) (cs : List ℕ) (p : Printing)
    → args p.next_arg ≡ a
    → CString p.mem a cs
    → (a + length cs < p.str) ⊎ (p.str + length cs ≤ a)
    → length cs < fuel
    → length cs < 2 ^ 32
    → put_string fuel args bare p ≡ ok (put_all cs (taken p))
unfolding put_string has at_least_0 cut
string_lem fuel args a cs p e s apart enough short =
    rw (e, strlen-CString fuel p.mem a cs s enough short)
      (ap ok (put_bytes-CString a cs (taken p) apart s))

pub convert-text :
    (fuel : ℕ) (args : ℕ → ℕ) (buf a : ℕ) (cs : List ℕ) (p : Printing)
    → p.mem p.fmt ≡ b's'
    → args p.next_arg ≡ a
    → CString p.mem a cs
    → (a + length cs < p.str) ⊎ (p.str + length cs ≤ a)
    → length cs < fuel
    → length cs < 2 ^ 32
    → convert fuel args buf bare p ≡ ok (put_all cs (taken p))
unfolding convert
convert-text fuel args buf a cs p c e s apart enough short =
    rw c (string_lem fuel args a cs p e s apart enough short)

abbrev flags_of : Conversion → ℕ
flags_of decimal = sign_flag
flags_of hex = small
flags_of _ = 0

no_precision : (i : ℕ) → (if ltb 0 i then i else 0) ≡ i
no_precision i = ground arith

no_width : (i : ℕ) → 0 - i ≡ 0
no_width i = omega arith

no_zeros : (i : ℕ) → i - i ≡ 0
no_zeros i = omega arith

-- Without sign, prefix and width the layout is the digits alone.
layout_digits :
    (flags base : ℕ) (tmp : List ℕ)
    → (flags ≡ 0) ⊎ ((flags ≡ 2) ⊎ (flags ≡ 64))
    → layout flags base (reduced flags base 0 0) 0 (sign_text 0) tmp ≡ reversed tmp [] ++ []
unfolding layout prefix has sign_text
layout_digits flags base tmp (inl e) =
    rw (e, no_precision (length tmp), no_width (length tmp), no_zeros (length tmp)) refl
layout_digits flags base tmp (inr (inl e)) =
    rw (e, no_precision (length tmp), no_width (length tmp), no_zeros (length tmp)) refl
layout_digits flags base tmp (inr (inr e)) =
    rw (e, no_precision (length tmp), no_width (length tmp), no_zeros (length tmp)) refl

-- Which flags the conversion of a number sets.
flags_of-cases :
    (conv : Conversion) → (flags_of conv ≡ 0) ⊎ ((flags_of conv ≡ 2) ⊎ (flags_of conv ≡ 64))
flags_of-cases decimal = inr (inl refl)
flags_of-cases unsigned = inl refl
flags_of-cases octal = inl refl
flags_of-cases hex = inr (inr refl)
flags_of-cases capital_hex = inl refl

no_sign : (conv : Conversion) (n : ℕ) → sign_of (flags_of conv) n ≡ 0
unfolding sign_of has
no_sign decimal n = ground arith
no_sign unsigned n = refl
no_sign octal n = refl
no_sign hex n = refl
no_sign capital_hex n = refl

small_lem : (conv : Conversion) → has (flags_of conv) small ≡ in_small conv
unfolding has
small_lem decimal = refl
small_lem unsigned = refl
small_lem octal = refl
small_lem hex = refl
small_lem capital_hex = refl

base_bounds : (conv : Conversion) → (1 < base conv) × (base conv ≤ 36)
base_bounds decimal = (omega arith, omega arith)
base_bounds unsigned = (omega arith, omega arith)
base_bounds octal = (omega arith, omega arith)
base_bounds hex = (omega arith, omega arith)
base_bounds capital_hex = (omega arith, omega arith)

-- What `number` makes of a `uint32` in such a conversion: its digits.
abbrev pub Digits : Conversion → ℕ → List ℕ → Type 0
Digits conv n t = Numeral (in_small conv) (base conv) n (reversed t []) × (length t ≤ 32)

number-Digits :
    (conv : Conversion) (n : ℕ)
    → n < 2 ^ 32
    → (t : List ℕ) × (number 33 n (base conv) 0 0 (flags_of conv) ≡ ok (some t)) × Digits conv n t
number-Digits conv n h =
    let lims = base_bounds conv in
    let made = number-layout n (base conv) 0 0 (flags_of conv) (lims.0) (lims.1) h in
    let tmp = made.0 in
    let text = layout (flags_of conv) (base conv) in
    (
      reversed tmp [],
      made.1
          ∙ ap (λ s. ok (some (text (reduced (flags_of conv) (base conv) 0 s) 0 (sign_text s) tmp)))
              (no_sign conv n)
          ∙ ap (λ t. ok (some t))
              (layout_digits (flags_of conv) (base conv) tmp (flags_of-cases conv)
                ∙ append-nil (reversed tmp [])),
      (
        subst (Numeral (in_small conv) (base conv) n)
            (sym (reversed-reversed tmp [] [] ∙ append-nil tmp))
            (subst (λ b. Numeral b (base conv) n tmp) (small_lem conv) (made.4)),
        omega (arith, length-reversed tmp [], made.2.1),
      ),
    )

put_number-put_all :
    (args : ℕ → ℕ) (base n flags : ℕ) (p : Printing) (t : List ℕ)
    → args p.next_arg ≡ n
    → number 33 n base 0 0 flags ≡ ok (some t)
    → put_number args base (record bare { flags = flags }) p ≡ ok (put_all t (taken p))
unfolding put_number at_least_0
put_number-put_all args base n flags p t e made = rw (e, made) refl

convert-put_number :
    (fuel : ℕ) (args : ℕ → ℕ) (buf : ℕ) (conv : Conversion) (p : Printing)
    → p.mem p.fmt ≡ letter conv
    → convert fuel args buf bare p
      ≡ put_number args (base conv) (record bare { flags = flags_of conv }) p
unfolding convert
convert-put_number fuel args buf decimal p e = rw e refl
convert-put_number fuel args buf unsigned p e = rw e refl
convert-put_number fuel args buf octal p e = rw e refl
convert-put_number fuel args buf hex p e = rw e refl
convert-put_number fuel args buf capital_hex p e = rw e refl

pub convert-Digits :
    (fuel : ℕ) (args : ℕ → ℕ) (buf n : ℕ) (conv : Conversion) (p : Printing)
    → p.mem p.fmt ≡ letter conv
    → args p.next_arg ≡ n
    → n < 2 ^ 32
    → (t : List ℕ) × (convert fuel args buf bare p ≡ ok (put_all t (taken p))) × Digits conv n t
convert-Digits fuel args buf n conv p e a h =
    let made = number-Digits conv n h in
    (
      made.0,
      convert-put_number fuel args buf conv p e
          ∙ put_number-put_all args (base conv) n (flags_of conv) p (made.0) a (made.1),
      made.2,
    )
