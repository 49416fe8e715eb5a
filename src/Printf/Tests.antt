-- ===== src/Printf/Tests.antt =====
-- Conversions of `number`, and instances of the theorems about it.
use kanaos.Prelude.{
  refl, ℕ, false, ◌≤◌, ◌≡◌, ◌⊎◌, ◌+◌, List, [], ◌∷◌, arith, length, some, none, ok,
}
use kanaos.Printf.{
  number, layout, fill_tmp, tmp_digits, sign_of, sign_text, prefix, digit, has, reversed,
}
use kanaos.Printf.Digits.{value}
use kanaos.Printf.Width.{number-width}
use kanaos.Printf.Text.{number-NoMinus, number-value, NoMinus}

number-width_run :
    (text : List ℕ) × (number 33 48879 16 8 0 33 ≡ ok (some text))
    × (8 ≤ length text)
    × ((length text ≡ 8) ⊎ (length text ≤ 0 + 35))
number-width_run = number-width 48879 16 8 0 33 (omega arith) (omega arith) (omega arith)

number-value_run :
    (text : List ℕ) × (number 33 2026 10 0 0 0 ≡ ok (some text))
    × (value false 10 (reversed text []) ≡ 2026)
number-value_run = number-value 2026 10 (omega arith) (omega arith) (omega arith)

-- -1 printed as a signed number of base 10.
number-NoMinus_run :
    (text : List ℕ) × (number 33 4294967295 10 0 0 2 ≡ ok (some text)) × NoMinus text
number-NoMinus_run = number-NoMinus 4294967295 10 0 0 2 (omega arith) (omega arith) (omega arith)

special_hex :
    number 33 255 16 8 0 33
    ≡ ok (some (b'0' ∷ (b'X' ∷ (b'0' ∷ (b'0' ∷ (b'0' ∷ (b'0' ∷ (b'F' ∷ (b'F' ∷ [])))))))))
unfolding number layout fill_tmp tmp_digits sign_of sign_text prefix digit has
special_hex = refl

base_37 : number 33 255 37 0 0 0 ≡ ok none
unfolding number
base_37 = refl
