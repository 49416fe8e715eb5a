-- ===== src/Printf.antt =====
-- `skip_atoi` and `number` of lib/vsprintf.c. A call of `number` gives the bytes that it writes from `str`
-- on, so that its result is `str` moved by their number; NULL is `none`. `size` and `precision` are
-- only compared with numbers that are not negative, and lowered, so they are held as 0 when negative.
pub mod Digits
pub mod Width
pub mod Text
mod Tests
use kanaos.Prelude.{
  ℕ, zero, suc, ◌+◌, ◌-◌, ◌*◌, ◌/◌, ◌%◌, ◌^◌, bit_and, Bool, true, false, ◌&&◌, ◌||◌, not, ltb, leb,
  ◌==◌, if◌then◌else◌, List, [], ◌∷◌, ◌++◌, length, replicate, Option, none, some, Outcome, ok,
  out_of_fuel, ◌>>=◌,
}
use kanaos.Strings.{Memory}

abbrev pub zeropad : ℕ
zeropad = 1

abbrev pub sign_flag : ℕ
sign_flag = 2

abbrev pub plus : ℕ
plus = 4

abbrev pub space : ℕ
space = 8

abbrev pub left : ℕ
left = 16

abbrev pub special : ℕ
special = 32

abbrev pub small : ℕ
small = 64

-- `flags & mask` as a condition.
unfoldable pub has : ℕ → ℕ → Bool
has flags mask = not (bit_and flags mask == 0)

abbrev pub is_digit : ℕ → Bool
is_digit c = leb b'0' c && leb c b'9'

-- The number read, and the pointer behind it.
unfoldable pub skip_atoi : ℕ → Memory → ℕ → ℕ → Outcome (ℕ × ℕ)
skip_atoi zero m s i = out_of_fuel
skip_atoi (suc fuel) m s i =
    let rest = skip_atoi fuel m (s + 1) ((i * 10 + m s + (2 ^ 32 - b'0')) % 2 ^ 32) in
    if is_digit (m s) then rest else ok (i, s)

-- The character at `index` in "0123456789ABCDEFGHIJKLMNOPQRSTUVWXYZ", and in the string of small letters.
unfoldable pub digit : Bool → ℕ → ℕ
digit lower index =
    if ltb index 10 then b'0' + index else (if lower then b'a' else b'A') + (index - 10)

-- The `while` that fills `tmp`: its characters, that of the lowest digit first.
unfoldable pub tmp_digits : ℕ → Bool → ℕ → ℕ → Outcome (List ℕ)
tmp_digits zero lower base num = out_of_fuel
tmp_digits (suc fuel) lower base num =
    let rest = tmp_digits fuel lower base (num / base) in
    if num == 0 then ok [] else (rest >>= λ tmp. ok (digit lower (num % base) ∷ tmp))

-- `tmp` behind its first case: "0" for 0.
unfoldable pub fill_tmp : ℕ → Bool → ℕ → ℕ → Outcome (List ℕ)
fill_tmp fuel lower base num = if num == 0 then ok (b'0' ∷ []) else tmp_digits fuel lower base num

-- The sign character; the `uint32` `num` is never below 0.
unfoldable pub sign_of : ℕ → ℕ → ℕ
sign_of flags num =
    if has flags sign_flag && ltb num 0
    then b'-'
    else (if has flags plus then b'+' else (if has flags space then b' ' else 0))

-- The characters of `sign` and of a special conversion.
unfoldable pub sign_text : ℕ → List ℕ
sign_text sign = if sign == 0 then [] else sign ∷ []

unfoldable pub prefix : ℕ → ℕ → List ℕ
prefix flags base =
    if has flags special
    then (if base == 8
        then b'0' ∷ []
        else (if base == 16 then b'0' ∷ digit (has flags small) 33 ∷ [] else []))
    else []

-- The last characters of `tmp` first.
abbrev pub reversed : List ℕ → List ℕ → List ℕ
reversed [] out = out
reversed (c ∷ tmp) out = reversed tmp (c ∷ out)

-- From the line with `i = 0` on; `size` is what the sign and the prefix leave of it.
unfoldable pub layout : ℕ → ℕ → ℕ → ℕ → List ℕ → List ℕ → List ℕ
layout flags base size precision sign tmp =
    let pads_zero = has flags zeropad && not (has flags left) in
    let i = length tmp in
    let precision' = if ltb precision i then i else precision in
    let size' = size - precision' in
    let blanks = if pads_zero || has flags left then 0 else size' in
    let size'' = size' - blanks in
    let fill = if has flags left then 0 else size'' in
    replicate blanks b' '
    ++ (sign
        ++ (prefix flags base
            ++ (replicate fill (if pads_zero then b'0' else b' ')
                ++ (replicate (precision' - i) b'0'
                    ++ (reversed tmp [] ++ replicate (size'' - fill) b' ')))))

unfoldable pub number : ℕ → ℕ → ℕ → ℕ → ℕ → ℕ → Outcome (Option (List ℕ))
number fuel num base size precision flags =
    let sign = sign_of flags num in
    let num' = if has flags sign_flag && ltb num 0 then (2 ^ 32 - num) % 2 ^ 32 else num in
    let size' = if sign == 0 then size else size - 1 in
    let size'' =
      if has flags special
      then (if base == 16 then size' - 2 else (if base == 8 then size' - 1 else size'))
      else size' in
    if ltb base 2 || ltb 36 base
    then ok none
    else (fill_tmp fuel (has flags small) base num' >>= λ tmp.
        ok (some (layout flags base size'' precision (sign_text sign) tmp)))
