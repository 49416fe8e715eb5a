-- ===== src/Format.antt =====
-- `vsprintf` and `sprintf` of lib/vsprintf.c: the walk over the format. The arguments behind `fmt` on the
-- stack are the words `args 0`, `args 1`, …, each a `uint32`, and `next_arg` counts how many `va_arg` has
-- taken. An `int32` is its bit pattern; `field_width` and `precision` are only compared with
-- numbers that are not negative and lowered once the flags are read, and there are 0 when negative.
-- The pointers are not wrapped at 2 ^ 32.
pub mod Write
pub mod Pieces
pub mod Convert
pub mod Round
pub mod Walk
pub mod Print
pub mod Padded
pub mod Star
mod Tests
use kanaos.Prelude.{
  ℕ, zero, suc, ◌+◌, ◌-◌, ◌*◌, ◌/◌, ◌%◌, ◌^◌, bit_or, Bool, true, false, ◌&&◌, ◌||◌, not, ltb, ◌==◌,
  if◌then◌else◌, List, [], ◌∷◌, Option, none, some, Outcome, ok, out_of_fuel, update, ◌>>=◌,
}
use kanaos.Strings.{Memory, null, strlen}
use kanaos.Printf.{
  zeropad, sign_flag, plus, space, left, special, small, has, is_digit, skip_atoi, number,
}

-- What the loop of `vsprintf` carries from one character of the format to the next.
pub record Printing : Type 0 where
  pub mem : Memory
  pub str : ℕ
  pub fmt : ℕ
  pub next_arg : ℕ

-- What it reads behind a '%'.
pub record Directive : Type 0 where
  pub flags : ℕ
  pub field_width : ℕ
  pub precision : ℕ

-- -1 as an `int32`.
abbrev pub minus_one : ℕ
minus_one = 2 ^ 32 - 1

abbrev pub is_negative : ℕ → Bool
is_negative n = not (ltb n (2 ^ 31))

-- A number that is 0 when negative.
unfoldable pub at_least_0 : ℕ → ℕ
at_least_0 n = if is_negative n then 0 else n

-- `*str++ = c`
unfoldable pub put : Printing → ℕ → Printing
put p c = record p { mem = update p.mem p.str c; str = p.str + 1 }

-- The flag of a character behind '%', and 0 where it is none.
abbrev pub flag_of : ℕ → ℕ
flag_of c =
    if c == b'-'
    then left
    else (if c == b'+'
        then plus
        else (if c == b' '
            then space
            else (if c == b'#' then special else (if c == b'0' then zeropad else 0))))

-- From `repeat` on: the flags, and `fmt` behind them.
unfoldable pub read_flags : ℕ → Memory → ℕ → ℕ → Outcome (ℕ × ℕ)
read_flags zero m fmt flags = out_of_fuel
read_flags (suc fuel) m fmt flags =
    let f = flag_of (m (fmt + 1)) in
    let rest = read_flags fuel m (fmt + 1) (bit_or flags f) in
    if f == 0 then ok (flags, fmt + 1) else rest

-- `field_width`, then `flags`, `fmt` and the count of arguments taken.
unfoldable pub read_width : ℕ → (ℕ → ℕ) → Memory → ℕ → ℕ → ℕ → Outcome (ℕ × ℕ × ℕ × ℕ)
read_width fuel args m flags fmt k =
    let digits = skip_atoi fuel m fmt 0 >>= λ r. ok (r.0, flags, r.1, k) in
    let w = args k in
    let w' = if is_negative w then (2 ^ 32 - w) % 2 ^ 32 else w in
    let flags' = if is_negative w then bit_or flags left else flags in
    if is_digit (m fmt)
    then digits
    else (if m fmt == b'*' then ok (w', flags', fmt + 1, k + 1) else ok (minus_one, flags, fmt, k))

-- `precision`, then `fmt` and the count of arguments; `fmt` is not moved past a '*'.
unfoldable pub read_precision : ℕ → (ℕ → ℕ) → Memory → ℕ → ℕ → Outcome (ℕ × ℕ × ℕ)
read_precision fuel args m fmt k =
    let digits = skip_atoi fuel m (fmt + 1) 0 >>= λ r. ok (at_least_0 (r.0), r.1, k) in
    if m fmt == b'.'
    then (if is_digit (m (fmt + 1))
        then digits
        else (if m (fmt + 1) == b'*'
            then ok (at_least_0 (args k), fmt + 1, k + 1)
            else ok (0, fmt + 1, k)))
    else ok (minus_one, fmt, k)

-- The qualifier is read and never used.
unfoldable pub skip_qualifier : Memory → ℕ → ℕ
skip_qualifier m fmt = if m fmt == b'h' || (m fmt == b'l' || m fmt == b'L') then fmt + 1 else fmt

-- `while (--field_width > 0) { *str++ = ' '; }`, and the width behind it.
abbrev pub pad_char : ℕ → Printing → Printing × ℕ
pad_char zero p = (p, 0)
pad_char (suc zero) p = (p, 0)
pad_char (suc (suc w)) p = pad_char (suc w) (put p b' ')

-- `case 'c'`
unfoldable pub put_char : (ℕ → ℕ) → Directive → Printing → Printing
put_char args d p =
    let w = at_least_0 d.field_width in
    let before = if has d.flags left then (p, w) else pad_char w p in
    let q = before.0 in
    (pad_char (before.1) (record (put q (args q.next_arg % 256)) { next_arg = q.next_arg + 1 })).0

-- `while (len < field_width--) { *str++ = ' '; }`, and the width behind it.
abbrev pub pad_text : ℕ → ℕ → Printing → Printing × ℕ
pad_text len zero p = (p, 0)
pad_text len (suc w) p =
    let rest = pad_text len w (put p b' ') in if ltb len (suc w) then rest else (p, w)

-- `for (i = 0; i < len; ++i) { *str++ = *s++; }`, with the rounds left.
abbrev pub put_bytes : ℕ → ℕ → Printing → Printing
put_bytes zero s p = p
put_bytes (suc rounds) s p = put_bytes rounds (s + 1) (put p (p.mem s))

-- How many bytes of a text of `len` bytes are put.
unfoldable pub cut : ℕ → ℕ → ℕ
cut precision len =
    if is_negative precision then len else (if ltb precision len then precision else len)

-- `case 's'`, for a text below 2 ^ 31 bytes.
unfoldable pub put_string : ℕ → (ℕ → ℕ) → Directive → Printing → Outcome Printing
put_string fuel args d p0 =
    let s = args p0.next_arg in
    let p = record p0 { next_arg = p0.next_arg + 1 } in
    strlen fuel p.mem s >>= λ n.
    (let len = cut d.precision n in
      let w = at_least_0 d.field_width in
      let before = if has d.flags left then (p, w) else pad_text len w p in
      ok ((pad_text len (before.1) (put_bytes len s (before.0))).0))

-- The bytes that `number` writes; the pointer NULL, when it refuses the base.
abbrev pub put_all : List ℕ → Printing → Printing
put_all [] p = p
put_all (c ∷ cs) p = put_all cs (put p c)

abbrev pub put_digits : Option (List ℕ) → Printing → Printing
put_digits none p = record p { str = null }
put_digits (some cs) p = put_all cs p

-- `str = number(str, va_arg(args, uint32), base, field_width, precision, flags)`; 33 rounds are enough for
-- the digits of any `uint32`.
unfoldable pub put_number : (ℕ → ℕ) → ℕ → Directive → Printing → Outcome Printing
put_number args base d p =
    number 33 (args p.next_arg) base (at_least_0 d.field_width) (at_least_0 d.precision) d.flags
    >>= λ text. ok (put_digits text (record p { next_arg = p.next_arg + 1 }))

-- `case 'p'`
unfoldable pub pointer_directive : Directive → Directive
pointer_directive d =
    if d.field_width == minus_one
    then record d { field_width = 8; flags = bit_or d.flags zeropad }
    else d

-- `*ip = n`, the lowest byte first.
unfoldable pub store_word : Memory → ℕ → ℕ → Memory
store_word m ip n =
    update
      (update (update (update m ip (n % 256)) (ip + 1) (n / 2 ^ 8 % 256)) (ip + 2)
        (n / 2 ^ 16 % 256))
      (ip + 3) (n / 2 ^ 24 % 256)

-- `case 'n'`
unfoldable pub put_count : (ℕ → ℕ) → ℕ → Printing → Printing
put_count args buf p = record p {
  mem = store_word p.mem (args p.next_arg) ((p.str + 2 ^ 32 - buf) % 2 ^ 32);
  next_arg = p.next_arg + 1;
}

-- `default`
unfoldable pub put_other : Printing → Printing
put_other p =
    let q = if p.mem p.fmt == b'%' then p else put p b'%' in
    if q.mem q.fmt == 0 then record q { fmt = q.fmt - 1 } else put q (q.mem q.fmt)

-- The `switch` over the conversion.
unfoldable pub convert : ℕ → (ℕ → ℕ) → ℕ → Directive → Printing → Outcome Printing
convert fuel args buf d p =
    let c = p.mem p.fmt in
    let with_flag = λ (f : ℕ). record d { flags = bit_or d.flags f } in
    if c == b'c'
    then ok (put_char args d p)
    else (if c == b's'
        then put_string fuel args d p
        else (if c == b'o'
            then put_number args 8 d p
            else (if c == b'p'
                then put_number args 16 (pointer_directive d) p
                else (if c == b'x'
                    then put_number args 16 (with_flag small) p
                    else (if c == b'X'
                        then put_number args 16 d p
                        else (if c == b'd' || c == b'i'
                            then put_number args 10 (with_flag sign_flag) p
                            else (if c == b'u'
                                then put_number args 10 d p
                                else (if c == b'n'
                                    then ok (put_count args buf p)
                                    else ok (put_other p)))))))))

-- From a '%' to the end of its conversion.
unfoldable pub directive : ℕ → (ℕ → ℕ) → ℕ → Printing → Outcome Printing
directive fuel args buf p = do
  read ← read_flags fuel p.mem p.fmt 0
  width ← read_width fuel args p.mem (read.0) (read.1) p.next_arg
  prec ← read_precision fuel args p.mem (width.2) (width.3)
  convert fuel args buf (record { flags = width.1; field_width = width.0; precision = prec.0 })
      (record p { fmt = skip_qualifier p.mem (prec.1); next_arg = prec.2 })

-- The `for` over the format; `fuel` is for the loops inside.
unfoldable pub vsprintf_loop : ℕ → ℕ → (ℕ → ℕ) → ℕ → Printing → Outcome Printing
vsprintf_loop zero fuel args buf p = out_of_fuel
vsprintf_loop (suc rounds) fuel args buf p = elim (p.mem p.fmt == 0) [
  | true ↦ ok p
  | false ↦
      let done =
        (if p.mem p.fmt == b'%' then directive fuel args buf p else ok (put p (p.mem p.fmt))) in
      done >>= λ q. vsprintf_loop rounds fuel args buf (record q { fmt = q.fmt + 1 })
]

-- The memory behind the call, and the value that it returns. `sprintf` passes its own arguments.
unfoldable pub vsprintf : ℕ → Memory → ℕ → ℕ → (ℕ → ℕ) → Outcome (Memory × ℕ)
vsprintf fuel m buf fmt args =
    vsprintf_loop fuel fuel args buf (record { mem = m; str = buf; fmt = fmt; next_arg = 0 })
    >>= λ p. ok (update p.mem p.str 0, (p.str + 2 ^ 32 - buf) % 2 ^ 32)
