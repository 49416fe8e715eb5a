-- ===== src/Format/Pieces.antt =====
-- A format as a sequence of pieces, the text that each piece stands for, and the conversions of single
-- pieces. About the conversions of lib/vsprintf.c without flags, width and precision.
use kanaos.Prelude.{ℕ, suc, ◌+◌, ◌%◌, ◌≡◌, refl, Bool, true, false, List, [], ◌∷◌, ok, ◌==◌, ◌||◌}
use kanaos.Strings.{Memory}
use kanaos.Printf.{reversed, is_digit}
use kanaos.Printf.Digits.{Numeral}
use kanaos.Format.{
  Printing, Directive, minus_one, flag_of, read_flags, read_width, read_precision, skip_qualifier,
  convert, directive,
}

-- The conversions of a number.
pub data Conversion : Type 0 where
  decimal unsigned octal hex capital_hex : Conversion

abbrev pub letter : Conversion → ℕ
letter decimal = b'd'
letter unsigned = b'u'
letter octal = b'o'
letter hex = b'x'
letter capital_hex = b'X'

abbrev pub base : Conversion → ℕ
base decimal = 10
base unsigned = 10
base octal = 8
base hex = 16
base capital_hex = 16

abbrev pub in_small : Conversion → Bool
in_small hex = true
in_small _ = false

-- A character of the format, "%%", and the conversions with their arguments: a character, a text at an
-- address, a number.
pub data Piece : Type 0 where
  plain : ℕ → Piece
  percent : Piece
  char : ℕ → Piece
  text : ℕ → List ℕ → Piece
  digits : Conversion → ℕ → Piece

-- How a piece is written in the format.
abbrev pub source : Piece → List ℕ
source (plain c) = c ∷ []
source percent = b'%' ∷ (b'%' ∷ [])
source (char n) = b'%' ∷ (b'c' ∷ [])
source (text a cs) = b'%' ∷ (b's' ∷ [])
source (digits conv n) = b'%' ∷ (letter conv ∷ [])

-- The text `t` that a piece stands for; that of a number is its digits in the base
-- and nothing else, the highest first, without leading zeros.
abbrev pub Shows : Piece → List ℕ → Type 0
Shows (plain c) t = t ≡ c ∷ []
Shows percent t = t ≡ b'%' ∷ []
Shows (char n) t = t ≡ n % 256 ∷ []
Shows (text a cs) t = t ≡ cs
Shows (digits conv n) t = Numeral (in_small conv) (base conv) n (reversed t [])

-- No flag, no width, no precision.
abbrev pub bare : Directive
bare = record { flags = 0; field_width = minus_one; precision = minus_one }

read_flags-bare :
    (fuel : ℕ) (m : Memory) (fmt c : ℕ)
    → m (fmt + 1) ≡ c
    → flag_of c ≡ 0
    → read_flags (suc fuel) m fmt 0 ≡ ok (0, fmt + 1)
unfolding read_flags
read_flags-bare fuel m fmt c e f = rw e (rw f refl)

read_width-bare :
    (fuel : ℕ) (args : ℕ → ℕ) (m : Memory) (fmt k c : ℕ)
    → m fmt ≡ c
    → is_digit c ≡ false
    → (c == b'*') ≡ false
    → read_width fuel args m 0 fmt k ≡ ok (minus_one, 0, fmt, k)
unfolding read_width
read_width-bare fuel args m fmt k c e d s = rw e (rw d (rw s refl))

read_precision-bare :
    (fuel : ℕ) (args : ℕ → ℕ) (m : Memory) (fmt k c : ℕ)
    → m fmt ≡ c
    → (c == b'.') ≡ false
    → read_precision fuel args m fmt k ≡ ok (minus_one, fmt, k)
unfolding read_precision
read_precision-bare fuel args m fmt k c e o = rw e (rw o refl)

-- The letters that start no flag, width, precision or qualifier.
abbrev pub IsLetter : ℕ → Type 0
IsLetter c =
    (flag_of c ≡ 0)
    × (is_digit c ≡ false)
    × ((c == b'*') ≡ false)
    × ((c == b'.') ≡ false)
    × ((c == b'h' || (c == b'l' || c == b'L')) ≡ false)

skip_qualifier-bare :
    (m : Memory) (fmt c : ℕ)
    → m fmt ≡ c
    → (c == b'h' || (c == b'l' || c == b'L')) ≡ false
    → skip_qualifier m fmt ≡ fmt
unfolding skip_qualifier
skip_qualifier-bare m fmt c e q = rw e (rw q refl)

-- A '%' and a letter are a bare directive.
pub directive-bare :
    (fuel : ℕ) (args : ℕ → ℕ) (buf : ℕ) (p : Printing) (c : ℕ)
    → p.mem (p.fmt + 1) ≡ c
    → IsLetter c
    → directive (suc fuel) args buf p
      ≡ convert (suc fuel) args buf bare (record p { fmt = p.fmt + 1 })
unfolding directive
directive-bare fuel args buf p c e (f, d, s, o, q) =
    rw
      (
        read_flags-bare fuel p.mem p.fmt c e f,
        read_width-bare (suc fuel) args p.mem (p.fmt + 1) p.next_arg c e d s,
        read_precision-bare (suc fuel) args p.mem (p.fmt + 1) p.next_arg c e o,
        skip_qualifier-bare p.mem (p.fmt + 1) c e q,
      )
      refl
