-- ===== src/Format/Tests.antt =====
-- Formats printed, and instances of the theorems about them.
use kanaos.Prelude.{
  ℕ, suc, ◌+◌, ◌-◌, ◌≡◌, inl, refl, List, [], ◌∷◌, length, arith, ok, get_or, ltb, if◌then◌else◌,
}
use kanaos.Strings.{Memory}
use kanaos.Printf.{has}
use kanaos.Format.{Printing, Directive, minus_one, put_all, vsprintf, directive, cut, at_least_0}
use kanaos.Format.Write.{Bytes}
use kanaos.Format.Pieces.{Piece, plain, percent, char, text, digits, decimal, hex}
use kanaos.Format.Walk.{ShowsAll}
use kanaos.Format.Star.{directive-star}
use kanaos.Format.Padded.{padded}
use kanaos.Format.Print.{vsprintf-ShowsAll, OnlyAt}

-- The format `cs` at 100 and the text "ok" at 200.
abbrev with_format : List ℕ → Memory
with_format cs a =
    if ltb a 100
    then 0
    else (if ltb a 200 then get_or cs (a - 100) 0 else get_or (b'o' ∷ (b'k' ∷ [])) (a - 200) 0)

-- "a%s%d%%%c%x" with "ok", 42, 'z' and 255.
abbrev pieces : List Piece
pieces =
    plain b'a'
    ∷ (text 200 (b'o' ∷ (b'k' ∷ []))
        ∷ (digits decimal 42 ∷ (percent ∷ (char b'z' ∷ (digits hex 255 ∷ [])))))

abbrev four_args : ℕ → ℕ
four_args k = get_or (200 ∷ (42 ∷ (b'z' ∷ (255 ∷ [])))) k 0

abbrev format : List ℕ
format =
    b'a'
    ∷ (b'%' ∷ (b's' ∷ (b'%' ∷ (b'd' ∷ (b'%' ∷ (b'%' ∷ (b'%' ∷ (b'c' ∷ (b'%' ∷ (b'x' ∷ []))))))))))

vsprintf-ShowsAll_example :
    (t : List ℕ) × (n : Memory) × (vsprintf 10 (with_format format) 1000 100 four_args
      ≡ ok (n, length t))
    × ShowsAll pieces t
    × Bytes n 1000 t
    × (n (1000 + length t) ≡ 0)
    × OnlyAt (with_format format) n 1000 (suc (length t))
vsprintf-ShowsAll_example =
    vsprintf-ShowsAll 9 (with_format format) 1000 100 four_args pieces
      (refl, (refl, (refl, (refl, (refl, (refl, (refl, (refl, (refl, (refl, (refl, tt)))))))))))
      refl (inl (omega arith))
      (
        (omega arith, omega arith),
        (
          (
            (refl, omega arith, (refl, omega arith, refl)),
            inl (omega arith),
            omega arith,
            omega arith,
          ),
          (omega arith, (tt, (tt, (omega arith, tt)))),
        ),
      )
      (refl, (refl, (refl, (refl, tt)))) (omega arith) (omega arith) (omega arith)

-- "%.*d" at 100, with 3 and 42.
abbrev star_format : List ℕ
star_format = b'%' ∷ (b'.' ∷ (b'*' ∷ (b'd' ∷ [])))

abbrev before_star : Printing
before_star = record { mem = with_format star_format; str = 1000; fmt = 100; next_arg = 0 }

directive-star_run :
    directive 5 four_args 1000 before_star
    ≡ ok (put_all (b'%' ∷ (b'*' ∷ [])) (record before_star { fmt = 102; next_arg = 1 }))
directive-star_run = directive-star 4 four_args 1000 before_star refl refl (omega arith)

-- "%-5s" with "ok".
abbrev left_5 : Directive
left_5 = record { flags = 16; field_width = 5; precision = minus_one }

left_5_run : padded left_5 (b'o' ∷ (b'k' ∷ [])) ≡ b'o' ∷ (b'k' ∷ (b' ' ∷ (b' ' ∷ (b' ' ∷ []))))
unfolding cut at_least_0 has
left_5_run = refl
