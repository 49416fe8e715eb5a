-- ===== src/Format/Padded.antt =====
-- A text printed with a width, a precision and the flag for the left. About `case 's'` of lib/vsprintf.c.
use kanaos.Prelude.{ℕ, ◌-◌, List, ◌++◌, length, take, replicate, if◌then◌else◌}
use kanaos.Printf.{has, left}
use kanaos.Format.{Directive, cut, at_least_0}

abbrev pub blanks : ℕ → List ℕ
blanks n = replicate n b' '

-- The text as it is printed: cut to the precision, filled with blanks to the width.
abbrev pub padded : Directive → List ℕ → List ℕ
padded d cs =
    let n = cut d.precision (length cs) in
    let fill = blanks (at_least_0 d.field_width - n) in
    if has d.flags left then take n cs ++ fill else fill ++ take n cs
