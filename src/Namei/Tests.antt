-- ===== src/Namei/Tests.antt =====
-- The path "a/b" and the entry names "a" and "ab".
use kanaos.Prelude.{◌≡◌, refl, [], ◌∷◌, some, none, ok, arith, ◌==◌, if◌then◌else◌}
use kanaos.Strings.{Memory, is_separator}
use kanaos.Strings.Text.{CString}
use kanaos.Namei.{match_name, skip_same, match_end}
use kanaos.Namei.Match.{match_path, match_name-match_path}

-- "a/b" at 100, "a" at 200 and "ab" at 300.
abbrev names : Memory
names a =
    if a == 100
    then b'a'
    else (if a == 101
        then b'/'
        else (if a == 102
            then b'b'
            else (if a == 200
                then b'a'
                else (if a == 300 then b'a' else (if a == 301 then b'b' else 0)))))

path_stands : CString names 100 (b'a' ∷ b'/' ∷ b'b' ∷ [])
path_stands = (refl, omega arith, (refl, omega arith, (refl, omega arith, refl)))

match_name-match_path_run : match_name 2 names 100 200 ≡ ok (some 102)
unfolding match_path is_separator
match_name-match_path_run =
    match_name-match_path 2 names 100 200 (b'a' ∷ b'/' ∷ b'b' ∷ []) (b'a' ∷ []) path_stands
      (refl, omega arith, refl) (omega arith)

other_name : match_name 3 names 100 300 ≡ ok none
unfolding match_name skip_same match_end is_separator
other_name = refl
