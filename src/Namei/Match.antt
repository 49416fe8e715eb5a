-- ===== src/Namei/Match.antt =====
-- What `match_name` of fs/namei.c matches.
use kanaos.Prelude.{
  ℕ, zero, suc, ◌+◌, ◌<◌, ◌≡◌, refl, sym, ◌∙◌, true, false, ◌&&◌, not, ◌==◌, if◌then◌else◌, List,
  [], ◌∷◌, length, Option, none, some, ok, arith, ==_of_ne, Bool-cases, inl, inr,
}
use kanaos.Strings.{Memory, is_separator}
use kanaos.Strings.Text.{CString}
use kanaos.Namei.{skip_same, match_end, match_name}

-- Whether the first part of the path `xs` at `p`, up to a separator or its end, is the name `es`; if so
-- the address behind that part and its separator.
unfoldable pub match_path : ℕ → List ℕ → List ℕ → Option ℕ
match_path p [] [] = some p
match_path p [] (e ∷ es) = none
match_path p (x ∷ xs) [] = if is_separator x then some (p + 1) else none
match_path p (x ∷ xs) (e ∷ es) = if x == e then match_path (p + 1) xs es else none

stop :
    (fuel : ℕ) (m : Memory) (p q : ℕ)
    → (m p == m q && (not (m p == 0) && not (m q == 0))) ≡ false
    → match_name (suc fuel) m p q ≡ ok (match_end m (p, q))
unfolding match_name skip_same
stop fuel m p q e = rw e refl

go_on :
    (fuel : ℕ) (m : Memory) (p q : ℕ)
    → (m p == m q && (not (m p == 0) && not (m q == 0))) ≡ true
    → match_name (suc fuel) m p q ≡ match_name fuel m (p + 1) (q + 1)
unfolding match_name skip_same
go_on fuel m p q e = rw e refl

zero_no_separator : is_separator 0 ≡ false
unfolding is_separator
zero_no_separator = refl

-- `match_name` of a path and the name of an entry returns, with fuel for one round more than the name has
-- bytes, whether the first part of the path is that name, and then the address of the rest of the path.
pub match_name-match_path :
    (fuel : ℕ) (m : Memory) (p q : ℕ) (xs es : List ℕ)
    → CString m p xs
    → CString m q es
    → length es < fuel
    → match_name fuel m p q ≡ ok (match_path p xs es)
unfolding match_path match_end
match_name-match_path zero m p q xs es s t h = absurd (omega arith)
match_name-match_path (suc fuel) m p q [] [] s t h =
    stop fuel m p q (rw (s, t) refl) ∙ rw (s, t, zero_no_separator) refl
match_name-match_path (suc fuel) m p q [] (e ∷ es) s (f, ne, t) h =
    stop fuel m p q (rw (s, f, ==_of_ne 0 e (λ z. ne (sym z))) refl) ∙ rw (f, ==_of_ne e 0 ne) refl
match_name-match_path (suc fuel) m p q (x ∷ xs) [] (f, ne, s) t h =
    stop fuel m p q (rw (f, t, ==_of_ne x 0 ne) refl) ∙ elim (Bool-cases (is_separator x)) [
      | inl sep ↦ rw (f, t, ==_of_ne x 0 ne, sep) refl
      | inr sep ↦ rw (f, t, ==_of_ne x 0 ne, sep) refl
    ]
match_name-match_path (suc fuel) m p q (x ∷ xs) (e ∷ es) (f, ne, s) (f', ne', t) h =
    elim (Bool-cases (x == e)) [
      | inl eq ↦
          go_on fuel m p q (rw (f, f', eq, ==_of_ne x 0 ne, ==_of_ne e 0 ne') refl)
          ∙ match_name-match_path fuel m (p + 1) (q + 1) xs es s t (omega arith)
          ∙ rw eq refl
      | inr eq ↦ stop fuel m p q (rw (f, f', eq) refl) ∙ rw (f', ==_of_ne e 0 ne', eq) refl
    ]
