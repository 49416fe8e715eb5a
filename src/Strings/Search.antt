-- ===== src/Strings/Search.antt =====
-- Searches in texts. About `strchr`, `strrchr`, `strsep` and `strrsep` of lib/string.c.
use kanaos.Prelude.{
  ℕ, zero, suc, ◌+◌, ◌<◌, ◌≡◌, ◌≢◌, refl, sym, List, [], ◌∷◌, Bool, false, arith, length, ok,
  ==_of_ne, Bool-cases, inl, inr, ◌==◌, if◌then◌else◌,
}
use kanaos.Strings.{Memory, strchr, strrchr, strsep, strrsep, find_last, is_separator, widen, null}
use kanaos.Strings.Text.{CString}

-- The address of the first byte of a text at `p` that passes the test, or NULL.
unfoldable pub first_place : (ℕ → Bool) → ℕ → List ℕ → ℕ
first_place test p [] = null
first_place test p (x ∷ xs) = if test x then p else first_place test (p + 1) xs

-- The address of the last, or `otherwise`.
unfoldable pub last_place : (ℕ → Bool) → ℕ → List ℕ → ℕ → ℕ
last_place test p [] otherwise = otherwise
last_place test p (x ∷ xs) otherwise = last_place test (p + 1) xs (if test x then p else otherwise)

-- `strsep` of a text returns, with fuel for one round more than it has bytes, the address of its first
-- separator, or NULL when it has none.
pub strsep-first_place :
    (fuel : ℕ) (m : Memory) (p : ℕ) (xs : List ℕ)
    → CString m p xs
    → length xs < fuel
    → strsep fuel m p ≡ ok (first_place is_separator p xs)
unfolding strsep first_place is_separator
strsep-first_place zero m p xs s h = absurd (omega arith)
strsep-first_place (suc fuel) m p [] s h = rw s refl
strsep-first_place (suc fuel) m p (x ∷ xs) (e, ne, s) h = elim (Bool-cases (is_separator x)) [
  | inl eq ↦ rw (e, eq) refl
  | inr eq ↦ rw (e, eq, ==_of_ne x 0 ne) (strsep-first_place fuel m (p + 1) xs s (omega arith))
]

find_last-last_place :
    (fuel : ℕ) (test : ℕ → Bool) (m : Memory) (p last : ℕ) (xs : List ℕ)
    → test 0 ≡ false
    → CString m p xs
    → length xs < fuel
    → find_last fuel test m p last ≡ ok (last_place test p xs last)
unfolding find_last last_place
find_last-last_place zero test m p last xs z s h = absurd (omega arith)
find_last-last_place (suc fuel) test m p last [] z s h = rw (s, z) refl
find_last-last_place (suc fuel) test m p last (x ∷ xs) z (e, ne, s) h =
    rw (e, ==_of_ne x 0 ne)
      (find_last-last_place fuel test m (p + 1) (if test x then p else last) xs z s (omega arith))

-- `strrsep` of a text returns, with fuel for one round more than it has bytes, the address of its
-- last separator, or NULL when it has none.
pub strrsep-last_place :
    (fuel : ℕ) (m : Memory) (p : ℕ) (xs : List ℕ)
    → CString m p xs
    → length xs < fuel
    → strrsep fuel m p ≡ ok (last_place is_separator p xs null)
unfolding strrsep is_separator
strrsep-last_place fuel m p xs s h = find_last-last_place fuel is_separator m p null xs refl s h

-- `strrchr` of a text, for a byte other than 0, returns, with fuel for one round more than the text
-- has bytes, the address of the last such byte, or NULL when there is none.
pub strrchr-last_place :
    (fuel : ℕ) (m : Memory) (p ch : ℕ) (xs : List ℕ)
    → CString m p xs
    → length xs < fuel
    → ch ≢ 0
    → strrchr fuel m p ch ≡ ok (last_place (λ c. widen c == ch) p xs null)
unfolding strrchr
strrchr-last_place fuel m p ch xs s h ne =
    find_last-last_place fuel (λ c. widen c == ch) m p null xs (==_of_ne 0 ch (λ e. ne (sym e))) s h

-- `strchr` of a text, for a byte other than 0, returns, with fuel for one round more than the text has
-- bytes, the address of the first such byte, or NULL when there is none.
pub strchr-first_place :
    (fuel : ℕ) (m : Memory) (p ch : ℕ) (xs : List ℕ)
    → CString m p xs
    → length xs < fuel
    → ch ≢ 0
    → strchr fuel m p ch ≡ ok (first_place (λ c. widen c == ch) p xs)
unfolding strchr first_place
strchr-first_place zero m p ch xs s h ne = absurd (omega arith)
strchr-first_place (suc fuel) m p ch [] s h ne = rw (s, ==_of_ne 0 ch (λ e. ne (sym e))) refl
strchr-first_place (suc fuel) m p ch (x ∷ xs) (e, ne, s) h ne' = elim (Bool-cases (widen x == ch)) [
  | inl eq ↦ rw (e, eq) refl
  | inr eq ↦
      rw (e, eq, ==_of_ne x 0 ne) (strchr-first_place fuel m (p + 1) ch xs s (omega arith) ne')
]
