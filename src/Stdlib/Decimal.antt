-- ===== src/Stdlib/Decimal.antt =====
-- Numbers read from decimal digits. About `atoi` of lib/stdlib.c.
use kanaos.Prelude.{
  ℕ, zero, suc, ◌+◌, ◌-◌, ◌*◌, ◌%◌, ◌^◌, ◌<◌, ◌≤◌, ◌≡◌, ◌≢◌, refl, ap, ◌∙◌, Bool, true, false,
  if◌then◌else◌, List, [], ◌∷◌, length, All, arith, ==_of_ne, ok,
}
use kanaos.Strings.{Memory, widen}
use kanaos.Strings.Text.{CString}
use kanaos.Stdlib.{atoi, atoi_from}

-- The number that digits stand for, the highest first, behind one that is read.
abbrev pub decimal : ℕ → List ℕ → ℕ
decimal acc [] = acc
decimal acc (x ∷ xs) = decimal (acc * 10 + (x - b'0')) xs

abbrev pub Digits : List ℕ → Type 0
Digits xs = All (λ x. (b'0' ≤ x) × (x ≤ b'9')) xs

next_result :
    (acc x : ℕ)
    → b'0' ≤ x
    → x ≤ b'9'
    → (acc % 2 ^ 32 * 10 + widen x + (2 ^ 32 - b'0')) % 2 ^ 32 ≡ (acc * 10 + (x - b'0')) % 2 ^ 32
next_result acc x lo hi = ground arith

atoi_from-decimal :
    (fuel : ℕ) (m : Memory) (p acc : ℕ) (xs : List ℕ)
    → CString m p xs
    → Digits xs
    → length xs < fuel
    → atoi_from fuel m p (acc % 2 ^ 32) ≡ ok (decimal acc xs % 2 ^ 32)
unfolding atoi_from
atoi_from-decimal zero m p acc xs s d h = absurd (omega arith)
atoi_from-decimal (suc fuel) m p acc [] s d h = rw s refl
atoi_from-decimal (suc fuel) m p acc (x ∷ xs) (e, ne, s) ((lo, hi), d) h =
    rw (e, ==_of_ne x 0 ne)
      (ap (atoi_from fuel m (p + 1)) (next_result acc x lo hi)
        ∙ atoi_from-decimal fuel m (p + 1) (acc * 10 + (x - b'0')) xs s d (omega arith))

-- `atoi` of decimal digits, a minus sign before them or not, returns their number modulo 2 ^ 32, with
-- fuel for one round more than there are digits: the sign is without effect.
pub atoi-decimal :
    (fuel : ℕ) (m : Memory) (p : ℕ) (minus : Bool) (xs : List ℕ)
    → CString m p (if minus then b'-' ∷ xs else xs)
    → Digits xs
    → p ≢ 0
    → length xs < fuel
    → atoi fuel m p ≡ ok (decimal 0 xs % 2 ^ 32)
unfolding atoi
atoi-decimal fuel m p true xs (e, ne, s) d h k =
    rw (==_of_ne p 0 h, e) (atoi_from-decimal fuel m (p + 1) 0 xs s d k)
atoi-decimal fuel m p false [] s d h k =
    rw (==_of_ne p 0 h, s) (atoi_from-decimal fuel m p 0 [] s d k)
atoi-decimal fuel m p false (x ∷ xs) (e, ne, s) ((lo, hi), d) h k =
    rw (==_of_ne p 0 h, e, ==_of_ne x b'-' (omega arith))
      (atoi_from-decimal fuel m p 0 (x ∷ xs) (e, ne, s) ((lo, hi), d) k)
