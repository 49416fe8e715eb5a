-- ===== src/Strings/Text.antt =====
-- Texts in memory, and where they end. About `strlen` of lib/string.c.
use kanaos.Prelude.{
  ℕ, zero, suc, ◌+◌, ◌^◌, ◌≤◌, ◌<◌, ◌≡◌, ◌≢◌, ap, ◌∙◌, List, [], ◌∷◌, arith, length, ok, ==_of_ne,
}
use kanaos.Strings.{Memory, find_end, strlen}

-- At `p` stands the text `xs`: its bytes, none of them 0, and then a 0.
abbrev pub CString : Memory → ℕ → List ℕ → Type 0
CString m p [] = m p ≡ 0
CString m p (x ∷ xs) = (m p ≡ x) × (x ≢ 0) × CString m (p + 1) xs

-- Two memories that agree on the bytes of a text and its end hold the same text.
pub CString-frame :
    (m n : Memory) (p : ℕ) (xs : List ℕ)
    → ((a : ℕ) → p ≤ a → a ≤ p + length xs → n a ≡ m a)
    → CString m p xs
    → CString n p xs
CString-frame m n p [] same s = same p (omega arith) (omega arith) ∙ s
CString-frame m n p (x ∷ xs) same (e, ne, s) = (
  same p (omega arith) (omega arith) ∙ e,
  ne,
  CString-frame m n (p + 1) xs (λ a lo hi. same a (omega arith) (omega arith)) s,
)

-- A byte of the text is not 0, and the one behind it is.
pub find_end-CString :
    (fuel : ℕ) (m : Memory) (p : ℕ) (xs : List ℕ)
    → CString m p xs
    → length xs < fuel
    → find_end fuel m p ≡ ok (p + length xs)
unfolding find_end
find_end-CString zero m p xs s h = absurd (omega arith)
find_end-CString (suc fuel) m p [] s h = rw s (ap ok (omega arith))
find_end-CString (suc fuel) m p (x ∷ xs) (e, ne, s) h =
    rw (e, ==_of_ne x 0 ne)
      (find_end-CString fuel m (p + 1) xs s (omega arith) ∙ ap ok (omega arith))

-- `strlen` of a text shorter than 2 ^ 32 bytes is its length.
pub strlen-CString :
    (fuel : ℕ) (m : Memory) (p : ℕ) (xs : List ℕ)
    → CString m p xs
    → length xs < fuel
    → length xs < 2 ^ 32
    → strlen fuel m p ≡ ok (length xs)
unfolding strlen
strlen-CString fuel m p xs s h small = rw (find_end-CString fuel m p xs s h) (ap ok (omega arith))
