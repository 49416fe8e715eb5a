-- ===== src/Strings/Compare.antt =====
-- Comparisons. About `strcmp` and `memcmp` of lib/string.c.
use kanaos.Prelude.{
  ℕ, zero, suc, ◌+◌, ◌<◌, ◌≡◌, ◌≢◌, inl, inr, refl, sym, ap, ◌∙◌, List, [], ◌∷◌, arith, length, ok,
  ==_of_ne, ==_refl, ==_iff, Bool-cases, Outcome, ◌==◌, if◌then◌else◌, All, true, false, ◌↔◌, subst,
}
use kanaos.Strings.{Memory, strcmp, memcmp, byte_order}
use kanaos.Strings.Text.{CString}

-- The order of two texts: 0 for the same text, and otherwise that of the first bytes that differ, as
-- `int8`, where the shorter text counts as followed by 0.
unfoldable pub text_order : List ℕ → List ℕ → ℕ
text_order [] [] = 0
text_order [] (y ∷ ys) = byte_order 0 y
text_order (x ∷ xs) [] = byte_order x 0
text_order (x ∷ xs) (y ∷ ys) = if x == y then text_order xs ys else byte_order x y

-- `strcmp` of two texts returns, with fuel for one round more than the first has bytes, the order
-- of the texts.
pub strcmp-text_order :
    (fuel : ℕ) (m : Memory) (lhs rhs : ℕ) (xs ys : List ℕ)
    → CString m lhs xs
    → CString m rhs ys
    → length xs < fuel
    → strcmp fuel m lhs rhs ≡ ok (text_order xs ys)
unfolding strcmp text_order byte_order
strcmp-text_order zero m lhs rhs xs ys s t h = absurd (omega arith)
strcmp-text_order (suc fuel) m lhs rhs [] [] s t h = rw (s, t) refl
strcmp-text_order (suc fuel) m lhs rhs [] (y ∷ ys) s (e, ne, t) h =
    rw (s, e, ==_of_ne 0 y (λ z. ne (sym z))) refl
strcmp-text_order (suc fuel) m lhs rhs (x ∷ xs) [] (e, ne, s) t h = rw (e, t, ==_of_ne x 0 ne) refl
strcmp-text_order (suc fuel) m lhs rhs (x ∷ xs) (y ∷ ys) (e, ne, s) (e', ne', t) h =
    elim (Bool-cases (x == y)) [
      | inl eq ↦
          rw (e, e', ==_of_ne x 0 ne, ==_of_ne y 0 ne', eq)
            (strcmp-text_order fuel m (lhs + 1) (rhs + 1) xs ys s t (omega arith))
      | inr eq ↦ rw (e, e', eq) refl
    ]

byte_order-0 : (x y : ℕ) → x < 256 → y < 256 → byte_order x y ≡ 0 → x ≡ y
unfolding byte_order
byte_order-0 x y h k e = ground arith

-- The bytes of a text.
abbrev pub Chars : List ℕ → Type 0
Chars xs = All (λ x. (x < 256) × (x ≢ 0)) xs

text_order_self : (xs : List ℕ) → text_order xs xs ≡ 0
unfolding text_order
text_order_self [] = refl
text_order_self (x ∷ xs) = rw (==_refl x) (text_order_self xs)

text_order_tail :
    (x y : ℕ) (xs ys : List ℕ) → (x == y) ≡ true → text_order (x ∷ xs) (y ∷ ys) ≡ text_order xs ys
unfolding text_order
text_order_tail x y xs ys eq = rw eq refl

text_order_differ :
    (x y : ℕ) (xs ys : List ℕ) → (x == y) ≡ false → text_order (x ∷ xs) (y ∷ ys) ≡ byte_order x y
unfolding text_order
text_order_differ x y xs ys eq = rw eq refl

ne_of_== : (x y : ℕ) → (x == y) ≡ false → x ≢ y
ne_of_== x y eq = ground arith

text_order-0 : (xs ys : List ℕ) → Chars xs → Chars ys → text_order xs ys ≡ 0 → xs ≡ ys
unfolding text_order
text_order-0 [] [] s t e = refl
text_order-0 [] (y ∷ ys) s ((small, ne), t) e =
    absurd (ne (sym (byte_order-0 0 y (omega arith) small e)))
text_order-0 (x ∷ xs) [] ((small, ne), s) t e = absurd (ne (byte_order-0 x 0 small (omega arith) e))
text_order-0 (x ∷ xs) (y ∷ ys) ((small, ne), s) ((small', ne'), t) e = elim (Bool-cases (x == y)) [
  | inl eq ↦
      let same = (==_iff x y).0 eq in
      let rest = text_order-0 xs ys s t (sym (text_order_tail x y xs ys eq) ∙ e) in cc
  | inr eq ↦
      let same = byte_order-0 x y small small' (sym (text_order_differ x y xs ys eq) ∙ e) in
      absurd (ne_of_== x y eq same)
]

-- `strcmp` of two texts of bytes is 0 for equal texts and for no others, with fuel for one round more
-- than the first has bytes.
pub strcmp-0 :
    (fuel : ℕ) (m : Memory) (lhs rhs : ℕ) (xs ys : List ℕ)
    → CString m lhs xs
    → CString m rhs ys
    → Chars xs
    → Chars ys
    → length xs < fuel
    → (strcmp fuel m lhs rhs ≡ ok 0) ↔ (xs ≡ ys)
strcmp-0 fuel m lhs rhs xs ys s t small small' h =
    let order = strcmp-text_order fuel m lhs rhs xs ys s t h in
    (
      (λ e. text_order-0 xs ys small small' (ok-value (sym order ∙ e))),
      λ e. order ∙ ap ok (subst (λ zs. text_order xs zs ≡ 0) e (text_order_self xs)),
    )
  where
    ok-value : {a b : ℕ} → Path (Outcome ℕ) (ok a) (ok b) → a ≡ b
    ok-value h = cc

memcmp_tail :
    (m : Memory) (lhs rhs count : ℕ)
    → m lhs ≡ m rhs
    → memcmp m lhs rhs (suc count) ≡ memcmp m (lhs + 1) (rhs + 1) count
unfolding memcmp
memcmp_tail m lhs rhs count e = rw (e, ==_refl (m rhs)) refl

memcmp_differ :
    (m : Memory) (lhs rhs count : ℕ)
    → (m lhs == m rhs) ≡ false
    → memcmp m lhs rhs (suc count) ≡ byte_order (m lhs) (m rhs)
unfolding memcmp
memcmp_differ m lhs rhs count e = rw e refl

memcmp_none : (m : Memory) (lhs rhs : ℕ) → memcmp m lhs rhs zero ≡ 0
unfolding memcmp
memcmp_none m lhs rhs = refl

memcmp_of_same :
    (m : Memory) (lhs rhs count : ℕ)
    → ((i : ℕ) → i < count → m (lhs + i) ≡ m (rhs + i))
    → memcmp m lhs rhs count ≡ 0
memcmp_of_same m lhs rhs zero same = memcmp_none m lhs rhs
memcmp_of_same m lhs rhs (suc count) same =
    memcmp_tail m lhs rhs count (at_start (same 0 (omega arith)))
    ∙ memcmp_of_same m (lhs + 1) (rhs + 1) count (λ i h. next i (same (suc i) (omega arith)))
  where
    at_start : m (lhs + 0) ≡ m (rhs + 0) → m lhs ≡ m rhs
    at_start e = ap m (omega arith) ∙ e ∙ ap m (omega arith)

    next : (i : ℕ) → m (lhs + suc i) ≡ m (rhs + suc i) → m (lhs + 1 + i) ≡ m (rhs + 1 + i)
    next i e = ap m (omega arith) ∙ e ∙ ap m (omega arith)

same_of_memcmp :
    (m : Memory) (lhs rhs count : ℕ)
    → ((a : ℕ) → m a < 256)
    → memcmp m lhs rhs count ≡ 0
    → (i : ℕ) → i < count
    → m (lhs + i) ≡ m (rhs + i)
same_of_memcmp m lhs rhs zero small e i h = absurd (omega arith)
same_of_memcmp m lhs rhs (suc count) small e i h = elim (Bool-cases (m lhs == m rhs)) [
  | inl eq ↦
      let same = (==_iff (m lhs) (m rhs)).0 eq in
      each same
        (same_of_memcmp m (lhs + 1) (rhs + 1) count small
          (sym (memcmp_tail m lhs rhs count same) ∙ e))
        i h
  | inr eq ↦ absurd (
      ne_of_== (m lhs) (m rhs) eq (
        byte_order-0 (m lhs) (m rhs) (small lhs) (small rhs)
          (sym (memcmp_differ m lhs rhs count eq) ∙ e)))
]
  where
    each :
        m lhs ≡ m rhs
        → ((i : ℕ) → i < count → m (lhs + 1 + i) ≡ m (rhs + 1 + i))
        → (i : ℕ) → i < suc count
        → m (lhs + i) ≡ m (rhs + i)
    each same rest zero h = ap m (omega arith) ∙ same ∙ ap m (omega arith)
    each same rest (suc i) h = ap m (omega arith) ∙ rest i (omega arith) ∙ ap m (omega arith)

-- `memcmp` of two blocks of bytes is 0 exactly when they are equal byte by byte.
pub memcmp-0 :
    (m : Memory) (lhs rhs count : ℕ)
    → ((a : ℕ) → m a < 256)
    → (memcmp m lhs rhs count ≡ 0) ↔ ((i : ℕ) → i < count → m (lhs + i) ≡ m (rhs + i))
memcmp-0 m lhs rhs count small =
    (same_of_memcmp m lhs rhs count small, memcmp_of_same m lhs rhs count)
