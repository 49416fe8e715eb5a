-- ===== src/Strings/Copy.antt =====
-- Copies of texts. About `strcpy`, `strncpy` and `strcat` of lib/string.c.
use kanaos.Prelude.{
  ℕ, zero, suc, ◌+◌, ◌^◌, ◌≤◌, ◌<◌, ◌≡◌, ◌≢◌, ◌⊎◌, inl, inr, refl, ap, sym, ◌∙◌, List, [], ◌∷◌,
  ◌++◌, arith, length, take, update, ok, ==_of_ne, ==_refl, subst,
}
use kanaos.Strings.{Memory, copy_text, strcpy, strncpy_loop, strncpy, strcat}
use kanaos.Strings.Text.{CString, CString-frame, find_end-CString}

-- A copy upwards of `count` bytes never reads a byte that it has written.
abbrev pub CopiesUp : ℕ → ℕ → ℕ → Type 0
CopiesUp ptr src count = (ptr ≤ src) ⊎ (src + count < ptr)

-- Memory `n` differs from `m` at most at `count` + 1 bytes from `p` on.
abbrev pub SameOutside : Memory → Memory → ℕ → ℕ → Type 0
SameOutside m n p count = (a : ℕ) → ((a < p) ⊎ (p + count < a)) → n a ≡ m a

update_other : (m : Memory) (p v a : ℕ) → a ≢ p → update m p v a ≡ m a
update_other m p v a h = rw (==_of_ne a p h) refl

update_self : (m : Memory) (p v : ℕ) → update m p v p ≡ v
update_self m p v = rw (==_refl p) refl

-- A byte reads the same behind its own copy.
update_source : (m : Memory) (p s : ℕ) → update m p (m s) s ≡ m s
update_source m p s = ground arith

-- The rest of the source is not changed by the copy of its first byte.
rest_stands :
    (m : Memory) (ptr src v : ℕ) (xs : List ℕ)
    → CopiesUp ptr src (suc (length xs))
    → CString m (src + 1) xs
    → CString (update m ptr v) (src + 1) xs
rest_stands m ptr src v xs (inl up) s =
    CString-frame m _ _ xs (λ a lo hi. update_other m ptr v a (omega arith)) s
rest_stands m ptr src v xs (inr up) s =
    CString-frame m _ _ xs (λ a lo hi. update_other m ptr v a (omega arith)) s

CopiesUp-rest :
    (ptr src count : ℕ) → CopiesUp ptr src (suc count) → CopiesUp (ptr + 1) (src + 1) count
CopiesUp-rest ptr src count (inl up) = inl (omega arith)
CopiesUp-rest ptr src count (inr up) = inr (omega arith)

-- What a copy of the text `xs` to `ptr` does to memory `m`.
abbrev pub Copied : Memory → ℕ → List ℕ → Memory → Type 0
Copied m ptr xs n = CString n ptr xs × SameOutside m n ptr (length xs)

-- One byte in front of a copied rest.
Copied-cons :
    (m n : Memory) (ptr x : ℕ) (xs : List ℕ)
    → x ≢ 0
    → Copied (update m ptr x) (ptr + 1) xs n
    → Copied m ptr (x ∷ xs) n
Copied-cons m n ptr x xs ne (s, same) = (
  (same ptr (inl (omega arith)) ∙ update_self m ptr x, ne, s),
  λ a outside. same a (widen_outside a outside) ∙ update_other m ptr x a (off a outside),
)
  where
    widen_outside :
        (a : ℕ)
        → (a < ptr) ⊎ (ptr + suc (length xs) < a)
        → (a < ptr + 1) ⊎ (ptr + 1 + length xs < a)
    widen_outside a (inl h) = inl (omega arith)
    widen_outside a (inr h) = inr (omega arith)

    off : (a : ℕ) → (a < ptr) ⊎ (ptr + suc (length xs) < a) → a ≢ ptr
    off a (inl h) = omega arith
    off a (inr h) = omega arith

Copied-end : (m : Memory) (ptr : ℕ) → Copied m ptr [] (update m ptr 0)
Copied-end m ptr = (update_self m ptr 0, λ a outside. update_other m ptr 0 a (off a outside))
  where
    off : (a : ℕ) → (a < ptr) ⊎ (ptr + 0 < a) → a ≢ ptr
    off a (inl h) = omega arith
    off a (inr h) = omega arith

copy_text-Copied :
    (fuel : ℕ) (m : Memory) (ptr src : ℕ) (xs : List ℕ)
    → CString m src xs
    → CopiesUp ptr src (length xs)
    → length xs < fuel
    → (n : Memory) × (copy_text fuel m ptr src ≡ ok n) × Copied m ptr xs n
unfolding copy_text
copy_text-Copied zero m ptr src xs s up h = absurd (omega arith)
copy_text-Copied (suc fuel) m ptr src [] s up h =
    rw (update_source m ptr src, s) (update m ptr 0, refl, Copied-end m ptr)
copy_text-Copied (suc fuel) m ptr src (x ∷ xs) (e, ne, s) up h =
    let rest =
      copy_text-Copied fuel (update m ptr x) (ptr + 1) (src + 1) xs
        (rest_stands m ptr src x xs up s) (CopiesUp-rest ptr src (length xs) up) (omega arith) in
    (
      rest.0,
      rw (update_source m ptr src, e, ==_of_ne x 0 ne) (rest.1),
      Copied-cons m (rest.0) ptr x xs ne (rest.2),
    )

-- `strcpy` of a text, with fuel for one round more than it has bytes, to a place at or below it or
-- beyond its end returns; the text then stands at `dest`, and no byte outside its copy is changed.
pub strcpy-Copied :
    (fuel : ℕ) (m : Memory) (dest src : ℕ) (xs : List ℕ)
    → CString m src xs
    → CopiesUp dest src (length xs)
    → length xs < fuel
    → (n : Memory) × (strcpy fuel m dest src ≡ ok n) × Copied m dest xs n
unfolding strcpy
strcpy-Copied fuel m dest src xs s up h = copy_text-Copied fuel m dest src xs s up h

-- A text whose bytes stand in `n` as in `m`, with another in `n` from its end on, makes one text.
append-CString :
    (m n : Memory) (p : ℕ) (xs ys : List ℕ)
    → ((a : ℕ) → p ≤ a → a < p + length xs → n a ≡ m a)
    → CString m p xs
    → CString n (p + length xs) ys
    → CString n p (xs ++ ys)
append-CString m n p [] ys same s t = subst (λ a. CString n a ys) (omega arith) t
append-CString m n p (x ∷ xs) ys same (e, ne, s) t = (
  same p (omega arith) (omega arith) ∙ e,
  ne,
  append-CString m n (p + 1) xs ys (λ a lo hi. same a (omega arith) (omega arith)) s
      (subst (λ a. CString n a ys) (omega arith) t),
)

-- `strcat` of texts, the copy to the end of the first standing at or below the second or beyond its
-- end, returns with fuel for one round more than each has bytes; at `dest` then stands the first
-- text followed by the second, and no byte outside the copy is changed.
pub strcat-Copied :
    (fuel : ℕ) (m : Memory) (dest src : ℕ) (xs ys : List ℕ)
    → CString m dest xs
    → CString m src ys
    → CopiesUp (dest + length xs) src (length ys)
    → length xs < fuel
    → length ys < fuel
    → (n : Memory) × (strcat fuel m dest src ≡ ok n)
      × CString n dest (xs ++ ys)
      × SameOutside m n (dest + length xs) (length ys)
unfolding strcat
strcat-Copied fuel m dest src xs ys s t up h k =
    let copy = copy_text-Copied fuel m (dest + length xs) src ys t up k in
    (
      copy.0,
      rw (find_end-CString fuel m dest xs s h) (copy.1),
      append-CString m (copy.0) dest xs ys (λ a lo hi. copy.2.1 a (inl hi)) s (copy.2.0),
      copy.2.1,
    )

-- The byte past the end of the copied part becomes 0.
Copied-cut : (m : Memory) (ptr x : ℕ) → Copied m ptr [] (update (update m ptr x) ptr 0)
Copied-cut m ptr x = (
  update_self (update m ptr x) ptr 0,
  λ a outside.
      (Copied-end (update m ptr x) ptr).1 a outside ∙ update_other m ptr x a (off a outside),
)
  where
    off : (a : ℕ) → (a < ptr) ⊎ (ptr + 0 < a) → a ≢ ptr
    off a (inl h) = omega arith
    off a (inr h) = omega arith

strncpy_loop_end :
    (left : ℕ) (m : Memory) (ptr src last : ℕ)
    → m src ≡ 0
    → strncpy_loop (suc left) m ptr src last ≡ update m ptr 0
unfolding strncpy_loop
strncpy_loop_end left m ptr src last s = rw (update_source m ptr src, s) refl

strncpy_loop_step :
    (left : ℕ) (m : Memory) (ptr src last x : ℕ)
    → m src ≡ x
    → x ≢ 0
    → strncpy_loop (suc left) m ptr src last
      ≡ strncpy_loop left (update m ptr x) (ptr + 1) (src + 1) last
unfolding strncpy_loop
strncpy_loop_step left m ptr src last x e ne = rw (update_source m ptr src, e, ==_of_ne x 0 ne) refl

strncpy_loop_last :
    (m : Memory) (ptr src last : ℕ) → strncpy_loop zero m ptr src last ≡ update m last 0
unfolding strncpy_loop
strncpy_loop_last m ptr src last = refl

strncpy_loop-Copied :
    (left : ℕ) (m : Memory) (ptr src last : ℕ) (xs : List ℕ)
    → CString m src xs
    → CopiesUp ptr src (length xs)
    → last ≡ ptr + left
    → Copied m ptr (take left xs) (strncpy_loop (suc left) m ptr src last)
strncpy_loop-Copied zero m ptr src last [] s up e =
    subst (Copied m ptr []) (sym (strncpy_loop_end 0 m ptr src last s)) (Copied-end m ptr)
strncpy_loop-Copied zero m ptr src last (x ∷ xs) (e', ne, s) up e =
    subst (Copied m ptr [])
      (sym (
        strncpy_loop_step 0 m ptr src last x e' ne
        ∙ strncpy_loop_last (update m ptr x) (ptr + 1) (src + 1) last
        ∙ ap (λ a. update (update m ptr x) a 0) (omega arith)))
      (Copied-cut m ptr x)
strncpy_loop-Copied (suc left) m ptr src last [] s up e =
    subst (Copied m ptr []) (sym (strncpy_loop_end (suc left) m ptr src last s)) (Copied-end m ptr)
strncpy_loop-Copied (suc left) m ptr src last (x ∷ xs) (e', ne, s) up e =
    let rest =
      strncpy_loop-Copied left (update m ptr x) (ptr + 1) (src + 1) last xs
        (rest_stands m ptr src x xs up s) (CopiesUp-rest ptr src (length xs) up) (omega arith) in
    subst (Copied m ptr (x ∷ take left xs))
      (sym (strncpy_loop_step (suc left) m ptr src last x e' ne))
      (Copied-cons m (strncpy_loop (suc left) (update m ptr x) (ptr + 1) (src + 1) last) ptr x
        (take left xs) ne rest)

-- `strncpy` with room for `left` + 1 bytes at `dest`, below 2 ^ 32, to a place at or below the text
-- or beyond its end leaves the first `left` bytes of the text there, or all when it is shorter, with
-- a 0 behind them, and changes no byte outside that copy.
pub strncpy-Copied :
    (m : Memory) (dest src left : ℕ) (xs : List ℕ)
    → CString m src xs
    → CopiesUp dest src (length xs)
    → dest + left < 2 ^ 32
    → Copied m dest (take left xs) (strncpy m dest src (suc left))
unfolding strncpy
strncpy-Copied m dest src left xs s up h =
    strncpy_loop-Copied left m dest src _ xs s up (omega arith)
