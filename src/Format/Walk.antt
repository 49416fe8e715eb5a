-- ===== src/Format/Walk.antt =====
-- The walk of `vsprintf` over a format of pieces. About lib/vsprintf.c.
use kanaos.Prelude.{
  ℕ, suc, ◌+◌, ◌≤◌, ◌<◌, ◌≡◌, ◌⊎◌, inl, inr, ◌∙◌, subst, List, [], ◌∷◌, ◌++◌, length, arith,
}
use kanaos.Strings.{Memory}
use kanaos.Strings.Text.{CString-frame}
use kanaos.Format.Write.{Bytes}
use kanaos.Format.Pieces.{Piece, plain, percent, char, text, digits, source, Shows}
use kanaos.Format.Round.{room, words, Passed, IsReady}

-- The pieces of a format one behind the other: the format, the room, the arguments.
abbrev pub sources : List Piece → List ℕ
sources [] = []
sources (x ∷ xs) = source x ++ sources xs

abbrev pub rooms : List Piece → ℕ
rooms [] = 0
rooms (x ∷ xs) = room x + rooms xs

abbrev pub all_words : List Piece → List ℕ
all_words [] = []
all_words (x ∷ xs) = words x ++ all_words xs

abbrev pub AreReady : ℕ → Memory → ℕ → ℕ → List Piece → Type 0
AreReady fuel m lo hi [] = Unit
AreReady fuel m lo hi (x ∷ xs) = IsReady fuel m lo hi x × AreReady fuel m lo hi xs

-- The text `t` is what the pieces show, one behind the other.
abbrev pub ShowsAll : List Piece → List ℕ → Type 0
ShowsAll [] t = t ≡ []
ShowsAll (x ∷ xs) t =
    (first : List ℕ) × (rest : List ℕ) × (t ≡ first ++ rest) × Shows x first × ShowsAll xs rest

pub Bytes-left : (m : Memory) (a : ℕ) (xs ys : List ℕ) → Bytes m a (xs ++ ys) → Bytes m a xs
Bytes-left m a [] ys h = tt
Bytes-left m a (x ∷ xs) ys (e, h) = (e, Bytes-left m (a + 1) xs ys h)

pub Bytes-right :
    (m : Memory) (a : ℕ) (xs ys : List ℕ) → Bytes m a (xs ++ ys) → Bytes m (a + length xs) ys
Bytes-right m a [] ys h = subst (λ b. Bytes m b ys) (plus_0 a) h
  where
    plus_0 : (n : ℕ) → n ≡ n + 0
    plus_0 n = omega arith
Bytes-right m a (x ∷ xs) ys (e, h) =
    subst (λ b. Bytes m b ys) (shift a (length xs)) (Bytes-right m (a + 1) xs ys h)
  where
    shift : (n k : ℕ) → n + 1 + k ≡ n + suc k
    shift n k = omega arith

pub Bytes-append :
    (m : Memory) (a b : ℕ) (xs ys : List ℕ)
    → b ≡ a + length xs
    → Bytes m a xs
    → Bytes m b ys
    → Bytes m a (xs ++ ys)
Bytes-append m a b [] ys e f g = subst (λ b. Bytes m b ys) (e ∙ omega arith) g
Bytes-append m a b (x ∷ xs) ys e (h, f) g =
    (h, Bytes-append m (a + 1) b xs ys (e ∙ omega arith) f g)

pub Passed-left :
    (args : ℕ → ℕ) (k : ℕ) (xs ys : List ℕ) → Passed args k (xs ++ ys) → Passed args k xs
Passed-left args k [] ys h = tt
Passed-left args k (x ∷ xs) ys (e, h) = (e, Passed-left args (k + 1) xs ys h)

pub Passed-right :
    (args : ℕ → ℕ) (k : ℕ) (xs ys : List ℕ)
    → Passed args k (xs ++ ys)
    → Passed args (k + length xs) ys
Passed-right args k [] ys h = subst (λ b. Passed args b ys) (plus_0 k) h
  where
    plus_0 : (n : ℕ) → n ≡ n + 0
    plus_0 n = omega arith
Passed-right args k (x ∷ xs) ys (e, h) =
    subst (λ b. Passed args b ys) (shift k (length xs)) (Passed-right args (k + 1) xs ys h)
  where
    shift : (n k : ℕ) → n + 1 + k ≡ n + suc k
    shift n k = omega arith

-- A memory that differs only in the buffer is as ready.
IsReady-frame :
    (fuel : ℕ) (m n : Memory) (lo hi : ℕ) (x : Piece)
    → ((a : ℕ) → (a < lo) ⊎ (hi ≤ a) → n a ≡ m a)
    → IsReady fuel m lo hi x
    → IsReady fuel n lo hi x
IsReady-frame fuel m n lo hi (plain c) same r = r
IsReady-frame fuel m n lo hi percent same r = tt
IsReady-frame fuel m n lo hi (char k) same r = tt
IsReady-frame fuel m n lo hi (text at cs) same (s, inl h, r, r') =
    (CString-frame m n at cs (λ a x y. same a (inl (omega arith))) s, inl h, r, r')
IsReady-frame fuel m n lo hi (text at cs) same (s, inr h, r, r') =
    (CString-frame m n at cs (λ a x y. same a (inr (omega arith))) s, inr h, r, r')
IsReady-frame fuel m n lo hi (digits conv k) same r = r

pub AreReady-frame :
    (fuel : ℕ) (m n : Memory) (lo hi : ℕ) (xs : List Piece)
    → ((a : ℕ) → (a < lo) ⊎ (hi ≤ a) → n a ≡ m a)
    → AreReady fuel m lo hi xs
    → AreReady fuel n lo hi xs
AreReady-frame fuel m n lo hi [] same r = tt
AreReady-frame fuel m n lo hi (x ∷ xs) same (r, rs) =
    (IsReady-frame fuel m n lo hi x same r, AreReady-frame fuel m n lo hi xs same rs)
