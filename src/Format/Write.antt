-- ===== src/Format/Write.antt =====
-- What the conversions write. About `vsprintf` of lib/vsprintf.c.
use kanaos.Prelude.{
  ℕ, suc, ◌+◌, ◌≤◌, ◌<◌, ◌≡◌, ◌≢◌, ◌⊎◌, inl, inr, refl, ap, ◌∙◌, List, [], ◌∷◌, ◌++◌, length, arith,
  ==_of_ne, ==_refl,
}
use kanaos.Strings.{Memory}
use kanaos.Strings.Text.{CString, CString-frame}
use kanaos.Format.{Printing, put, put_all, put_bytes}

-- `put_all` moves `str` behind the bytes, and neither `fmt` nor the count of arguments.
pub put_all-str : (cs : List ℕ) (p : Printing) → (put_all cs p).str ≡ p.str + length cs
unfolding put
put_all-str [] p = omega arith
put_all-str (c ∷ cs) p = put_all-str cs (put p c) ∙ omega arith

pub put_all-fmt : (cs : List ℕ) (p : Printing) → (put_all cs p).fmt ≡ p.fmt
unfolding put
put_all-fmt [] p = refl
put_all-fmt (c ∷ cs) p = put_all-fmt cs (put p c)

pub put_all-next_arg : (cs : List ℕ) (p : Printing) → (put_all cs p).next_arg ≡ p.next_arg
unfolding put
put_all-next_arg [] p = refl
put_all-next_arg (c ∷ cs) p = put_all-next_arg cs (put p c)

-- No byte outside the room for `cs` is changed.
pub put_all-same :
    (cs : List ℕ) (p : Printing) (a : ℕ)
    → (a < p.str) ⊎ (p.str + length cs ≤ a)
    → (put_all cs p).mem a ≡ p.mem a
unfolding put
put_all-same [] p a h = refl
put_all-same (c ∷ cs) p a (inl h) =
    put_all-same cs (put p c) a (inl (omega arith)) ∙ rw (==_of_ne a p.str (omega arith)) refl
put_all-same (c ∷ cs) p a (inr h) =
    put_all-same cs (put p c) a (inr (omega arith)) ∙ rw (==_of_ne a p.str (omega arith)) refl

-- At `a` stand the bytes `cs`.
abbrev pub Bytes : Memory → ℕ → List ℕ → Type 0
Bytes m a [] = Unit
Bytes m a (c ∷ cs) = (m a ≡ c) × Bytes m (a + 1) cs

pub Bytes-frame :
    (m n : Memory) (a : ℕ) (cs : List ℕ)
    → ((b : ℕ) → a ≤ b → b < a + length cs → n b ≡ m b)
    → Bytes m a cs
    → Bytes n a cs
Bytes-frame m n a [] same h = tt
Bytes-frame m n a (c ∷ cs) same (e, h) = (
  same a (omega arith) (omega arith) ∙ e,
  Bytes-frame m n (a + 1) cs (λ b lo hi. same b (omega arith) (omega arith)) h,
)

pub put_all-Bytes : (cs : List ℕ) (p : Printing) → Bytes (put_all cs p).mem p.str cs
unfolding put
put_all-Bytes [] p = tt
put_all-Bytes (c ∷ cs) p = (
  put_all-same cs (put p c) p.str (inl (omega arith)) ∙ rw (==_refl p.str) refl,
  put_all-Bytes cs (put p c),
)

-- Bytes without a 0, and a 0 behind them, are a text.
abbrev pub NoZero : List ℕ → Type 0
NoZero [] = Unit
NoZero (c ∷ cs) = (c ≢ 0) × NoZero cs

pub Bytes-CString :
    (m : Memory) (a : ℕ) (cs : List ℕ)
    → NoZero cs
    → Bytes m a cs
    → m (a + length cs) ≡ 0
    → CString m a cs
Bytes-CString m a [] z h e = subst_at m a e
  where
    subst_at : (m : Memory) (a : ℕ) → m (a + 0) ≡ 0 → m a ≡ 0
    subst_at m a e = ap m (omega arith) ∙ e
Bytes-CString m a (c ∷ cs) (z, zs) (e, h) last =
    (e, z, Bytes-CString m (a + 1) cs zs h (ap m (omega arith) ∙ last))

pub put_all-append :
    (xs ys : List ℕ) (p : Printing) → put_all (xs ++ ys) p ≡ put_all ys (put_all xs p)
put_all-append [] ys p = refl
put_all-append (x ∷ xs) ys p = put_all-append xs ys (put p x)

-- A text away from the room ahead is put byte by byte.
pub put_bytes-CString :
    (s : ℕ) (cs : List ℕ) (p : Printing)
    → (s + length cs < p.str) ⊎ (p.str + length cs ≤ s)
    → CString p.mem s cs
    → put_bytes (length cs) s p ≡ put_all cs p
unfolding put
put_bytes-CString s [] p apart h = refl
put_bytes-CString s (c ∷ cs) p apart (e, z, h) =
    rw (put_bytes, e)
      (put_bytes-CString (s + 1) cs (put p c) (next_apart apart) (
        CString-frame p.mem (put p c).mem (s + 1) cs
          (λ a lo hi. rw (==_of_ne a p.str (other apart a lo hi)) refl) h))
  where
    next_apart :
        (s + suc (length cs) < p.str) ⊎ (p.str + suc (length cs) ≤ s)
        → (s + 1 + length cs < p.str + 1) ⊎ (p.str + 1 + length cs ≤ s + 1)
    next_apart (inl x) = inl (omega arith)
    next_apart (inr x) = inr (omega arith)

    other :
        (s + suc (length cs) < p.str) ⊎ (p.str + suc (length cs) ≤ s)
        → (a : ℕ) → s + 1 ≤ a
        → a ≤ s + 1 + length cs
        → a ≢ p.str
    other (inl x) a lo hi = omega arith
    other (inr x) a lo hi = omega arith
