-- ===== src/Format/Round.antt =====
-- One round of the loop of `vsprintf` for each kind of piece. About lib/vsprintf.c.
use kanaos.Prelude.{
  ℕ, suc, ◌+◌, ◌^◌, ◌%◌, ◌≤◌, ◌<◌, ◌≡◌, ◌≢◌, ◌⊎◌, inl, inr, refl, ap, ◌∙◌, List, [], ◌∷◌, length,
  arith, ok, ==_of_ne,
}
use kanaos.Strings.{Memory}
use kanaos.Strings.Text.{CString}
use kanaos.Format.{Printing, put, put_all, convert, directive, vsprintf_loop}
use kanaos.Format.Write.{Bytes}
use kanaos.Format.Pieces.{
  Piece, plain, percent, char, text, digits, Conversion, decimal, unsigned, octal, hex, capital_hex,
  letter, source, Shows, bare, IsLetter, directive-bare,
}
use kanaos.Format.Convert.{convert-char, convert-percent, convert-text, convert-Digits}

-- Most of the bytes that a piece can take, and the arguments that it reads.
abbrev pub room : Piece → ℕ
room (text a cs) = length cs
room (digits conv n) = 32
room _ = 1

abbrev pub words : Piece → List ℕ
words (char n) = n ∷ []
words (text a cs) = a ∷ []
words (digits conv n) = n ∷ []
words _ = []

-- The arguments from the `k`-th on start with `ws`.
abbrev pub Passed : (ℕ → ℕ) → ℕ → List ℕ → Type 0
Passed args k [] = Unit
Passed args k (w ∷ ws) = (args k ≡ w) × Passed args (k + 1) ws

-- A block of `count` + 1 bytes at `a` that lies outside the bytes from `lo` to below `hi`.
abbrev pub Apart : ℕ → ℕ → ℕ → ℕ → Type 0
Apart lo hi a count = (a + count < lo) ⊎ (hi ≤ a)

-- What each piece asks for: a plain character that ends and starts nothing, a text that stands at its
-- address, away from the buffer, a number of 32 bits.
abbrev pub IsReady : ℕ → Memory → ℕ → ℕ → Piece → Type 0
IsReady fuel m lo hi (plain c) = (c ≢ 0) × (c ≢ b'%')
IsReady fuel m lo hi (text a cs) =
    CString m a cs × Apart lo hi a (length cs) × (length cs < fuel) × (length cs < 2 ^ 32)
IsReady fuel m lo hi (digits conv n) = n < 2 ^ 32
IsReady fuel m lo hi _ = Unit

put_all-next :
    (t : List ℕ) (p : Printing)
    → record (put_all t p) { fmt = (put_all t p).fmt + 1 }
      ≡ put_all t (record p { fmt = p.fmt + 1 })
unfolding put
put_all-next [] p = refl
put_all-next (c ∷ t) p = put_all-next t (put p c)

vsprintf_loop-plain :
    (rounds fuel : ℕ) (args : ℕ → ℕ) (buf c : ℕ) (p : Printing)
    → p.mem p.fmt ≡ c
    → c ≢ 0
    → c ≢ b'%'
    → vsprintf_loop (suc rounds) fuel args buf p
      ≡ vsprintf_loop rounds fuel args buf (put_all (c ∷ []) (record p { fmt = p.fmt + 1 }))
unfolding vsprintf_loop put
vsprintf_loop-plain rounds fuel args buf c p e z d =
    rw (vsprintf_loop, e, ==_of_ne c 0 z) (rw (e, ==_of_ne c b'%' d) refl)

loop_percent :
    (rounds fuel : ℕ) (args : ℕ → ℕ) (buf : ℕ) (p q : Printing)
    → p.mem p.fmt ≡ b'%'
    → directive fuel args buf p ≡ ok q
    → vsprintf_loop (suc rounds) fuel args buf p
      ≡ vsprintf_loop rounds fuel args buf (record q { fmt = q.fmt + 1 })
unfolding vsprintf_loop
loop_percent rounds fuel args buf p q e h = rw (vsprintf_loop, e) (rw (e, h) refl)

-- A '%' and a letter whose conversion puts the bytes `t`, with the arguments counted up to `k`.
loop_letter :
    (rounds fuel : ℕ) (args : ℕ → ℕ) (buf c k : ℕ) (p : Printing) (t : List ℕ)
    → p.mem p.fmt ≡ b'%'
    → p.mem (p.fmt + 1) ≡ c
    → IsLetter c
    → convert (suc fuel) args buf bare (record p { fmt = p.fmt + 1 })
      ≡ ok (put_all t (record p { fmt = p.fmt + 1; next_arg = k }))
    → vsprintf_loop (suc rounds) (suc fuel) args buf p
      ≡ vsprintf_loop rounds
          (suc fuel)
          args
          buf
          (put_all t (record p { fmt = p.fmt + 2; next_arg = k }))
loop_letter rounds fuel args buf c k p t e e' l h =
    loop_percent rounds (suc fuel) args buf p _ e (directive-bare fuel args buf p c e' l ∙ h)
    ∙ ap (vsprintf_loop rounds (suc fuel) args buf) (
        put_all-next t (record p { fmt = p.fmt + 1; next_arg = k })
        ∙ ap (λ f. put_all t (record p { fmt = f; next_arg = k })) (two p.fmt))
  where
    two : (n : ℕ) → n + 1 + 1 ≡ n + 2
    two n = omega arith

letter-IsLetter : (conv : Conversion) → IsLetter (letter conv)
letter-IsLetter decimal = (refl, refl, refl, refl, refl)
letter-IsLetter unsigned = (refl, refl, refl, refl, refl)
letter-IsLetter octal = (refl, refl, refl, refl, refl)
letter-IsLetter hex = (refl, refl, refl, refl, refl)
letter-IsLetter capital_hex = (refl, refl, refl, refl, refl)

-- The state behind a piece that puts the bytes `t`.
abbrev pub behind : Piece → List ℕ → Printing → Printing
behind piece t p =
    put_all t (record p {
      fmt = p.fmt + length (source piece);
      next_arg = p.next_arg + length (words piece);
    })

no_arg :
    (p : Printing) (f : ℕ) → record p { fmt = f } ≡ record p { fmt = f; next_arg = p.next_arg + 0 }
no_arg p f = ap (λ k. record p { fmt = f; next_arg = k }) (plus_0 p.next_arg)
  where
    plus_0 : (n : ℕ) → n ≡ n + 0
    plus_0 n = omega arith

Apart-here :
    (lo hi a count str : ℕ)
    → Apart lo hi a count
    → lo ≤ str
    → str + count ≤ hi
    → (a + count < str) ⊎ (str + count ≤ a)
Apart-here lo hi a count str (inl h) low high = inl (omega arith)
Apart-here lo hi a count str (inr h) low high = inr (omega arith)

-- A round of the loop prints one piece.
pub vsprintf_loop-behind :
    (rounds fuel : ℕ) (args : ℕ → ℕ) (buf lo hi : ℕ) (piece : Piece) (p : Printing)
    → Bytes p.mem p.fmt (source piece)
    → IsReady (suc fuel) p.mem lo hi piece
    → lo ≤ p.str
    → p.str + room piece ≤ hi
    → Passed args p.next_arg (words piece)
    → (t : List ℕ) × (vsprintf_loop (suc rounds) (suc fuel) args buf p
        ≡ vsprintf_loop rounds (suc fuel) args buf (behind piece t p))
      × Shows piece t
      × (length t ≤ room piece)
vsprintf_loop-behind rounds fuel args buf lo hi (plain c) p s (z, d) low high a = (
  c ∷ [],
  vsprintf_loop-plain rounds (suc fuel) args buf c p (s.0) z d
      ∙ ap (λ q. vsprintf_loop rounds (suc fuel) args buf (put_all (c ∷ []) q))
          (no_arg p (p.fmt + 1)),
  refl,
  omega arith,
)
vsprintf_loop-behind rounds fuel args buf lo hi percent p (e, (e', _)) r low high a = (
  b'%' ∷ [],
  loop_letter rounds fuel args buf b'%' (p.next_arg + 0) p (b'%' ∷ []) e e'
      (refl, refl, refl, refl, refl)
      (convert-percent (suc fuel) args buf (record p { fmt = p.fmt + 1 }) e'
        ∙ ap (λ q. ok (put_all (b'%' ∷ []) q)) (no_arg p (p.fmt + 1))),
  refl,
  omega arith,
)
vsprintf_loop-behind rounds fuel args buf lo hi (char n) p (e, (e', _)) r low high (a, _) = (
  n % 256 ∷ [],
  loop_letter rounds fuel args buf b'c' (p.next_arg + 1) p (n % 256 ∷ []) e e'
      (refl, refl, refl, refl, refl)
      (convert-char (suc fuel) args buf n (record p { fmt = p.fmt + 1 }) e' a),
  refl,
  omega arith,
)
vsprintf_loop-behind rounds fuel args buf lo hi (text at cs) p (e, (e', _)) r low high (a, _) = (
  cs,
  loop_letter rounds fuel args buf b's' (p.next_arg + 1) p cs e e' (refl, refl, refl, refl, refl)
      (convert-text (suc fuel) args buf at cs (record p { fmt = p.fmt + 1 }) e' a (r.0)
        (Apart-here lo hi at (length cs) p.str (r.1) low high) (r.2) (r.3)),
  refl,
  omega arith,
)
vsprintf_loop-behind rounds fuel args buf lo hi (digits conv n) p (e, (e', _)) r low high (a, _) =
    let made = convert-Digits (suc fuel) args buf n conv (record p { fmt = p.fmt + 1 }) e' a r in
    (
      made.0,
      loop_letter rounds fuel args buf (letter conv) (p.next_arg + 1) p (made.0) e e'
          (letter-IsLetter conv) (made.1),
      made.2.0,
      made.2.1,
    )
