-- ===== src/Format/Star.antt =====
-- A precision taken from the arguments. About lib/vsprintf.c.
use kanaos.Prelude.{ℕ, suc, ◌+◌, ◌≡◌, ◌≢◌, refl, ok, [], ◌∷◌, ==_of_ne}
use kanaos.Strings.{Memory}
use kanaos.Format.{
  Printing, Directive, put, put_all, put_other, convert, directive, read_flags, read_width,
  read_precision, skip_qualifier, at_least_0, minus_one,
}

read_star :
    (fuel : ℕ) (args : ℕ → ℕ) (m : Memory) (fmt k : ℕ)
    → m fmt ≡ b'.'
    → m (fmt + 1) ≡ b'*'
    → read_precision fuel args m fmt k ≡ ok (at_least_0 (args k), fmt + 1, k + 1)
unfolding read_precision
read_star fuel args m fmt k e s = rw e (rw s refl)

no_flags :
    (fuel : ℕ) (m : Memory) (fmt : ℕ)
    → m (fmt + 1) ≡ b'.'
    → read_flags (suc fuel) m fmt 0 ≡ ok (0, fmt + 1)
unfolding read_flags
no_flags fuel m fmt e = rw e refl

no_width :
    (fuel : ℕ) (args : ℕ → ℕ) (m : Memory) (fmt k : ℕ)
    → m fmt ≡ b'.'
    → read_width fuel args m 0 fmt k ≡ ok (minus_one, 0, fmt, k)
unfolding read_width
no_width fuel args m fmt k e = rw e refl

no_qualifier : (m : Memory) (fmt : ℕ) → m fmt ≡ b'*' → skip_qualifier m fmt ≡ fmt
unfolding skip_qualifier
no_qualifier m fmt e = rw e refl

convert_star :
    (fuel : ℕ) (args : ℕ → ℕ) (buf : ℕ) (d : Directive) (p : Printing)
    → p.mem p.fmt ≡ b'*'
    → p.fmt ≢ p.str
    → convert fuel args buf d p ≡ ok (put_all (b'%' ∷ (b'*' ∷ [])) p)
unfolding convert put_other put
convert_star fuel args buf d p e apart = rw (e, ==_of_ne p.fmt p.str apart) (rw e refl)

-- "%.*" with any letter behind it takes an argument and prints "%*": the '*' is not skipped, so that it
-- is taken as the conversion, and the letter behind it is printed as it stands.
pub directive-star :
    (fuel : ℕ) (args : ℕ → ℕ) (buf : ℕ) (p : Printing)
    → p.mem (p.fmt + 1) ≡ b'.'
    → p.mem (p.fmt + 1 + 1) ≡ b'*'
    → p.fmt + 1 + 1 ≢ p.str
    → directive (suc fuel) args buf p
      ≡ ok (
          put_all
            (b'%' ∷ (b'*' ∷ []))
            (record p { fmt = p.fmt + 1 + 1; next_arg = p.next_arg + 1 }))
unfolding directive
directive-star fuel args buf p e s apart =
    rw
      (
        no_flags fuel p.mem p.fmt e,
        no_width (suc fuel) args p.mem (p.fmt + 1) p.next_arg e,
        read_star (suc fuel) args p.mem (p.fmt + 1) p.next_arg e s,
        no_qualifier p.mem (p.fmt + 1 + 1) s,
      )
      (convert_star (suc fuel) args buf _
        (record p { fmt = p.fmt + 1 + 1; next_arg = p.next_arg + 1 }) s apart)
