-- ===== src/Format/Print.antt =====
-- What `vsprintf` leaves in the buffer for a format of pieces. About lib/vsprintf.c.
use kanaos.Prelude.{
  ℕ, zero, suc, ◌+◌, ◌-◌, ◌^◌, ◌%◌, ◌≤◌, ◌<◌, ◌≡◌, ◌≢◌, ◌⊎◌, inl, inr, refl, sym, ap, ◌∙◌, subst,
  List, [], ◌∷◌, ◌++◌, length, length-append, arith, ok, ==_of_ne, ==_refl, update,
}
use kanaos.Strings.{Memory}
use kanaos.Format.{Printing, vsprintf_loop, vsprintf}
use kanaos.Format.Write.{
  Bytes, Bytes-frame, put_all-str, put_all-fmt, put_all-next_arg, put_all-same, put_all-Bytes,
}
use kanaos.Format.Pieces.{Piece, source, Shows}
use kanaos.Format.Round.{room, words, Passed, Apart, behind, vsprintf_loop-behind}
use kanaos.Format.Walk.{
  sources, rooms, all_words, AreReady, ShowsAll, Bytes-left, Bytes-right, Bytes-append, Passed-left,
  Passed-right, AreReady-frame,
}

-- No byte of `n` outside the `count` bytes from `a` on is other than in `m`.
abbrev pub OnlyAt : Memory → Memory → ℕ → ℕ → Type 0
OnlyAt m n a count = (b : ℕ) → ((b < a) ⊎ (a + count ≤ b)) → n b ≡ m b

-- The state `q` behind `p` has put the text `t` that the pieces show.
abbrev pub Printed : List Piece → Printing → List ℕ → Printing → Type 0
Printed xs p t q =
    (q.str ≡ p.str + length t)
    × Bytes q.mem p.str t
    × OnlyAt p.mem q.mem p.str (length t)
    × ShowsAll xs t
    × (length t ≤ rooms xs)

-- What the loop finds before the pieces `xs`.
abbrev pub Facing : ℕ → (ℕ → ℕ) → ℕ → ℕ → List Piece → Printing → Type 0
Facing fuel args lo hi xs p =
    Bytes p.mem p.fmt (sources xs)
    × (p.mem (p.fmt + length (sources xs)) ≡ 0)
    × Apart lo hi p.fmt (length (sources xs))
    × AreReady fuel p.mem lo hi xs
    × (lo ≤ p.str)
    × (p.str + rooms xs ≤ hi)
    × Passed args p.next_arg (all_words xs)

-- Where the format or its end is, the first piece writes nothing.
off_room : (lo hi f n b : ℕ) → Apart lo hi f n → f ≤ b → b ≤ f + n → (b < lo) ⊎ (hi ≤ b)
off_room lo hi f n b (inl h) from to = inl (omega arith)
off_room lo hi f n b (inr h) from to = inr (omega arith)

Apart-later : (lo hi f f' n n' : ℕ) → Apart lo hi f n → f ≤ f' → f' + n' ≤ f + n → Apart lo hi f' n'
Apart-later lo hi f f' n n' (inl h) from to = inl (omega arith)
Apart-later lo hi f f' n n' (inr h) from to = inr (omega arith)

off_written :
    (lo hi a count b : ℕ)
    → lo ≤ a
    → a + count ≤ hi
    → (b < lo) ⊎ (hi ≤ b)
    → (b < a) ⊎ (a + count ≤ b)
off_written lo hi a count b low high (inl h) = inl (omega arith)
off_written lo hi a count b low high (inr h) = inr (omega arith)

-- The state before the other pieces when the first is printed.
Facing-behind :
    (fuel : ℕ) (args : ℕ → ℕ) (lo hi : ℕ) (x : Piece) (xs : List Piece) (p : Printing) (t : List ℕ)
    → Facing fuel args lo hi (x ∷ xs) p
    → length t ≤ room x
    → Facing fuel args lo hi xs (behind x t p)
Facing-behind fuel args lo hi x xs p t (bytes, last, apart, (r, rs), low, high, passed) fits =
    let n = length (source x) in
    let at : Printing = record p { fmt = p.fmt + n; next_arg = p.next_arg + length (words x) } in
    let fmt' = put_all-fmt t at in
    let str' = put_all-str t at in
    let sum = length-append (source x) (sources xs) in
    let same : (b : ℕ) → (b < lo) ⊎ (hi ≤ b) → (behind x t p).mem b ≡ p.mem b =
      λ b out. put_all-same t at b (off_written lo hi p.str (length t) b low (omega arith) out) in
    (
      subst (λ f. Bytes (behind x t p).mem f (sources xs)) (sym fmt')
          (Bytes-frame p.mem (behind x t p).mem (p.fmt + n) (sources xs)
            (λ b from below.
              same b (off_room lo hi p.fmt _ b apart (omega arith) (omega (arith, sum))))
            (Bytes-right p.mem p.fmt (source x) (sources xs) bytes)),
      ap (behind x t p).mem (omega (arith, sum, fmt'))
          ∙ same (p.fmt + length (sources (x ∷ xs)))
              (off_room lo hi p.fmt _ _ apart (omega arith) (omega arith))
          ∙ last,
      Apart-later lo hi p.fmt _ _ _ apart (omega (arith, fmt')) (omega (arith, sum, fmt')),
      AreReady-frame fuel p.mem (behind x t p).mem lo hi xs same rs,
      omega (arith, str'),
      omega (arith, str'),
      subst (λ k. Passed args k (all_words xs)) (sym (put_all-next_arg t at))
          (Passed-right args p.next_arg (words x) (all_words xs) passed),
    )

-- The texts of the first piece and of the others stand behind each other.
Printed-cons :
    (x : Piece) (xs : List Piece) (p q : Printing) (t u : List ℕ)
    → Shows x t
    → length t ≤ room x
    → Printed xs (behind x t p) u q
    → Printed (x ∷ xs) p (t ++ u) q
Printed-cons x xs p q t u shows fits (str, bytes, only, all, most) =
    let at : Printing = record p {
      fmt = p.fmt + length (source x);
      next_arg = p.next_arg + length (words x);
    } in
    let here = put_all-str t at in
    let sum = length-append t u in
    (
      omega (arith, str, here, sum),
      Bytes-append q.mem p.str (behind x t p).str t u here
          (Bytes-frame (behind x t p).mem q.mem p.str t
            (λ b from below. only b (inl (omega (arith, here)))) (put_all-Bytes t at))
          bytes,
      λ b out.
          only b (outside_both p.str (length t) (length u) _ _ b here sum out)
          ∙ put_all-same t at b (outside_first p.str (length t) (length u) _ b sum out),
      (t, u, refl, shows, all),
      omega (arith, sum),
    )
  where
    outside_both :
        (s n m k s' b : ℕ)
        → s' ≡ s + n
        → k ≡ n + m
        → (b < s) ⊎ (s + k ≤ b)
        → (b < s') ⊎ (s' + m ≤ b)
    outside_both s n m k s' b e e' (inl h) = inl (omega arith)
    outside_both s n m k s' b e e' (inr h) = inr (omega arith)

    outside_first : (s n m k b : ℕ) → k ≡ n + m → (b < s) ⊎ (s + k ≤ b) → (b < s) ⊎ (s + n ≤ b)
    outside_first s n m k b e (inl h) = inl h
    outside_first s n m k b e (inr h) = inr (omega arith)

vsprintf_loop-end :
    (rounds fuel : ℕ) (args : ℕ → ℕ) (buf : ℕ) (p : Printing)
    → p.mem (p.fmt + 0) ≡ 0
    → vsprintf_loop (suc rounds) fuel args buf p ≡ ok p
unfolding vsprintf_loop
vsprintf_loop-end rounds fuel args buf p e = rw (vsprintf_loop, ap p.mem (plus_0 p.fmt) ∙ e) refl
  where
    plus_0 : (n : ℕ) → n ≡ n + 0
    plus_0 n = omega arith

-- The loop prints the pieces, one in each round.
vsprintf_loop-Printed :
    (rounds fuel : ℕ) (args : ℕ → ℕ) (buf lo hi : ℕ) (xs : List Piece) (p : Printing)
    → Facing (suc fuel) args lo hi xs p
    → length xs < rounds
    → (t : List ℕ) × (q : Printing) × (vsprintf_loop rounds (suc fuel) args buf p ≡ ok q)
      × Printed xs p t q
vsprintf_loop-Printed zero fuel args buf lo hi xs p f enough = absurd (omega arith)
vsprintf_loop-Printed (suc rounds) fuel args buf lo hi [] p f enough = (
  [],
  p,
  vsprintf_loop-end rounds (suc fuel) args buf p (f.1),
  (omega arith, tt, (λ b out. refl), refl, omega arith),
)
vsprintf_loop-Printed (suc rounds) fuel args buf lo hi (x ∷ xs) p f enough =
    let first =
      vsprintf_loop-behind rounds fuel args buf lo hi x p
        (Bytes-left p.mem p.fmt (source x) (sources xs) (f.0)) (f.3.0) (f.4) (omega (arith, f.5))
        (Passed-left args p.next_arg (words x) (all_words xs) (f.6)) in
    let rest =
      vsprintf_loop-Printed rounds fuel args buf lo hi xs (behind x (first.0) p)
        (Facing-behind (suc fuel) args lo hi x xs p (first.0) f (first.3)) (omega arith) in
    (
      first.0 ++ rest.0,
      rest.1,
      first.1 ∙ rest.2,
      Printed-cons x xs p (rest.1) (first.0) (rest.0) (first.2) (first.3) (rest.3),
    )

-- `vsprintf` of a format made of plain characters, "%%", "%c", "%s", "%d", "%u", "%o", "%x" and "%X",
-- with an argument for each and every text at its address, into a buffer with room for what they can
-- take and a 0, away from the format and the texts, with numbers, the room and the buffer's address
-- below 2 ^ 32, returns, with fuel for one round more than there are pieces and than each text has
-- bytes: the buffer then holds the texts that the pieces show, one behind the other, a number as its
-- digits in its base and nothing else, without leading zeros, and a 0; the result is their length, and
-- no other byte is changed.
pub vsprintf-ShowsAll :
    (fuel : ℕ) (m : Memory) (buf fmt : ℕ) (args : ℕ → ℕ) (xs : List Piece)
    → Bytes m fmt (sources xs)
    → m (fmt + length (sources xs)) ≡ 0
    → Apart buf (buf + rooms xs + 1) fmt (length (sources xs))
    → AreReady (suc fuel) m buf (buf + rooms xs + 1) xs
    → Passed args 0 (all_words xs)
    → length xs ≤ fuel
    → rooms xs < 2 ^ 32
    → buf < 2 ^ 32
    → (t : List ℕ) × (n : Memory) × (vsprintf (suc fuel) m buf fmt args ≡ ok (n, length t))
      × ShowsAll xs t
      × Bytes n buf t
      × (n (buf + length t) ≡ 0)
      × OnlyAt m n buf (suc (length t))
unfolding vsprintf
vsprintf-ShowsAll fuel m buf fmt args xs bytes last apart ready passed enough small low =
    let p : Printing = record { mem = m; str = buf; fmt = fmt; next_arg = 0 } in
    let made =
      vsprintf_loop-Printed (suc fuel) fuel args buf buf (buf + rooms xs + 1) xs p
        (bytes, last, apart, ready, omega arith, omega arith, passed) (omega arith) in
    let t = made.0 in
    let q = made.1 in
    let end = made.3.0 in
    (
      t,
      update q.mem q.str 0,
      rw (made.2) (ap (λ k. ok (update q.mem q.str 0, k)) (written _ _ _ end (made.3.4) small)),
      made.3.3,
      Bytes-frame q.mem (update q.mem q.str 0) buf t
          (λ b from below. rw (==_of_ne b q.str (omega (arith, end))) refl) (made.3.1),
      rw (sym end, ==_refl q.str) refl,
      λ b out. rw (==_of_ne b q.str (other _ _ b end out)) (made.3.2 b (wider _ b out)),
    )
  where
    written : (k n r : ℕ) → k ≡ buf + n → n ≤ r → r < 2 ^ 32 → (k + 2 ^ 32 - buf) % 2 ^ 32 ≡ n
    written k n r e h l = omega arith

    other : (k n b : ℕ) → k ≡ buf + n → (b < buf) ⊎ (buf + suc n ≤ b) → b ≢ k
    other k n b e (inl h) = omega arith
    other k n b e (inr h) = omega arith

    wider : (n b : ℕ) → (b < buf) ⊎ (buf + suc n ≤ b) → (b < buf) ⊎ (buf + n ≤ b)
    wider n b (inl h) = inl h
    wider n b (inr h) = inr (omega arith)
