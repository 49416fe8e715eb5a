-- ===== src/Console/Text.antt =====
-- A text written on the screen. About `console_write` of kernel/console.c.
use kanaos.Prelude.{
  ℕ, zero, suc, ◌+◌, ◌*◌, ◌^◌, ◌%◌, ◌<◌, ◌≤◌, ◌≡◌, ◌≢◌, ◌⊎◌, inl, inr, refl, sym, ap, ◌∙◌, arith,
  update, ==_of_ne, ==_refl, ltb_of_le, subst,
}
use kanaos.Strings.{Memory}
use kanaos.Console.{Console, write_char, console_write, mem_end}

-- `size` bytes at `str` without a newline.
abbrev pub NoNewline : Memory → ℕ → ℕ → Type 0
NoNewline m str zero = Unit
NoNewline m str (suc size) = (m str ≢ b'\n') × NoNewline m (str + 1) size

NoNewline-frame :
    (m n : Memory) (str size : ℕ)
    → ((a : ℕ) → str ≤ a → a < str + size → n a ≡ m a)
    → NoNewline m str size
    → NoNewline n str size
NoNewline-frame m n str zero same h = tt
NoNewline-frame m n str (suc size) same (ne, h) = (
  λ e. ne (sym (same str (omega arith) (omega arith)) ∙ e),
  NoNewline-frame m n (str + 1) size (λ a lo hi. same a (omega arith) (omega arith)) h,
)

-- The screen behind a character that is not a newline and does not fill the text memory.
abbrev typed : Console → ℕ → Console
typed c ch = record c { mem = update c.mem c.cur_ptr ch; cur_ptr = c.cur_ptr + 2 }

write_char-typed :
    (c : Console) (ch : ℕ) → ch ≢ b'\n' → c.cur_ptr + 2 ≤ mem_end → write_char c ch ≡ typed c ch
unfolding write_char
write_char-typed c ch ne fits =
    rw (==_of_ne ch b'\n' ne, next c.cur_ptr fits, ltb_of_le mem_end (c.cur_ptr + 2) fits) refl
  where
    next : (p : ℕ) → p + 2 ≤ mem_end → (p + 2) % 2 ^ 32 ≡ p + 2
    next p h = omega arith

-- The screen `d` shows the `size` bytes at `str` of the memory of `c` from the cursor of `c` on, and
-- differs from `c` in nothing but these characters and the cursor behind them.
abbrev pub Typed : ℕ → ℕ → Console → Console → Type 0
Typed size str c d =
    ((k : ℕ) → k < size → d.mem (c.cur_ptr + 2 * k) ≡ c.mem (str + k))
    × (d.cur_ptr ≡ c.cur_ptr + 2 * size)
    × ((a : ℕ) → ((k : ℕ) → k < size → a ≢ c.cur_ptr + 2 * k) → d.mem a ≡ c.mem a)
    × (d.ports ≡ c.ports)

-- `console_write` of a text without a newline that fits before the end of the text memory and stands
-- outside of what it writes puts the k-th byte in the k-th character from the cursor on, moves the
-- cursor behind them, and changes no other byte, so no colours; no port is written.
pub console_write-Typed :
    (size str : ℕ) (c : Console)
    → NoNewline c.mem str size
    → c.cur_ptr + 2 * size ≤ mem_end
    → (str + size ≤ c.cur_ptr) ⊎ (c.cur_ptr + 2 * size ≤ str)
    → Typed size str c (console_write size str c)
unfolding console_write
console_write-Typed zero str c h fits apart =
    (λ k i. absurd (omega arith), omega arith, λ a off. refl, refl)
console_write-Typed (suc size) str c (ne, h) fits apart =
    let d : Console = typed c (c.mem str) in
    let step = write_char-typed c (c.mem str) ne (omega arith) in
    let other : (a : ℕ) → a ≢ c.cur_ptr → d.mem a ≡ c.mem a =
      λ a off. rw (==_of_ne a c.cur_ptr off) refl in
    let text : (a : ℕ) → str < a → a < str + suc size → d.mem a ≡ c.mem a =
      λ a lo hi. other a (off_text apart a lo hi) in
    let rest =
      console_write-Typed size (str + 1) d
        (NoNewline-frame c.mem d.mem (str + 1) size (λ a lo hi. text a (omega arith) (omega arith))
          h)
        (omega arith) (next_apart apart) in
    subst (λ q. Typed (suc size) str c (console_write size (str + 1) q)) (sym step)
      (
        λ k i. cells d (rest.0) (rest.2) text (rw (==_refl c.cur_ptr) refl) k i,
        rest.1 ∙ omega arith,
        λ a off.
            rest.2 a (λ k i e. off (suc k) (omega arith) (omega arith))
            ∙ other a (λ e. off 0 (omega arith) (omega arith)),
        rest.3,
      )
  where
    off_text :
        (str + suc size ≤ c.cur_ptr) ⊎ (c.cur_ptr + 2 * suc size ≤ str)
        → (a : ℕ) → str < a
        → a < str + suc size
        → a ≢ c.cur_ptr
    off_text (inl x) a lo hi = omega arith
    off_text (inr x) a lo hi = omega arith

    next_apart :
        (str + suc size ≤ c.cur_ptr) ⊎ (c.cur_ptr + 2 * suc size ≤ str)
        → (str + 1 + size ≤ c.cur_ptr + 2) ⊎ (c.cur_ptr + 2 + 2 * size ≤ str + 1)
    next_apart (inl x) = inl (omega arith)
    next_apart (inr x) = inr (omega arith)

    cells :
        (d : Console)
        → ((k : ℕ)
            → k < size
            → (console_write size (str + 1) d).mem (c.cur_ptr + 2 + 2 * k) ≡ d.mem (str + 1 + k))
        → ((a : ℕ)
            → ((k : ℕ) → k < size → a ≢ c.cur_ptr + 2 + 2 * k)
            → (console_write size (str + 1) d).mem a ≡ d.mem a)
        → ((a : ℕ) → str < a → a < str + suc size → d.mem a ≡ c.mem a)
        → d.mem c.cur_ptr ≡ c.mem str
        → (k : ℕ) → k < suc size
        → (console_write size (str + 1) d).mem (c.cur_ptr + 2 * k) ≡ c.mem (str + k)
    cells d now same text new zero i =
        ap (console_write size (str + 1) d).mem (omega arith)
        ∙ same c.cur_ptr (λ k h e. omega arith)
        ∙ new
        ∙ ap c.mem (omega arith)
    cells d now same text new (suc k) i =
        ap (console_write size (str + 1) d).mem (omega arith)
        ∙ now k (omega arith)
        ∙ text (str + 1 + k) (omega arith) (omega arith)
        ∙ ap c.mem (omega arith)
