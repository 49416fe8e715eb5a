-- ===== src/Console/Bounds.antt =====
-- Where `console_write` of kernel/console.c writes.
use kanaos.Prelude.{
  ℕ, zero, suc, ◌+◌, ◌-◌, ◌*◌, ◌/◌, ◌%◌, ◌^◌, ◌<◌, ◌≤◌, ◌≡◌, ◌⊎◌, inl, inr, refl, ◌∙◌, arith,
  update, if◌then◌else◌, ==_of_ne, ltb, ltb→lt, ◌==◌, Bool-cases,
}
use kanaos.Console.{
  Console, set_cur, scroll_line, write_char, console_write, mem_base, mem_end, row_size,
}
use kanaos.Console.Scroll.{scroll_line-below, scroll_line-before}

-- The cursor stands in the text memory, or right behind it.
abbrev pub InScreen : Console → Type 0
InScreen c = (mem_base ≤ c.cur_ptr) × (c.cur_ptr ≤ mem_end)

-- Bytes outside the text memory and the 96 behind it are as before.
abbrev pub KeepsOutside : Console → Console → Type 0
KeepsOutside c d = (a : ℕ) → (a < mem_base) ⊎ (mem_end + 96 ≤ a) → d.mem a ≡ c.mem a

-- What a character does before the test for the end of the memory.
abbrev Advanced : Console → Console → Type 0
Advanced c d = (mem_base ≤ d.cur_ptr) × (d.cur_ptr ≤ mem_end + 96) × KeepsOutside c d

scrolled-InScreen :
    (c d : Console)
    → Advanced c d
    → mem_end < d.cur_ptr
    → InScreen (scroll_line d) × KeepsOutside c (scroll_line d)
scrolled-InScreen c d (low, high, keeps) over =
    let s = scroll_line-below d (omega arith) (omega arith) in
    ((omega (arith, s.0), omega (arith, s.0)), λ a out. outside a out ∙ keeps a out)
  where
    outside : (a : ℕ) → (a < mem_base) ⊎ (mem_end + 96 ≤ a) → (scroll_line d).mem a ≡ d.mem a
    outside a (inl h) = scroll_line-before d a h
    outside a (inr h) = (scroll_line-below d (omega arith) (omega arith)).3 a (omega arith)

newline-Advanced :
    (c : Console)
    → InScreen c
    → Advanced c (
        set_cur (record c {
          cur_ptr =
              (mem_base + row_size * ((c.cur_ptr + 2 ^ 32 - mem_base) % 2 ^ 32 / row_size + 1))
              % 2 ^ 32;
        }))
unfolding set_cur
newline-Advanced c (low, high) = (omega arith, omega arith, λ a out. refl)

char-Advanced :
    (c : Console) (ch : ℕ)
    → InScreen c
    → Advanced c (record c { mem = update c.mem c.cur_ptr ch; cur_ptr = (c.cur_ptr + 2) % 2 ^ 32 })
char-Advanced c ch (low, high) = (omega arith, omega arith, λ a out. other a out)
  where
    other : (a : ℕ) → (a < mem_base) ⊎ (mem_end + 96 ≤ a) → update c.mem c.cur_ptr ch a ≡ c.mem a
    other a (inl h) = rw (==_of_ne a c.cur_ptr (omega arith)) refl
    other a (inr h) = rw (==_of_ne a c.cur_ptr (omega arith)) refl

-- Behind the test for the end of the memory the cursor is back in it.
write_char-InScreen :
    (c : Console) (ch : ℕ)
    → InScreen c
    → InScreen (write_char c ch) × KeepsOutside c (write_char c ch)
unfolding write_char
write_char-InScreen c ch is = elim (Bool-cases (ch == b'\n')) [
  | inl e ↦ rw e (ends c _ (newline-Advanced c is))
  | inr e ↦ rw e (ends c _ (char-Advanced c ch is))
]
  where
    ends :
        (c d : Console)
        → Advanced c d
        → InScreen (if ltb mem_end d.cur_ptr then scroll_line d else d)
          × KeepsOutside c (if ltb mem_end d.cur_ptr then scroll_line d else d)
    ends c d adv = elim (Bool-cases (ltb mem_end d.cur_ptr)) [
      | inl e ↦ rw e (scrolled-InScreen c d adv (ltb→lt mem_end d.cur_ptr e))
      | inr e ↦ rw e ((adv.0, ground arith), adv.2)
    ]

-- From a cursor in the text memory or right behind it `console_write` leaves the cursor there again,
-- and changes no byte before the text memory, and none from the 96th behind it on.
pub console_write-InScreen :
    (size str : ℕ) (c : Console)
    → InScreen c
    → InScreen (console_write size str c) × KeepsOutside c (console_write size str c)
unfolding console_write
console_write-InScreen zero str c is = (is, λ a out. refl)
console_write-InScreen (suc size) str c is =
    let one = write_char-InScreen c (c.mem str) is in
    let rest = console_write-InScreen size (str + 1) (write_char c (c.mem str)) (one.0) in
    (rest.0, λ a out. rest.1 a out ∙ one.1 a out)
