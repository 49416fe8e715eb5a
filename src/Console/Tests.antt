-- ===== src/Console/Tests.antt =====
-- A screen, and what is written on it.
use kanaos.Prelude.{ℕ, ◌+◌, ◌-◌, ◌*◌, ◌<◌, ◌≤◌, ◌≡◌, inl, refl, [], arith, if◌then◌else◌, ◌==◌}
use kanaos.Console.{
  Console, console_write, write_char, scroll_line, set_cur, mem_base, mem_end, row_size,
}
use kanaos.Console.Scroll.{scroll_line-below}
use kanaos.Console.Bounds.{InScreen, KeepsOutside, console_write-InScreen}
use kanaos.Console.Text.{Typed, console_write-Typed}

-- "ok\n" at 100, and an empty screen.
abbrev screen : Console
screen = record {
  mem = λ a.
      if a == 100 then b'o' else (if a == 101 then b'k' else (if a == 102 then b'\n' else b' '));
  cur_ptr = mem_base + 320;
  ports = [];
}

console_write-Typed_example : Typed 2 100 screen (console_write 2 100 screen)
console_write-Typed_example =
    console_write-Typed 2 100 screen (omega arith, (omega arith, tt)) (omega arith)
      (inl (omega arith))

console_write-InScreen_example :
    InScreen (console_write 3 100 screen) × KeepsOutside screen (console_write 3 100 screen)
console_write-InScreen_example = console_write-InScreen 3 100 screen (omega arith, omega arith)

scroll_line-below_run :
    ((scroll_line screen).cur_ptr + row_size ≡ screen.cur_ptr)
    × ((k : ℕ)
        → mem_base + 2 * k < screen.cur_ptr
        → (scroll_line screen).mem (mem_base + 2 * k) ≡ screen.mem (mem_base + 2 * k + row_size))
    × ((k : ℕ)
        → (scroll_line screen).mem (mem_base + 2 * k + 1) ≡ screen.mem (mem_base + 2 * k + 1))
    × ((a : ℕ) → screen.cur_ptr ≤ a → (scroll_line screen).mem a ≡ screen.mem a)
scroll_line-below_run = scroll_line-below screen (omega arith) (omega arith)

-- With the cursor right behind the text memory a character goes there.
past_the_end :
    (write_char (record screen { cur_ptr = mem_end }) b'x').cur_ptr ≡ mem_end + 2 - row_size
unfolding write_char scroll_line set_cur
past_the_end = refl
